-- ===== src/Relay/Forward.antt =====
-- `forward_out` of src/relay.rs: a queue of the console's packets to an OUT endpoint of DriveHub.
use rp_wheel_bridge.Base.{ℕ, List, [], ◌∷◌, Bool, false, if◌then◌else◌, Result, ok, err}
use rp_wheel_bridge.Platform.Usb.{PipeError}
use rp_wheel_bridge.Device.Packet
use rp_wheel_bridge.Device.Packet.{Packet}
use rp_wheel_bridge.Device.Streams.{count}
use rp_wheel_bridge.Proxy.Ffb.{Stream}

-- The counter of the packets written, and whether the loop still runs.
pub record Forward : Type 0 where
  pub written : ℕ
  pub running : Bool

unfoldable pub on_written : Result (Unit {0}) PipeError → Forward → Forward
on_written (ok u) s = record s { written = count s.written }
on_written (err e) s = record s { running = false }

module _ (stream : Stream) where
  open stream use {World, request_out}

  unfoldable pub forward_out : List Packet → Forward × World → Forward × World
  unfolding on_written
  forward_out [] m = m
  forward_out (p ∷ ps) (s, w) =
      let (r, w') = request_out (Packet.bytes p) w in
      let rest = forward_out ps (on_written r s, w') in if s.running then rest else (s, w)

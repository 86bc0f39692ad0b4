-- ===== src/Relay/Ep0.antt =====
-- `serve_ep0` of src/relay.rs: DriveHub's EP0, which takes the console's class requests and the
-- authentication in turns; and what `run` does about the authentication before it.
use rp_wheel_bridge.Base.{ℕ, List, [], ◌∷◌, if◌then◌else◌}
use rp_wheel_bridge.Platform.Channel.{Channels}
use rp_wheel_bridge.Device.Control.{ControlOut}
use rp_wheel_bridge.Device.Streams.{count}
use rp_wheel_bridge.Proxy.Repeat.{repeat_control}
use rp_wheel_bridge.Auth.Signer.{Signing, Nonces, try_signer}
use rp_wheel_bridge.Auth.Handle.{serve_round}

module _ {ch : Channels} (env : Signing ch) (fuel : ℕ) where
  open env use {host, World}

  -- What the loop waits for: a request to repeat, or a command of the authentication, which is in the
  -- queue `CMD`.
  pub data Ready : Type 0 where
    control_out : ControlOut ch → Ready
    auth_cmd : Ready

  -- The statics of this side, with `HIDPP_WRITTEN`.
  pub record Backend : Type 0 where
    pub nonces : Nonces
    pub hidpp_written : ℕ

  unfoldable pub on_ready : Ready → Backend × World → Backend × World
  on_ready (control_out msg) (s, w) =
      let (hidpp, w) = repeat_control host msg w in
      (if hidpp then record s { hidpp_written = count s.hidpp_written } else s, w)
  on_ready auth_cmd (s, w) =
      let (nonces, w) = serve_round env 0 fuel s.nonces w in (record s { nonces = nonces }, w)

  unfoldable pub serve_ep0 : List Ready → Backend × World → Backend × World
  unfolding on_ready
  serve_ep0 [] m = m
  serve_ep0 (r ∷ rs) m = serve_ep0 rs (on_ready r m)

  -- DriveHub is tried as the signer first; the relay goes on either way.
  unfoldable pub run_ep0 : List Ready → Backend × World → Backend × World
  unfolding serve_ep0
  run_ep0 rs (s, w) = serve_ep0 rs (s, (try_signer env 0 w).1)

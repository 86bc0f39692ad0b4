-- ===== src/Relay/Examples.antt =====
-- Tests and concrete instances for the relay: a DriveHub that takes two packets and is then gone.
use native.Mathlib.Nat.{le_refl, le-add_right}
use rp_wheel_bridge.Base.{
  ℕ, ◌+◌, ◌≡◌, refl, List, [], ◌∷◌, Option, none, some, Bool, true, false, ok, err, length, ltb,
  arith, if◌then◌else◌,
}
use rp_wheel_bridge.Hub.Reset.{is_ok}
use rp_wheel_bridge.Platform.Usb.{disconnected}
use rp_wheel_bridge.Device.Packet
use rp_wheel_bridge.Device.Packet.{Packet}
use rp_wheel_bridge.Proxy.Ffb.{Stream}
use rp_wheel_bridge.Platform.Channel.{fifo}
use rp_wheel_bridge.Hid.Finder.{HidInterface, Endpoint}
use rp_wheel_bridge.Device.Link.{Queues}
use rp_wheel_bridge.Proxy.Layout.{layout, relay_layout, find}
use rp_wheel_bridge.Relay.Run.{Run, run, ready_of}
use rp_wheel_bridge.Relay.Forward.{Forward, forward_out, on_written}
use rp_wheel_bridge.Relay.Downstream
use rp_wheel_bridge.Device.Streams.{if0_output, push}

record Hub : Type 0 where
  time : ℕ
  taken : List (List ℕ × Bool)
  calls : List (ℕ × Bool)

taken_lem :
    (room : Bool) (b : List ℕ) (before : List (List ℕ × Bool))
    → (b, room) ∷ before
      ≡ (b, is_ok {A = Unit {0}} (if room then ok (record {}) else err disconnected)) ∷ before
taken_lem true b before = refl
taken_lem false b before = refl

abbrev leaving : Stream
leaving = record {
  World = Hub;
  now = λ w. w.time;
  request_out = λ b w. (
    if ltb (length w.taken) 2 then ok (record {}) else err disconnected,
    record w { time = w.time + 1; taken = (b, ltb (length w.taken) 2) ∷ w.taken },
  );
  wheel_link = λ up w. record w { calls = (w.time, up) ∷ w.calls };
  clear_halt = λ ep w. (some true, w);
  reset_data_toggle = λ w. w;
  transfers = λ w. w.taken;
  links = λ w. w.calls;
  out_time = λ b w. le-add_right w.time 1;
  link_time = λ up w. le_refl w.time;
  clear_time = λ ep w. le_refl w.time;
  reset_time = λ w. le_refl w.time;
  transfers-out = λ b w. taken_lem (ltb (length w.taken) 2) b w.taken;
  transfers-link = λ up w. refl;
  transfers-clear = λ ep w. refl;
  transfers-reset = λ w. refl;
  links-out = λ b w. refl;
  links-link = λ up w. refl;
  links-clear = λ ep w. refl;
  links-reset = λ w. refl;
}

abbrev four : List Packet
four = Packet.new (1 ∷ []) ∷ Packet.new (2 ∷ []) ∷ Packet.new (3 ∷ []) ∷ Packet.new (4 ∷ []) ∷ []

abbrev at_start : Forward × Hub
at_start = (record { written = 0; running = true }, record { time = 0; taken = []; calls = [] })

four_taken :
    (forward_out leaving four at_start).1.taken
    ≡ (3 ∷ [], false) ∷ (2 ∷ [], true) ∷ (1 ∷ [], true) ∷ []
unfolding forward_out on_written Packet.new Packet.bytes
four_taken = refl

abbrev endpoint : Endpoint
endpoint = record { address = 0x81; is_in = true; is_interrupt = true }

abbrev iface : ℕ → Option HidInterface
iface n =
    some
      (record { number = n; report_desc_len = 30; in_ep = some endpoint; out_ep = some endpoint })

-- A device without IF2, and DriveHub.
abbrev runs : List Run
runs =
    record { ifaces = iface 0 ∷ iface 1 ∷ none ∷ none ∷ []; opens = true; asked = 50 }
    ∷ record { ifaces = iface 0 ∷ iface 1 ∷ iface 2 ∷ none ∷ []; opens = true; asked = 900 }
    ∷ []

abbrev queues : Queues fifo
queues = record {
  input_in = [];
  hidpp_in = [];
  control_out = [];
  ffb_in = [];
  ffb_out = [];
  if0_out = [];
}

-- It is the second device that the console sees.
runs_ready : ready_of runs ≡ some 900
unfolding ready_of run relay_layout layout find
runs_ready = refl

-- The console writes a report and the same one again; one is taken in between.
abbrev turns : List Downstream.Turn
turns =
    Downstream.writes (5 ∷ 1 ∷ [])
    ∷ Downstream.takes
    ∷ Downstream.writes (5 ∷ 1 ∷ [])
    ∷ Downstream.takes
    ∷ Downstream.takes
    ∷ []

abbrev quiet : Downstream.Route fifo leaving
quiet = record {
  if0 = record { last = Packet.new []; repeats = 0; sink = record { queue = []; dropped = 0 } };
  forward = at_start.0;
  world = at_start.1;
}

both_taken :
    (Downstream.take_turns fifo leaving turns quiet).world.taken
    ≡ (5 ∷ 1 ∷ [], true) ∷ (5 ∷ 1 ∷ [], true) ∷ []
unfolding Downstream.take_turns Downstream.take_turn Downstream.take_packet if0_output push
    on_written Packet.new Packet.bytes
both_taken = refl

console_to_drivehub_example :
    Downstream.IsRelayed
      (at_start.1)
      (Downstream.packets turns)
      (Downstream.take_turns fifo leaving turns quiet)
console_to_drivehub_example = Downstream.console_to_drivehub turns quiet (omega arith) refl refl

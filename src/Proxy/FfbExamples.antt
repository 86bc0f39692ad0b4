-- ===== src/Proxy/FfbExamples.antt =====
-- Tests and concrete instances for the force feedback: a wheel whose endpoint stalls on every write.
use native.Mathlib.Nat.{le_refl, le-add_right}
use mathlib.Core.List.{reverse}
use rp_wheel_bridge.Base.{
  ℕ, ◌+◌, ◌≡◌, refl, List, [], ◌∷◌, some, Bool, true, false, ok, err, length, arith,
}
use rp_wheel_bridge.Platform.Channel.{fifo}
use rp_wheel_bridge.Platform.Usb.{stall}
use rp_wheel_bridge.Device.Packet
use rp_wheel_bridge.Device.Packet.{Packet}
use rp_wheel_bridge.Device.Profile.{wheel}
use rp_wheel_bridge.Device.Streams
use rp_wheel_bridge.Device.Streams.{push}
use rp_wheel_bridge.Device.Link.{Queues, connected, follow_all, level}
use rp_wheel_bridge.Proxy.Ffb.{
  Stream, started, forward_ffbs, forward_ffb_out, on_result, on_error, recover_ffb, after_clear,
  padded, carries_trueforce,
}
use rp_wheel_bridge.Proxy.Recovery.{IsPaced, forward_ffbs-follow_all}
use rp_wheel_bridge.Proxy.FfbPath.{
  Route, Turn, writes, takes, clears, clearings, take_turn, take_packet, clear_queue, take_turns,
  packets, IsForwarded, console_to_wheel,
}

record Pipe : Type 0 where
  time : ℕ
  reports : List (List ℕ × Bool)
  calls : List (ℕ × Bool)

abbrev stalling : Stream
stalling = record {
  World = Pipe;
  now = λ w. w.time;
  request_out =
      λ b w. (err stall, record w { time = w.time + 3000; reports = (b, false) ∷ w.reports });
  wheel_link = λ up w. record w { calls = (w.time, up) ∷ w.calls };
  clear_halt = λ ep w. (some true, record w { time = w.time + 10 });
  reset_data_toggle = λ w. w;
  transfers = λ w. w.reports;
  links = λ w. w.calls;
  out_time = λ b w. le-add_right w.time 3000;
  link_time = λ up w. le_refl w.time;
  clear_time = λ ep w. le-add_right w.time 10;
  reset_time = λ w. le_refl w.time;
  transfers-out = λ b w. refl;
  transfers-link = λ up w. refl;
  transfers-clear = λ ep w. refl;
  transfers-reset = λ w. refl;
  links-out = λ b w. refl;
  links-link = λ up w. refl;
  links-clear = λ ep w. refl;
  links-reset = λ w. refl;
}

abbrev at_start : Pipe
at_start = record { time = 0; reports = []; calls = [] }

-- A force packet, as it comes from the console.
abbrev force : Packet
force = Packet.new (0x01 ∷ 0x00 ∷ 0x00 ∷ 0x00 ∷ 0x01 ∷ 0x07 ∷ [])

abbrev forces : List Packet
forces = force ∷ force ∷ force ∷ []

-- The first stall recovers; the second comes too early, the third late enough.
forces_calls :
    (forward_ffbs stalling wheel 2 forces (started, at_start)).1.calls
    ≡ (9020, true) ∷ (9010, false) ∷ (3010, true) ∷ (3000, false) ∷ []
unfolding forward_ffbs forward_ffb_out on_result on_error recover_ffb after_clear carries_trueforce
    padded Packet.bytes Packet.new
forces_calls = refl

abbrev queues : Queues fifo
queues = record {
  input_in = [];
  hidpp_in = [];
  control_out = [];
  ffb_in = [];
  ffb_out = [];
  if0_out = [];
}

forward_ffbs-follow_all_example :
    let (s, w) = forward_ffbs stalling wheel 2 forces (started, at_start) in
    IsPaced s.last_recovery w.calls
    × (level (follow_all fifo (reverse w.calls) (connected fifo 0 queues)).pullups ≡ true)
forward_ffbs-follow_all_example =
    forward_ffbs-follow_all stalling fifo wheel 2 forces at_start 0 queues refl

-- A wheel that takes every report.
abbrev willing : Stream
willing = record stalling {
  request_out =
      λ b w. (ok (record {}), record w { time = w.time + 1; reports = (b, true) ∷ w.reports });
  out_time = λ b w. le-add_right w.time 1;
  transfers-out = λ b w. refl;
  links-out = λ b w. refl;
}

-- Reports of the console of which the first is taken, the second cleared, and the third taken
-- after that.
abbrev route : Route fifo willing wheel 2
route = record {
  sink = record { queue = []; dropped = 0 };
  received = 0;
  forward = started;
  world = at_start;
}

abbrev turns : List Turn
turns =
    writes (0x01 ∷ 0x00 ∷ [])
    ∷ takes
    ∷ takes
    ∷ writes (0x02 ∷ [])
    ∷ clears
    ∷ writes (0x03 ∷ [])
    ∷ takes
    ∷ []

console_to_wheel_example :
    IsForwarded at_start
      (packets turns)
      (clearings wheel turns)
      (take_turns fifo willing wheel 2 turns route)
console_to_wheel_example = console_to_wheel turns route (omega arith) refl refl

reports_taken : length (take_turns fifo willing wheel 2 turns route).world.reports ≡ 2
unfolding take_turns take_turn take_packet clear_queue Streams.forward_ffb_out push forward_ffb_out
    on_result carries_trueforce padded Packet.bytes Packet.new
reports_taken = refl

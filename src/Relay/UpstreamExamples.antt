-- ===== src/Relay/UpstreamExamples.antt =====
-- Tests and a concrete instance for DriveHub's packets on their way to the console.
use rp_wheel_bridge.Base.{◌≡◌, refl, List, [], ◌∷◌, none, true, false, ok, err, arith}
use rp_wheel_bridge.Platform.Channel.{fifo}
use rp_wheel_bridge.Platform.Usb.{stall, disconnected}
use rp_wheel_bridge.Device.Packet
use rp_wheel_bridge.Device.Streams.{packet, push, write_of}
use rp_wheel_bridge.Device.Delivery.{fetches, ends, step, fetch, end_write, clear_queue}
use rp_wheel_bridge.Device.Link.{hidpp_in_queue_len}
use rp_wheel_bridge.Device.Profile.{relay}
use rp_wheel_bridge.Proxy.InPath.{
  Turn, reads, steps, Route, take_turns, take_turn, read_packet, read_from, failures,
}
use rp_wheel_bridge.Relay.Upstream.{hidpp, on_packet, fresh, IsRelayed, drivehub_to_console}

abbrev quiet : Route fifo hidpp_in_queue_len relay (on_packet hidpp)
quiet = record {
  line = record {
    sink = record { queue = []; dropped = 0 };
    in_flight = none;
    writes = [];
    sent = 0;
  };
  state = fresh;
  running = true;
}

-- Two packets, the second one empty, with a transfer that fails between them; the first is written; a
-- third, whose write fails; and a detach after which nothing is read.
abbrev turns : List Turn
turns =
    steps fetches
    ∷ reads 1 (ok (0x11 ∷ 0xff ∷ []))
    ∷ reads 2 (err stall)
    ∷ steps fetches
    ∷ reads 3 (ok [])
    ∷ reads 4 (ok (7 ∷ []))
    ∷ steps (ends true)
    ∷ steps fetches
    ∷ steps (ends true)
    ∷ reads 5 (err disconnected)
    ∷ reads 6 (ok (9 ∷ []))
    ∷ steps fetches
    ∷ steps (ends false)
    ∷ steps fetches
    ∷ []

written_as_read :
    (take_turns fifo hidpp_in_queue_len relay (on_packet hidpp) turns quiet).line.writes
    ≡ packet (0x11 ∷ 0xff ∷ []) ∷ packet [] ∷ []
unfolding take_turns take_turn read_packet on_packet step fetch end_write clear_queue push write_of
    Packet.new Packet.bytes
written_as_read = refl

counted_twice :
    (take_turns fifo hidpp_in_queue_len relay (on_packet hidpp) turns quiet).line.sent ≡ 2
unfolding take_turns take_turn read_packet on_packet step fetch end_write clear_queue push write_of
    Packet.new Packet.bytes
counted_twice = refl

drivehub_to_console_example :
    IsRelayed hidpp
      (read_from turns)
      (failures turns)
      (take_turns fifo hidpp_in_queue_len relay (on_packet hidpp) turns quiet)
drivehub_to_console_example =
    drivehub_to_console hidpp turns quiet (omega arith) refl (refl, refl, refl, refl, refl) refl

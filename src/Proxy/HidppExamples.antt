-- ===== src/Proxy/HidppExamples.antt =====
-- Tests and concrete instances for the wheel's HID++ messages on their way to the console.
use rp_wheel_bridge.Base.{◌≡◌, refl, List, [], ◌∷◌, none, true, false}
use rp_wheel_bridge.Platform.Channel.{fifo}
use rp_wheel_bridge.Device.Packet
use rp_wheel_bridge.Device.Packet.{Packet}
use rp_wheel_bridge.Device.Profile.{wheel}
use rp_wheel_bridge.Device.Streams.{transfer, push, write_of}
use rp_wheel_bridge.Device.Delivery.{fetches, ends, clears, step, fetch, end_write, clear_queue}
use rp_wheel_bridge.Proxy.Hidpp.{on_hidpp, swid, answer_of}
use rp_wheel_bridge.Proxy.HidppPath.{Turn, comes, steps, Upstream, take_turns, take_turn}

-- An answer to a request of the console (software ID 1), and one to the bridge's own (0xb).
abbrev answer : Packet
answer = Packet.new (0x11 ∷ 0xff ∷ 0x05 ∷ 0x21 ∷ 0x01 ∷ [])

abbrev own_answer : Packet
own_answer = Packet.new (0x11 ∷ 0xff ∷ 0x00 ∷ 0x1b ∷ 0x04 ∷ [])

abbrev quiet : Upstream fifo wheel
quiet = record {
  messages = record {
    wheel_hidpp = 0;
    wheel_answered = false;
    bridge_answer = none;
    upstream = record { queue = []; dropped = 0 };
  };
  in_flight = none;
  writes = [];
  hidpp_sent = 0;
}

-- The first message comes while the bridge wakes the wheel; one is written, one given up after its write
-- fails, and one cleared from the queue.
abbrev turns : List Turn
turns =
    comes true answer
    ∷ comes false own_answer
    ∷ comes false answer
    ∷ comes false answer
    ∷ steps fetches
    ∷ steps (ends true)
    ∷ steps fetches
    ∷ comes false answer
    ∷ steps clears
    ∷ steps (ends false)
    ∷ steps fetches
    ∷ []

written_once :
    (take_turns fifo wheel turns quiet).writes
    ≡ transfer (0x11 ∷ 0xff ∷ 0x05 ∷ 0x21 ∷ 0x01 ∷ []) true ∷ []
unfolding take_turns take_turn on_hidpp swid answer_of push step fetch end_write clear_queue
    write_of Packet.new Packet.bytes
written_once = refl

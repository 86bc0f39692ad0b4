-- ===== src/Proxy/InputExamples.antt =====
-- Tests and a concrete instance for the wheel's input on its way to the console.
use rp_wheel_bridge.Base.{
  ◌≡◌, refl, List, none, [], ◌∷◌, true, false, replicate, ok, err, IsByte, All-replicate, arith,
}
use rp_wheel_bridge.Platform.Channel.{fifo}
use rp_wheel_bridge.Platform.Usb.{stall, disconnected}
use rp_wheel_bridge.Device.Streams.{Sink, packet}
use rp_wheel_bridge.Device.Link.{queue_len}
use rp_wheel_bridge.InputMap.{neutral, translate}
use rp_wheel_bridge.Proxy.Input.{forward_input}
use rp_wheel_bridge.Proxy.InputPath.{
  Turn, reads, samples, ends, sample_input, end_input, take_turns, take_turn, read_input, idle,
  given, HasShown, input_to_console,
}

abbrev upstream : Sink fifo queue_len
upstream = record { queue = []; dropped = 0 }

-- A write begun before the first report and ended after it, one after a transfer that fails, one that
-- fails after a short report, and one after a report that comes too late.
abbrev turns : List Turn
turns =
    samples
    ∷ reads (ok (replicate 30 1))
    ∷ ends true
    ∷ reads (err stall)
    ∷ samples
    ∷ ends true
    ∷ reads (ok (3 ∷ []))
    ∷ samples
    ∷ ends false
    ∷ reads (err disconnected)
    ∷ reads (ok (replicate 30 0x88))
    ∷ samples
    ∷ ends true
    ∷ []

input_sent_thrice : (take_turns fifo turns (idle fifo upstream)).input_sent ≡ 3
unfolding take_turns take_turn read_input forward_input sample_input end_input
input_sent_thrice = refl

written_in_order :
    (take_turns fifo turns (idle fifo upstream)).writes
    ≡ packet neutral
      ∷ packet (translate (replicate 30 1))
      ∷ packet (translate (replicate 30 1))
      ∷ []
unfolding take_turns take_turn read_input forward_input sample_input end_input
written_in_order = refl

input_to_console_example :
    HasShown (given [] none turns) (idle fifo upstream) (take_turns fifo turns (idle fifo upstream))
input_to_console_example = input_to_console turns upstream (
  record {},
  (
    All-replicate IsByte 30 1 (omega arith),
    (
      record {},
      (
        record {},
        (
          record {},
          (
            record {},
            (
              (omega arith, record {}),
              (
                record {},
                (
                  record {},
                  (
                    record {},
                    (
                      All-replicate IsByte 30 0x88 (omega arith),
                      (record {}, (record {}, record {})),
                    ),
                  ),
                ),
              ),
            ),
          ),
        ),
      ),
    ),
  ),
)

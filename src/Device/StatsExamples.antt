-- ===== src/Device/StatsExamples.antt =====
-- Tests and a concrete instance for the counters.
use rp_wheel_bridge.Base.{◌≡◌, ◌≤◌, refl, List, [], ◌∷◌, u32}
use rp_wheel_bridge.Device.Stats.{
  Turn, counts, steps, take_turns, take_turn, log_stats, count_up, reset, cleared, proxy_line,
  wheel_input, input_sent, wheel_hidpp,
}
use rp_wheel_bridge.Device.Accounted.{account, counted, IsInForm, take_turns-counted}

-- Two reports come before the counter is taken, one after; and a poll while the line is put together.
abbrev turns : List Turn
turns =
    counts wheel_input
    ∷ counts wheel_input
    ∷ steps
    ∷ counts wheel_input
    ∷ counts input_sent
    ∷ steps
    ∷ steps
    ∷ []

line_so_far :
    (take_turns proxy_line turns (cleared proxy_line)).line
    ≡ (wheel_input, 2) ∷ (input_sent, 1) ∷ (wheel_hidpp, 0) ∷ []
unfolding take_turns take_turn log_stats count_up reset
line_so_far = refl

still_waits : (take_turns proxy_line turns (cleared proxy_line)).values wheel_input ≡ 1
unfolding take_turns take_turn log_stats count_up reset
still_waits = refl

take_turns-counted_example :
    let s = take_turns proxy_line turns (cleared proxy_line) in
    (u32 (account wheel_input s) ≡ u32 (counted wheel_input turns))
    × (account wheel_input s ≤ counted wheel_input turns)
    × IsInForm proxy_line s
take_turns-counted_example = take_turns-counted proxy_line turns wheel_input

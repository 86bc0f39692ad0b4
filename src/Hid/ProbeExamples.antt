-- ===== src/Hid/ProbeExamples.antt =====
-- Tests and concrete instances for probing and monitoring a device: one whose report descriptor has
-- two feature reports, of which one is of the authentication.
use native.Mathlib.Nat.{le_refl, le-add_right}
use rp_wheel_bridge.Base.{
  ℕ, ◌+◌, ◌≡◌, refl, List, [], ◌∷◌, Option, none, some, Bool, true, ok, copy_at, length,
  length-copy_at, All-copy_at, IsByte, AllBytes, min, ltb, ◌&&◌, beq_bytes, arith,
}
use rp_wheel_bridge.Platform.Usb.{
  Host, Setup, class_interface_in, class_interface_out, hid_report_descriptor,
}
use rp_wheel_bridge.Hid.Finder.{HidInterface}
use rp_wheel_bridge.Hid.Descriptor.{log_report_summary, scan, add_report, grow, fill, value_of}
use rp_wheel_bridge.Hid.Probe.{
  Asked, probe, probe_all, probe_interface, on_descriptor, read_feature_reports, read_features,
}
use rp_wheel_bridge.Hid.Reads.{AsksHarmless, probe-AsksHarmless}
use rp_wheel_bridge.Hid.Monitor.{
  Polled, report, failed, timeout, watch, monitor_interface, on_report, log_change, log_rate,
}
use rp_wheel_bridge.Hid.Gaps
use rp_wheel_bridge.Hid.Gaps.{tick_all, tick, gap}

record Bench : Type 0 where
  time : ℕ
  setups : List Setup

-- Report 0x05: 8 bytes on usage page 1. Report 0xf1: 64 bytes on the authentication's page.
abbrev desc : List ℕ
desc =
    0x05 ∷ 0x01 ∷ 0x85 ∷ 0x05 ∷ 0x75 ∷ 0x08 ∷ 0x95 ∷ 0x08 ∷ 0xb1 ∷ 0x02 ∷ 0x06 ∷ 0xf0 ∷ 0xff ∷ 0x85
    ∷ 0xf1 ∷ 0x95 ∷ 0x40 ∷ 0xb1 ∷ 0x02 ∷ []

abbrev are_bytes : List ℕ → Bool
are_bytes [] = true
are_bytes (b ∷ bs) = ltb b 256 && are_bytes bs

are_bytes-AllBytes : (bs : List ℕ) → are_bytes bs ≡ true → AllBytes bs
are_bytes-AllBytes [] h = tt
are_bytes-AllBytes (b ∷ bs) h = (ground arith, are_bytes-AllBytes bs (ground arith))

abbrev bench_host : Host
bench_host = record {
  World = Bench;
  now = λ w. w.time;
  control_in = λ s buf w. record {
    result = ok (min (length buf) 19);
    buf = copy_at buf 0 desc;
    world = record { time = w.time + 1; setups = s ∷ w.setups };
  };
  control_out = λ s buf w. (ok tt, record { time = w.time + 1; setups = s ∷ w.setups });
  after = λ d w. record w { time = w.time + d };
  in_time = λ s buf w. le-add_right w.time 1;
  out_time = λ s buf w. le-add_right w.time 1;
  after_time = λ d w. le_refl (w.time + d);
  in_length = λ s buf w. length-copy_at buf 0 desc;
  in_bytes = λ s buf w h. All-copy_at IsByte buf 0 desc h (are_bytes-AllBytes desc refl);
}

abbrev bench : Asked
bench = record {
  host = bench_host;
  asked = λ w. w.setups;
  asked-in = λ s buf w. refl;
  asked-out = λ s buf w. refl;
  asked-after = λ d w. refl;
}

abbrev pad : List (Option HidInterface)
pad =
    some (record { number = 0; report_desc_len = 19; in_ep = none; out_ep = none })
    ∷ none
    ∷ none
    ∷ none
    ∷ []

abbrev at_first : Bench
at_first = record { time = 0; setups = [] }

-- The report of the authentication is not read.
pad_setups :
    (probe bench_host true pad at_first).setups
    ≡ class_interface_out 0x0a 0 0 0
      ∷ class_interface_in 0x01 0x305 0 9
      ∷ hid_report_descriptor 0 19
      ∷ []
unfolding probe probe_all probe_interface on_descriptor read_feature_reports read_features
    log_report_summary scan add_report grow fill value_of
pad_setups = refl

probe-AsksHarmless_example : AsksHarmless bench at_first (probe bench_host true pad at_first)
probe-AsksHarmless_example = probe-AsksHarmless bench true pad at_first

-- Two reports in 100 ms, the same again, a pause, and an error.
abbrev polls : List (Polled × ℕ)
polls =
    (report (1 ∷ 2 ∷ []), 500)
    ∷ (report (1 ∷ 3 ∷ []), 510)
    ∷ (report (1 ∷ 3 ∷ []), 520)
    ∷ (timeout, 620)
    ∷ (failed, 630)
    ∷ []

polls_logs : (monitor_interface polls (watch 0)).logs ≡ (620, 1 ∷ 3 ∷ []) ∷ (500, 1 ∷ 2 ∷ []) ∷ []
unfolding monitor_interface on_report log_change log_rate beq_bytes
polls_logs = refl

ticks_gaps : (tick_all (5 ∷ 10 ∷ 200 ∷ []) (Gaps.new 100)).gaps ≡ 190 ∷ []
unfolding tick_all tick gap
ticks_gaps = refl

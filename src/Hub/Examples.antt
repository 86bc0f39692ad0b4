-- ===== src/Hub/Examples.antt =====
-- Tests and concrete instances for the hub.
use native.Mathlib.Nat.{le_refl, le-add_right}
use Prim.Native.Nat.{◌+◌}
use rp_wheel_bridge.Base.{
  ℕ, ◌≡◌, ◌≢◌, refl, List, [], ◌∷◌, Option, none, some, ok, copy_at, All, inl, inr, true,
  length-copy_at, IsByte, All-copy_at, arith,
}
use rp_wheel_bridge.Platform.Usb.{Host, Setup, Received}
use rp_wheel_bridge.Hub.Ports.{
  Kind, HubEvent, Hub, start, free_child, on_event, on_events, detect, assign, release,
  device_detected, device_removed,
}
use rp_wheel_bridge.Hub.Assigned.{IsAssigned, on_events-IsAssigned, start-IsAssigned}
use rp_wheel_bridge.Hub.Children.{
  boot, Turn, port_event, child_runs, take_turns, take_turn, run_child, hear,
}
use rp_wheel_bridge.Hub.Addresses.{take_turns-hub}
use rp_wheel_bridge.Hub.Errors.{Errors, no_errors, on_error, on_errors}
use rp_wheel_bridge.Hub.RoundTrip.{IsReady, visit, take_turns-visit}

abbrev device : ℕ → Option (ℕ × Kind)
device n = some (n, Kind.other)

-- Two devices come, the first one goes, and a third one takes its child.
abbrev story : List (HubEvent ℕ)
story =
    device_detected 0 (device 10)
    ∷ device_detected 2 (device 11)
    ∷ device_removed 0
    ∷ device_detected 5 (device 12)
    ∷ []

story_ports :
    (on_events ℕ story (start ℕ)).port_child
    ≡ none ∷ none ∷ some 1 ∷ none ∷ none ∷ some 0 ∷ none ∷ none ∷ []
unfolding on_events on_event detect assign release free_child
story_ports = refl

on_events-IsAssigned_example : IsAssigned (on_events ℕ story (start ℕ))
on_events-IsAssigned_example = on_events-IsAssigned story (start ℕ) start-IsAssigned

-- One device on port 0.
abbrev one : Hub ℕ
one = on_events ℕ (device_detected 0 (device 10) ∷ []) (start ℕ)

one-IsAssigned : IsAssigned one
one-IsAssigned =
    on_events-IsAssigned (device_detected 0 (device 10) ∷ []) (start ℕ) start-IsAssigned

-- A hub that reports every port enabled at once; a transfer takes 1 ms.
abbrev status : Setup → List ℕ → ℕ → Received ℕ
status s buf w = record {
  result = ok 4;
  buf = copy_at buf 0 (0x03 ∷ 0x01 ∷ 0x10 ∷ 0x00 ∷ []);
  world = w + 1;
}

abbrev hub_host : Host
hub_host = record {
  World = ℕ;
  now = λ w. w;
  control_in = status;
  control_out = λ s buf w. (ok tt, w + 1);
  after = λ d w. w + d;
  in_time = λ s buf w. le-add_right w 1;
  out_time = λ s buf w. le-add_right w 1;
  after_time = λ d w. le_refl (w + d);
  in_length = λ s buf w. length-copy_at buf 0 (0x03 ∷ 0x01 ∷ 0x10 ∷ 0x00 ∷ []);
  in_bytes = λ s buf w h.
      All-copy_at IsByte buf 0 (0x03 ∷ 0x01 ∷ 0x10 ∷ 0x00 ∷ []) h
        (omega arith, (omega arith, (omega arith, (omega arith, tt))));
}

abbrev found : ℕ → Option ℕ × ℕ
found w = (some 7, w + 1)

abbrev logged : ℕ → ℕ → ℕ
logged d w = w + 1

-- A hub on port 0 that goes again, between two other devices.
abbrev nested : List (Turn ℕ)
nested =
    port_event (device_detected 1 (device 10))
    ∷ port_event (device_detected 0 (some (7, Kind.hub)))
    ∷ child_runs 0
    ∷ port_event (device_removed 0)
    ∷ port_event (device_removed 1)
    ∷ child_runs 0
    ∷ []

nested_freed : (take_turns ℕ nested (boot ℕ)).freed ≡ 10 ∷ []
unfolding take_turns take_turn run_child hear on_event detect assign release free_child
nested_freed = refl

take_turns-hub_example : All (λ e. e ≢ 7) (take_turns ℕ nested (boot ℕ)).freed
take_turns-hub_example =
    take_turns-hub 7 nested
      (inr (λ e. absurd (omega (arith, e))), (inl refl, (tt, (tt, (tt, (tt, tt))))))

boot-IsReady : IsReady {Device = ℕ} 2 0 (boot ℕ)
unfolding free_child
boot-IsReady = record {
  chosen = refl;
  port_exists = omega arith;
  port_free = refl;
  slot_exists = omega arith;
  slot_empty = refl;
  kid_exists = omega arith;
  kid_waits = refl;
}

take_turns-visit_example :
    take_turns ℕ (visit 2 0 10 Kind.other true) (boot ℕ) ≡ record (boot ℕ) { freed = 10 ∷ [] }
take_turns-visit_example = take_turns-visit 2 0 10 Kind.other true (boot ℕ) boot-IsReady refl

-- Three errors: the first is logged at once, the second is only counted, the third is logged.
three_errors : (on_errors (7000 ∷ 7100 ∷ 12100 ∷ []) no_errors).logs ≡ (12100, 2) ∷ (7000, 1) ∷ []
unfolding on_errors on_error
three_errors = refl

abbrev errors : Errors
errors = on_errors (7000 ∷ 7100 ∷ 12100 ∷ 12200 ∷ []) no_errors

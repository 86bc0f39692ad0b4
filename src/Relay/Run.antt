-- ===== src/Relay/Run.antt =====
-- `run` of src/relay.rs as the device of src/device.rs sees it: when `BACKEND_READY` is signalled.
-- Times are in milliseconds.
use rp_wheel_bridge.Base.{
  ℕ, ◌≡◌, refl, ◌∙◌, List, [], ◌∷◌, Option, none, some, Bool, true, false, ◌&&◌, ◌||◌,
  if◌then◌else◌, is_some, Option-cases, Bool-cases, inl, inr,
}
use rp_wheel_bridge.Platform.Channel.{Channels}
use rp_wheel_bridge.Hid.Finder.{HidInterface}
use rp_wheel_bridge.Device.Profile.{relay}
use rp_wheel_bridge.Device.Link.{Queues}
use rp_wheel_bridge.Device.Task.{task, on_bus, task_lem}
use rp_wheel_bridge.Proxy.Layout.{relay_layout}

-- One run: the interfaces, whether EP0 opens, and the time at which `try_signer` has been asked. What
-- it answers changes nothing here.
pub record Run : Type 0 where
  pub ifaces : List (Option HidInterface)
  pub opens : Bool
  pub asked : ℕ

-- When the run signals `BACKEND_READY`; `none`: it returns before.
unfoldable pub run : Run → Option ℕ
run r = elim (relay_layout r.ifaces) [
  | none ↦ none
  | some l ↦ if r.opens then some r.asked else none
]

-- `Signal`: the first signal is what the device waits for; it is built only once.
unfoldable pub ready_of : List Run → Option ℕ
unfolding run
ready_of [] = none
ready_of (r ∷ rs) = elim (run r) [ none ↦ ready_of rs | some t ↦ some t ]

-- A run gets to its loops.
abbrev pub relays : Run → Bool
relays r = is_some (relay_layout r.ifaces) && r.opens

abbrev pub any_relays : List Run → Bool
any_relays [] = false
any_relays (r ∷ rs) = relays r || any_relays rs

run-relays : (r : Run) → is_some (run r) ≡ relays r
unfolding run
run-relays r = elim (Option-cases (relay_layout r.ifaces)) [
  | inl other ↦ rw (other, run) refl
  | inr (l, found) ↦ elim (Bool-cases r.opens) [
    | inl opens ↦ rw (found, opens, run) refl
    | inr closed ↦ rw (found, closed, run) refl
  ]
]

ready_of-relays : (rs : List Run) → is_some (ready_of rs) ≡ any_relays rs
unfolding ready_of
ready_of-relays [] = refl
ready_of-relays (r ∷ rs) = elim (Option-cases (run r)) [
  | inl returned ↦
      let no : relays r ≡ false = cc (run-relays r, returned) in
      rw (returned, no, ready_of) (ready_of-relays rs)
  | inr (t, signalled) ↦
      let yes_relays : relays r ≡ true = cc (run-relays r, signalled) in
      rw (signalled, yes_relays, ready_of) refl
]

-- In the relay role the console sees a device exactly if some run has found DriveHub's layout and
-- opened its EP0, whatever the link of a wheel is reported to be.
pub task-ready_of :
    (ch : Channels) (rs : List Run) (now : ℕ) (links : List (ℕ × Bool)) (q : Queues ch)
    → on_bus ch (task ch relay (ready_of rs) now links q) ≡ any_relays rs
task-ready_of ch rs now links q =
    (task_lem {ch = ch} relay (ready_of rs) now links q).0 ∙ ready_of-relays rs

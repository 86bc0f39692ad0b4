-- ===== src/Proxy/Run.antt =====
-- `run` of src/proxy.rs as the device of src/device.rs sees it: `BACKEND_READY` and the reports of
-- `wheel_link`, of which the last one comes when `WheelLink` is dropped. Times are in milliseconds.
use rp_wheel_bridge.Base.{
  ℕ, ◌≡◌, refl, ◌∙◌, List, [], ◌∷◌, ◌++◌, Option, none, some, Bool, false, if◌then◌else◌,
  Option-cases, Bool-cases, inl, inr,
}
use rp_wheel_bridge.Platform.Channel.{Channels}
use rp_wheel_bridge.Hid.Finder.{HidInterface}
use rp_wheel_bridge.Device.Profile.{wheel}
use rp_wheel_bridge.Device.Link.{Queues, last_link}
use rp_wheel_bridge.Device.Task.{task, on_bus, task_lem}
use rp_wheel_bridge.Proxy.Layout.{layout}

-- One run: the interfaces, whether EP0 opens, the time at which it gets to its loops, what the loops
-- report to `wheel_link`, and the time at which the run ends or is dropped.
pub record Run : Type 0 where
  pub ifaces : List (Option HidInterface)
  pub opens : Bool
  pub started : ℕ
  pub reports : List (ℕ × Bool)
  pub ended : ℕ

-- What a run does to the device.
pub record Effects : Type 0 where
  pub backend_ready : Option ℕ
  pub links : List (ℕ × Bool)

abbrev pub nothing : Effects
nothing = record { backend_ready = none; links = [] }

-- `let _link = WheelLink; BACKEND_READY.signal(()); join5(..)`, and `drop` of the link at the end.
abbrev pub served : Run → Effects
served r = record { backend_ready = some r.started; links = r.reports ++ (r.ended, false) ∷ [] }

unfoldable pub run : Run → Effects
run r = elim (layout r.ifaces) [ none ↦ nothing | some l ↦ if r.opens then served r else nothing ]

-- The reports of the runs, one after the other.
unfoldable pub links_of : List Run → List (ℕ × Bool)
unfolding run
links_of [] = []
links_of (r ∷ rs) = (run r).links ++ links_of rs

last_link-served :
    (known : Bool) (reports : List (ℕ × Bool)) (t : ℕ) (rest : List (ℕ × Bool))
    → last_link known ((reports ++ (t, false) ∷ []) ++ rest) ≡ last_link false rest
last_link-served known [] t rest = refl
last_link-served known ((u, on) ∷ reports) t rest = last_link-served on reports t rest

-- A run leaves the wheel reported as gone.
last_link-run :
    (r : Run) (rest : List (ℕ × Bool))
    → last_link false ((run r).links ++ rest) ≡ last_link false rest
unfolding run
last_link-run r rest = elim (Option-cases (layout r.ifaces)) [
  | inl other ↦ rw (other, run) refl
  | inr (l, found) ↦ elim (Bool-cases r.opens) [
    | inl opens ↦ rw (found, opens, run) (last_link-served false r.reports r.ended rest)
    | inr closed ↦ rw (found, closed, run) refl
  ]
]

last_link-links_of : (rs : List Run) → last_link false (links_of rs) ≡ false
unfolding links_of
last_link-links_of [] = refl
last_link-links_of (r ∷ rs) = last_link-run r (links_of rs) ∙ last_link-links_of rs

-- Whatever the wheels did that the proxy has served, and however their runs ended: when the device
-- has followed all that was reported, the console sees no device.
pub task-links_of :
    (ch : Channels) (rs : List Run) (ready : Option ℕ) (now : ℕ) (q : Queues ch)
    → on_bus ch (task ch wheel ready now (links_of rs) q) ≡ false
task-links_of ch rs ready now q =
    (task_lem {ch = ch} wheel ready now (links_of rs) q).0 ∙ last_link-links_of rs

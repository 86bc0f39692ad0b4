-- ===== src/Hid/Gaps.antt =====
-- `GapMeter` of src/hid.rs: logs the pauses of a stream of packets. Times are in milliseconds.
use rp_wheel_bridge.Base.{
  ℕ, ◌-◌, ◌≡◌, ◌∙◌, List, [], ◌∷◌, ◌++◌, Option, none, some, leb, if◌then◌else◌, sym,
}
use mathlib.Core.List.{append_assoc, append-nil}

-- The fields, and the gaps logged, in their order.
pub record GapMeter : Type 0 where
  pub min_gap : ℕ
  pub last : Option ℕ
  pub gaps : List ℕ

abbrev pub new : ℕ → GapMeter
new min_gap = record { min_gap = min_gap; last = none; gaps = [] }

-- The gap that a packet at time `now` ends, if it is long enough.
unfoldable pub gap : ℕ → Option ℕ → ℕ → List ℕ
gap min_gap none now = []
gap min_gap (some last) now = if leb min_gap (now - last) then (now - last) ∷ [] else []

unfoldable pub tick : ℕ → GapMeter → GapMeter
unfolding gap
tick now m = record m { last = some now; gaps = m.gaps ++ gap m.min_gap m.last now }

unfoldable pub tick_all : List ℕ → GapMeter → GapMeter
unfolding tick
tick_all [] m = m
tick_all (now ∷ times) m = tick_all times (tick now m)

-- The long pauses between the packets of a list, the first of them after one at time `last`.
unfoldable pub pauses : ℕ → Option ℕ → List ℕ → List ℕ
unfolding gap
pauses min_gap last [] = []
pauses min_gap last (now ∷ times) = gap min_gap last now ++ pauses min_gap (some now) times

tick_all-pauses :
    (times : List ℕ) (m : GapMeter)
    → (tick_all times m).gaps ≡ m.gaps ++ pauses m.min_gap m.last times
unfolding tick_all pauses tick
tick_all-pauses [] m = sym (append-nil m.gaps)
tick_all-pauses (now ∷ times) m =
    tick_all-pauses times (tick now m)
    ∙ append_assoc m.gaps (gap m.min_gap m.last now) (pauses m.min_gap (some now) times)

-- Every pause of at least the given length is logged, with its length, and no other.
pub tick_all-new :
    (min_gap : ℕ) (times : List ℕ) → (tick_all times (new min_gap)).gaps ≡ pauses min_gap none times
tick_all-new min_gap times = tick_all-pauses times (new min_gap)

-- ===== src/Hid/Reports.antt =====
-- What a main item does to the reports of `log_report_summary` (src/hid.rs).
use rp_wheel_bridge.Base.{
  ℕ, suc, ◌+◌, ◌*◌, ◌≡◌, refl, sym, ap, [], ◌∷◌, Option, none, some, Bool, true, false,
  if◌then◌else◌, u32, arith, Bool-cases, inl, inr, ◌⊎◌, is_some,
}
use mathlib.Core.Option
use rp_wheel_bridge.Hid.Descriptor.{ReportKind, ReportSize, Globals, Slots, grow, fill, add_report}
use rp_wheel_bridge.Hid.Keys.{
  is_report, lookup, has_room, IsUnique, is_own, is_own_lem, is_report-own, IsChanged,
  IsChanged-cons, IsChanged-as, IsChanged-same,
}

abbrev pub longer : ℕ → ReportSize → ReportSize
longer bits r = record r { bits = u32 (r.bits + bits) }

abbrev prepend : Option ReportSize → Option Slots → Option Slots
prepend s = Option.map (λ rest. s ∷ rest)

IsChanged-longer :
    (m : ℕ) (j : ReportKind) (bits : ℕ) (r : ReportSize) (rs : Slots)
    → is_report m j r ≡ true
    → IsChanged m j (Option.map (longer bits)) (some r ∷ rs) (some (longer bits r) ∷ rs)
unfolding lookup IsUnique
IsChanged-longer m j bits r rs own = (refl, λ u. u, at)
  where
    at :
        (n : ℕ) (k : ReportKind)
        → lookup n k (some (longer bits r) ∷ rs) ≡ (
            if is_own m j n k
            then Option.map (longer bits) (lookup n k (some r ∷ rs))
            else lookup n k (some r ∷ rs))
    at n k = rw (sym (is_report-own m j r n k own)) (elim (Bool-cases (is_report n k r)) [
      | inl here ↦ rw here refl
      | inr there ↦ rw there refl
    ])

grow_lem :
    (m : ℕ) (j : ReportKind) (bits : ℕ) (rs : Slots)
    → ((grow m j bits rs ≡ none) × (lookup m j rs ≡ none))
      ⊎ ((rs' : Slots) × (grow m j bits rs ≡ some rs')
          × (is_some (lookup m j rs) ≡ true)
          × IsChanged m j (Option.map (longer bits)) rs rs')
unfolding grow lookup IsUnique
grow_lem m j bits [] = inl (refl, refl)
grow_lem m j bits (none ∷ rs) = elim (grow_lem m j bits rs) [
  | inl (left, missing) ↦ inl (ap (prepend none) left, missing)
  | inr (rs', e, known, (len, unique, found)) ↦
      inr (none ∷ rs', ap (prepend none) e, known, (ap suc len, unique, found))
]
grow_lem m j bits (some r ∷ rs) = elim (Bool-cases (is_report m j r)) [
  | inl own ↦
      inr (some (longer bits r) ∷ rs, rw own refl, rw own refl, IsChanged-longer m j bits r rs own)
  | inr other ↦ elim (grow_lem m j bits rs) [
    | inl (left, missing) ↦ inl (rw other (ap (prepend (some r)) left), rw other missing)
    | inr (rs', e, known, changed) ↦ inr (
      some r ∷ rs',
      rw other (ap (prepend (some r)) e),
      rw other known,
      IsChanged-cons m j (Option.map (longer bits)) r rs rs' other changed,
    )
  ]
]

abbrev first : ReportSize → Option ReportSize → Option ReportSize
first r none = some r
first r (some s) = some s

IsChanged-fill_here :
    (r : ReportSize) (rs : Slots)
    → lookup r.id r.kind rs ≡ none
    → IsChanged r.id r.kind (first r) (none ∷ rs) (some r ∷ rs)
unfolding lookup IsUnique
IsChanged-fill_here r rs missing = (refl, λ u. (missing, u), at)
  where
    at :
        (n : ℕ) (k : ReportKind)
        → lookup n k (some r ∷ rs) ≡ (
            if is_own r.id r.kind n k
            then first r (lookup n k (none ∷ rs))
            else lookup n k (none ∷ rs))
    at n k = elim (Bool-cases (is_own r.id r.kind n k)) [
      | inl same ↦
          let (e, i) = is_own_lem r.id r.kind n k same in
          let gone : lookup n k rs ≡ none = rw (sym e, sym i) missing in rw (same, gone) refl
      | inr diff ↦ rw diff refl
    ]

-- What `fill` makes of a table without the report.
fill_lem :
    (r : ReportSize) (rs : Slots)
    → lookup r.id r.kind rs ≡ none
    → ((fill r rs ≡ none) × (has_room rs ≡ false))
      ⊎ ((rs' : Slots) × (fill r rs ≡ some rs')
          × (has_room rs ≡ true)
          × IsChanged r.id r.kind (first r) rs rs')
unfolding fill lookup has_room
fill_lem r [] missing = inl (refl, refl)
fill_lem r (none ∷ rs) missing = inr (some r ∷ rs, refl, refl, IsChanged-fill_here r rs missing)
fill_lem r (some s ∷ rs) missing = elim (Bool-cases (is_report r.id r.kind s)) [
  | inl own ↦ absurd (ground arith)
  | inr other ↦ elim (fill_lem r rs (ground arith)) [
    | inl (left, full) ↦ inl (ap (prepend (some s)) left, full)
    | inr (rs', e, room, changed) ↦ inr (
      some s ∷ rs',
      ap (prepend (some s)) e,
      room,
      IsChanged-cons r.id r.kind (first r) s rs rs' other changed,
    )
  ]
]

-- The report that a main item describes.
abbrev pub described : Globals → ReportKind → ReportSize
described g kind = record {
  id = g.report_id;
  kind = kind;
  bits = u32 (g.report_size * g.report_count);
  usage_page = g.usage_page;
}

-- What a main item does to the entry of its own id and kind.
unfoldable pub recorded : Globals → ReportKind → Bool → Option ReportSize → Option ReportSize
recorded g kind room (some r) = some (longer (u32 (g.report_size * g.report_count)) r)
recorded g kind room none = if room then some (described g kind) else none

add_new :
    (g : Globals) (kind : ReportKind) (rs : Slots)
    → lookup g.report_id kind rs ≡ none
    → IsChanged g.report_id kind
        (recorded g kind (has_room rs))
        rs
        (Option.get_or (fill (described g kind) rs) rs)
unfolding recorded
add_new g kind rs missing = elim (fill_lem (described g kind) rs missing) [
  | inl (left, full) ↦
      rw left (
        IsChanged-same g.report_id kind (recorded g kind (has_room rs)) rs
          (rw (missing, full) refl))
  | inr (rs', e, room, changed) ↦ rw e (
      IsChanged-as g.report_id kind (first (described g kind)) (recorded g kind (has_room rs)) rs
        rs' (rw (missing, room) refl) changed)
]

known_recorded :
    (g : Globals) (kind : ReportKind) (room : Bool) (o : Option ReportSize)
    → is_some o ≡ true
    → Option.map (longer (u32 (g.report_size * g.report_count))) o ≡ recorded g kind room o
unfolding recorded
known_recorded g kind room none known = absurd cc
known_recorded g kind room (some r) known = refl

-- A main item adds its bits to the report of its id and kind, or makes that report when there is
-- none and a slot is free; every other report, the number of slots and the uniqueness of the keys
-- stay as they are.
pub add_report_lem :
    (g : Globals) (kind : ReportKind) (rs : Slots)
    → IsChanged g.report_id kind (recorded g kind (has_room rs)) rs (add_report g kind rs)
unfolding add_report recorded
add_report_lem g kind rs =
    elim (grow_lem g.report_id kind (u32 (g.report_size * g.report_count)) rs) [
      | inl (left, missing) ↦ rw (left, add_report) (add_new g kind rs missing)
      | inr (rs', e, known, changed) ↦
          rw (e, add_report)
            (IsChanged-as g.report_id kind
              (Option.map (longer (u32 (g.report_size * g.report_count))))
              (recorded g kind (has_room rs)) rs rs'
              (known_recorded g kind (has_room rs) (lookup g.report_id kind rs) known) changed)
    ]

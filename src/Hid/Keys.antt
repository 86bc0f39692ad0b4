-- ===== src/Hid/Keys.antt =====
-- The slots of `log_report_summary` (src/hid.rs) as a table from a report's id and kind to its size.
use rp_wheel_bridge.Base.{
  ℕ, suc, ◌≡◌, refl, sym, ap, ◌∙◌, [], ◌∷◌, Option, none, some, Bool, true, false, ◌&&◌, ◌==◌,
  if◌then◌else◌, length, arith, Bool-cases, inl, inr,
}
use rp_wheel_bridge.Hid.Descriptor.{
  ReportKind, input, output, feature, same_kind, ReportSize, Slots,
}

abbrev pub is_report : ℕ → ReportKind → ReportSize → Bool
is_report n k r = r.id == n && same_kind r.kind k

-- The report with this id and kind.
unfoldable pub lookup : ℕ → ReportKind → Slots → Option ReportSize
lookup n k [] = none
lookup n k (none ∷ rs) = lookup n k rs
lookup n k (some r ∷ rs) = if is_report n k r then some r else lookup n k rs

unfoldable pub has_room : Slots → Bool
has_room [] = false
has_room (none ∷ rs) = true
has_room (some r ∷ rs) = has_room rs

-- No two reports have the same id and kind.
unfoldable pub IsUnique : Slots → Type 0
IsUnique [] = Unit
IsUnique (none ∷ rs) = IsUnique rs
IsUnique (some r ∷ rs) = (lookup r.id r.kind rs ≡ none) × IsUnique rs

same_kind_lem : (a b : ReportKind) → same_kind a b ≡ true → a ≡ b
same_kind_lem input input e = refl
same_kind_lem output output e = refl
same_kind_lem feature feature e = refl
same_kind_lem input output e = absurd cc
same_kind_lem input feature e = absurd cc
same_kind_lem output input e = absurd cc
same_kind_lem output feature e = absurd cc
same_kind_lem feature input e = absurd cc
same_kind_lem feature output e = absurd cc

pub same_kind_refl : (a : ReportKind) → same_kind a a ≡ true
same_kind_refl input = refl
same_kind_refl output = refl
same_kind_refl feature = refl

abbrev pub is_own : ℕ → ReportKind → ℕ → ReportKind → Bool
is_own m j n k = m == n && same_kind j k

-- A report that `(m, j)` names is named by the keys equal to `(m, j)`.
pub is_report-own :
    (m : ℕ) (j : ReportKind) (r : ReportSize) (n : ℕ) (k : ReportKind)
    → is_report m j r ≡ true
    → is_report n k r ≡ is_own m j n k
is_report-own m j r n k e =
    let id_lem : r.id ≡ m = ground arith in
    let kind_lem : r.kind ≡ j = same_kind_lem r.kind j (ground arith) in rw (id_lem, kind_lem) refl

pub is_own_lem :
    (m : ℕ) (j : ReportKind) (n : ℕ) (k : ReportKind) → is_own m j n k ≡ true → (m ≡ n) × (j ≡ k)
is_own_lem m j n k e = (ground arith, same_kind_lem j k (ground arith))

is_own-report :
    (m : ℕ) (j : ReportKind) (r : ReportSize)
    → is_report m j r ≡ false
    → is_own m j r.id r.kind ≡ false
is_own-report m j r other = elim (Bool-cases (is_own m j r.id r.kind)) [
  | inl same ↦
      let (e, f) = is_own_lem m j r.id r.kind same in
      let own : is_report m j r ≡ true = rw (e, f) (rw (same_kind_refl r.kind) (ground arith)) in
      absurd cc
  | inr diff ↦ diff
]

-- A table in which `rs` has become `rs'`: no slot was added, and the entry of one key is `f` of what
-- it was.
abbrev pub IsChanged :
    ℕ → ReportKind → (Option ReportSize → Option ReportSize) → Slots → Slots → Type 0
IsChanged m j f rs rs' =
    (length rs' ≡ length rs)
    × (IsUnique rs → IsUnique rs')
    × ((n : ℕ) (k : ReportKind)
        → lookup n k rs' ≡ (if is_own m j n k then f (lookup n k rs) else lookup n k rs))

-- A slot that the key does not name may stand in front of the change.
pub IsChanged-cons :
    (m : ℕ) (j : ReportKind) (f : Option ReportSize → Option ReportSize) (r : ReportSize)
    (rs rs' : Slots)
    → is_report m j r ≡ false
    → IsChanged m j f rs rs'
    → IsChanged m j f (some r ∷ rs) (some r ∷ rs')
unfolding lookup IsUnique
IsChanged-cons m j f r rs rs' other (len, unique, found) = (ap suc len, unique_cons, at)
  where
    unique_cons : IsUnique (some r ∷ rs) → IsUnique (some r ∷ rs')
    unique_cons (missing, u) =
        (found r.id r.kind ∙ rw (is_own-report m j r other) missing, unique u)

    at :
        (n : ℕ) (k : ReportKind)
        → lookup n k (some r ∷ rs')
          ≡ (if is_own m j n k then f (lookup n k (some r ∷ rs)) else lookup n k (some r ∷ rs))
    at n k = elim (Bool-cases (is_report n k r)) [
      | inl here ↦ elim (Bool-cases (is_own m j n k)) [
        | inl same ↦ let (e, i) = is_own_lem m j n k same in absurd cc
        | inr diff ↦ rw (here, diff) refl
      ]
      | inr there ↦ rw there (found n k)
    ]

-- A change of one entry depends on what `f` does to that entry alone.
pub IsChanged-as :
    (m : ℕ) (j : ReportKind) (f h : Option ReportSize → Option ReportSize) (rs rs' : Slots)
    → f (lookup m j rs) ≡ h (lookup m j rs)
    → IsChanged m j f rs rs'
    → IsChanged m j h rs rs'
IsChanged-as m j f h rs rs' e (len, unique, found) = (len, unique, at)
  where
    at :
        (n : ℕ) (k : ReportKind)
        → lookup n k rs' ≡ (if is_own m j n k then h (lookup n k rs) else lookup n k rs)
    at n k = elim (Bool-cases (is_own m j n k)) [
      | inl same ↦
          let (d, i) = is_own_lem m j n k same in
          let eq : f (lookup n k rs) ≡ h (lookup n k rs) = rw (sym d, sym i) e in
          found n k ∙ rw (same, eq) refl
      | inr diff ↦ found n k ∙ rw diff refl
    ]

pub IsChanged-same :
    (m : ℕ) (j : ReportKind) (h : Option ReportSize → Option ReportSize) (rs : Slots)
    → lookup m j rs ≡ h (lookup m j rs)
    → IsChanged m j h rs rs
IsChanged-same m j h rs e =
    IsChanged-as m j (λ o. o) h rs rs e
      (
        refl,
        λ u. u,
        λ n k. elim (Bool-cases (is_own m j n k)) [
          | inl same ↦ rw same refl
          | inr diff ↦ rw diff refl
        ],
      )

-- ===== src/UsbHost/ConfigLog.antt =====
-- `ConfigLogger` of src/usb_host.rs on the descriptors other than interfaces and endpoints. An index
-- out of range panics.
use rp_wheel_bridge.Base.{
  ℕ, zero, suc, ◌≤◌, ◌≡◌, refl, List, [], ◌∷◌, Option, none, some, Bool, true, false, ◌&&◌, ◌==◌,
  leb, if◌then◌else◌, get_elem?, get_elem?-some, is_some, if_intro, leb→le, and_right, length, le16,
  arith,
}
use rp_wheel_bridge.Hid.Finder.{
  HidInterface, add_other, listed_len, desc_type_hid, desc_type_report,
}

-- A line of the log.
pub data Line : Type 0 where
  -- Version (two parts) and length of the report descriptor.
  hid : (major minor report_len : ℕ) → Line
  -- Type and bLength.
  descriptor : (desc_type len : ℕ) → Line

infixl 5 ◌>>=◌
abbrev ◌>>=◌ : {A B : Type 0} → Option A → (A → Option B) → Option B
none >>= k = none
some a >>= k = k a

abbrev hid_line : List ℕ → Option Line
hid_line raw = do
  major ← get_elem? raw 3
  minor ← get_elem? raw 2
  lo ← get_elem? raw 7
  hi ← get_elem? raw 8
  some (hid major minor (le16 lo hi))

abbrev other_line : ℕ → List ℕ → Option Line
other_line kind raw = do len ← get_elem? raw 0; some (descriptor kind len)

-- `on_other`; `none`: it panics.
unfoldable pub on_other : List ℕ → Option Line
on_other raw = do
  kind ← get_elem? raw 1
  if kind == desc_type_hid && leb 9 (length raw) then hid_line raw else other_line kind raw

-- A HID descriptor with nine bytes and an entry.
abbrev pub is_hid_descriptor : List ℕ → Bool
is_hid_descriptor (b0 ∷ b1 ∷ b2 ∷ b3 ∷ b4 ∷ b5 ∷ b6 ∷ b7 ∷ b8 ∷ rest) =
    b1 == desc_type_hid && leb 1 b5 && (b6 == desc_type_report)
is_hid_descriptor _ = false

-- Whatever descriptor of at least two bytes comes, logging it does not index out of range.
on_other_some : (raw : List ℕ) → 2 ≤ length raw → is_some (on_other raw) ≡ true
unfolding on_other
on_other_some raw h =
    let (len, e0) = get_elem?-some raw 0 (omega arith) in
    let (kind, e1) = get_elem?-some raw 1 (omega arith) in
    rw (e1, on_other)
      (if_intro (λ l. is_some l ≡ true) (kind == desc_type_hid && leb 9 (length raw)) (hid_line raw)
        (other_line kind raw)
        (λ hid.
          hid_line_some raw
            (leb→le 9 (length raw) (and_right (kind == desc_type_hid) (leb 9 (length raw)) hid)))
        (λ other. rw e0 refl))
  where
    hid_line_some : (raw : List ℕ) → 9 ≤ length raw → is_some (hid_line raw) ≡ true
    hid_line_some raw nine =
        let (major, e3) = get_elem?-some raw 3 (omega arith) in
        let (minor, e2) = get_elem?-some raw 2 (omega arith) in
        let (lo, e7) = get_elem?-some raw 7 (omega arith) in
        let (hi, e8) = get_elem?-some raw 8 (omega arith) in rw (e3, e2, e7, e8) refl

agrees_cons :
    (len b1 b2 b3 b4 b5 b6 lo hi : ℕ) (rest : List ℕ) (h : HidInterface)
    → let raw = len ∷ b1 ∷ b2 ∷ b3 ∷ b4 ∷ b5 ∷ b6 ∷ lo ∷ hi ∷ rest in
      is_hid_descriptor raw ≡ true
      → (on_other raw ≡ some (hid b3 b2 (le16 lo hi)))
        × ((add_other raw h).report_desc_len ≡ le16 lo hi)
unfolding on_other add_other listed_len
agrees_cons len b1 b2 b3 b4 zero b6 lo hi rest h e = absurd (ground arith)
agrees_cons len b1 b2 b3 b4 (suc b5) b6 lo hi rest h e = (ground arith, ground arith)

-- For a HID descriptor whose first entry is the report descriptor, the length that is logged is the
-- one that `find_interfaces` keeps and the bridge later asks for, whatever the interface had before.
pub on_other-add_other :
    (raw : List ℕ) (h : HidInterface)
    → is_hid_descriptor raw ≡ true
    → (major minor report_len : ℕ) × (on_other raw ≡ some (hid major minor report_len))
      × ((add_other raw h).report_desc_len ≡ report_len)
on_other-add_other [] h e = absurd cc
on_other-add_other (b0 ∷ []) h e = absurd cc
on_other-add_other (b0 ∷ b1 ∷ []) h e = absurd cc
on_other-add_other (b0 ∷ b1 ∷ b2 ∷ []) h e = absurd cc
on_other-add_other (b0 ∷ b1 ∷ b2 ∷ b3 ∷ []) h e = absurd cc
on_other-add_other (b0 ∷ b1 ∷ b2 ∷ b3 ∷ b4 ∷ []) h e = absurd cc
on_other-add_other (b0 ∷ b1 ∷ b2 ∷ b3 ∷ b4 ∷ b5 ∷ []) h e = absurd cc
on_other-add_other (b0 ∷ b1 ∷ b2 ∷ b3 ∷ b4 ∷ b5 ∷ b6 ∷ []) h e = absurd cc
on_other-add_other (b0 ∷ b1 ∷ b2 ∷ b3 ∷ b4 ∷ b5 ∷ b6 ∷ b7 ∷ []) h e = absurd cc
on_other-add_other (b0 ∷ b1 ∷ b2 ∷ b3 ∷ b4 ∷ b5 ∷ b6 ∷ b7 ∷ b8 ∷ rest) h e =
    let (logged, kept) = agrees_cons b0 b1 b2 b3 b4 b5 b6 b7 b8 rest h e in
    (b3, b2, le16 b7 b8, logged, kept)

-- ===== src/Hid/Items.antt =====
-- Report descriptors written from items, and what `log_report_summary` (src/hid.rs) makes of them.
use rp_wheel_bridge.Base.{
  ℕ, zero, suc, ◌/◌, ◌%◌, ◌^◌, ◌≤◌, ◌<◌, ◌≡◌, ◌≢◌, refl, ap, List, [], ◌∷◌, ◌++◌, some, true, false,
  ◌==◌, leb, length, length-append, take-append, drop-append, All, arith, inl, inr, ◌⊎◌,
}
use rp_wheel_bridge.Hid.Descriptor.{Parser, short, read_item, scan, short_item, value_of, data_size}

-- A short item (HID 1.11, 6.2.2.2): its prefix and its value.
pub record ShortItem : Type 0 where
  pub prefix : ℕ
  pub value : ℕ

-- The value fits the data of the item; 0xfe is the prefix of long items.
abbrev pub IsShort : ShortItem → Type 0
IsShort i = (i.prefix ≢ 0xfe) × (i.value < 256 ^ data_size i.prefix)

-- The low `n` bytes of a value, the lowest first.
unfoldable pub le_bytes : ℕ → ℕ → List ℕ
le_bytes zero v = []
le_bytes (suc n) v = v % 256 ∷ le_bytes n (v / 256)

unfoldable pub encode : List ShortItem → List ℕ
unfolding le_bytes
encode [] = []
encode (i ∷ items) = i.prefix ∷ le_bytes (data_size i.prefix) i.value ++ encode items

-- The items one after the other.
unfoldable pub run_items : List ShortItem → Parser → Parser
run_items [] p = p
run_items (i ∷ items) p = run_items items (short_item i.prefix i.value p)

length-le_bytes : (n v : ℕ) → length (le_bytes n v) ≡ n
unfolding le_bytes
length-le_bytes zero v = refl
length-le_bytes (suc n) v = ap suc (length-le_bytes n (v / 256))

data_size-cases :
    (prefix : ℕ)
    → (data_size prefix ≡ 0)
      ⊎ (data_size prefix ≡ 1)
      ⊎ (data_size prefix ≡ 2)
      ⊎ (data_size prefix ≡ 4)
data_size-cases prefix = ground arith

value_of-le_bytes :
    (prefix v : ℕ) → v < 256 ^ data_size prefix → value_of (le_bytes (data_size prefix) v) ≡ v
unfolding value_of le_bytes
value_of-le_bytes prefix v lt = elim (data_size-cases prefix) [
  | inl none_len ↦ let bound : v < 256 ^ 0 = rw none_len at lt in rw none_len (omega arith)
  | inr (inl one) ↦ let bound : v < 256 ^ 1 = rw one at lt in rw one (omega arith)
  | inr (inr (inl two)) ↦ let bound : v < 256 ^ 2 = rw two at lt in rw two (omega arith)
  | inr (inr (inr four)) ↦ let bound : v < 256 ^ 4 = rw four at lt in rw four (omega arith)
]

read_item-encode :
    (i : ShortItem) (rest : List ℕ)
    → IsShort i
    → read_item i.prefix (le_bytes (data_size i.prefix) i.value ++ rest)
      ≡ short i.prefix i.value rest
unfolding read_item
read_item-encode i rest (short_prefix, fits) =
    let bytes = le_bytes (data_size i.prefix) i.value in
    let len : length bytes ≡ data_size i.prefix = length-le_bytes (data_size i.prefix) i.value in
    let other : (i.prefix == 0xfe) ≡ false = ground arith in
    let whole : leb (data_size i.prefix) (length (bytes ++ rest)) ≡ true =
      ground (arith, length-append bytes rest) in
    rw
      (
        other,
        whole,
        take-append (data_size i.prefix) bytes rest len,
        drop-append (data_size i.prefix) bytes rest len,
        value_of-le_bytes i.prefix i.value fits,
      )
      refl

-- The loop reads a descriptor back as the items it was written from, in order, each with its value.
pub scan-encode :
    (items : List ShortItem) (fuel : ℕ) (p : Parser)
    → All IsShort items
    → length (encode items) ≤ fuel
    → scan fuel (encode items) p ≡ some (run_items items p)
unfolding scan encode run_items
scan-encode [] fuel p h le = refl
scan-encode (i ∷ items) zero p h le = absurd (omega arith)
scan-encode (i ∷ items) (suc fuel) p (h, hs) le =
    rw (read_item-encode i (encode items) h, scan)
      (scan-encode items fuel (short_item i.prefix i.value p) hs
        (omega (arith, length-append (le_bytes (data_size i.prefix) i.value) (encode items))))

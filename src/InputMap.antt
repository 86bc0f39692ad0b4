-- ===== src/InputMap.antt =====
-- src/input_map.rs: the 30-byte input report of the c272 wheel and the 64-byte report 0x01 of the
-- c269 that the console reads. A `[u8; N]` is a list of N numbers below 256.
pub mod Bits
pub mod Layout
pub mod Controls
mod Examples
use rp_wheel_bridge.Base.{
  ℕ, zero, suc, ◌+◌, ◌-◌, List, [], ◌∷◌, bit_and, bit_or, if◌then◌else◌, ◌==◌, get_or, set,
  replicate, slice, copy_at, le16, le_bytes16,
}

abbrev pub c272_len : ℕ
c272_len = 30

abbrev pub c269_len : ℕ
c269_len = 64

-- (c272 bit, c269 bit) pairs within one byte
abbrev pub BitMap : Type 0
BitMap = List (ℕ × ℕ)

abbrev pub face : BitMap
face = (0x10, 0x20) ∷ (0x20, 0x10) ∷ (0x40, 0x40) ∷ (0x80, 0x80) ∷ []

abbrev pub shoulder : BitMap
shoulder =
    (0x01, 0x02)
    ∷ (0x02, 0x01)
    ∷ (0x04, 0x08)
    ∷ (0x08, 0x04)
    ∷ (0x10, 0x10)
    ∷ (0x20, 0x20)
    ∷ (0x40, 0x80)
    ∷ (0x80, 0x40)
    ∷ []

abbrev pub rotary : BitMap
rotary =
    (0x02, 0x04) ∷ (0x04, 0x02) ∷ (0x08, 0x01) ∷ (0x10, 0x10) ∷ (0x20, 0x08) ∷ (0x40, 0x20) ∷ []

abbrev pub xbox_button : ℕ
xbox_button = 0x80

abbrev pub ps_button : ℕ
ps_button = 0x01

abbrev pub report_id : ℕ
report_id = 0x01

abbrev pub hat_neutral : ℕ
hat_neutral = 0x08

abbrev pub stick_centre : ℕ
stick_centre = 0x80

-- `while i < 51 { r[i] = 0xff; i += 1; }` with the rounds left as the first argument
fill_ff : ℕ → ℕ → List ℕ → List ℕ
fill_ff zero i r = r
fill_ff (suc left) i r = fill_ff left (i + 1) (set r i 0xff)

unfoldable pub neutral : List ℕ
unfolding fill_ff
neutral =
    let r = replicate c269_len 0 in
    let r = set r 0 report_id in
    let r = set r 1 stick_centre in
    let r = set r 2 stick_centre in
    let r = set r 3 stick_centre in
    let r = set r 4 stick_centre in
    let r = set r 5 hat_neutral in
    let r = set r 44 0x80 in
    let r = fill_ff (51 - 45) 45 r in let r = set r 52 0xff in set r 53 0xff

-- `map.iter().filter(|(from, _)| byte & from != 0)`
pub selected : ℕ → BitMap → BitMap
selected byte [] = []
selected byte ((from, to) ∷ m) =
    if bit_and byte from == 0 then selected byte m else (from, to) ∷ selected byte m

-- `.fold(acc, |acc, (_, to)| acc | to)`
pub fold_or : ℕ → BitMap → ℕ
fold_or acc [] = acc
fold_or acc ((from, to) ∷ m) = fold_or (bit_or acc to) m

unfoldable pub remap : ℕ → BitMap → ℕ
unfolding selected fold_or
remap byte m = fold_or 0 (selected byte m)

-- One round of the loop over the pedals; `0xffff - v` is exact for a `u16`.
pub invert_axes : List ℕ → List (ℕ × ℕ) → List ℕ → List ℕ
invert_axes src [] r = r
invert_axes src ((dst, s) ∷ axes) r =
    let v = le16 (get_or src s 0) (get_or src (s + 1) 0) in
    invert_axes src axes (copy_at r dst (le_bytes16 (0xffff - v)))

unfoldable pub translate : List ℕ → List ℕ
unfolding neutral remap invert_axes
translate src =
    let r = neutral in
    let r = set r 5 (bit_or (bit_and (get_or src 0 0) 0x0f) (remap (get_or src 0 0) face)) in
    let r = set r 6 (remap (get_or src 1 0) shoulder) in
    let r = if bit_and (get_or src 3 0) xbox_button == 0 then r else set r 7 ps_button in
    let r = set r 54 (remap (get_or src 3 0) rotary) in
    let r = copy_at r 43 (slice src 4 6) in invert_axes src ((45, 6) ∷ (47, 8) ∷ (49, 10) ∷ []) r

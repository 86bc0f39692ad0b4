-- ===== src/InputMap/Layout.antt =====
-- The whole c269 report, byte by byte, as `translate` of src/input_map.rs builds it.
use rp_wheel_bridge.Base.{
  ℕ, ◌+◌, ◌-◌, ◌/◌, ◌%◌, ◌≡◌, List, ◌∷◌, ◌++◌, length, replicate, get_or, take-two-drop, bit_and,
  bit_or, if◌then◌else◌, ◌==◌, le16, arith, Bool-cases, inl, inr,
}
use rp_wheel_bridge.InputMap.{c272_len, translate, remap, face, shoulder, rotary}

-- The two bytes of a released-is-high axis at index `s` of the c272 report.
abbrev pub pedal_lo : List ℕ → ℕ → ℕ
pedal_lo src s = (0xffff - le16 (get_or src s 0) (get_or src (s + 1) 0)) % 256

abbrev pub pedal_hi : List ℕ → ℕ → ℕ
pedal_hi src s = (0xffff - le16 (get_or src s 0) (get_or src (s + 1) 0)) / 256 % 256

abbrev pub layout : List ℕ → List ℕ
layout src =
    0x01
      ∷ 0x80
      ∷ 0x80
      ∷ 0x80
      ∷ 0x80
      ∷ bit_or (bit_and (get_or src 0 0) 0x0f) (remap (get_or src 0 0) face)
      ∷ remap (get_or src 1 0) shoulder
      ∷ (if bit_and (get_or src 3 0) 0x80 == 0 then 0 else 1)
      ∷ replicate 35 0
    ++ get_or src 4 0
      ∷ get_or src 5 0
      ∷ pedal_lo src 6
      ∷ pedal_hi src 6
      ∷ pedal_lo src 8
      ∷ pedal_hi src 8
      ∷ pedal_lo src 10
      ∷ pedal_hi src 10
      ∷ 0
      ∷ 0xff
      ∷ 0xff
      ∷ remap (get_or src 3 0) rotary
      ∷ replicate 9 0

pub translate-layout : (src : List ℕ) → length src ≡ c272_len → translate src ≡ layout src
unfolding translate
translate-layout src h = elim (Bool-cases (bit_and (get_or src 3 0) 0x80 == 0)) [
  | inl e ↦ rw (e, take-two-drop 0 src 4 (omega arith))
  | inr e ↦ rw (e, take-two-drop 0 src 4 (omega arith))
]

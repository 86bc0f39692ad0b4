-- ===== src/InputMap/Bits.antt =====
-- `remap` of src/input_map.rs with its three maps, checked on every byte: a target bit is set
-- exactly when its source bit is, and the result is a byte with no other bit.
use rp_wheel_bridge.Base.{
  ℕ, ◌<◌, ◌≡◌, refl, Bool, true, false, ◌&&◌, ◌==◌, [], ◌∷◌, bit_and, bit_or, every_byte, every,
  every_byte_lem, ltb, leb, arith, ltb→lt, ==_iff, and_left, and_right, IsByte,
}
use rp_wheel_bridge.InputMap.{BitMap, face, shoulder, rotary, remap}

-- Whether any bit of the mask is set in the byte.
abbrev pub has : ℕ → ℕ → Bool
has byte mask = leb 1 (bit_and byte mask)

abbrev same : Bool → Bool → Bool
same true b = b
same false true = false
same false false = true

abbrev pub carries : (ℕ → ℕ) → ℕ → BitMap → Bool
carries f byte [] = true
carries f byte ((from, to) ∷ m) = same (has (f byte) to) (has byte from) && carries f byte m

-- The bit pairs of the map that `carries` checks, as equations.
abbrev pub Carries : (ℕ → ℕ) → ℕ → BitMap → Type 0
Carries f byte [] = Unit
Carries f byte ((from, to) ∷ m) = (has (f byte) to ≡ has byte from) × Carries f byte m

carries→Carries : (f : ℕ → ℕ) (b : ℕ) (m : BitMap) → carries f b m ≡ true → Carries f b m
carries→Carries f b [] h = tt
carries→Carries f b ((from, to) ∷ m) h = (split.0, carries→Carries f b m split.1)
  where
    split : (has (f b) to ≡ has b from) × (carries f b m ≡ true)
    split = ground arith

-- Byte 5 of the c269 report.
abbrev pub hat_and_face : ℕ → ℕ
hat_and_face b = bit_or (bit_and b 0x0f) (remap b face)

face_table :
    every_byte (λ b.
      carries hat_and_face b face
      && (bit_and (hat_and_face b) 0x0f == bit_and b 0x0f)
      && ltb (hat_and_face b) 256)
    ≡ true
unfolding every remap
face_table = refl

shoulder_table :
    every_byte (λ b. carries (λ x. remap x shoulder) b shoulder && ltb (remap b shoulder) 256)
    ≡ true
unfolding every remap
shoulder_table = refl

rotary_table :
    every_byte (λ b. carries (λ x. remap x rotary) b rotary && ltb (remap b rotary) 64) ≡ true
unfolding every remap
rotary_table = refl

module _ (b : ℕ) (h : IsByte b) where
  face_checked :
      (carries hat_and_face b face
        && (bit_and (hat_and_face b) 0x0f == bit_and b 0x0f)
        && ltb (hat_and_face b) 256)
      ≡ true
  face_checked = every_byte_lem _ b face_table h

  pub face-Carries : Carries hat_and_face b face
  face-Carries = carries→Carries hat_and_face b face (and_left _ _ (and_left _ _ face_checked))

  pub hat_lem : bit_and (hat_and_face b) 0x0f ≡ bit_and b 0x0f
  hat_lem = (==_iff _ _).0 (and_right _ _ (and_left _ _ face_checked))

  pub hat_and_face-lt : hat_and_face b < 256
  hat_and_face-lt = ltb→lt _ _ (and_right _ _ face_checked)

  pub shoulder-Carries : Carries (λ x. remap x shoulder) b shoulder
  shoulder-Carries =
      carries→Carries (λ x. remap x shoulder) b shoulder
        (and_left _ (ltb (remap b shoulder) 256) (every_byte_lem _ b shoulder_table h))

  pub shoulder-lt : remap b shoulder < 256
  shoulder-lt = ltb→lt _ _ (and_right _ _ (every_byte_lem _ b shoulder_table h))

  pub rotary-Carries : Carries (λ x. remap x rotary) b rotary
  rotary-Carries =
      carries→Carries (λ x. remap x rotary) b rotary
        (and_left _ (ltb (remap b rotary) 64) (every_byte_lem _ b rotary_table h))

  pub rotary-lt : remap b rotary < 64
  rotary-lt = ltb→lt (remap b rotary) 64 (and_right _ _ (every_byte_lem _ b rotary_table h))

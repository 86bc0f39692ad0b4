-- ===== src/InputMap/Examples.antt =====
-- Witnesses and tests of the input translation (src/input_map.rs).
use rp_wheel_bridge.Base.{
  get_or, ◌≤◌, ◌<◌, ℕ, ◌+◌, ◌≡◌, refl, List, ◌∷◌, ◌++◌, AllBytes, length, replicate, take, slice,
  get_or, bit_and, arith,
}
use rp_wheel_bridge.InputMap.{c269_len, neutral, translate}
use rp_wheel_bridge.InputMap.Controls.{
  xbox, c269_at, c272_at, pressed, axis, translate-buttons, translate-axes, translate-rest,
}

-- A, the left paddle and the Xbox button held, the wheel right of centre, the brake half down.
abbrev held : List ℕ
held = 0x18 ∷ 0x02 ∷ 0 ∷ 0x80 ∷ 0x34 ∷ 0x92 ∷ 0 ∷ 0 ∷ 0xff ∷ 0x7f ∷ replicate 20 0

abbrev held_bytes : AllBytes held
held_bytes = omega arith

held_translated :
    translate held
    ≡ 0x01 ∷ 0x80 ∷ 0x80 ∷ 0x80 ∷ 0x80 ∷ 0x28 ∷ 0x01 ∷ 0x01 ∷ replicate 35 0
      ++ 0x34 ∷ 0x92 ∷ 0xff ∷ 0xff ∷ 0x00 ∷ 0x80 ∷ 0xff ∷ 0xff ∷ 0 ∷ 0xff ∷ 0xff ∷ replicate 10 0
unfolding translate
held_translated = refl

translate-buttons_example : pressed (translate held) (c269_at xbox) ≡ pressed held (c272_at xbox)
translate-buttons_example = translate-buttons held refl held_bytes xbox

translate-axes_example :
    (bit_and (get_or (translate held) 5 0) 0x0f ≡ 8)
    × (axis (translate held) 43 ≡ 0x9234)
    × (axis (translate held) 45 + axis held 6 ≡ 0xffff)
    × (axis (translate held) 47 + axis held 8 ≡ 0xffff)
    × (axis (translate held) 49 + axis held 10 ≡ 0xffff)
translate-axes_example = translate-axes held refl held_bytes

translate-rest_example :
    (length (translate held) ≡ c269_len)
    × AllBytes (translate held)
    × (take 5 (translate held) ≡ take 5 neutral)
    × (get_or (translate held) 7 0 ≤ 1)
    × (slice (translate held) 8 43 ≡ slice neutral 8 43)
    × (slice (translate held) 51 54 ≡ slice neutral 51 54)
    × (get_or (translate held) 54 0 < 64)
    × (slice (translate held) 55 64 ≡ slice neutral 55 64)
translate-rest_example = translate-rest held refl held_bytes

-- ===== src/InputMap/Controls.antt =====
-- The wheel's controls, as docs/input-mapping.md lists them, read from both reports: what
-- `translate` of src/input_map.rs has to carry over. The tables here are the document's.
use rp_wheel_bridge.Base.{
  ℕ, ◌+◌, ◌≤◌, ◌<◌, ◌≡◌, refl, List, Bool, length, take, slice, get_or, bit_and, le16, leb,
  AllBytes, IsByte, get_or-All, ◌==◌, if◌then◌else◌, arith,
}
use rp_wheel_bridge.InputMap.{c272_len, c269_len, neutral, translate}
use rp_wheel_bridge.InputMap.Bits.{
  has, face-Carries, hat_lem, hat_and_face-lt, shoulder-Carries, shoulder-lt, rotary-Carries,
  rotary-lt,
}
use rp_wheel_bridge.InputMap.Layout.{translate-layout, layout}

pub data Button : Type 0 where
  cross square circle triangle : Button
  gear_up gear_down rt lt view menu rsb lsb : Button
  xbox : Button
  right_cw right_ccw right_click left_cw left_ccw left_click : Button

-- (byte, mask) of a button in the c272 report.
abbrev pub c272_at : Button → ℕ × ℕ
c272_at cross = (0, 0x10)
c272_at square = (0, 0x20)
c272_at circle = (0, 0x40)
c272_at triangle = (0, 0x80)
c272_at gear_up = (1, 0x01)
c272_at gear_down = (1, 0x02)
c272_at rt = (1, 0x04)
c272_at lt = (1, 0x08)
c272_at view = (1, 0x10)
c272_at menu = (1, 0x20)
c272_at rsb = (1, 0x40)
c272_at lsb = (1, 0x80)
c272_at xbox = (3, 0x80)
c272_at right_cw = (3, 0x02)
c272_at right_ccw = (3, 0x04)
c272_at right_click = (3, 0x08)
c272_at left_cw = (3, 0x10)
c272_at left_ccw = (3, 0x20)
c272_at left_click = (3, 0x40)

-- (byte, mask) of a button in the c269 report.
abbrev pub c269_at : Button → ℕ × ℕ
c269_at cross = (5, 0x20)
c269_at square = (5, 0x10)
c269_at circle = (5, 0x40)
c269_at triangle = (5, 0x80)
c269_at gear_up = (6, 0x02)
c269_at gear_down = (6, 0x01)
c269_at rt = (6, 0x08)
c269_at lt = (6, 0x04)
c269_at view = (6, 0x10)
c269_at menu = (6, 0x20)
c269_at rsb = (6, 0x80)
c269_at lsb = (6, 0x40)
c269_at xbox = (7, 0x01)
c269_at right_cw = (54, 0x04)
c269_at right_ccw = (54, 0x02)
c269_at right_click = (54, 0x01)
c269_at left_cw = (54, 0x10)
c269_at left_ccw = (54, 0x08)
c269_at left_click = (54, 0x20)

abbrev pub pressed : List ℕ → ℕ × ℕ → Bool
pressed report (byte, mask) = has (get_or report byte 0) mask

-- A 16-bit axis at a byte of a report.
abbrev pub axis : List ℕ → ℕ → ℕ
axis report byte = le16 (get_or report byte 0) (get_or report (byte + 1) 0)

module _ (src : List ℕ) (len : length src ≡ c272_len) (bytes : AllBytes src) where
  byte : (i : ℕ) → IsByte (get_or src i 0)
  byte i = get_or-All IsByte src i 0 (omega arith) bytes

  xbox_bit : (t : ℕ) → has (if t == 0 then 0 else 1) 1 ≡ leb 1 t
  xbox_bit t = ground arith

  -- Every button of the wheel is pressed in the translated report exactly when it is pressed in
  -- the wheel's own report, at the places of the table in docs/input-mapping.md.
  pub translate-buttons :
      (b : Button) → pressed (translate src) (c269_at b) ≡ pressed src (c272_at b)
  translate-buttons b = rw (translate-layout src len) (go b)
    where
      go : (b : Button) → pressed (layout src) (c269_at b) ≡ pressed src (c272_at b)
      go cross = (face-Carries (get_or src 0 0) (byte 0)).0
      go square = (face-Carries (get_or src 0 0) (byte 0)).1.0
      go circle = (face-Carries (get_or src 0 0) (byte 0)).1.1.0
      go triangle = (face-Carries (get_or src 0 0) (byte 0)).1.1.1.0
      go gear_up = (shoulder-Carries (get_or src 1 0) (byte 1)).0
      go gear_down = (shoulder-Carries (get_or src 1 0) (byte 1)).1.0
      go rt = (shoulder-Carries (get_or src 1 0) (byte 1)).1.1.0
      go lt = (shoulder-Carries (get_or src 1 0) (byte 1)).1.1.1.0
      go view = (shoulder-Carries (get_or src 1 0) (byte 1)).1.1.1.1.0
      go menu = (shoulder-Carries (get_or src 1 0) (byte 1)).1.1.1.1.1.0
      go rsb = (shoulder-Carries (get_or src 1 0) (byte 1)).1.1.1.1.1.1.0
      go lsb = (shoulder-Carries (get_or src 1 0) (byte 1)).1.1.1.1.1.1.1.0
      go xbox = xbox_bit (bit_and (get_or src 3 0) 0x80)
      go right_cw = (rotary-Carries (get_or src 3 0) (byte 3)).0
      go right_ccw = (rotary-Carries (get_or src 3 0) (byte 3)).1.0
      go right_click = (rotary-Carries (get_or src 3 0) (byte 3)).1.1.0
      go left_cw = (rotary-Carries (get_or src 3 0) (byte 3)).1.1.1.0
      go left_ccw = (rotary-Carries (get_or src 3 0) (byte 3)).1.1.1.1.0
      go left_click = (rotary-Carries (get_or src 3 0) (byte 3)).1.1.1.1.1.0

  -- The hat keeps its value, the steering axis its scale, and each pedal (accelerator at 6 and 45,
  -- brake at 8 and 47, clutch at 10 and 49) is turned over: 0xffff minus the wheel's value.
  pub translate-axes :
      (bit_and (get_or (translate src) 5 0) 0x0f ≡ bit_and (get_or src 0 0) 0x0f)
      × (axis (translate src) 43 ≡ axis src 4)
      × (axis (translate src) 45 + axis src 6 ≡ 0xffff)
      × (axis (translate src) 47 + axis src 8 ≡ 0xffff)
      × (axis (translate src) 49 + axis src 10 ≡ 0xffff)
  translate-axes = rw (translate-layout src len) (
    hat_lem (get_or src 0 0) (byte 0),
    refl,
    omega (arith, byte 6, byte 7),
    omega (arith, byte 8, byte 9),
    omega (arith, byte 10, byte 11),
  )

  -- The translated report has 64 bytes, each below 256, and outside the buttons and axes it is the
  -- neutral report whatever the wheel sent: byte 7 has no bit but bit 0, byte 54 none of bits 6 and 7.
  pub translate-rest :
      let r = translate src in
      (length r ≡ c269_len)
      × AllBytes r
      × (take 5 r ≡ take 5 neutral)
      × (get_or r 7 0 ≤ 1)
      × (slice r 8 43 ≡ slice neutral 8 43)
      × (slice r 51 54 ≡ slice neutral 51 54)
      × (get_or r 54 0 < 64)
      × (slice r 55 64 ≡ slice neutral 55 64)
  unfolding neutral
  translate-rest = rw (translate-layout src len) (
    refl,
    ground (
      arith,
      byte 4,
      byte 5,
      hat_and_face-lt (get_or src 0 0) (byte 0),
      shoulder-lt (get_or src 1 0) (byte 1),
      rotary-lt (get_or src 3 0) (byte 3),
    ),
    refl,
    ground arith,
    refl,
    refl,
    rotary-lt (get_or src 3 0) (byte 3),
    refl,
  )

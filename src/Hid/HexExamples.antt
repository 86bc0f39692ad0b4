-- ===== src/Hid/HexExamples.antt =====
-- Tests and concrete instances for the hex text of src/hid.rs.
use rp_wheel_bridge.Base.{ℕ, ◌≡◌, refl, List, [], ◌∷◌, replicate, AllBytes, arith}
use rp_wheel_bridge.Hid.Hex.{
  hex, hex_byte, hex_digit, spaced, log_hex_dump, chunks, dump_lines, log_hidpp, used,
}

abbrev bytes : List ℕ
bytes = 0x10 ∷ 0xff ∷ 0x00 ∷ 0x1b ∷ 0x00 ∷ 0x00 ∷ 0x5a ∷ []

bytes_lem : AllBytes bytes
bytes_lem = ground arith

-- "10 ff"
two_bytes : hex (0x10 ∷ 0xff ∷ []) ≡ b'1' ∷ b'0' ∷ b' ' ∷ b'f' ∷ b'f' ∷ []
unfolding hex hex_byte spaced hex_digit
two_bytes = refl

-- A dump of 17 bytes has a second line for the last one.
second_line :
    log_hex_dump (replicate 17 0xa0) ≡ (0, hex (replicate 16 0xa0)) ∷ (16, hex (0xa0 ∷ [])) ∷ []
unfolding log_hex_dump chunks dump_lines
second_line = refl

-- Trailing zeros are left out.
short_message :
    log_hidpp (0x10 ∷ 0x00 ∷ 0x01 ∷ 0x00 ∷ 0x00 ∷ []) ≡ (5, hex (0x10 ∷ 0x00 ∷ 0x01 ∷ []))
unfolding log_hidpp used
short_message = refl

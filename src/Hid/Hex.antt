-- ===== src/Hid/Hex.antt =====
-- `Hex` and `log_hex_dump` of src/hid.rs, and the zero padding that `log_hidpp` and `Sampler` of
-- src/proxy.rs leave out. Text is a list of code points.
use rp_wheel_bridge.Base.{
  ℕ, zero, suc, ◌+◌, ◌-◌, ◌*◌, ◌/◌, ◌%◌, List, [], ◌∷◌, ◌++◌, ◌&&◌, ◌==◌, ltb, if◌then◌else◌, take,
  drop, length,
}

unfoldable pub hex_digit : ℕ → ℕ
hex_digit n = if ltb n 10 then b'0' + n else b'a' + (n - 10)

-- `{:02x}` of a byte
unfoldable pub hex_byte : ℕ → List ℕ
unfolding hex_digit
hex_byte b = hex_digit (b / 16 % 16) ∷ hex_digit (b % 16) ∷ []

-- The bytes after the first one, each behind a space.
unfoldable pub spaced : List ℕ → List ℕ
unfolding hex_byte
spaced [] = []
spaced (b ∷ bs) = b' ' ∷ hex_byte b ++ spaced bs

-- `Hex`'s `fmt`
unfoldable pub hex : List ℕ → List ℕ
unfolding hex_byte spaced
hex [] = []
hex (b ∷ bs) = hex_byte b ++ spaced bs

abbrev pub dump_width : ℕ
dump_width = 16

-- The chunks from index `i` on, with fuel for their number: offset and bytes of each line.
unfoldable pub chunks : ℕ → ℕ → List ℕ → List (ℕ × List ℕ)
chunks fuel i [] = []
chunks zero i (b ∷ bs) = []
chunks (suc fuel) i (b ∷ bs) =
    (i * dump_width, take dump_width (b ∷ bs)) ∷ chunks fuel (suc i) (drop dump_width (b ∷ bs))

-- The lines of `log_hex_dump`: the offset and the bytes as `Hex` shows them.
unfoldable pub dump_lines : List (ℕ × List ℕ) → List (ℕ × List ℕ)
unfolding hex
dump_lines [] = []
dump_lines ((offset, bytes) ∷ ls) = (offset, hex bytes) ∷ dump_lines ls

unfoldable pub log_hex_dump : List ℕ → List (ℕ × List ℕ)
unfolding chunks dump_lines
log_hex_dump bytes = dump_lines (chunks (length bytes) 0 bytes)

-- `msg.iter().rposition(|&b| b != 0).map_or(0, |i| i + 1)`
unfoldable pub used : List ℕ → ℕ
used [] = 0
used (b ∷ bs) = let n = used bs in if n == 0 && (b == 0) then 0 else suc n

-- What `log_hidpp` shows of a message: its full length and the bytes but for trailing zeros.
unfoldable pub log_hidpp : List ℕ → ℕ × List ℕ
unfolding used hex
log_hidpp msg = (length msg, hex (take (used msg) msg))

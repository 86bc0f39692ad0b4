-- ===== src/Hid/HexRead.antt =====
-- The hex text of src/hid.rs read back: a dump and a logged message say every byte.
use rp_wheel_bridge.Base.{
  ℕ, zero, suc, ◌+◌, ◌-◌, ◌*◌, ◌/◌, ◌%◌, ◌≤◌, ◌<◌, ◌≡◌, refl, sym, ap, ◌∙◌, List, [], ◌∷◌, ◌++◌,
  Option, none, some, ◌&&◌, ◌==◌, leb, if◌then◌else◌, take, drop, length, replicate, IsByte,
  AllBytes, All-take, All-drop, take-drop, drop_all, length-drop, length-take, if_intro, ap₂, true,
  arith,
}
use native.Mathlib.Decide.{dec_le}
use rp_wheel_bridge.Hid.Hex.{
  hex_digit, hex_byte, spaced, hex, dump_width, chunks, dump_lines, log_hex_dump, used, log_hidpp,
}

infixl 5 ◌>>=◌
abbrev ◌>>=◌ : {A B : Type 0} → Option A → (A → Option B) → Option B
none >>= k = none
some a >>= k = k a

-- A reader of such text, independent of how it is written.
abbrev pub digit_value : ℕ → Option ℕ
digit_value c =
    if leb b'0' c && leb c b'9'
    then some (c - b'0')
    else if leb b'a' c && leb c b'f'
    then some (10 + (c - b'a'))
    else none

abbrev pub byte_value : ℕ → ℕ → Option ℕ
byte_value h l = do high ← digit_value h; low ← digit_value l; some (high * 16 + low)

abbrev pub read_spaced : List ℕ → Option (List ℕ)
read_spaced [] = some []
read_spaced (s ∷ h ∷ l ∷ rest) =
    let later = read_spaced rest in
    if s == b' ' then (do b ← byte_value h l; bs ← later; some (b ∷ bs)) else none
read_spaced _ = none

abbrev pub read_hex : List ℕ → Option (List ℕ)
read_hex [] = some []
read_hex (c ∷ cs) = read_spaced (b' ' ∷ c ∷ cs)

-- The lines of a dump, whose offsets count the bytes before them.
abbrev pub read_dump : ℕ → List (ℕ × List ℕ) → Option (List ℕ)
read_dump at [] = some []
read_dump at ((offset, text) ∷ ls) = do
  bytes ← read_hex text
  rest ← read_dump (at + length bytes) ls
  if offset == at then some (bytes ++ rest) else none

digit_value-hex_digit : (n : ℕ) → n < 16 → digit_value (hex_digit n) ≡ some n
unfolding hex_digit
digit_value-hex_digit n h = ground arith

byte_value_lem :
    (b : ℕ) → IsByte b → byte_value (hex_digit (b / 16 % 16)) (hex_digit (b % 16)) ≡ some b
byte_value_lem b h =
    rw
      (
        digit_value-hex_digit (b / 16 % 16) (omega arith),
        digit_value-hex_digit (b % 16) (omega arith),
      )
      (ap some (omega arith))

read_spaced_lem : (bs : List ℕ) → AllBytes bs → read_spaced (spaced bs) ≡ some bs
unfolding spaced hex_byte
read_spaced_lem [] h = refl
read_spaced_lem (b ∷ bs) (hb, h) = rw (byte_value_lem b hb, read_spaced_lem bs h) refl

-- The text of `Hex` says which bytes it was made from.
pub read_hex_lem : (bs : List ℕ) → AllBytes bs → read_hex (hex bs) ≡ some bs
unfolding hex hex_byte
read_hex_lem [] h = refl
read_hex_lem (b ∷ bs) h = read_spaced_lem (b ∷ bs) h

read_dump-cons :
    (at : ℕ) (text bytes : List ℕ) (ls : List (ℕ × List ℕ)) (rest : List ℕ)
    → read_hex text ≡ some bytes
    → read_dump (at + length bytes) ls ≡ some rest
    → read_dump at ((at, text) ∷ ls) ≡ some (bytes ++ rest)
read_dump-cons at text bytes ls rest e f =
    let here : (at == at) ≡ true = ground arith in rw (e, f, here) refl

-- The line after a chunk: the chunk is whole, or it was the last.
read_dump-next :
    (fuel i : ℕ) (bs : List ℕ)
    → read_dump (suc i * dump_width) (dump_lines (chunks fuel (suc i) (drop dump_width bs)))
      ≡ some (drop dump_width bs)
    → read_dump
        (i * dump_width + length (take dump_width bs))
        (dump_lines (chunks fuel (suc i) (drop dump_width bs)))
      ≡ some (drop dump_width bs)
unfolding chunks dump_lines
read_dump-next fuel i bs h = elim (dec_le dump_width (length bs)) [
  | yes whole ↦
      let len : i * dump_width + length (take dump_width bs) ≡ suc i * dump_width =
        omega (arith, length-take dump_width bs) in
      rw len h
  | no short ↦ rw (drop_all dump_width bs (omega arith)) refl
]

read_dump-chunks :
    (fuel i : ℕ) (bs : List ℕ)
    → length bs ≤ fuel
    → AllBytes bs
    → read_dump (i * dump_width) (dump_lines (chunks fuel i bs)) ≡ some bs
unfolding chunks dump_lines
read_dump-chunks fuel i [] h all = refl
read_dump-chunks zero i (b ∷ bs) h all = absurd (omega arith)
read_dump-chunks (suc fuel) i (b ∷ bs) h all =
    let all_bytes = b ∷ bs in
    let later = drop dump_width all_bytes in
    let left : length later ≤ fuel = omega (arith, length-drop dump_width all_bytes) in
    read_dump-cons (i * dump_width) (hex (take dump_width all_bytes)) (take dump_width all_bytes)
      (dump_lines (chunks fuel (suc i) later)) later
      (read_hex_lem _ (All-take IsByte dump_width all_bytes all))
      (read_dump-next fuel i all_bytes
        (read_dump-chunks fuel (suc i) later left (All-drop IsByte dump_width all_bytes all)))
    ∙ ap some (take-drop dump_width all_bytes)

-- A hex dump loses nothing: reading its lines back gives the bytes, and the offset of each line is
-- the number of bytes before it.
pub log_hex_dump_lem : (bs : List ℕ) → AllBytes bs → read_dump 0 (log_hex_dump bs) ≡ some bs
unfolding log_hex_dump
log_hex_dump_lem bs h = read_dump-chunks (length bs) 0 bs (omega arith) h

-- Behind the part that is used there are only zeros.
used_lem : (bs : List ℕ) → used bs ≤ length bs
unfolding used
used_lem [] = omega arith
used_lem (b ∷ bs) = ground (arith, used_lem bs)

used-pads : (bs : List ℕ) → take (used bs) bs ++ replicate (length bs - used bs) 0 ≡ bs
unfolding used
used-pads [] = refl
used-pads (b ∷ bs) =
    if_intro (λ n. take n (b ∷ bs) ++ replicate (suc (length bs) - n) 0 ≡ b ∷ bs)
      (used bs == 0 && (b == 0)) 0 (suc (used bs))
      (λ none_used.
        let zero_used : used bs ≡ 0 = ground arith in
        let zero_byte : b ≡ 0 = ground arith in
        let whole : suc (length bs) - 0 ≡ suc (length bs - 0) = omega arith in
        rw whole (
          ap₂ (λ c cs. c ∷ cs) (sym zero_byte)
            (ap (λ n. take n bs ++ replicate (length bs - n) 0) (sym zero_used) ∙ used-pads bs)))
      (λ some_used.
        let less : suc (length bs) - suc (used bs) ≡ length bs - used bs = omega arith in
        rw less (ap (λ cs. b ∷ cs) (used-pads bs)))

-- What the log shows of a HID++ message determines it: the bytes shown, filled up with zeros to the
-- length shown, are the message.
pub log_hidpp_lem :
    (msg : List ℕ)
    → AllBytes msg
    → let (len, text) = log_hidpp msg in
      (shown : List ℕ) × (read_hex text ≡ some shown)
      × (shown ++ replicate (len - length shown) 0 ≡ msg)
unfolding log_hidpp
log_hidpp_lem msg h = (
  take (used msg) msg,
  read_hex_lem _ (All-take IsByte (used msg) msg h),
  let len : length msg - length (take (used msg) msg) ≡ length msg - used msg =
        omega (arith, length-take (used msg) msg, used_lem msg) in
      rw len (used-pads msg),
)

-- ===== src/UsbHost/Utf16.antt =====
-- `Utf16Le` of src/usb_host.rs: how a string descriptor's payload is shown. Characters are code
-- points; `char::decode_utf16` of core is written out.
use rp_wheel_bridge.Base.{
  ℕ, ◌+◌, ◌-◌, ◌*◌, ◌/◌, ◌%◌, ◌<◌, ◌≤◌, ◌≡◌, refl, ap, ap₂, ◌∙◌, List, [], ◌∷◌, ◌++◌, map, Option,
  none, some, Bool, true, false, not, ◌==◌, ltb, if◌then◌else◌, le16, le_bytes16, All, ◌⊎◌, inl,
  inr, Bool-cases, if_intro, ltb→lt, All-append, arith,
}

-- `as_chunks::<2>().0`, each chunk as a little-endian number: an odd byte at the end is left out.
unfoldable pub units : List ℕ → List ℕ
units [] = []
units (lo ∷ []) = []
units (lo ∷ hi ∷ rest) = le16 lo hi ∷ units rest

-- `u & 0xf800 == 0xd800` of a 16-bit unit
abbrev pub is_surrogate : ℕ → Bool
is_surrogate u = u / 0x800 == 0x1b

abbrev pub is_low_surrogate : ℕ → Bool
is_low_surrogate u = u / 0x400 == 0x37

abbrev pub pair_value : ℕ → ℕ → ℕ
pair_value high low = 0x10000 + high % 0x400 * 0x400 + low % 0x400

-- `char::decode_utf16`; `none`: an unpaired surrogate.
unfoldable pub decode_utf16 : List ℕ → List (Option ℕ)
decode_utf16 [] = []
decode_utf16 (u ∷ []) = (if is_surrogate u then none else some u) ∷ []
decode_utf16 (u ∷ v ∷ us) =
    let one = decode_utf16 (v ∷ us) in
    let two = decode_utf16 us in
    if not (is_surrogate u)
    then some u ∷ one
    else if is_low_surrogate u
    then none ∷ one
    else if is_low_surrogate v
    then some (pair_value u v) ∷ two
    else none ∷ one

abbrev pub replacement_character : ℕ
replacement_character = 0xfffd

abbrev pub unwrap_or_replacement : Option ℕ → ℕ
unwrap_or_replacement none = replacement_character
unwrap_or_replacement (some c) = c

-- `Utf16Le`'s `fmt`
unfoldable pub utf16_le : List ℕ → List ℕ
unfolding units decode_utf16
utf16_le bytes = map unwrap_or_replacement (decode_utf16 (units bytes))

-- UTF-16 as a device writes it: a character's units, and the bytes of units.
abbrev pub units_of : ℕ → List ℕ
units_of c =
    if ltb c 0x10000
    then c ∷ []
    else (0xd800 + (c - 0x10000) / 0x400) ∷ (0xdc00 + (c - 0x10000) % 0x400) ∷ []

abbrev pub encode_utf16 : List ℕ → List ℕ
encode_utf16 [] = []
encode_utf16 (c ∷ cs) = units_of c ++ encode_utf16 cs

abbrev pub bytes_of : List ℕ → List ℕ
bytes_of [] = []
bytes_of (u ∷ us) = le_bytes16 u ++ bytes_of us

-- A Unicode scalar value: below 0x110000, and no surrogate.
abbrev pub IsScalar : ℕ → Type 0
IsScalar c = (c < 0x110000) × ((c < 0xd800) ⊎ (0xe000 ≤ c))

abbrev IsUnit : ℕ → Type 0
IsUnit u = u < 0x10000

units-bytes_of : (us : List ℕ) → All IsUnit us → units (bytes_of us) ≡ us
unfolding units
units-bytes_of [] h = refl
units-bytes_of (u ∷ us) (h, hs) =
    let same : le16 (u % 256) (u / 256 % 256) ≡ u = omega arith in
    ap₂ (λ v vs. v ∷ vs) same (units-bytes_of us hs)

decode-plain :
    (u : ℕ) (us : List ℕ)
    → is_surrogate u ≡ false
    → decode_utf16 (u ∷ us) ≡ some u ∷ decode_utf16 us
unfolding decode_utf16
decode-plain u [] h = rw h refl
decode-plain u (v ∷ us) h = rw h refl

decode-pair :
    (u v : ℕ) (us : List ℕ)
    → is_surrogate u ≡ true
    → is_low_surrogate u ≡ false
    → is_low_surrogate v ≡ true
    → decode_utf16 (u ∷ v ∷ us) ≡ some (pair_value u v) ∷ decode_utf16 us
unfolding decode_utf16
decode-pair u v us h high low = rw (h, high, low) refl

-- The units of a character above 0xffff are a pair of surrogates, and stand for it.
pair_lem :
    (c : ℕ)
    → 0x10000 ≤ c
    → c < 0x110000
    → let high = 0xd800 + (c - 0x10000) / 0x400 in
      let low = 0xdc00 + (c - 0x10000) % 0x400 in
      (is_surrogate high ≡ true)
      × (is_low_surrogate high ≡ false)
      × (is_low_surrogate low ≡ true)
      × (pair_value high low ≡ c)
pair_lem c ge lt = (ground arith, ground arith, ground arith, omega arith)

plain_lem : (c : ℕ) → (c < 0xd800) ⊎ (0xe000 ≤ c) → is_surrogate c ≡ false
plain_lem c h = ground arith

decode-units_of :
    (c : ℕ) (us : List ℕ) → IsScalar c → decode_utf16 (units_of c ++ us) ≡ some c ∷ decode_utf16 us
decode-units_of c us (below, valid) = elim (Bool-cases (ltb c 0x10000)) [
  | inl one ↦ rw one (decode-plain c us (plain_lem c valid))
  | inr two ↦
      let (h, high, low, value) = pair_lem c (ground arith) below in
      rw two (
        decode-pair (0xd800 + (c - 0x10000) / 0x400) (0xdc00 + (c - 0x10000) % 0x400) us h high low
        ∙ ap (λ d. some d ∷ decode_utf16 us) value)
]

decode-encode : (cs : List ℕ) → All IsScalar cs → decode_utf16 (encode_utf16 cs) ≡ map some cs
unfolding decode_utf16
decode-encode [] h = refl
decode-encode (c ∷ cs) (h, hs) =
    decode-units_of c (encode_utf16 cs) h ∙ ap (λ ds. some c ∷ ds) (decode-encode cs hs)

units_of-IsUnit : (c : ℕ) → IsScalar c → All IsUnit (units_of c)
units_of-IsUnit c (below, valid) =
    if_intro (All IsUnit) (ltb c 0x10000) _ _ (λ one. (ltb→lt c 0x10000 one, tt))
      (λ two. (omega arith, (omega arith, tt)))

encode-IsUnit : (cs : List ℕ) → All IsScalar cs → All IsUnit (encode_utf16 cs)
encode-IsUnit [] h = record {}
encode-IsUnit (c ∷ cs) (h, hs) =
    All-append IsUnit (units_of c) (encode_utf16 cs) (units_of-IsUnit c h) (encode-IsUnit cs hs)

map-some : (cs : List ℕ) → map unwrap_or_replacement (map some cs) ≡ cs
map-some [] = refl
map-some (c ∷ cs) = ap (λ ds. c ∷ ds) (map-some cs)

-- A string that a device gives in UTF-16 is shown as it is, characters beyond 16 bits included.
pub utf16_le_lem : (cs : List ℕ) → All IsScalar cs → utf16_le (bytes_of (encode_utf16 cs)) ≡ cs
unfolding utf16_le
utf16_le_lem cs h =
    ap (λ us. map unwrap_or_replacement (decode_utf16 us))
      (units-bytes_of (encode_utf16 cs) (encode-IsUnit cs h))
    ∙ ap (map unwrap_or_replacement) (decode-encode cs h)
    ∙ map-some cs

-- ===== src/Proxy/RevLights.antt =====
-- `rev_lights` of src/proxy.rs: the console's rev lights become levels of the wheel's LEDs.
use rp_wheel_bridge.Base.{
  ==_iff, ℕ, zero, suc, ◌+◌, ◌*◌, ◌/◌, ◌%◌, ◌≡◌, ◌≤◌, refl, ap, ◌∙◌, List, [], ◌∷◌, Option, none,
  some, Bool, true, false, not, ◌&&◌, ◌||◌, ◌==◌, leb, if◌then◌else◌, get_or, replicate, copy_at,
  bit_and, bit_or, u8, IsByte, every, every_byte_lem, AllBytes, All, arith, Bool-cases, inl, inr,
}
use rp_wheel_bridge.Proxy.Hidpp.{bridge_swid}

abbrev pub hidpp_long_len : ℕ
hidpp_long_len = 20

-- `REV_LIGHTS`
abbrev pub is_rev_lights : ℕ → ℕ → Bool
is_rev_lights a b = a == 0xf8 && (b == 0x12)

-- `count_ones` of the low `n` bits
unfoldable pub count_ones : ℕ → ℕ → ℕ
count_ones zero v = 0
count_ones (suc n) v = v % 2 + count_ones n (v / 2)

-- The level of a mask: two per LED of the console.
unfoldable pub level_of : ℕ → ℕ
unfolding count_ones
level_of mask = u8 (count_ones 8 (bit_and mask 0x1f) * 2)

-- The HID++ request that sets a level; `index` is the wheel's index of the LED feature.
unfoldable pub led_message : ℕ → ℕ → List ℕ
led_message index lit =
    copy_at (replicate hidpp_long_len 0) 0
      (0x11 ∷ 0xff ∷ index ∷ bit_or 0x60 bridge_swid ∷ 0x00 ∷ 0x01 ∷ 0x00 ∷ 0x0a ∷ 0x00 ∷ lit ∷ [])

-- `let [0x30, a, b, mask, ..] = *report`, and the test of the command; `none`: the function returns.
unfoldable pub rev_mask : ℕ → List ℕ → Option ℕ
rev_mask index (r ∷ a ∷ b ∷ mask ∷ rest) =
    if not (r == 0x30)
    then none
    else if not (is_rev_lights a b) || (index == 0)
    then none
    else some mask
rev_mask index _ = none

abbrev pub is_same : Option ℕ → ℕ → Bool
is_same none n = false
is_same (some m) n = m == n

-- The last level, and the requests sent to the wheel, the latest first. Whether a request
-- succeeds is logged only: `last` is set before it is sent.
pub record Lights : Type 0 where
  pub last : Option ℕ
  pub sent : List (List ℕ)

abbrev pub unlit : Lights
unlit = record { last = none; sent = [] }

unfoldable pub set_level : ℕ → Option ℕ → Lights → Lights
unfolding level_of led_message
set_level index none s = s
set_level index (some mask) s =
    let lit = level_of mask in
    if is_same s.last lit
    then s
    else record { last = some lit; sent = led_message index lit ∷ s.sent }

unfoldable pub rev_lights : ℕ → List ℕ → Lights → Lights
unfolding set_level rev_mask
rev_lights index report s = set_level index (rev_mask index report) s

unfoldable pub rev_lights_all : ℕ → List (List ℕ) → Lights → Lights
unfolding rev_lights
rev_lights_all index [] s = s
rev_lights_all index (report ∷ reports) s = rev_lights_all index reports (rev_lights index report s)

-- How many of the console's five LEDs the mask lights.
abbrev pub leds : ℕ → ℕ
leds mask = bit mask 0x01 + bit mask 0x02 + bit mask 0x04 + bit mask 0x08 + bit mask 0x10
  where
    bit : ℕ → ℕ → ℕ
    bit m b = if bit_and m b == 0 then 0 else 1

-- What a report asks for: `30 f8 12 <mask>` two levels per LED, if the wheel has an LED feature.
abbrev pub asks : ℕ → List ℕ → Option ℕ
asks index (r ∷ a ∷ b ∷ mask ∷ rest) =
    if (r == 0x30) && (a == 0xf8) && (b == 0x12) && not (index == 0)
    then some (2 * leds mask)
    else none
asks index _ = none

abbrev pub or_before : Option ℕ → Option ℕ → Option ℕ
or_before before none = before
or_before before (some level) = some level

-- The level that the latest rev light command asks for.
unfoldable pub wanted : ℕ → Option ℕ → List (List ℕ) → Option ℕ
wanted index before [] = before
wanted index before (report ∷ reports) = wanted index (or_before before (asks index report)) reports

-- The level that a request sets.
abbrev pub level_in : List ℕ → ℕ
level_in message = get_or message 9 0

-- The level that the latest of these requests asks for, the latest first.
abbrev pub asked_by : List (List ℕ) → Option ℕ
asked_by [] = none
asked_by (message ∷ messages) = some (level_in message)

-- Function 6 of the LED feature, with a level of at most ten.
abbrev pub IsLedRequest : ℕ → List ℕ → Type 0
IsLedRequest index message =
    (message
      ≡ 0x11 ∷ 0xff ∷ index ∷ 0x6b ∷ 0 ∷ 1 ∷ 0 ∷ 0x0a ∷ 0 ∷ level_in message ∷ replicate 10 0)
    × (level_in message ≤ 10)

-- No request repeats the level of the one before it.
abbrev pub IsQuiet : ℕ → List (List ℕ) → Type 0
IsQuiet index [] = Unit
IsQuiet index (message ∷ messages) =
    IsLedRequest index message
    × (is_same (asked_by messages) (level_in message) ≡ false)
    × IsQuiet index messages

level_of_le : (mask : ℕ) → IsByte mask → level_of mask ≤ 10
unfolding level_of count_ones every
level_of_le mask h =
    let run : leb (level_of mask) 10 ≡ true =
      every_byte_lem (λ m. leb (level_of m) 10) mask refl h in
    ground arith

level_of-leds : (mask : ℕ) → IsByte mask → level_of mask ≡ 2 * leds mask
unfolding level_of count_ones every
level_of-leds mask h = (==_iff _ _).0 (every_byte_lem (λ m. level_of m == 2 * leds m) mask refl h)

led_message-IsLedRequest : (index lit : ℕ) → lit ≤ 10 → IsLedRequest index (led_message index lit)
unfolding led_message
led_message-IsLedRequest index lit h = (refl, h)

-- The function takes a report up exactly if it asks for a level.
rev_mask-asks :
    (index : ℕ) (report : List ℕ)
    → AllBytes report
    → elim (rev_mask index report) [ none ↦ none | some mask ↦ some (level_of mask) ]
      ≡ asks index report
unfolding rev_mask
rev_mask-asks index [] h = refl
rev_mask-asks index (r ∷ []) h = refl
rev_mask-asks index (r ∷ a ∷ []) h = refl
rev_mask-asks index (r ∷ a ∷ b ∷ []) h = refl
rev_mask-asks index (r ∷ a ∷ b ∷ m ∷ rest) (hr, (ha, (hb, (hm, hs)))) =
    ground (arith, level_of-leds m hm)

is_same_lem : (o : Option ℕ) (n : ℕ) → is_same o n ≡ true → o ≡ some n
is_same_lem none n e = absurd cc
is_same_lem (some m) n e = ap some (ground arith)

rev_mask-IsByte :
    (index : ℕ) (report : List ℕ) (mask : ℕ)
    → AllBytes report
    → rev_mask index report ≡ some mask
    → IsByte mask
unfolding rev_mask
rev_mask-IsByte index [] mask h e = absurd cc
rev_mask-IsByte index (r ∷ []) mask h e = absurd cc
rev_mask-IsByte index (r ∷ a ∷ []) mask h e = absurd cc
rev_mask-IsByte index (r ∷ a ∷ b ∷ []) mask h e = absurd cc
rev_mask-IsByte index (r ∷ a ∷ b ∷ m ∷ rest) mask (hr, (ha, (hb, (hm, hs)))) e = ground arith

record IsAsked (index : ℕ) (s : Lights) : Type 0 where
  level : asked_by s.sent ≡ s.last
  quiet : IsQuiet index s.sent

set_level-IsAsked :
    (index : ℕ) (o : Option ℕ) (s : Lights)
    → ((mask : ℕ) → o ≡ some mask → IsByte mask)
    → IsAsked index s
    → IsAsked index (set_level index o s)
      × ((set_level index o s).last ≡ elim o [ none ↦ s.last | some mask ↦ some (level_of mask) ])
unfolding set_level
set_level-IsAsked index none s byte h = (h, refl)
set_level-IsAsked index (some mask) s byte h = elim (Bool-cases (is_same s.last (level_of mask))) [
  | inl same ↦ rw same (h, is_same_lem s.last (level_of mask) same)
  | inr changed ↦ rw changed (
    record {
      level = refl;
      quiet = (
        led_message-IsLedRequest index (level_of mask) (level_of_le mask (byte mask refl)),
        rw h.level changed,
        h.quiet,
      );
    },
    refl,
  )
]

-- What a report makes of the level before it.
after_report :
    (index : ℕ) (report : List ℕ) (before : Option ℕ)
    → AllBytes report
    → elim (rev_mask index report) [ none ↦ before | some mask ↦ some (level_of mask) ]
      ≡ or_before before (asks index report)
after_report index report before h =
    go (rev_mask index report) ∙ ap (or_before before) (rev_mask-asks index report h)
  where
    go :
        (o : Option ℕ)
        → elim o [ none ↦ before | some mask ↦ some (level_of mask) ]
          ≡ or_before before (elim o [ none ↦ none | some mask ↦ some (level_of mask) ])
    go none = refl
    go (some mask) = refl

rev_lights_all-IsAsked :
    (index : ℕ) (reports : List (List ℕ)) (s : Lights)
    → All AllBytes reports
    → IsAsked index s
    → IsAsked index (rev_lights_all index reports s)
      × ((rev_lights_all index reports s).last ≡ wanted index s.last reports)
unfolding rev_lights_all rev_lights wanted
rev_lights_all-IsAsked index [] s bytes h = (h, refl)
rev_lights_all-IsAsked index (report ∷ reports) s (bytes, more) h =
    let (kept, now) =
      set_level-IsAsked index (rev_mask index report) s
        (λ mask. rev_mask-IsByte index report mask bytes) h in
    let (end, last) = rev_lights_all-IsAsked index reports (rev_lights index report s) more kept in
    (end, last ∙ ap (λ o. wanted index o reports) (now ∙ after_report index report s.last bytes))

-- Whatever output reports the console sends: the latest request that the wheel is sent, whether or not
-- it succeeds, asks for the level of the latest rev light command among the reports, twice the number
-- of the console's LEDs that its mask lights; each request is the LED feature's function 6 with a level
-- of at most ten, and none repeats the level of the one before it.
pub rev_lights_all_lem :
    (index : ℕ) (reports : List (List ℕ))
    → All AllBytes reports
    → let s = rev_lights_all index reports unlit in
      (asked_by s.sent ≡ wanted index none reports) × IsQuiet index s.sent
rev_lights_all_lem index reports bytes =
    let (h, last) =
      rev_lights_all-IsAsked index reports unlit bytes
        (record { level = refl; quiet = record {} }) in
    (h.level ∙ last, h.quiet)

-- ===== src/Device/Accounted.antt =====
-- `log_stats` of src/proxy.rs and src/relay.rs: the numbers that it logs account for everything that was
-- counted.
use mathlib.Core.List.{append-nil, append_assoc, map-append}
use rp_wheel_bridge.Base.{
  ℕ, ◌+◌, ◌≤◌, ◌≡◌, refl, sym, ap, ◌∙◌, List, [], ◌∷◌, ◌++◌, map, if◌then◌else◌, All, All-append,
  u32, arith, get_or, Bool-cases, inl, inr, true, ==_iff,
}
use rp_wheel_bridge.Device.Stats.{
  Counter, input_sent, hidpp_sent, hidpp_set_report, ffb_sent, ffb_received, dropped, wheel_input,
  wheel_hidpp, wheel_ffb, ffb_trueforce, hidpp_written, ffb_written, backend_input, backend_hidpp,
  backend_ffb, if0_written, address_of, is_counter, Values, count_up, reset, Taken, Stats, Turn,
  counts, steps, log_stats, take_turn, take_turns, cleared,
}

-- All counters, by their addresses.
abbrev counters : List Counter
counters =
    input_sent ∷ hidpp_sent ∷ hidpp_set_report ∷ ffb_sent ∷ ffb_received ∷ dropped ∷ wheel_input
    ∷ wheel_hidpp ∷ wheel_ffb ∷ ffb_trueforce ∷ hidpp_written ∷ ffb_written ∷ backend_input
    ∷ backend_hidpp ∷ backend_ffb ∷ if0_written ∷ []

get_or-address_of : (c : Counter) → get_or counters (address_of c) input_sent ≡ c
get_or-address_of input_sent = refl
get_or-address_of hidpp_sent = refl
get_or-address_of hidpp_set_report = refl
get_or-address_of ffb_sent = refl
get_or-address_of ffb_received = refl
get_or-address_of dropped = refl
get_or-address_of wheel_input = refl
get_or-address_of wheel_hidpp = refl
get_or-address_of wheel_ffb = refl
get_or-address_of ffb_trueforce = refl
get_or-address_of hidpp_written = refl
get_or-address_of ffb_written = refl
get_or-address_of backend_input = refl
get_or-address_of backend_hidpp = refl
get_or-address_of backend_ffb = refl
get_or-address_of if0_written = refl

is_counter→≡ : (c d : Counter) → is_counter c d ≡ true → c ≡ d
is_counter→≡ c d h =
    sym (get_or-address_of c)
    ∙ ap (λ a. get_or counters a input_sent) ((==_iff (address_of c) (address_of d)).0 h)
    ∙ get_or-address_of d

-- How often `c` is counted.
abbrev pub counted : Counter → List Turn → ℕ
counted c [] = 0
counted c (counts d ∷ ts) = (if is_counter d c then 1 else 0) + counted c ts
counted c (steps ∷ ts) = counted c ts

-- What the entries say of `c`.
abbrev pub told : Counter → List Taken → ℕ
told c [] = 0
told c ((d, n) ∷ es) = (if is_counter d c then n else 0) + told c es

abbrev pub told_all : Counter → List (List Taken) → ℕ
told_all c [] = 0
told_all c (l ∷ ls) = told c l + told_all c ls

-- What was told of `c`, is still to be told in this line, or waits in the counter.
abbrev pub account : Counter → Stats → ℕ
account c s = told_all c s.lines + told c s.line + s.values c

told-append : (c : Counter) (es fs : List Taken) → told c (es ++ fs) ≡ told c es + told c fs
told-append c [] fs = omega arith
told-append c (e ∷ es) fs = omega (arith, told-append c es fs)

told_all-append :
    (c : Counter) (ls ms : List (List Taken))
    → told_all c (ls ++ ms) ≡ told_all c ls + told_all c ms
told_all-append c [] ms = omega arith
told_all-append c (l ∷ ls) ms = omega (arith, told_all-append c ls ms)

-- A take moves what waits in the counter to the line.
take-value : (c d : Counter) (v : Values) → (if is_counter d c then v d else 0) + reset d v c ≡ v c
unfolding reset
take-value c d v = elim (Bool-cases (is_counter d c)) [
  | inl same ↦ rw same (omega (arith, ap v (is_counter→≡ d c same)))
  | inr other ↦ rw other (omega arith)
]

counted-cons :
    (c : Counter) (t : Turn) (ts : List Turn)
    → counted c (t ∷ ts) ≡ counted c (t ∷ []) + counted c ts
counted-cons c (counts d) ts = omega arith
counted-cons c steps ts = omega arith

module _ (format : List Counter) where
  log_stats-account : (c : Counter) (s : Stats) → account c (log_stats format s) ≡ account c s
  unfolding log_stats
  log_stats-account c s = go s.left
    where
      go :
          (left : List Counter)
          → account c (log_stats format (record s { left = left })) ≡ account c s
      go [] = omega (arith, told_all-append c s.lines (s.line ∷ []))
      go (d ∷ left) =
          omega (arith, told-append c s.line ((d, s.values d) ∷ []), take-value c d s.values)

  -- The line so far and what it lacks are the format; and each line logged has it whole.
  abbrev pub IsInForm : Stats → Type 0
  IsInForm s =
      (map (λ (e : Taken). e.0) s.line ++ s.left ≡ format)
      × All (λ (l : List Taken). map (λ (e : Taken). e.0) l ≡ format) s.lines

  log_stats-IsInForm : (s : Stats) → IsInForm s → IsInForm (log_stats format s)
  unfolding log_stats
  log_stats-IsInForm s (line, lines) = go s.left line
    where
      go :
          (left : List Counter)
          → map (λ (e : Taken). e.0) s.line ++ left ≡ format
          → IsInForm (log_stats format (record s { left = left }))
      go [] h = (refl, All-append _ s.lines (s.line ∷ []) lines (sym (append-nil _) ∙ h, record {}))
      go (d ∷ left) h = (
        ap (λ l. l ++ left) (map-append (λ (e : Taken). e.0) s.line ((d, s.values d) ∷ []))
            ∙ append_assoc (map (λ (e : Taken). e.0) s.line) (d ∷ []) left
            ∙ h,
        lines,
      )

  take_turn-account :
      (c : Counter) (t : Turn) (s : Stats) (before : ℕ)
      → (u32 (account c s) ≡ u32 before) × (account c s ≤ before)
      → let after = before + counted c (t ∷ []) in
        let a = account c (take_turn format t s) in (u32 a ≡ u32 after) × (a ≤ after)
  unfolding take_turn count_up
  take_turn-account c (counts d) s before h = elim (Bool-cases (is_counter d c)) [
    | inl same ↦ rw same (omega arith, omega arith)
    | inr other ↦ rw other (omega arith, omega arith)
  ]
  take_turn-account c steps s before h = rw (log_stats-account c s) (omega arith, omega arith)

  take_turn-IsInForm : (t : Turn) (s : Stats) → IsInForm s → IsInForm (take_turn format t s)
  unfolding take_turn
  take_turn-IsInForm (counts c) s h = h
  take_turn-IsInForm steps s h = log_stats-IsInForm s h

  take_turns-account :
      (c : Counter) (ts : List Turn) (s : Stats) (before : ℕ)
      → (u32 (account c s) ≡ u32 before) × (account c s ≤ before)
      → IsInForm s
      → let s' = take_turns format ts s in
        (u32 (account c s') ≡ u32 (before + counted c ts))
        × (account c s' ≤ before + counted c ts)
        × IsInForm s'
  unfolding take_turns
  take_turns-account c [] s before h k = (omega arith, omega arith, k)
  take_turns-account c (t ∷ ts) s before h k =
      let now = take_turn-account c t s before h in
      let (same, most, form) =
        take_turns-account c ts (take_turn format t s) (before + counted c (t ∷ [])) now
          (take_turn-IsInForm t s k) in
      let split = counted-cons c t ts in
      (omega (arith, same, split), omega (arith, most, split), form)

  -- However the loops count and log_stats goes on: every line that was logged has the counters of the
  -- format in their order; and for each counter, what the lines say, what the line so far says and what
  -- waits in the counter are together how often it was counted, modulo 2^32, and never more than that.
  pub take_turns-counted :
      (ts : List Turn) (c : Counter)
      → let s = take_turns format ts (cleared format) in
        (u32 (account c s) ≡ u32 (counted c ts)) × (account c s ≤ counted c ts) × IsInForm s
  take_turns-counted ts c =
      let (same, most, form) =
        take_turns-account c ts (cleared format) 0 (omega arith, omega arith) (refl, record {}) in
      (omega (arith, same), omega (arith, most), form)

-- ===== src/Hub/Errors.antt =====
-- How `events` of src/hub.rs logs the errors of the hub. Times are in milliseconds.
use rp_wheel_bridge.Base.{
  ℕ, suc, ◌+◌, ◌-◌, ◌^◌, ◌≤◌, ◌<◌, ◌≡◌, refl, List, [], ◌∷◌, Option, none, some, Bool, true, false,
  leb, if◌then◌else◌, if_intro, length, u32, ◌⊎◌, inl, inr, sym, subst, arith,
}

abbrev pub error_log_interval : ℕ
error_log_interval = 5000

-- The variables of the loop, and the lines logged with their times and counts, the latest first.
pub record Errors : Type 0 where
  pub last_error_log : Option ℕ
  pub errors_since_log : ℕ
  pub logs : List (ℕ × ℕ)

abbrev pub no_errors : Errors
no_errors = record { last_error_log = none; errors_since_log = 0; logs = [] }

-- `last_error_log.is_none_or(|t| now - t >= ERROR_LOG_INTERVAL)`
abbrev pub is_due : ℕ → Option ℕ → Bool
is_due now none = true
is_due now (some t) = leb error_log_interval (now - t)

-- An error at time `now`.
unfoldable pub on_error : ℕ → Errors → Errors
on_error now s =
    let n = u32 (s.errors_since_log + 1) in
    if is_due now s.last_error_log
    then record { last_error_log = some now; errors_since_log = 0; logs = (now, n) ∷ s.logs }
    else record s { errors_since_log = n }

unfoldable pub on_errors : List ℕ → Errors → Errors
unfolding on_error
on_errors [] s = s
on_errors (now ∷ nows) s = on_errors nows (on_error now s)

-- Lines at least 5 s apart, the latest first.
abbrev pub IsSpaced : List (ℕ × ℕ) → Type 0
IsSpaced [] = Unit
IsSpaced ((t, n) ∷ []) = Unit
IsSpaced ((t, n) ∷ (u, m) ∷ logs) = (u + error_log_interval ≤ t) × IsSpaced ((u, m) ∷ logs)

-- The errors that the lines tell of.
abbrev pub told : List (ℕ × ℕ) → ℕ
told [] = 0
told ((t, n) ∷ logs) = n + told logs

abbrev pub line_time : List (ℕ × ℕ) → Option ℕ
line_time [] = none
line_time ((t, n) ∷ logs) = some t

-- The latest error is told of, or the latest line is less than 5 s older.
abbrev pub IsFresh : ℕ → Errors → Type 0
IsFresh now s =
    (s.errors_since_log ≡ 0)
    ⊎ ((t : ℕ) × (line_time s.logs ≡ some t) × (now < t + error_log_interval))

-- What holds after `n` errors.
record IsCounted (n : ℕ) (s : Errors) : Type 0 where
  all : told s.logs + s.errors_since_log ≡ n
  spaced : IsSpaced s.logs
  line_time_lem : line_time s.logs ≡ s.last_error_log

IsSpaced-cons :
    (now n : ℕ) (logs : List (ℕ × ℕ))
    → IsSpaced logs
    → is_due now (line_time logs) ≡ true
    → IsSpaced ((now, n) ∷ logs)
IsSpaced-cons now n [] h due = record {}
IsSpaced-cons now n ((u, m) ∷ logs) h due = (ground arith, h)

waits_lem :
    (now : ℕ) (line last : Option ℕ)
    → line ≡ last
    → is_due now last ≡ false
    → (t : ℕ) × (line ≡ some t) × (now < t + error_log_interval)
waits_lem now line none e waits = absurd cc
waits_lem now line (some t) e waits = (t, e, ground arith)

on_error-IsCounted :
    (now n : ℕ) (s : Errors)
    → suc n < 2 ^ 32
    → IsCounted n s
    → IsCounted (suc n) (on_error now s) × IsFresh now (on_error now s)
unfolding on_error
on_error-IsCounted now n s small h =
    if_intro (λ s'. IsCounted (suc n) s' × IsFresh now s') (is_due now s.last_error_log) _ _
      (λ due. (
        record {
          all = omega (arith, h.all);
          spaced =
              IsSpaced-cons now (u32 (s.errors_since_log + 1)) s.logs h.spaced
                (subst (λ l. is_due now l ≡ true) (sym h.line_time_lem) due);
          line_time_lem = refl;
        },
        inl refl,
      ))
      (λ waits. (
        record { all = omega (arith, h.all); spaced = h.spaced; line_time_lem = h.line_time_lem },
        inr (waits_lem now (line_time s.logs) s.last_error_log h.line_time_lem waits),
      ))

abbrev pub last_time : ℕ → List ℕ → ℕ
last_time known [] = known
last_time known (now ∷ nows) = last_time now nows

on_errors-IsCounted :
    (nows : List ℕ) (t n : ℕ) (s : Errors)
    → n + length nows < 2 ^ 32
    → IsCounted n s
    → IsFresh t s
    → IsCounted (n + length nows) (on_errors nows s) × IsFresh (last_time t nows) (on_errors nows s)
unfolding on_errors
on_errors-IsCounted [] t n s small h fresh =
    let same : n + 0 ≡ n = omega arith in rw same (h, fresh)
on_errors-IsCounted (now ∷ nows) t n s small h fresh =
    let (h', fresh') = on_error-IsCounted now n s (omega arith) h in
    let same : n + suc (length nows) ≡ suc n + length nows = omega arith in
    rw same (on_errors-IsCounted nows now (suc n) (on_error now s) (omega arith) h' fresh')

-- Whatever errors the hub gives and when, up to 2^32 of them: the counts of the lines that are
-- logged and the count since the last line add up to the errors; the lines are at least 5 s apart;
-- and when the latest error is not told of, the latest line is less than 5 s older than it.
pub on_errors_lem :
    (nows : List ℕ)
    → length nows < 2 ^ 32
    → let s = on_errors nows no_errors in
      (told s.logs + s.errors_since_log ≡ length nows)
      × IsSpaced s.logs
      × IsFresh (last_time 0 nows) s
on_errors_lem nows small =
    let start : IsCounted 0 no_errors = record {
      all = refl;
      spaced = record {};
      line_time_lem = refl;
    } in
    let (h, fresh) = on_errors-IsCounted nows 0 0 no_errors (omega arith) start (inl refl) in
    (omega (arith, h.all), h.spaced, fresh)

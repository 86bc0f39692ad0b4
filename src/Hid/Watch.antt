-- ===== src/Hid/Watch.antt =====
-- Which reports `monitor_interface` of src/hid.rs logs.
use rp_wheel_bridge.Base.{
  ℕ, ◌+◌, ◌-◌, ◌≤◌, ◌<◌, ◌≡◌, refl, sym, ◌∙◌, List, [], ◌∷◌, All, Bool, true, false, ◌&&◌, leb,
  if_intro, take-copy_at, length, length-copy_at, beq_bytes, Bool-cases, inl, inr, ◌⊎◌, arith,
}
use rp_wheel_bridge.Hid.Monitor.{
  Polled, report, failed, timeout, Monitor, watch, current, log_current, on_report, log_change,
  log_rate, monitor_interface, max_report_len, report_log_interval, stats_interval,
}

-- Logged reports, the latest first: at least 100 ms lie between two of them.
abbrev pub IsSpaced : List (ℕ × List ℕ) → Type 0
IsSpaced [] = Unit
IsSpaced ((t, b) ∷ []) = Unit
IsSpaced ((t, b) ∷ (u, c) ∷ logs) = (u + report_log_interval ≤ t) × IsSpaced ((u, c) ∷ logs)

-- The report logged last, or none of a byte.
abbrev pub latest_log : List (ℕ × List ℕ) → List ℕ
latest_log [] = []
latest_log ((t, b) ∷ logs) = b

abbrev log_time : List (ℕ × List ℕ) → ℕ
log_time [] = 0
log_time ((t, b) ∷ logs) = t

-- The report received last before an error, or else what was known before.
abbrev pub latest_report : List ℕ → List (Polled × ℕ) → List ℕ
latest_report known [] = known
latest_report known ((report bytes, now) ∷ polls) = latest_report bytes polls
latest_report known ((failed, now) ∷ polls) = known
latest_report known ((timeout, now) ∷ polls) = latest_report known polls

-- Whether there was no error, and the time of the last round.
abbrev pub goes_on : List (Polled × ℕ) → Bool
goes_on [] = true
goes_on ((failed, now) ∷ polls) = false
goes_on ((_, now) ∷ polls) = goes_on polls

abbrev pub last_round : ℕ → List (Polled × ℕ) → ℕ
last_round known [] = known
last_round known ((p, now) ∷ polls) = last_round now polls

-- A report fits the buffer.
abbrev pub Fits : Polled × ℕ → Type 0
Fits (report bytes, now) = length bytes ≤ max_report_len
Fits (failed, now) = Unit
Fits (timeout, now) = Unit

-- What holds between the rounds, of the latest report.
record IsWatching (latest : List ℕ) (s : Monitor) : Type 0 where
  room : length s.last ≡ max_report_len
  current_lem : current s ≡ latest
  logged : s.unlogged_change ≡ false → latest_log s.logs ≡ latest
  spaced : IsSpaced s.logs
  log_time_lem : log_time s.logs ≡ s.last_logged

beq_bytes→eq : (xs ys : List ℕ) → beq_bytes xs ys ≡ true → xs ≡ ys
unfolding beq_bytes
beq_bytes→eq [] [] h = refl
beq_bytes→eq [] (y ∷ ys) h = absurd cc
beq_bytes→eq (x ∷ xs) [] h = absurd cc
beq_bytes→eq (x ∷ xs) (y ∷ ys) h =
    let e = beq_bytes→eq xs ys (ground arith) in
    let first : x ≡ y = ground arith in rw (e, first) refl

on_report-IsWatching :
    (bytes known : List ℕ) (s : Monitor)
    → length bytes ≤ max_report_len
    → IsWatching known s
    → IsWatching bytes (on_report bytes s)
unfolding on_report
on_report-IsWatching bytes known s fits h =
    if_intro (IsWatching bytes) (beq_bytes bytes (current s)) _ _
      (λ same.
        let e = beq_bytes→eq bytes (current s) same in
        record {
          room = h.room;
          current_lem = sym e;
          logged = λ k. h.logged k ∙ sym (e ∙ h.current_lem);
          spaced = h.spaced;
          log_time_lem = h.log_time_lem;
        })
      (λ changed. record {
        room = length-copy_at s.last 0 bytes ∙ h.room;
        current_lem = take-copy_at s.last bytes (omega (arith, h.room));
        logged = λ k. absurd cc;
        spaced = h.spaced;
        log_time_lem = h.log_time_lem;
      })

IsSpaced-cons :
    (t : ℕ) (b : List ℕ) (logs : List (ℕ × List ℕ))
    → IsSpaced logs
    → log_time logs + report_log_interval ≤ t
    → IsSpaced ((t, b) ∷ logs)
IsSpaced-cons t b [] h le = record {}
IsSpaced-cons t b ((u, c) ∷ logs) h le = (le, h)

log_change-IsWatching :
    (now : ℕ) (known : List ℕ) (s : Monitor)
    → IsWatching known s
    → IsWatching known (log_change now s)
      × ((log_change now s).unlogged_change ≡ true
          → now < (log_change now s).last_logged + report_log_interval)
unfolding log_change
log_change-IsWatching now known s h =
    if_intro
      (λ s'.
        IsWatching known s'
        × (s'.unlogged_change ≡ true → now < s'.last_logged + report_log_interval))
      (s.unlogged_change && leb report_log_interval (now - s.last_logged)) (log_current now s) s
      (λ due. (
        record {
          room = h.room;
          current_lem = h.current_lem;
          logged = λ k. h.current_lem;
          spaced = IsSpaced-cons now (current s) s.logs h.spaced (ground (arith, h.log_time_lem));
          log_time_lem = refl;
        },
        λ k. absurd cc,
      ))
      (λ waits. (h, λ k. ground arith))

log_rate-IsWatching :
    (now : ℕ) (known : List ℕ) (s : Monitor)
    → IsWatching known s
    → (s.unlogged_change ≡ true → now < s.last_logged + report_log_interval)
    → let s' = log_rate now s in
      IsWatching known s' × (s'.unlogged_change ≡ true → now < s'.last_logged + report_log_interval)
unfolding log_rate
log_rate-IsWatching now known s h soon =
    if_intro
      (λ s'.
        IsWatching known s'
        × (s'.unlogged_change ≡ true → now < s'.last_logged + report_log_interval))
      (leb stats_interval (now - s.stats_start)) _ _
      (λ due. (
        record {
          room = h.room;
          current_lem = h.current_lem;
          logged = h.logged;
          spaced = h.spaced;
          log_time_lem = h.log_time_lem;
        },
        soon,
      ))
      (λ waits. (h, soon))

-- What holds of the rounds from `s` on, of the latest report `known` and the time `t`.
abbrev IsWatched : List (Polled × ℕ) → List ℕ → ℕ → Monitor → Type 0
IsWatched polls known t s =
    let end = monitor_interface polls s in
    IsWatching (latest_report known polls) end
    × (goes_on polls ≡ true
        → end.unlogged_change ≡ true
        → last_round t polls < end.last_logged + report_log_interval)

monitor_interface-IsWatched :
    (polls : List (Polled × ℕ)) (known : List ℕ) (t : ℕ) (s : Monitor)
    → All Fits polls
    → IsWatching known s
    → (s.unlogged_change ≡ true → t < s.last_logged + report_log_interval)
    → IsWatched polls known t s
unfolding monitor_interface
monitor_interface-IsWatched [] known t s fits h soon = (h, λ on. soon)
monitor_interface-IsWatched ((failed, now) ∷ polls) known t s fits h soon = (h, λ on. absurd cc)
monitor_interface-IsWatched ((report bytes, now) ∷ polls) known t s (fit, fits) h soon =
    let received = on_report-IsWatching bytes known s fit h in
    let (logged, soon') = log_change-IsWatching now bytes (on_report bytes s) received in
    let (rated, soon'') =
      log_rate-IsWatching now bytes (log_change now (on_report bytes s)) logged soon' in
    monitor_interface-IsWatched polls bytes now _ fits rated soon''
monitor_interface-IsWatched ((timeout, now) ∷ polls) known t s (fit, fits) h soon =
    let (logged, soon') = log_change-IsWatching now known s h in
    let (rated, soon'') = log_rate-IsWatching now known (log_change now s) logged soon' in
    monitor_interface-IsWatched polls known now _ fits rated soon''

-- Whatever reports of at most 64 bytes come and when: those that are logged lie at least 100 ms apart;
-- the latest one received is the one logged last, or a change is still to be logged; and then, unless
-- a transfer has failed, less than 100 ms have passed since the last log.
pub monitor_interface_lem :
    (polls : List (Polled × ℕ)) (now : ℕ)
    → All Fits polls
    → let end = monitor_interface polls (watch now) in
      IsSpaced end.logs
      × ((latest_log end.logs ≡ latest_report [] polls)
          ⊎ ((end.unlogged_change ≡ true)
              × ((goes_on polls ≡ false)
                  ⊎ (last_round now polls < end.last_logged + report_log_interval))))
monitor_interface_lem polls now fits =
    let start : IsWatching [] (watch now) = record {
      room = refl;
      current_lem = refl;
      logged = λ k. refl;
      spaced = record {};
      log_time_lem = refl;
    } in
    let (h, soon) =
      monitor_interface-IsWatched polls [] now (watch now) fits start (λ k. absurd cc) in
    let end = monitor_interface polls (watch now) in
    (
      h.spaced,
      elim (Bool-cases end.unlogged_change) [
        | inr all ↦ inl (h.logged all)
        | inl some_left ↦ elim (Bool-cases (goes_on polls)) [
          | inl on ↦ inr (some_left, inr (soon on some_left))
          | inr off ↦ inr (some_left, inl off)
        ]
      ],
    )

-- ===== src/Proxy/Sampler.antt =====
-- `Sampler` of src/proxy.rs: a log of a fast stream of packets. Times are in milliseconds.
use rp_wheel_bridge.Base.{
  ℕ, ◌+◌, ◌-◌, ◌^◌, ◌≤◌, ◌<◌, ◌≡◌, refl, subst, List, [], ◌∷◌, Option, none, some, Bool, false, not,
  ◌&&◌, ◌||◌, ltb, if◌then◌else◌, if_intro, length, u32, arith, Bool-cases, ◌⊎◌, inl, inr,
}
use rp_wheel_bridge.Proxy.Ffb.{is_at}

abbrev pub ffb_log_interval : ℕ
ffb_log_interval = 2000

-- A logged packet: its time, the packets left out since the one before it, and its bytes.
pub record Sample : Type 0 where
  pub time : ℕ
  pub left_out : ℕ
  pub bytes : List ℕ

-- The fields, and what was logged, the latest first.
pub record Sampler : Type 0 where
  pub last : Option ℕ
  pub skipped : ℕ
  pub samples : List Sample

abbrev pub silent : Sampler
silent = record { last = none; skipped = 0; samples = [] }

-- `packet.first() != Some(&0x01) || matches!(packet.get(4), Some(0x01 | 0x02))`
abbrev pub is_stream : List ℕ → Bool
is_stream packet = not (is_at packet 0 0x01) || is_at packet 4 0x01 || is_at packet 4 0x02

-- `last.is_some_and(|t| now - t < FFB_LOG_INTERVAL)`
abbrev pub is_early : Option ℕ → ℕ → Bool
is_early none now = false
is_early (some t) now = ltb (now - t) ffb_log_interval

-- The packet is logged.
abbrev pub take_sample : ℕ → List ℕ → Sampler → Sampler
take_sample now packet s = record {
  last = some now;
  skipped = 0;
  samples = record { time = now; left_out = s.skipped; bytes = packet } ∷ s.samples;
}

unfoldable pub log : ℕ → List ℕ → Sampler → Sampler
log now packet s =
    if is_stream packet && is_early s.last now
    then record s { skipped = u32 (s.skipped + 1) }
    else take_sample now packet s

unfoldable pub log_all : List (ℕ × List ℕ) → Sampler → Sampler
unfolding log
log_all [] s = s
log_all ((now, packet) ∷ packets) s = log_all packets (log now packet s)

-- The packets that the log accounts for.
abbrev pub accounted : List Sample → ℕ
accounted [] = 0
accounted (m ∷ ms) = m.left_out + 1 + accounted ms

-- The samples of the stream, the latest first, each at least 2 s after the sample before it.
abbrev pub IsSampled : List Sample → Type 0
IsSampled [] = Unit
IsSampled (m ∷ []) = Unit
IsSampled (m ∷ n ∷ ms) =
    ((is_stream m.bytes ≡ false) ⊎ (n.time + ffb_log_interval ≤ m.time)) × IsSampled (n ∷ ms)

abbrev latest_time : List Sample → Option ℕ
latest_time [] = none
latest_time (m ∷ ms) = some m.time

record IsLogging (count : ℕ) (s : Sampler) : Type 0 where
  total : accounted s.samples + s.skipped ≡ count
  sampled : IsSampled s.samples
  last_lem : s.last ≡ latest_time s.samples

IsSampled-cons :
    (now : ℕ) (packet : List ℕ) (left_out : ℕ) (last : Option ℕ) (ms : List Sample)
    → (is_stream packet && is_early last now) ≡ false
    → last ≡ latest_time ms
    → IsSampled ms
    → IsSampled (record { time = now; left_out = left_out; bytes = packet } ∷ ms)
IsSampled-cons now packet left_out last [] h e k = record {}
IsSampled-cons now packet left_out last (m ∷ ms) h e k = (gap, k)
  where
    early_lem :
        (o : Option ℕ) → o ≡ some m.time → is_early o now ≡ false → m.time + ffb_log_interval ≤ now
    early_lem none o f = absurd cc
    early_lem (some t) o f = let same : t ≡ m.time = cc in ground (arith, same)

    gap : (is_stream packet ≡ false) ⊎ (m.time + ffb_log_interval ≤ now)
    gap = elim (Bool-cases (is_stream packet)) [
      | inl stream ↦ inr (early_lem last e (rw⁻¹ h (rw stream refl)))
      | inr other ↦ inl other
    ]

log-IsLogging :
    (now : ℕ) (packet : List ℕ) (n : ℕ) (s : Sampler)
    → n + 1 < 2 ^ 32
    → IsLogging n s
    → IsLogging (n + 1) (log now packet s)
unfolding log
log-IsLogging now packet n s small h =
    if_intro (IsLogging (n + 1)) (is_stream packet && is_early s.last now) _
      (take_sample now packet s)
      (λ early. record {
        total = omega (arith, h.total);
        sampled = h.sampled;
        last_lem = h.last_lem;
      })
      (λ due. record {
        total = omega (arith, h.total);
        sampled = IsSampled-cons now packet s.skipped s.last s.samples due h.last_lem h.sampled;
        last_lem = refl;
      })

log_all-IsLogging :
    (packets : List (ℕ × List ℕ)) (n : ℕ) (s : Sampler)
    → n + length packets < 2 ^ 32
    → IsLogging n s
    → IsLogging (n + length packets) (log_all packets s)
unfolding log_all
log_all-IsLogging [] n s small h = subst (λ k. IsLogging k s) (omega arith) h
log_all-IsLogging ((now, packet) ∷ packets) n s small h =
    let first = log-IsLogging now packet n s (omega arith) h in
    subst (λ k. IsLogging k (log_all packets (log now packet s))) (omega arith)
      (log_all-IsLogging packets (n + 1) (log now packet s) (omega arith) first)

-- Of fewer than 2 ^ 32 packets the log accounts for each one, as logged or as left out before one
-- that is; and a packet of the stream is logged only when 2 s have passed since the last sample.
pub log_all_lem :
    (packets : List (ℕ × List ℕ))
    → length packets < 2 ^ 32
    → let s = log_all packets silent in
      (accounted s.samples + s.skipped ≡ length packets) × IsSampled s.samples
log_all_lem packets small =
    let start : IsLogging 0 silent = record {
      total = refl;
      sampled = record {};
      last_lem = refl;
    } in
    let h = log_all-IsLogging packets 0 silent (omega arith) start in
    (omega (arith, h.total), h.sampled)

-- ===== src/UartLog/Records.antt =====
-- `UartLogger::log` and `push` of src/uart_log.rs: records on their way into the pipe.
use mathlib.Core.List.{append_assoc, append-nil}
use rp_wheel_bridge.Base.{
  ℕ, zero, suc, ◌+◌, ◌-◌, ◌^◌, ◌≤◌, ◌<◌, ◌≡◌, refl, sym, ap, ◌∙◌, List, [], ◌∷◌, ◌++◌, Option, none,
  some, ◌==◌, ltb, if◌then◌else◌, length, min, take, drop, arith, length-take, length-drop,
  length-append, take-drop, Bool-cases, inl, inr, ◌⊎◌,
}
use rp_wheel_bridge.UartLog.Line.{LineBuf, new, end_line, bytes, write_all, line_of, end_line_lem}

abbrev pub pipe_len : ℕ
pipe_len = 16384

abbrev pub line_len : ℕ
line_len = 320

abbrev pub notice_len : ℕ
notice_len = 40

-- embassy-sync's `Pipe` with room for `pipe_len` bytes: `try_write` fails when the pipe is full, and
-- else writes at least one byte, but not always all of them.
pub record Pipes : Type 1 where
  pub Pipe : Type 0
  pub items : Pipe → List ℕ
  pub free_capacity : Pipe → ℕ
  pub try_write : List ℕ → Pipe → Option (ℕ × Pipe)
  pub free_lem : (p : Pipe) → free_capacity p + length (items p) ≡ pipe_len
  pub write_lem :
      (src : List ℕ) (p : Pipe)
      → 0 < length src
      → 0 < free_capacity p
      → (n : ℕ) × (q : Pipe) × (try_write src p ≡ some (n, q))
        × (0 < n)
        × (n ≤ length src)
        × (items q ≡ items p ++ take n src)

module _ (pipes : Pipes) where
  open pipes use {Pipe, items, free_capacity, try_write, free_lem, write_lem}

  -- `push`; `none`: the fuel is used up.
  unfoldable pub push : ℕ → List ℕ → Pipe → Option Pipe
  push fuel [] p = some p
  push zero (b ∷ bs) p = none
  push (suc fuel) (b ∷ bs) p = elim (try_write (b ∷ bs) p) [
    | none ↦ some p
    | some (n, q) ↦ push fuel (drop n (b ∷ bs)) q
  ]

  -- The pipe and `DROPPED`.
  pub record Log : Type 0 where
    pub pipe : Pipe
    pub dropped : ℕ

  -- `saturating_add(1)` of a `u32`
  abbrev pub saturating_suc : ℕ → ℕ
  saturating_suc n = min (n + 1) (2 ^ 32 - 1)

  -- The notice of dropped records, empty when there are none; `notice_text n` are the pieces that
  -- `core::fmt` writes for `[n log records dropped]`.
  unfoldable pub notice : (ℕ → List (List ℕ)) → ℕ → LineBuf
  unfolding new
  notice notice_text dropped =
      if dropped == 0
      then new notice_len
      else end_line (write_all notice_len (notice_text dropped) (new notice_len))

  unfoldable pub push_both : ℕ → List ℕ → List ℕ → Pipe → Option Log
  unfolding push
  push_both fuel first second p = elim (push fuel first p) [
    | none ↦ none
    | some q ↦ elim (push fuel second q) [
      | none ↦ none
      | some r ↦ some (record { pipe = r; dropped = 0 })
    ]
  ]

  -- `log`, with the pieces of the formatted record.
  unfoldable pub log : ℕ → (ℕ → List (List ℕ)) → List (List ℕ) → Log → Option Log
  unfolding notice push_both
  log fuel notice_text texts s =
      let line = end_line (write_all line_len texts (new line_len)) in
      let told = notice notice_text s.dropped in
      if ltb (free_capacity s.pipe) (told.len + line.len)
      then some (record s { dropped = saturating_suc s.dropped })
      else push_both fuel (bytes told) (bytes line) s.pipe

  push_step :
      (fuel b : ℕ) (bs : List ℕ) (p q : Pipe) (n : ℕ)
      → try_write (b ∷ bs) p ≡ some (n, q)
      → push (suc fuel) (b ∷ bs) p ≡ push fuel (drop n (b ∷ bs)) q
  unfolding push
  push_step fuel b bs p q n e = rw (e, push) refl

  push_both_step :
      (fuel : ℕ) (first second : List ℕ) (p q r : Pipe)
      → push fuel first p ≡ some q
      → push fuel second q ≡ some r
      → push_both fuel first second p ≡ some (record { pipe = r; dropped = 0 })
  unfolding push_both
  push_both_step fuel first second p q r e f = rw (e, f, push_both) refl

  push_lem :
      (fuel : ℕ) (src : List ℕ) (p : Pipe)
      → length src ≤ fuel
      → length src ≤ free_capacity p
      → (q : Pipe) × (push fuel src p ≡ some q) × (items q ≡ items p ++ src)
  unfolding push
  push_lem fuel [] p le fits = (p, refl, sym (append-nil (items p)))
  push_lem zero (b ∷ bs) p le fits = absurd (omega arith)
  push_lem (suc fuel) (b ∷ bs) p le fits =
      let (n, q, e, pos, most, after) = write_lem (b ∷ bs) p (omega arith) (omega arith) in
      let rest = drop n (b ∷ bs) in
      let fewer : length rest ≤ fuel = omega (arith, length-drop n (b ∷ bs)) in
      let room : length rest ≤ free_capacity q = omega (
        arith,
        length-drop n (b ∷ bs),
        length-take n (b ∷ bs),
        length-append (items p) (take n (b ∷ bs)),
        ap length after,
        free_lem p,
        free_lem q,
      ) in
      let (r, f, end) = push_lem fuel rest q fewer room in
      (
        r,
        push_step fuel b bs p q n e ∙ f,
        end
            ∙ rw after (
                append_assoc (items p) (take n (b ∷ bs)) rest
                ∙ ap (λ t. items p ++ t) (take-drop n (b ∷ bs))),
      )

  -- The text that a call of `log` sends when there is room: the notice, if records were dropped,
  -- and the record, each a line of its own.
  unfoldable pub sent : (ℕ → List (List ℕ)) → List (List ℕ) → ℕ → List ℕ
  sent notice_text texts dropped =
      (if dropped == 0 then [] else line_of notice_len (notice_text dropped))
      ++ line_of line_len texts

  notice_lem :
      (notice_text : ℕ → List (List ℕ)) (dropped : ℕ)
      → let told = notice notice_text dropped in
        (bytes told ≡ (if dropped == 0 then [] else line_of notice_len (notice_text dropped)))
        × (told.len ≡ length (bytes told))
        × (told.len ≤ notice_len)
  unfolding notice new bytes
  notice_lem notice_text dropped = elim (Bool-cases (dropped == 0)) [
    | inl none_lost ↦ rw none_lost (refl, refl, omega arith)
    | inr lost ↦
        let (e, count, most) = end_line_lem notice_len (notice_text dropped) (omega arith) in
        rw lost (e, count ∙ sym (ap length e), most)
  ]

  push_both_lem :
      (fuel : ℕ) (first second : List ℕ) (p : Pipe)
      → length first ≤ fuel
      → length second ≤ fuel
      → length first + length second ≤ free_capacity p
      → (s : Log) × (push_both fuel first second p ≡ some s)
        × (items s.pipe ≡ items p ++ (first ++ second))
        × (s.dropped ≡ 0)
  unfolding push_both
  push_both_lem fuel first second p le le' fits =
      let (q, e, after) = push_lem fuel first p le (omega arith) in
      let room : length second ≤ free_capacity q =
        omega (arith, length-append (items p) first, ap length after, free_lem p, free_lem q) in
      let (r, f, end) = push_lem fuel second q le' room in
      (
        record { pipe = r; dropped = 0 },
        push_both_step fuel first second p q r e f,
        end ∙ rw after (append_assoc (items p) first second),
        refl,
      )

  -- A record that is logged reaches the pipe whole, behind what is there and a notice of the
  -- records dropped since the last one, and the count of those starts again; or, when there is no
  -- room for both lines, nothing is written and one more is counted as dropped. The loops end with
  -- fuel for 320 rounds.
  pub log_lem :
      (fuel : ℕ) (notice_text : ℕ → List (List ℕ)) (texts : List (List ℕ)) (s : Log)
      → line_len ≤ fuel
      → let text = sent notice_text texts s.dropped in
        (s' : Log) × (log fuel notice_text texts s ≡ some s')
        × (((length text ≤ free_capacity s.pipe)
              × (items s'.pipe ≡ items s.pipe ++ text)
              × (s'.dropped ≡ 0))
            ⊎ ((free_capacity s.pipe < length text)
                × (s'.pipe ≡ s.pipe)
                × (s'.dropped ≡ saturating_suc s.dropped)))
  unfolding log sent
  log_lem fuel notice_text texts s enough =
      let line = end_line (write_all line_len texts (new line_len)) in
      let told = notice notice_text s.dropped in
      let (line_bytes, line_count, line_most) = end_line_lem line_len texts (omega arith) in
      let (told_bytes, told_count, told_most) = notice_lem notice_text s.dropped in
      let text : bytes told ++ bytes line ≡ sent notice_text texts s.dropped =
        rw (told_bytes, line_bytes) refl in
      let total : length (sent notice_text texts s.dropped) ≡ told.len + line.len = omega (
        arith,
        ap length text,
        length-append (bytes told) (bytes line),
        told_count,
        line_count,
        ap length line_bytes,
      ) in
      elim (Bool-cases (ltb (free_capacity s.pipe) (told.len + line.len))) [
        | inl full ↦ (
          record s { dropped = saturating_suc s.dropped },
          rw full refl,
          inr (ground (arith, total), refl, refl),
        )
        | inr room ↦
            let (s', e, after, zero_lost) =
              push_both_lem fuel (bytes told) (bytes line) s.pipe
                (omega (arith, told_count, told_most))
                (omega (arith, ap length line_bytes, line_count, line_most))
                (ground (arith, told_count, ap length line_bytes, line_count)) in
            (
              s',
              rw room e,
              inl (ground (arith, total), after ∙ ap (λ t. items s.pipe ++ t) text, zero_lost),
            )
      ]

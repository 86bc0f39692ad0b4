-- ===== src/UartLog/Task.antt =====
-- `task` of src/uart_log.rs, which drains the pipe to the UART, and the loggers of both cores beside
-- it, in any order.
use mathlib.Core.List.{append_assoc, append-nil}
use rp_wheel_bridge.Base.{
  ℕ, suc, ◌+◌, ◌^◌, ◌≤◌, ◌<◌, ◌≡◌, refl, sym, ap, ◌∙◌, List, [], ◌∷◌, ◌++◌, Option, none, some,
  length, length-append, arith, inl, inr, subst,
}
use rp_wheel_bridge.UartLog.Accounts.{Entry, Accounts, Accounts-lost, Accounts-sent, Accounts-le}
use rp_wheel_bridge.UartLog.Records.{Pipes, Log, log, sent, log_lem, saturating_suc, line_len}

abbrev pub chunk_len : ℕ
chunk_len = 64

-- The other end of the pipe. `read` waits while the pipe is empty (`none`), and else takes bytes from
-- its front, at least one and no more than the buffer holds.
pub record Reader (pipes : Pipes) : Type 0 where
  pub read : pipes.Pipe → Option (List ℕ × pipes.Pipe)
  pub read_empty : (p : pipes.Pipe) → pipes.items p ≡ [] → read p ≡ none
  pub read_lem :
      (p : pipes.Pipe)
      → 0 < length (pipes.items p)
      → (bytes : List ℕ) × (q : pipes.Pipe) × (read p ≡ some (bytes, q))
        × (0 < length bytes)
        × (length bytes ≤ chunk_len)
        × (bytes ++ pipes.items q ≡ pipes.items p)

-- A turn of the program: a record is logged, with the pieces of its text, or the task goes round.
pub data Turn : Type 0 where
  logs : List (List ℕ) → Turn
  drains : Turn

module _ (pipes : Pipes) (reader : Reader pipes) (notice_text : ℕ → List (List ℕ)) where
  open pipes use {items}

  -- The logger, and what the UART was given, `tx.write_all`.
  pub record Uart : Type 0 where
    pub logger : Log pipes
    pub written : List ℕ

  -- A round of the loop of `task`. An error of the UART is ignored, as in the source.
  unfoldable pub task : Uart → Uart
  task u = elim (reader.read u.logger.pipe) [
    | none ↦ u
    | some (bytes, q) ↦ record {
      logger = record u.logger { pipe = q };
      written = u.written ++ bytes;
    }
  ]

  unfoldable pub take_turn : Turn → Uart → Option Uart
  unfolding task
  take_turn drains u = some (task u)
  take_turn (logs texts) u = elim (log pipes line_len notice_text texts u.logger) [
    | none ↦ none
    | some l ↦ some (record u { logger = l })
  ]

  unfoldable pub take_turns : List Turn → Uart → Option Uart
  unfolding take_turn
  take_turns [] u = some u
  take_turns (t ∷ ts) u = elim (take_turn t u) [ none ↦ none | some v ↦ take_turns ts v ]

  abbrev pub text_of : List Entry → List ℕ
  text_of [] = []
  text_of ((dropped, texts) ∷ es) = sent pipes notice_text texts dropped ++ text_of es

  abbrev pub record_of : Turn → List (List (List ℕ))
  record_of (logs texts) = texts ∷ []
  record_of drains = []

  abbrev pub records : List Turn → List (List (List ℕ))
  records [] = []
  records (t ∷ ts) = record_of t ++ records ts

  -- What is true after the records `rs`: they are all accounted for.
  abbrev pub IsLogged : List (List (List ℕ)) → Uart → Type 0
  IsLogged rs u =
      (es : List Entry) × (u.written ++ items u.logger.pipe ≡ text_of es)
      × Accounts es u.logger.dropped rs

  text_of-append :
      (es : List Entry) (e : Entry)
      → text_of (es ++ e ∷ []) ≡ text_of es ++ sent pipes notice_text e.1 e.0
  text_of-append [] e = append-nil (sent pipes notice_text e.1 e.0)
  text_of-append (f ∷ es) e =
      ap (λ t. sent pipes notice_text f.1 f.0 ++ t) (text_of-append es e)
      ∙ sym (
          append_assoc (sent pipes notice_text f.1 f.0) (text_of es)
            (sent pipes notice_text e.1 e.0))

  -- What a round of `task` writes comes out of the pipe.
  task-kept :
      (u : Uart)
      → ((task u).written ++ items (task u).logger.pipe ≡ u.written ++ items u.logger.pipe)
        × ((task u).logger.dropped ≡ u.logger.dropped)
  unfolding task
  task-kept u = go (items u.logger.pipe) refl
    where
      go :
          (bytes : List ℕ)
          → items u.logger.pipe ≡ bytes
          → ((task u).written ++ items (task u).logger.pipe ≡ u.written ++ items u.logger.pipe)
            × ((task u).logger.dropped ≡ u.logger.dropped)
      go [] empty = rw (reader.read_empty u.logger.pipe empty, task) (refl, refl)
      go (b ∷ bs) full =
          let (bytes, q, e, pos, most, split) =
            reader.read_lem u.logger.pipe (omega (arith, ap length full)) in
          rw (e, task)
            (append_assoc u.written bytes (items q) ∙ ap (λ t. u.written ++ t) split, refl)

  -- A record that is logged, by what becomes of it.
  logs-IsLogged :
      (texts : List (List ℕ)) (rs : List (List (List ℕ))) (u : Uart)
      → suc (length rs) < 2 ^ 32
      → IsLogged rs u
      → (l : Log pipes) × (log pipes line_len notice_text texts u.logger ≡ some l)
        × IsLogged (rs ++ texts ∷ []) (record u { logger = l })
  logs-IsLogged texts rs u small (es, text, all) =
      let (l, e, outcome) = log_lem pipes line_len notice_text texts u.logger (omega arith) in
      let dropped = u.logger.dropped in
      let few : saturating_suc pipes dropped ≡ suc dropped =
        omega (arith, Accounts-le es dropped rs all) in
      (
        l,
        e,
        elim outcome [
          | inl (fits, after, none_lost) ↦ (
            es ++ (dropped, texts) ∷ [],
            ap (λ t. u.written ++ t) after
                ∙ sym (
                    append_assoc u.written (items u.logger.pipe)
                      (sent pipes notice_text texts dropped))
                ∙ ap (λ t. t ++ sent pipes notice_text texts dropped) text
                ∙ sym (text_of-append es (dropped, texts)),
            subst (λ n. Accounts (es ++ (dropped, texts) ∷ []) n (rs ++ texts ∷ [])) (sym none_lost)
                (Accounts-sent es dropped rs texts all),
          )
          | inr (full, same, more) ↦ (
            es,
            ap (λ p. u.written ++ items p) same ∙ text,
            subst (λ n. Accounts es n (rs ++ texts ∷ [])) (sym (more ∙ few))
                (Accounts-lost es dropped rs texts all),
          )
        ],
      )

  take_turn-IsLogged :
      (t : Turn) (rs : List (List (List ℕ))) (u : Uart)
      → length (record_of t) + length rs < 2 ^ 32
      → IsLogged rs u
      → (v : Uart) × (take_turn t u ≡ some v) × IsLogged (rs ++ record_of t) v
  unfolding take_turn
  take_turn-IsLogged drains rs u small (es, text, all) =
      let (kept, same) = task-kept u in
      (
        task u,
        refl,
        (es, kept ∙ text, rw (append-nil rs) (subst (λ n. Accounts es n rs) (sym same) all)),
      )
  take_turn-IsLogged (logs texts) rs u small h =
      let (l, e, h') = logs-IsLogged texts rs u (omega arith) h in
      (record u { logger = l }, rw (e, take_turn) refl, h')

  take_turns-IsLogged :
      (ts : List Turn) (rs : List (List (List ℕ))) (u : Uart)
      → length rs + length (records ts) < 2 ^ 32
      → IsLogged rs u
      → (v : Uart) × (take_turns ts u ≡ some v) × IsLogged (rs ++ records ts) v
  unfolding take_turns
  take_turns-IsLogged [] rs u small h = (u, refl, rw (append-nil rs) h)
  take_turns-IsLogged (t ∷ ts) rs u small h =
      let total = length-append (record_of t) (records ts) in
      let (v, e, kept) = take_turn-IsLogged t rs u (omega (arith, total)) h in
      let (x, f, end) =
        take_turns-IsLogged ts (rs ++ record_of t) v
          (omega (arith, total, length-append rs (record_of t))) kept in
      (
        x,
        rw (e, take_turns) f,
        subst (λ k. IsLogged k x) (append_assoc rs (record_of t) (records ts)) end,
      )

  -- However the loggers of both cores and the task take turns, with fewer than 2^32 records, from an
  -- empty pipe: the loops end; what the UART was given and then what waits in the pipe are lines of
  -- records, in the order in which they were logged; and every record is one of these, or counted in
  -- the notice before the next one of these, or, behind the last one, in DROPPED.
  pub take_turns_lem :
      (ts : List Turn) (u : Uart)
      → length (records ts) < 2 ^ 32
      → u.written ++ items u.logger.pipe ≡ []
      → u.logger.dropped ≡ 0
      → (v : Uart) × (take_turns ts u ≡ some v) × IsLogged (records ts) v
  take_turns_lem ts u small empty none_lost =
      take_turns-IsLogged ts [] u (omega arith) ([], empty, sym none_lost)

-- ===== src/UartLog/Examples.antt =====
-- Tests and concrete instances for the logger.
use native.Mathlib.Decide.{dec_lt}
use rp_wheel_bridge.Base.{
  ℕ, ◌+◌, ◌-◌, ◌≤◌, ◌<◌, ◌≡◌, refl, List, [], ◌∷◌, ◌++◌, Option, none, some, length, take, drop, ap,
  length-take, length-drop, take-drop, length-append, arith,
}
use rp_wheel_bridge.UartLog.Line.{line_of, concat}
use rp_wheel_bridge.UartLog.Records.{Pipes, pipe_len}
use rp_wheel_bridge.UartLog.Task.{
  Reader, Uart, Turn, logs, drains, chunk_len, take_turns, IsLogged, take_turns_lem,
}

cut_line : line_of 6 ((1 ∷ 2 ∷ []) ∷ (3 ∷ 4 ∷ 5 ∷ []) ∷ []) ≡ 1 ∷ 2 ∷ 3 ∷ 4 ∷ 13 ∷ 10 ∷ []
unfolding line_of concat
cut_line = refl

-- A pipe that takes one byte at a time.
record Slow : Type 0 where
  content : List ℕ
  bound : length content ≤ pipe_len

-- One byte more, if it fits.
grown : ℕ → (s : Slow) → Dec (length s.content < pipe_len) → Option (ℕ × Slow)
grown b s (yes fits) = some (
  1,
  record { content = s.content ++ b ∷ []; bound = omega (arith, length-append s.content (b ∷ [])) },
)
grown b s (no full) = none

slow_write : List ℕ → Slow → Option (ℕ × Slow)
slow_write [] s = none
slow_write (b ∷ bs) s = grown b s (dec_lt (length s.content) pipe_len)

grown_lem :
    (b : ℕ) (s : Slow) (d : Dec (length s.content < pipe_len))
    → length s.content < pipe_len
    → (q : Slow) × (grown b s d ≡ some (1, q)) × (q.content ≡ s.content ++ b ∷ [])
unfolding grown
grown_lem b s (yes fits) h = (_, refl, refl)
grown_lem b s (no full) h = absurd (full h)

slow_write_lem :
    (src : List ℕ) (s : Slow)
    → 0 < length src
    → 0 < pipe_len - length s.content
    → (n : ℕ) × (q : Slow) × (slow_write src s ≡ some (n, q))
      × (0 < n)
      × (n ≤ length src)
      × (q.content ≡ s.content ++ take n src)
unfolding slow_write
slow_write_lem [] s pos free = absurd (omega arith)
slow_write_lem (b ∷ bs) s pos free =
    let (q, e, after) = grown_lem b s (dec_lt (length s.content) pipe_len) (omega arith) in
    (1, q, e, omega arith, omega arith, after)

abbrev slow : Pipes
slow = record {
  Pipe = Slow;
  items = λ s. s.content;
  free_capacity = λ s. pipe_len - length s.content;
  try_write = slow_write;
  free_lem = λ s. omega (arith, s.bound);
  write_lem = slow_write_lem;
}

-- `2 dropped` for two dropped records
abbrev told : ℕ → List (List ℕ)
told n = ((n + 48) ∷ []) ∷ (32 ∷ 100 ∷ []) ∷ []

abbrev texts : List (List ℕ)
texts = (104 ∷ 105 ∷ []) ∷ []

-- Its other end: at most 64 bytes at a time.
bound_drop : (n : ℕ) (s : Slow) → length (drop n s.content) ≤ pipe_len
bound_drop n s = omega (arith, length-drop n s.content, s.bound)

slow_read : (s : Slow) → List ℕ → Option (List ℕ × Slow)
slow_read s [] = none
slow_read s (b ∷ bs) = some (
  take chunk_len s.content,
  record { content = drop chunk_len s.content; bound = bound_drop chunk_len s },
)

slow_read_empty : (s : Slow) (bytes : List ℕ) → bytes ≡ [] → slow_read s bytes ≡ none
unfolding slow_read
slow_read_empty s [] e = refl
slow_read_empty s (b ∷ bs) e = absurd cc

slow_read_lem :
    (s : Slow) (content : List ℕ)
    → s.content ≡ content
    → 0 < length content
    → (bytes : List ℕ) × (q : Slow) × (slow_read s content ≡ some (bytes, q))
      × (0 < length bytes)
      × (length bytes ≤ chunk_len)
      × (bytes ++ q.content ≡ s.content)
unfolding slow_read
slow_read_lem s [] same pos = absurd (omega arith)
slow_read_lem s (b ∷ bs) same pos = (
  take chunk_len s.content,
  record { content = drop chunk_len s.content; bound = bound_drop chunk_len s },
  refl,
  omega (arith, length-take chunk_len s.content, ap length same),
  omega (arith, length-take chunk_len s.content),
  take-drop chunk_len s.content,
)

abbrev reader : Reader slow
reader = record {
  read = λ s. slow_read s s.content;
  read_empty = λ s e. slow_read_empty s s.content e;
  read_lem = λ s pos. slow_read_lem s s.content refl pos;
}

abbrev quiet : Uart slow reader told
quiet = record {
  logger = record { pipe = record { content = []; bound = omega arith }; dropped = 0 };
  written = [];
}

-- Two records, with a round of the task between them and after them.
abbrev turns : List Turn
turns = logs texts ∷ drains ∷ logs texts ∷ drains ∷ []

take_turns_lem_example :
    (v : Uart slow reader told) × (take_turns slow reader told turns quiet ≡ some v)
    × IsLogged slow reader told (texts ∷ texts ∷ []) v
take_turns_lem_example = take_turns_lem slow reader told turns quiet (omega arith) refl refl

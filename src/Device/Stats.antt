-- ===== src/Device/Stats.antt =====
-- The counters of src/device.rs, src/proxy.rs and src/relay.rs, which loops on both cores count up, and
-- `log_stats` of src/proxy.rs and src/relay.rs, which takes them: an `AtomicU32` each, in any order.
use rp_wheel_bridge.Base.{ℕ, List, [], ◌∷◌, ◌++◌, Bool, ◌==◌, if◌then◌else◌}
use rp_wheel_bridge.Device.Streams.{count}

-- The statics: `STATS` of src/device.rs, those of src/proxy.rs, and those of src/relay.rs. Only the
-- proxy or the relay runs; they name two of theirs alike.
pub data Counter : Type 0 where
  input_sent hidpp_sent hidpp_set_report ffb_sent ffb_received dropped : Counter
  wheel_input wheel_hidpp wheel_ffb ffb_trueforce : Counter
  hidpp_written ffb_written : Counter
  backend_input backend_hidpp backend_ffb if0_written : Counter

-- The counters are different statics.
abbrev pub address_of : Counter → ℕ
address_of input_sent = 0
address_of hidpp_sent = 1
address_of hidpp_set_report = 2
address_of ffb_sent = 3
address_of ffb_received = 4
address_of dropped = 5
address_of wheel_input = 6
address_of wheel_hidpp = 7
address_of wheel_ffb = 8
address_of ffb_trueforce = 9
address_of hidpp_written = 10
address_of ffb_written = 11
address_of backend_input = 12
address_of backend_hidpp = 13
address_of backend_ffb = 14
address_of if0_written = 15

abbrev pub is_counter : Counter → Counter → Bool
is_counter c d = address_of c == address_of d

-- The values of the counters.
abbrev pub Values : Type 0
Values = Counter → ℕ

-- `count(&c)`
unfoldable pub count_up : Counter → Values → Values
count_up c v = λ d. if is_counter c d then count (v d) else v d

-- `c.swap(0)`, but for what it returns.
unfoldable pub reset : Counter → Values → Values
reset c v = λ d. if is_counter c d then 0 else v d

-- The arguments of `log::info!` in src/proxy.rs, in the order in which they are taken.
abbrev pub proxy_line : List Counter
proxy_line =
    wheel_input ∷ input_sent ∷ wheel_hidpp ∷ hidpp_sent ∷ hidpp_set_report ∷ hidpp_written
    ∷ wheel_ffb ∷ ffb_sent ∷ ffb_received ∷ ffb_written ∷ ffb_trueforce ∷ dropped ∷ []

-- Those in src/relay.rs.
abbrev pub relay_line : List Counter
relay_line =
    backend_input ∷ input_sent ∷ if0_written ∷ backend_hidpp ∷ hidpp_sent ∷ hidpp_set_report
    ∷ hidpp_written ∷ backend_ffb ∷ ffb_sent ∷ ffb_received ∷ ffb_written ∷ dropped ∷ []

-- A number that was taken, with its counter.
abbrev pub Taken : Type 0
Taken = Counter × ℕ

-- The counters, and where `log_stats` is: the counters that the line still lacks, the entries that it
-- has, and the lines that were logged.
pub record Stats : Type 0 where
  pub values : Values
  pub left : List Counter
  pub line : List Taken
  pub lines : List (List Taken)

-- A turn: a loop counts, or `log_stats` goes on by a step.
pub data Turn : Type 0 where
  counts : Counter → Turn
  steps : Turn

module _ (format : List Counter) where
  -- One step: a counter is taken, or the line is logged and the next interval begins.
  unfoldable pub log_stats : Stats → Stats
  unfolding reset
  log_stats s = elim s.left [
    | [] ↦ record s { left = format; line = []; lines = s.lines ++ s.line ∷ [] }
    | c ∷ left ↦ record {
      values = reset c s.values;
      left = left;
      line = s.line ++ (c, s.values c) ∷ [];
      lines = s.lines;
    }
  ]

  unfoldable pub take_turn : Turn → Stats → Stats
  unfolding log_stats count_up
  take_turn (counts c) s = record s { values = count_up c s.values }
  take_turn steps s = log_stats s

  unfoldable pub take_turns : List Turn → Stats → Stats
  unfolding take_turn
  take_turns [] s = s
  take_turns (t ∷ ts) s = take_turns ts (take_turn t s)

  -- Nothing was counted yet, and the first interval runs.
  abbrev pub cleared : Stats
  cleared = record { values = λ c. 0; left = format; line = []; lines = [] }

-- ===== src/Hid/Monitor.antt =====
-- `monitor_interface` of src/hid.rs: the input reports of a device that is not forwarded, as they are
-- logged. Times are in milliseconds.
use rp_wheel_bridge.Base.{
  ℕ, ◌+◌, ◌-◌, List, [], ◌∷◌, Bool, true, false, ◌&&◌, ltb, leb, if◌then◌else◌, take, length,
  replicate, copy_at, u32, beq_bytes,
}

abbrev pub max_report_len : ℕ
max_report_len = 64

abbrev pub report_log_interval : ℕ
report_log_interval = 100

abbrev pub stats_interval : ℕ
stats_interval = 5000

-- What a wait for the next report gives: its bytes, an error, or nothing in 100 ms.
pub data Polled : Type 0 where
  report : List ℕ → Polled
  failed timeout : Polled

-- The variables of the loop, and what it logged, the latest first: reports, and numbers of reports.
pub record Monitor : Type 0 where
  pub last : List ℕ
  pub last_len : ℕ
  pub unlogged_change : Bool
  pub last_logged : ℕ
  pub reports : ℕ
  pub stats_start : ℕ
  pub logs : List (ℕ × List ℕ)
  pub rates : List (ℕ × ℕ)

abbrev pub watch : ℕ → Monitor
watch now = record {
  last = replicate max_report_len 0;
  last_len = 0;
  unlogged_change = false;
  last_logged = 0;
  reports = 0;
  stats_start = now;
  logs = [];
  rates = [];
}

-- `last[..last_len]`
abbrev pub current : Monitor → List ℕ
current s = take s.last_len s.last

unfoldable pub on_report : List ℕ → Monitor → Monitor
on_report bytes s =
    let s = record s { reports = u32 (s.reports + 1) } in
    if beq_bytes bytes (current s)
    then s
    else record s { last = copy_at s.last 0 bytes; last_len = length bytes; unlogged_change = true }

-- The latest report is logged.
abbrev pub log_current : ℕ → Monitor → Monitor
log_current now s = record s {
  unlogged_change = false;
  last_logged = now;
  logs = (now, current s) ∷ s.logs;
}

unfoldable pub log_change : ℕ → Monitor → Monitor
log_change now s =
    if s.unlogged_change && leb report_log_interval (now - s.last_logged)
    then log_current now s
    else s

unfoldable pub log_rate : ℕ → Monitor → Monitor
log_rate now s =
    if leb stats_interval (now - s.stats_start)
    then record s {
      reports = 0;
      stats_start = now;
      rates = if ltb 0 s.reports then (now, s.reports) ∷ s.rates else s.rates;
    }
    else s

-- The rounds of the loop, with the time at which each wait is over. An error ends the loop.
unfoldable pub monitor_interface : List (Polled × ℕ) → Monitor → Monitor
unfolding on_report log_change log_rate
monitor_interface [] s = s
monitor_interface ((report bytes, now) ∷ polls) s =
    monitor_interface polls (log_rate now (log_change now (on_report bytes s)))
monitor_interface ((failed, now) ∷ polls) s = s
monitor_interface ((timeout, now) ∷ polls) s =
    monitor_interface polls (log_rate now (log_change now s))

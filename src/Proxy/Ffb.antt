-- ===== src/Proxy/Ffb.antt =====
-- Force feedback on its way to the wheel in src/proxy.rs: `forward_ffb_out`, `recover_ffb` and
-- `carries_trueforce`. Times are in milliseconds.
use rp_wheel_bridge.Base.{
  ℕ, ◌-◌, ◌≤◌, ◌≡◌, List, [], ◌∷◌, Option, none, some, Bool, true, false, not, ◌&&◌, ◌||◌, ◌==◌,
  leb, ltb, if◌then◌else◌, get_elem?, length, replicate, copy_at, Result, ok, err,
}
use rp_wheel_bridge.Hub.Reset.{is_ok}
use rp_wheel_bridge.Platform.Usb.{PipeError, stall, disconnected, canceled}
use rp_wheel_bridge.Device.Packet
use rp_wheel_bridge.Device.Packet.{Packet, max_packet}
use rp_wheel_bridge.Device.Profile.{Role, is_wheel}
use rp_wheel_bridge.Device.Streams.{count}

abbrev pub ffb_recovery_interval : ℕ
ffb_recovery_interval = 5000

abbrev pub ffb_cmd : ℕ
ffb_cmd = 4

abbrev pub ffb_cmd_force : ℕ
ffb_cmd_force = 0x01

abbrev pub ffb_tf_samples : ℕ
ffb_tf_samples = 10

-- `data.get(i) == Some(&v)`
abbrev pub is_at : List ℕ → ℕ → ℕ → Bool
is_at bytes i v = elim (get_elem? bytes i) [ none ↦ false | some b ↦ b == v ]

-- `data.get(i).is_some_and(|&n| n != 0)`
abbrev pub is_set_at : List ℕ → ℕ → Bool
is_set_at bytes i = elim (get_elem? bytes i) [ none ↦ false | some b ↦ not (b == 0) ]

unfoldable pub carries_trueforce : List ℕ → Bool
carries_trueforce bytes =
    is_at bytes ffb_cmd ffb_cmd_force && (ltb 12 (length bytes) || is_set_at bytes ffb_tf_samples)

-- `report.fill(0)` and the copy of the data to its front
unfoldable pub padded : List ℕ → List ℕ
padded bytes = copy_at (replicate max_packet 0) 0 bytes

-- The OUT pipe of the wheel, the clock, and what this task does to other tasks.
pub record Stream : Type 1 where
  pub World : Type 0
  pub now : World → ℕ
  -- `request_out`
  pub request_out : List ℕ → World → Result (Unit {0}) PipeError × World
  -- `device::wheel_link`
  pub wheel_link : Bool → World → World
  -- The EP0 task is asked to clear the halt of an endpoint, and its answer is waited for, at most
  -- one second; `none`: no answer came.
  pub clear_halt : ℕ → World → Option Bool × World
  pub reset_data_toggle : World → World
  -- The transfers made, each report with whether it was taken, and the calls of `wheel_link` with
  -- their times, the latest first
  pub transfers : World → List (List ℕ × Bool)
  pub links : World → List (ℕ × Bool)
  pub out_time : (b : List ℕ) (w : World) → now w ≤ now (request_out b w).1
  pub link_time : (up : Bool) (w : World) → now w ≤ now (wheel_link up w)
  pub clear_time : (ep : ℕ) (w : World) → now w ≤ now (clear_halt ep w).1
  pub reset_time : (w : World) → now w ≤ now (reset_data_toggle w)
  pub transfers-out :
      (b : List ℕ) (w : World)
      → transfers (request_out b w).1 ≡ (b, is_ok (request_out b w).0) ∷ transfers w
  pub transfers-link : (up : Bool) (w : World) → transfers (wheel_link up w) ≡ transfers w
  pub transfers-clear : (ep : ℕ) (w : World) → transfers (clear_halt ep w).1 ≡ transfers w
  pub transfers-reset : (w : World) → transfers (reset_data_toggle w) ≡ transfers w
  pub links-out : (b : List ℕ) (w : World) → links (request_out b w).1 ≡ links w
  pub links-link : (up : Bool) (w : World) → links (wheel_link up w) ≡ (now w, up) ∷ links w
  pub links-clear : (ep : ℕ) (w : World) → links (clear_halt ep w).1 ≡ links w
  pub links-reset : (w : World) → links (reset_data_toggle w) ≡ links w

-- A detach ends the loop.
abbrev pub is_detach : PipeError → Bool
is_detach disconnected = true
is_detach canceled = true
is_detach stall = false
is_detach (PipeError.other n) = false

abbrev pub is_stall : PipeError → Bool
is_stall stall = true
is_stall _ = false

-- The variables of the loop, `FFB_WRITTEN` and `FFB_TRUEFORCE`.
pub record Ffb : Type 0 where
  pub last_recovery : Option ℕ
  pub ffb_written : ℕ
  pub ffb_trueforce : ℕ
  pub running : Bool

abbrev pub started : Ffb
started = record { last_recovery = none; ffb_written = 0; ffb_trueforce = 0; running = true }

-- `last_recovery.is_none_or(|t| t.elapsed() >= FFB_RECOVERY_INTERVAL)`
abbrev pub is_due : Option ℕ → ℕ → Bool
is_due none t = true
is_due (some last) t = leb ffb_recovery_interval (t - last)

module _ (stream : Stream) where
  open stream use {World, now, request_out, wheel_link, clear_halt, reset_data_toggle}

  -- What the answer about the halt leads to.
  unfoldable pub after_clear : Option Bool → World → World
  after_clear (some true) w = reset_data_toggle w
  after_clear (some false) w = w
  after_clear none w = w

  unfoldable pub recover_ffb : ℕ → World → World
  unfolding after_clear
  recover_ffb ep w =
      let (cleared, w) = clear_halt ep (wheel_link false w) in
      wheel_link true (after_clear cleared w)

  -- The failure of a write that is no detach.
  unfoldable pub on_error : Role → ℕ → PipeError → Ffb × World → Ffb × World
  unfolding recover_ffb
  on_error role ep e (s, w) =
      if is_stall e && is_due s.last_recovery (now w) && is_wheel role
      then (record s { last_recovery = some (now w) }, recover_ffb ep w)
      else (s, w)

  -- What a write gives.
  unfoldable pub on_result : Role → ℕ → Result (Unit {0}) PipeError → Ffb × World → Ffb × World
  unfolding on_error
  on_result role ep (ok u) (s, w) = (record s { ffb_written = count s.ffb_written }, w)
  on_result role ep (err e) (s, w) =
      if is_detach e then (record s { running = false }, w) else on_error role ep e (s, w)

  -- One packet of the queue.
  unfoldable pub forward_ffb_out : Role → ℕ → Packet → Ffb × World → Ffb × World
  unfolding carries_trueforce padded on_result
  forward_ffb_out role ep packet (s, w) =
      let bytes = Packet.bytes packet in
      let s =
        if carries_trueforce bytes then record s { ffb_trueforce = count s.ffb_trueforce } else s in
      let (r, w) = request_out (padded bytes) w in on_result role ep r (s, w)

  -- The loop, as long as it runs.
  unfoldable pub forward_ffbs : Role → ℕ → List Packet → Ffb × World → Ffb × World
  unfolding forward_ffb_out
  forward_ffbs role ep [] m = m
  forward_ffbs role ep (p ∷ ps) m =
      let rest = forward_ffbs role ep ps (forward_ffb_out role ep p m) in
      if m.0.running then rest else m

-- ===== src/Hub/Reset.antt =====
-- `reset_port` and `enumerate` of src/hub.rs. Times are in milliseconds; the wait for a port takes
-- fuel, since the hub decides how many rounds it has.
use rp_wheel_bridge.Base.{
  ℕ, zero, suc, ◌+◌, ◌-◌, ◌*◌, ◌≤◌, ◌<◌, ◌≢◌, List, [], ◌∷◌, Option, none, some, Bool, true, false,
  not, ◌&&◌, ◌==◌, leb, if◌then◌else◌, Result, ok, err, get_or, replicate, le16, u8, bit_and, arith,
}
use rp_wheel_bridge.Platform.Usb.{Host, Setup}

abbrev pub enum_attempts : ℕ
enum_attempts = 4

abbrev pub port_reset_timeout : ℕ
port_reset_timeout = 500

abbrev pub port_poll : ℕ
port_poll = 5

abbrev pub reset_recovery : ℕ
reset_recovery = 10

abbrev pub port_reset : ℕ
port_reset = 4

abbrev pub c_port_reset : ℕ
c_port_reset = 20

abbrev pub port_enable : ℕ
port_enable = 0x0002

abbrev pub c_reset : ℕ
c_reset = 0x0010

-- The three requests of the hub class, for the port number `p` from 1 on.
abbrev pub set_port_feature : ℕ → Setup
set_port_feature p = Setup.bytes (0x23 ∷ 0x03 ∷ port_reset ∷ 0 ∷ p ∷ 0 ∷ 0 ∷ 0 ∷ [])

abbrev pub clear_port_feature : ℕ → Setup
clear_port_feature p = Setup.bytes (0x23 ∷ 0x01 ∷ c_port_reset ∷ 0 ∷ p ∷ 0 ∷ 0 ∷ 0 ∷ [])

abbrev pub get_port_status : ℕ → Setup
get_port_status p = Setup.bytes (0xa3 ∷ 0x00 ∷ 0 ∷ 0 ∷ p ∷ 0 ∷ 4 ∷ 0 ∷ [])

pub data ResetError : Type 0 where
  set_feature_failed get_status_failed timed_out clear_feature_failed out_of_fuel : ResetError

-- `status & PORT_ENABLE != 0 && change & C_RESET != 0`
abbrev pub is_enabled : List ℕ → Bool
is_enabled buf =
    not (bit_and (le16 (get_or buf 0 0) (get_or buf 1 0)) port_enable == 0)
    && not (bit_and (le16 (get_or buf 2 0) (get_or buf 3 0)) c_reset == 0)

abbrev pub is_ok {ℓ κ} : {A : Type ℓ} {E : Type κ} → Result A E → Bool
is_ok (ok a) = true
is_ok (err e) = false

module _ (host : Host) where
  open host use {World, now, control_in, control_out, after}

  -- The loop that waits until the hub reports the port enabled.
  unfoldable pub wait_enabled : ℕ → ℕ → ℕ → World → Result (Unit {0}) ResetError × World
  wait_enabled zero start p w = (err out_of_fuel, w)
  wait_enabled (suc fuel) start p w =
      let r = control_in (get_port_status p) (replicate 4 0) w in
      let rest = wait_enabled fuel start p (after port_poll r.world) in
      if not (is_ok r.result)
      then (err get_status_failed, r.world)
      else if is_enabled r.buf
      then (ok (record {}), r.world)
      else if leb port_reset_timeout (now r.world - start)
      then (err timed_out, r.world)
      else rest

  -- What follows the wait.
  unfoldable pub clear_reset :
      ℕ → Result (Unit {0}) ResetError × World → Result (Unit {0}) ResetError × World
  clear_reset p (err e, w) = (err e, w)
  clear_reset p (ok u, w) =
      let (r, w') = control_out (clear_port_feature p) [] w in
      if is_ok r then (ok u, after reset_recovery w') else (err clear_feature_failed, w')

  unfoldable pub reset_port : ℕ → ℕ → World → Result (Unit {0}) ResetError × World
  unfolding wait_enabled clear_reset
  reset_port fuel port w =
      let p = u8 (port + 1) in
      let (r, w') = control_out (set_port_feature p) [] w in
      if is_ok r
      then clear_reset p (wait_enabled fuel (now w) p w')
      else (err set_feature_failed, w')

  -- `bus_enumerate` is the host stack's `enumerate`, and `log_device` reads the strings of a device
  -- for the log.
  module _ {Device : Type 0} (bus_enumerate : World → Option Device × World)
      (log_device : Device → World → World) where
    -- The attempts that are left.
    unfoldable pub attempts : ℕ → ℕ → ℕ → World → Option Device × World
    unfolding reset_port
    attempts zero fuel port w = (none, w)
    attempts (suc left) fuel port w =
        let reset = reset_port fuel port w in
        let found = bus_enumerate reset.1 in
        let again = attempts left fuel port reset.1 in
        let retry = attempts left fuel port found.1 in
        if is_ok reset.0
        then elim found.0 [ some d ↦ (some d, log_device d found.1) | none ↦ retry ]
        else again

    unfoldable pub enumerate : ℕ → ℕ → World → Option Device × World
    unfolding attempts
    enumerate fuel port w = attempts enum_attempts fuel port w

module _ (host : Host) where
  open host use {World, now, control_in, control_out, after, after_time, in_time, out_time}

  wait_enabled_ends :
      (fuel start p : ℕ) (w : World)
      → start + port_reset_timeout + port_poll ≤ now w + port_poll * fuel
      → 0 < fuel
      → (wait_enabled host fuel start p w).0 ≢ err out_of_fuel
  unfolding wait_enabled
  wait_enabled_ends zero start p w h pos = absurd (omega arith)
  wait_enabled_ends (suc fuel) start p w h pos =
      let r = control_in (get_port_status p) (replicate 4 0) w in
      ground (
        arith,
        in_time (get_port_status p) (replicate 4 0) w,
        after_time port_poll r.world,
        wait_enabled_ends fuel start p (after port_poll r.world),
      )

  clear_reset_ends :
      (p : ℕ) (m : Result (Unit {0}) ResetError × World)
      → m.0 ≢ err out_of_fuel
      → (clear_reset host p m).0 ≢ err out_of_fuel
  unfolding clear_reset
  clear_reset_ends p (err e, w) h = h
  clear_reset_ends p (ok u, w) h = ground arith

  -- 101 rounds are enough to wait for a port: `reset_port` then ends with one of its four errors or
  -- with success, since a round waits 5 ms and the port is given up after 500 ms.
  pub reset_port_ends :
      (fuel port : ℕ) (w : World) → 101 ≤ fuel → (reset_port host fuel port w).0 ≢ err out_of_fuel
  unfolding reset_port
  reset_port_ends fuel port w h =
      let p = u8 (port + 1) in
      let (r, w') = control_out (set_port_feature p) [] w in
      ground (
        arith,
        out_time (set_port_feature p) [] w,
        clear_reset_ends p (wait_enabled host fuel (now w) p w'),
        wait_enabled_ends fuel (now w) p w',
      )

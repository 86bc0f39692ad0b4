-- ===== src/Hub/Enumerate.antt =====
-- Which devices `enumerate` of src/hub.rs hands over.
use rp_wheel_bridge.Base.{
  ℕ, zero, suc, ◌+◌, ◌≡◌, refl, [], Option, some, true, Result, ok, err, replicate, u8, arith,
  Option-cases, Bool-cases, inl, inr,
}
use rp_wheel_bridge.Platform.Usb.{Host}
use rp_wheel_bridge.Hub.Reset.{
  ResetError, is_ok, is_enabled, get_port_status, set_port_feature, wait_enabled, clear_reset,
  reset_port, attempts, enumerate, enum_attempts, port_poll,
}

module _ (host : Host) where
  open host use {World, now, control_in, control_out, after}

  -- The hub has said, at `v`, that the port `p` is enabled and its reset over.
  pub record SaysEnabled (p : ℕ) (v : World) : Type 0 where
    answered : is_ok (control_in (get_port_status p) (replicate 4 0) v).result ≡ true
    enabled : is_enabled (control_in (get_port_status p) (replicate 4 0) v).buf ≡ true

  wait_enabled-SaysEnabled :
      (fuel start p : ℕ) (w : World)
      → is_ok (wait_enabled host fuel start p w).0 ≡ true
      → (v : World) × SaysEnabled p v
  unfolding wait_enabled
  wait_enabled-SaysEnabled zero start p w h = absurd cc
  wait_enabled-SaysEnabled (suc fuel) start p w h =
      let r = control_in (get_port_status p) (replicate 4 0) w in
      elim (Bool-cases (is_ok r.result)) [
        | inr failed ↦ absurd (ground arith)
        | inl read ↦ elim (Bool-cases (is_enabled r.buf)) [
          | inl on ↦ (w, record { answered = read; enabled = on })
          | inr off ↦ wait_enabled-SaysEnabled fuel start p (after port_poll r.world) (ground arith)
        ]
      ]

  clear_reset-is_ok :
      (p : ℕ) (m : Result (Unit {0}) ResetError × World)
      → is_ok (clear_reset host p m).0 ≡ true
      → is_ok m.0 ≡ true
  unfolding clear_reset
  clear_reset-is_ok p (err e, w) h = h
  clear_reset-is_ok p (ok u, w) h = refl

  reset_port-SaysEnabled :
      (fuel port : ℕ) (w : World)
      → is_ok (reset_port host fuel port w).0 ≡ true
      → (v : World) × SaysEnabled (u8 (port + 1)) v
  unfolding reset_port
  reset_port-SaysEnabled fuel port w h =
      let p = u8 (port + 1) in
      let (r, w') = control_out (set_port_feature p) [] w in
      elim (Bool-cases (is_ok r)) [
        | inl sent ↦
            wait_enabled-SaysEnabled fuel (now w) p w'
              (clear_reset-is_ok p (wait_enabled host fuel (now w) p w') (ground arith))
        | inr failed ↦ absurd (ground arith)
      ]

  module _ {Device : Type 0} (bus_enumerate : World → Option Device × World)
      (log_device : Device → World → World) where
    -- A device that an attempt gives: its port was reset at `at`, and the host stack then found it.
    pub record IsFound (fuel port : ℕ) (d : Device) : Type 0 where
      pub at : World
      pub reset : is_ok (reset_port host fuel port at).0 ≡ true
      pub found : (bus_enumerate (reset_port host fuel port at).1).0 ≡ some d
      pub status_at : World
      pub status : SaysEnabled (u8 (port + 1)) status_at

    attempts-IsFound :
        (left fuel port : ℕ) (w : World) (d : Device)
        → (attempts host bus_enumerate log_device left fuel port w).0 ≡ some d
        → IsFound fuel port d
    unfolding attempts
    attempts-IsFound zero fuel port w d h = absurd cc
    attempts-IsFound (suc left) fuel port w d h =
        let reset = reset_port host fuel port w in
        let found = bus_enumerate reset.1 in
        elim (Bool-cases (is_ok reset.0)) [
          | inr failed ↦ attempts-IsFound left fuel port reset.1 d (ground arith)
          | inl good ↦ elim (Option-cases found.0) [
            | inl missing ↦ attempts-IsFound left fuel port found.1 d (ground arith)
            | inr (e, here) ↦
                let (v, says) = reset_port-SaysEnabled fuel port w good in
                record {
                  at = w;
                  reset = good;
                  found = (ground arith);
                  status_at = v;
                  status = says;
                }
          ]
        ]

    -- `enumerate` gives a device only if the host stack found it right after a reset of its port
    -- that succeeded, during which the hub had reported the port enabled.
    pub enumerate-IsFound :
        (fuel port : ℕ) (w : World) (d : Device)
        → (enumerate host bus_enumerate log_device fuel port w).0 ≡ some d
        → IsFound fuel port d
    unfolding enumerate
    enumerate-IsFound fuel port w d h = attempts-IsFound enum_attempts fuel port w d h

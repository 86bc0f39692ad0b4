-- ===== src/Proxy/Wheel.antt =====
-- What the EP0 task of src/proxy.rs works on: the wheel's control pipe, the clock, and the statics
-- that it shares with the task that reads the wheel's HID++ messages.
use rp_wheel_bridge.Base.{ℕ, ◌≤◌, ◌≡◌, List, ◌∷◌, Option, Bool}
use rp_wheel_bridge.Platform.Usb.{Host, Setup}

-- `WHEEL_ANSWERED` and `BRIDGE_ANSWER`: the other task writes them at any time that this one waits.
pub record Heard : Type 0 where
  pub answered : Bool
  pub answer : Option (List ℕ)

-- `WAKING`, `LED_FEATURE`, `HIDPP_WRITTEN`, `FFB_HALT_CLEARED`, and the calls of `wheel_link`, the
-- latest first: only this task writes them.
pub record Mine : Type 0 where
  pub waking : Bool
  pub led : ℕ
  pub hidpp_written : ℕ
  pub halt_cleared : Option Bool
  pub links : List Bool

-- A control request that was sent, with its data.
abbrev pub Out : Type 0
Out = Setup × List ℕ

pub record Wheel : Type 1 where
  pub host : Host
  pub open host use *
  -- `Ticker::next`, for a tick that is due at this time
  pub until : ℕ → World → World
  -- The wait for `BRIDGE_ANSWER`, at most this long
  pub listen : ℕ → World → World
  pub heard : World → Heard
  pub mine : World → Mine
  pub hear : Heard → World → World
  pub put : Mine → World → World
  -- The requests sent on the pipe, the latest first
  pub outs : World → List Out
  pub until_time : (t : ℕ) (w : World) → t ≤ now (until t w)
  pub until_later : (t : ℕ) (w : World) → now w ≤ now (until t w)
  pub mine-put : (m : Mine) (w : World) → mine (put m w) ≡ m
  pub mine-hear : (h : Heard) (w : World) → mine (hear h w) ≡ mine w
  pub mine-in : (s : Setup) (buf : List ℕ) (w : World) → mine (control_in s buf w).world ≡ mine w
  pub mine-out : (s : Setup) (buf : List ℕ) (w : World) → mine (control_out s buf w).1 ≡ mine w
  pub mine-after : (d : ℕ) (w : World) → mine (after d w) ≡ mine w
  pub mine-until : (t : ℕ) (w : World) → mine (until t w) ≡ mine w
  pub mine-listen : (d : ℕ) (w : World) → mine (listen d w) ≡ mine w
  pub heard-hear : (h : Heard) (w : World) → heard (hear h w) ≡ h
  pub now-hear : (h : Heard) (w : World) → now (hear h w) ≡ now w
  pub now-put : (m : Mine) (w : World) → now (put m w) ≡ now w
  pub outs-in : (s : Setup) (buf : List ℕ) (w : World) → outs (control_in s buf w).world ≡ outs w
  pub outs-out :
      (s : Setup) (buf : List ℕ) (w : World) → outs (control_out s buf w).1 ≡ (s, buf) ∷ outs w
  pub outs-after : (d : ℕ) (w : World) → outs (after d w) ≡ outs w
  pub outs-until : (t : ℕ) (w : World) → outs (until t w) ≡ outs w
  pub outs-listen : (d : ℕ) (w : World) → outs (listen d w) ≡ outs w
  pub outs-hear : (h : Heard) (w : World) → outs (hear h w) ≡ outs w
  pub outs-put : (m : Mine) (w : World) → outs (put m w) ≡ outs w

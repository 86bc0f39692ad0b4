-- ===== src/Platform/Usb.antt =====
-- The host side's USB pipes and clock (embassy-usb-host, embassy-time) as effects on a world that
-- the code does not see: the devices, the time, and what the other core does meanwhile.
use rp_wheel_bridge.Base.{ℕ, ◌+◌, ◌≤◌, ◌≡◌, List, Result, length, AllBytes}

-- `PipeError`: the code tells apart these three.
pub data PipeError : Type 0 where
  stall disconnected canceled : PipeError
  other : ℕ → PipeError

-- A SETUP packet: the `SetupPacket` constructor that is called with its arguments, or the eight
-- bytes that the code writes out.
pub data Setup : Type 0 where
  class_interface_in : (request value index len : ℕ) → Setup
  class_interface_out : (request value index len : ℕ) → Setup
  -- `get_descriptor` with the `index` (LANGID) set afterwards
  get_descriptor : (desc_type desc_index lang len : ℕ) → Setup
  hid_report_descriptor : (iface len : ℕ) → Setup
  bytes : List ℕ → Setup

-- What an IN transfer leaves: its result, the buffer and the world.
pub record Received (World : Type 0) : Type 0 where
  pub result : Result ℕ PipeError
  pub buf : List ℕ
  pub world : World

pub record Host : Type 1 where
  pub World : Type 0
  -- milliseconds
  pub now : World → ℕ
  pub control_in : Setup → List ℕ → World → Received World
  pub control_out : Setup → List ℕ → World → Result (Unit {0}) PipeError × World
  -- `Timer::after`
  pub after : ℕ → World → World
  pub in_time : (s : Setup) (buf : List ℕ) (w : World) → now w ≤ now (control_in s buf w).world
  pub out_time : (s : Setup) (buf : List ℕ) (w : World) → now w ≤ now (control_out s buf w).1
  pub after_time : (d : ℕ) (w : World) → now w + d ≤ now (after d w)
  -- A `&mut [u8]` keeps its length and holds bytes.
  pub in_length :
      (s : Setup) (buf : List ℕ) (w : World) → length (control_in s buf w).buf ≡ length buf
  pub in_bytes :
      (s : Setup) (buf : List ℕ) (w : World) → AllBytes buf → AllBytes (control_in s buf w).buf

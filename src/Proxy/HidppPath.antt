-- ===== src/Proxy/HidppPath.antt =====
-- HID++ from the wheel to the console: the closure of `run` in src/proxy.rs on core 1 and `forward_in`
-- of src/device.rs on core 0, with the queue between them, in any order.
use rp_wheel_bridge.Base.{
  ℕ, ◌+◌, ◌≡◌, List, [], ◌∷◌, ◌++◌, Option, some, Bool, ◌||◌, ◌==◌, if◌then◌else◌,
}
use rp_wheel_bridge.Platform.Channel.{Channels}
use rp_wheel_bridge.Device.Packet
use rp_wheel_bridge.Device.Packet.{Packet}
use rp_wheel_bridge.Device.Profile.{Role}
use rp_wheel_bridge.Device.Link.{hidpp_in_queue_len}
use rp_wheel_bridge.Device.Streams.{Write}
use rp_wheel_bridge.Device.Delivery.{Step, Outlet, step, failures_of, clearings_of, IsDelivered}
use rp_wheel_bridge.Proxy.Hidpp.{Messages, on_hidpp, swid, bridge_swid, answer_of}

-- A turn: a message of the wheel comes, with `WAKING`; or something happens on core 0.
pub data Turn : Type 0 where
  comes : Bool → Packet → Turn
  steps : Step → Turn

module _ (ch : Channels) (role : Role) where
  -- The statics of core 1 with the queue `HIDPP_IN`, the packet whose write waits, the writes to the
  -- console that succeeded, and `STATS.hidpp_sent`.
  pub record Upstream : Type 0 where
    pub messages : Messages ch
    pub in_flight : Option Packet
    pub writes : List Write
    pub hidpp_sent : ℕ

  -- The endpoint of the console with its queue.
  abbrev pub line_of : Upstream → Outlet ch hidpp_in_queue_len role
  line_of u = record {
    sink = u.messages.upstream;
    in_flight = u.in_flight;
    writes = u.writes;
    sent = u.hidpp_sent;
  }

  abbrev pub with_line : Outlet ch hidpp_in_queue_len role → Upstream → Upstream
  with_line l u = record {
    messages = record u.messages { upstream = l.sink };
    in_flight = l.in_flight;
    writes = l.writes;
    hidpp_sent = l.sent;
  }

  unfoldable pub take_turn : Turn → Upstream → Upstream
  unfolding step
  take_turn (comes waking p) u = record u { messages = on_hidpp ch waking p u.messages }
  take_turn (steps s) u = with_line (step ch hidpp_in_queue_len role s (line_of u)) u

  unfoldable pub take_turns : List Turn → Upstream → Upstream
  unfolding take_turn
  take_turns [] u = u
  take_turns (t ∷ ts) u = take_turns ts (take_turn t u)

-- The message carries the bridge's own software ID.
abbrev pub is_own : Packet → Bool
is_own p = swid (Packet.bytes p) == bridge_swid

-- The messages for the console: none while the bridge wakes the wheel, and no answer to the bridge.
abbrev pub foreign_of : Turn → List Packet
foreign_of (comes waking p) = if waking || is_own p then [] else p ∷ []
foreign_of (steps s) = []

abbrev pub foreign_all : List Turn → List Packet
foreign_all [] = []
foreign_all (t ∷ ts) = foreign_of t ++ foreign_all ts

-- The latest answer to the bridge, or else what was known before.
abbrev pub answer_after : Option (List ℕ) → Turn → Option (List ℕ)
answer_after known (comes waking p) = if is_own p then some (answer_of (Packet.bytes p)) else known
answer_after known (steps s) = known

abbrev pub latest_answer : Option (List ℕ) → List Turn → Option (List ℕ)
latest_answer known [] = known
latest_answer known (t ∷ ts) = latest_answer (answer_after known t) ts

-- How many writes fail, and how often the queue is cleared.
abbrev pub failures_in : Turn → ℕ
failures_in (comes waking p) = 0
failures_in (steps s) = failures_of s

abbrev pub clearings_in : Role → Turn → ℕ
clearings_in role (comes waking p) = 0
clearings_in role (steps s) = clearings_of role s

abbrev pub failures : List Turn → ℕ
failures [] = 0
failures (t ∷ ts) = failures_in t + failures ts

abbrev pub clearings : Role → List Turn → ℕ
clearings role [] = 0
clearings role (t ∷ ts) = clearings_in role t + clearings role ts

module _ {ch : Channels} {role : Role} where
  -- The messages `all` are accounted for, with at most `f` lost and the queue cleared `c` times; and
  -- the bridge has the answer.
  abbrev pub IsPassedOn : List Packet → ℕ → ℕ → Option (List ℕ) → Upstream ch role → Type 0
  IsPassedOn all f c answer u =
      IsDelivered all f c (line_of ch role u) × (u.messages.bridge_answer ≡ answer)

-- ===== src/Device/Link.antt =====
-- `wheel_link` and `follow_wheel` of src/device.rs: in the wheel role the device is on the console's
-- bus only while the wheel is attached and awake. Times are in milliseconds.
use mathlib.Core.Option
use rp_wheel_bridge.Base.{
  ℕ, ◌+◌, ◌≤◌, ◌≡◌, refl, ap, ◌∙◌, max, List, [], ◌∷◌, Bool, true, false, not, if◌then◌else◌, arith,
}
use rp_wheel_bridge.Platform.Channel.{Channels}
use rp_wheel_bridge.Device.Packet.{Packet}
use rp_wheel_bridge.Device.Control.{ControlOut}

abbrev pub min_detach : ℕ
min_detach = 500

abbrev pub queue_len : ℕ
queue_len = 8

abbrev pub hidpp_in_queue_len : ℕ
hidpp_in_queue_len = 32

abbrev pub same : Bool → Bool → Bool
same true b = b
same false b = not b

module _ (ch : Channels) where
  open ch use {Queue, items, clear, try_send}

  -- `wheel_link`: a report that does not fit the queue of four is lost.
  unfoldable pub wheel_link : Bool → Queue Bool 4 → Queue Bool 4
  wheel_link attached q = Option.get_or (try_send attached q) q

  -- The six queues of the device.
  pub record Queues : Type 0 where
    pub input_in : Queue Packet queue_len
    pub hidpp_in : Queue Packet hidpp_in_queue_len
    pub control_out : Queue (ControlOut ch) queue_len
    pub ffb_in : Queue Packet queue_len
    pub ffb_out : Queue Packet queue_len
    pub if0_out : Queue Packet queue_len

  abbrev pub clear_all : Queues → Queues
  clear_all q = record {
    input_in = clear q.input_in;
    hidpp_in = clear q.hidpp_in;
    control_out = clear q.control_out;
    ffb_in = clear q.ffb_in;
    ffb_out = clear q.ffb_out;
    if0_out = clear q.if0_out;
  }

  -- The variables of `follow_wheel`, the time at which it comes back to the queue, and its calls of
  -- `set_pullup` with their times, the latest first.
  pub record Port : Type 0 where
    pub attached : Bool
    pub queues : Queues
    pub free_at : ℕ
    pub pullups : List (ℕ × Bool)

  -- The device connects with the pull-up on.
  unfoldable pub connected : ℕ → Queues → Port
  connected now q = record {
    attached = true;
    queues = q;
    free_at = now;
    pullups = (now, true) ∷ [];
  }

  -- One round of the loop: a link report that is in the queue at time `now`.
  unfoldable pub follow : Bool → ℕ → Port → Port
  follow link now p =
      let at = max now p.free_at in
      if same link p.attached
      then record p { free_at = at }
      else if link
      then record {
        attached = true;
        queues = clear_all p.queues;
        free_at = at;
        pullups = (at, true) ∷ p.pullups;
      }
      else record p {
        attached = false;
        free_at = at + min_detach;
        pullups = (at, false) ∷ p.pullups;
      }

  unfoldable pub follow_all : List (ℕ × Bool) → Port → Port
  follow_all [] p = p
  follow_all ((now, link) ∷ links) p = follow_all links (follow link now p)

-- Pull-up changes, the latest first: they alternate, the first one is "on", and the device is off
-- the bus for at least 500 ms each time.
abbrev pub IsAlternating : List (ℕ × Bool) → Type 0
IsAlternating [] = ⊥
IsAlternating ((t, on) ∷ []) = on ≡ true
IsAlternating ((t, on) ∷ (u, was) ∷ rest) =
    (on ≡ not was) × (was ≡ false → u + min_detach ≤ t) × IsAlternating ((u, was) ∷ rest)

-- The last report of a list, or else what was known before.
abbrev pub last_link : Bool → List (ℕ × Bool) → Bool
last_link known [] = known
last_link known ((now, link) ∷ links) = last_link link links

-- The level of the pull-up.
abbrev pub level : List (ℕ × Bool) → Bool
level [] = false
level ((t, on) ∷ rest) = on

abbrev off_time : List (ℕ × Bool) → ℕ
off_time [] = 0
off_time ((t, true) ∷ rest) = 0
off_time ((t, false) ∷ rest) = t + min_detach

IsAlternating-cons :
    (t : ℕ) (on : Bool) (ps : List (ℕ × Bool))
    → IsAlternating ps
    → on ≡ not (level ps)
    → off_time ps ≤ t
    → IsAlternating ((t, on) ∷ ps)
IsAlternating-cons t on [] h e le = absurd h
IsAlternating-cons t on ((u, true) ∷ rest) h e le = (e, λ was. cc, h)
IsAlternating-cons t on ((u, false) ∷ rest) h e le = (e, λ was. le, h)

module _ {ch : Channels} where
  record IsFollowing (p : Port ch) : Type 0 where
    level_lem : level p.pullups ≡ p.attached
    alternating : IsAlternating p.pullups
    waited : off_time p.pullups ≤ p.free_at

  follow-IsFollowing :
      (link : Bool) (now : ℕ) (p : Port ch)
      → IsFollowing p
      → IsFollowing (follow ch link now p) × ((follow ch link now p).attached ≡ link)
  unfolding follow
  follow-IsFollowing link now p h =
      ground (arith, IsAlternating-cons (max now p.free_at) link p.pullups h.alternating)

  follow_all-IsFollowing :
      (links : List (ℕ × Bool)) (p : Port ch)
      → IsFollowing p
      → IsFollowing (follow_all ch links p)
        × ((follow_all ch links p).attached ≡ last_link p.attached links)
  unfolding follow_all
  follow_all-IsFollowing [] p h = (h, refl)
  follow_all-IsFollowing ((now, link) ∷ links) p h =
      let (kept, e) = follow-IsFollowing link now p h in
      let (end, last) = follow_all-IsFollowing links (follow ch link now p) kept in
      (end, last ∙ ap (λ k. last_link k links) e)

  -- Whatever the wheel reports and however fast, the pull-up ends as the last report says, it
  -- alternates, and each time it goes off it stays off for at least 500 ms before it comes on.
  pub follow_all_lem :
      (start : ℕ) (q : Queues ch) (links : List (ℕ × Bool))
      → let p = follow_all ch links (connected ch start q) in
        (level p.pullups ≡ last_link true links) × IsAlternating p.pullups
  unfolding connected
  follow_all_lem start q links =
      let (h, e) =
        follow_all-IsFollowing links (connected ch start q)
          (record { level_lem = refl; alternating = refl; waited = omega arith }) in
      (h.level_lem ∙ e, h.alternating)

  -- When the device comes back on the bus nothing is queued: the six queues are empty.
  pub follow-clears :
      (now : ℕ) (p : Port ch)
      → p.attached ≡ false
      → let q = (follow ch true now p).queues in
        (ch.items q.input_in ≡ [])
        × (ch.items q.hidpp_in ≡ [])
        × (ch.items q.control_out ≡ [])
        × (ch.items q.ffb_in ≡ [])
        × (ch.items q.ffb_out ≡ [])
        × (ch.items q.if0_out ≡ [])
  unfolding follow
  follow-clears now p off = rw off (
    ch.clear_items p.queues.input_in,
    ch.clear_items p.queues.hidpp_in,
    ch.clear_items p.queues.control_out,
    ch.clear_items p.queues.ffb_in,
    ch.clear_items p.queues.ffb_out,
    ch.clear_items p.queues.if0_out,
  )

-- ===== src/Relay/Downstream.antt =====
-- The console's IF0 output reports on their way to DriveHub: `if0_output` of src/device.rs in the relay
-- role on core 0 and `forward_out` of src/relay.rs on core 1, with the queue between them, in any
-- order.
use mathlib.Core.List.{append_assoc, append-nil}
use rp_wheel_bridge.Base.{
  sym, ◌≤◌, Bool, true, Result, ok, err, inl, inr, ℕ, ◌+◌, ◌^◌, ◌<◌, ◌≡◌, refl, subst, List, [],
  ◌∷◌, ◌++◌, none, some, if◌then◌else◌, if_intro, length, length-append, arith,
}
use rp_wheel_bridge.Hub.Reset.{is_ok}
use rp_wheel_bridge.Platform.Usb.{PipeError}
use rp_wheel_bridge.Platform.Channel.{Channels}
use rp_wheel_bridge.Device.Packet
use rp_wheel_bridge.Device.Packet.{Packet}
use rp_wheel_bridge.Device.Profile.{relay}
use rp_wheel_bridge.Device.Streams.{If0, if0_output}
use rp_wheel_bridge.Device.Queued.{
  Fate, packets_of, cleared_in, lost_in, append-Splits, IsQueued, push-IsQueued,
  try_receive-IsQueued, empty-IsQueued,
}
use rp_wheel_bridge.Proxy.Ffb.{Stream}
use rp_wheel_bridge.Proxy.Written.{HasTried, HasTried-packet, tries_of, fate_of, cleared_in-one}
use rp_wheel_bridge.Relay.Forward.{Forward, on_written}

-- A turn: the console writes a report, or the task on core 1 takes the next packet.
pub data Turn : Type 0 where
  writes : List ℕ → Turn
  takes : Turn

module _ (ch : Channels) (stream : Stream) where
  open stream use {World, request_out}

  -- The variables of the two loops with the queue `IF0_OUT`, and the world of core 1.
  pub record Route : Type 0 where
    pub if0 : If0 ch
    pub forward : Forward
    pub world : World

  -- `queue.receive()` and what follows; with nothing queued, the loop waits.
  unfoldable pub take_packet : Route → Route
  unfolding on_written
  take_packet r = elim (ch.try_receive r.if0.sink.queue) [
    | none ↦ r
    | some (p, q) ↦
        let (result, w) = request_out (Packet.bytes p) r.world in
        record {
          if0 = record r.if0 { sink = record r.if0.sink { queue = q } };
          forward = on_written result r.forward;
          world = w;
        }
  ]

  unfoldable pub take_turn : Turn → Route → Route
  unfolding take_packet if0_output
  take_turn (writes bytes) r = record r { if0 = if0_output ch relay bytes r.if0 }
  take_turn takes r = let next = take_packet r in if r.forward.running then next else r

  unfoldable pub take_turns : List Turn → Route → Route
  unfolding take_turn
  take_turns [] r = r
  take_turns (t ∷ ts) r = take_turns ts (take_turn t r)

-- The packets of the reports that the console writes, repeated ones included.
abbrev pub packet_of : Turn → List Packet
packet_of (writes bytes) = Packet.new bytes ∷ []
packet_of takes = []

abbrev pub packets : List Turn → List Packet
packets [] = []
packets (t ∷ ts) = packet_of t ++ packets ts

-- What a transfer makes of the loop.
few_lost :
    (result : Result (Unit {0}) PipeError) (p : Packet) (f : Forward) (n : ℕ)
    → f.running ≡ true
    → n ≤ (if f.running then 0 else 1)
    → n + lost_in ((fate_of (is_ok result), p) ∷ [])
      ≤ (if (on_written result f).running then 0 else 1)
unfolding on_written
few_lost (ok u) p f n on h = omega (arith, h)
few_lost (err e) p f n on h = lost_one n (subst (λ b. n ≤ (if b then 0 else 1)) on h)
  where
    lost_one : (n : ℕ) → n ≤ 0 → n + 1 ≤ 1
    lost_one n h = omega arith

module _ {ch : Channels} {stream : Stream} where
  open ch use {items}
  open stream use {World}

  -- The packets `all` of the console, from the world `w` on, in their order: for those that have left
  -- the queue there is one transfer each, with its outcome; none fails as long as the loop runs, and at
  -- most the one that ends it; the others wait, or are counted as dropped.
  abbrev pub IsRelayed : World → List Packet → Route ch stream → Type 0
  IsRelayed w all r =
      (gone : List (Fate × Packet)) × HasTried stream (tries_of Packet.bytes gone) w r.world
      × (cleared_in gone ≡ 0)
      × (lost_in gone ≤ (if r.forward.running then 0 else 1))
      × IsQueued (packets_of gone) all r.if0.sink

  takes-IsRelayed :
      (w : World) (all : List Packet) (r : Route ch stream)
      → r.forward.running ≡ true
      → IsRelayed w all r
      → IsRelayed w all (take_packet ch stream r)
  unfolding take_packet
  takes-IsRelayed w all r on (gone, tried, none_cleared, few, queued) =
      elim (try_receive-IsQueued (packets_of gone) all r.if0.sink queued) [
        | inl e ↦ rw (e, take_packet) (gone, tried, none_cleared, few, queued)
        | inr (p, q, e, queued') ↦
            let result = (stream.request_out (Packet.bytes p) r.world).0 in
            let next = (stream.request_out (Packet.bytes p) r.world).1 in
            let taken = is_ok result in
            let split = append-Splits gone ((fate_of taken, p) ∷ []) in
            rw (e, take_packet)
              (
                gone ++ (fate_of taken, p) ∷ [],
                HasTried-packet stream Packet.bytes gone taken p w r.world next tried
                    (stream.transfers-out (Packet.bytes p) r.world),
                omega (arith, none_cleared, split.clearings, cleared_in-one taken p),
                subst (λ n. n ≤ (if (on_written result r.forward).running then 0 else 1))
                    (sym split.losses) (few_lost result p r.forward (lost_in gone) on few),
                subst (λ l. IsQueued l all (record r.if0.sink { queue = q })) (sym split.packets)
                    queued',
              )
      ]

  take_turn-IsRelayed :
      (t : Turn) (w : World) (all : List Packet) (r : Route ch stream)
      → length (packet_of t) + length all < 2 ^ 32
      → IsRelayed w all r
      → IsRelayed w (all ++ packet_of t) (take_turn ch stream t r)
  unfolding take_turn if0_output
  take_turn-IsRelayed (writes bytes) w all r small (gone, tried, none_cleared, few, queued) = (
    gone,
    tried,
    none_cleared,
    few,
    push-IsQueued (Packet.new bytes) (packets_of gone) all r.if0.sink (omega arith) queued,
  )
  take_turn-IsRelayed takes w all r small h = rw (append-nil all) (
      if_intro (IsRelayed w all) r.forward.running (take_packet ch stream r) r
        (λ on. takes-IsRelayed w all r on h) (λ off. h))

  take_turns-IsRelayed :
      (ts : List Turn) (w : World) (all : List Packet) (r : Route ch stream)
      → length all + length (packets ts) < 2 ^ 32
      → IsRelayed w all r
      → IsRelayed w (all ++ packets ts) (take_turns ch stream ts r)
  unfolding take_turns
  take_turns-IsRelayed [] w all r small h = rw (append-nil all) h
  take_turns-IsRelayed (t ∷ ts) w all r small h =
      let total = length-append (packet_of t) (packets ts) in
      let r' = take_turn ch stream t r in
      let kept = take_turn-IsRelayed t w all r (omega (arith, total)) h in
      subst (λ l. IsRelayed w l (take_turns ch stream ts r'))
        (append_assoc all (packet_of t) (packets ts))
        (take_turns-IsRelayed ts w (all ++ packet_of t) r'
          (omega (arith, total, length-append all (packet_of t))) kept)

  -- However the console's writes and the two tasks take turns, with fewer than 2^32 writes, from an
  -- empty queue: the transfers to DriveHub are those of the console's reports, repeated ones too, as
  -- they are, one for each and in their order, but for the reports that wait or are counted as dropped.
  -- A report is lost exactly if its transfer fails: none as long as the loop runs, and then at most one.
  pub console_to_drivehub :
      (ts : List Turn) (r : Route ch stream)
      → length (packets ts) < 2 ^ 32
      → items r.if0.sink.queue ≡ []
      → r.if0.sink.dropped ≡ 0
      → IsRelayed r.world (packets ts) (take_turns ch stream ts r)
  console_to_drivehub ts r small empty none_lost =
      take_turns-IsRelayed ts r.world [] r (omega arith)
        ([], refl, refl, at_most r.forward.running, empty-IsQueued r.if0.sink empty none_lost)
    where
      at_most : (on : Bool) → 0 ≤ (if on then 0 else 1)
      at_most on = ground arith

-- ===== src/Proxy/FfbPath.antt =====
-- Force feedback from the console to the wheel: `forward_ffb_out` of src/device.rs on core 0 and that
-- of src/proxy.rs on core 1, with the queue between them, in any order.
use mathlib.Core.List.{append_assoc, append-nil}
use rp_wheel_bridge.Base.{
  sym, ap, ◌∙◌, ◌*◌, ◌≤◌, Bool, true, false, inl, inr, ℕ, ◌+◌, ◌^◌, ◌<◌, ◌≡◌, refl, List, [], ◌∷◌,
  ◌++◌, none, some, if◌then◌else◌, length, length-append, arith, subst, if_intro,
}
use rp_wheel_bridge.Hub.Reset.{is_ok}
use rp_wheel_bridge.Platform.Channel.{Channels}
use rp_wheel_bridge.Device.Packet
use rp_wheel_bridge.Device.Packet.{Packet}
use rp_wheel_bridge.Device.Profile.{Role, is_wheel}
use rp_wheel_bridge.Device.Streams
use rp_wheel_bridge.Device.Streams.{Sink}
use rp_wheel_bridge.Device.Queued.{
  clear-IsQueued, Fate, packets_of, cleared_in, all_cleared, append-Splits, all_cleared-AreCleared,
  IsQueued, push-IsQueued, try_receive-IsQueued, empty-IsQueued,
}
use rp_wheel_bridge.Device.Link.{queue_len}
use rp_wheel_bridge.Proxy.Ffb
use rp_wheel_bridge.Proxy.Ffb.{Stream}
use rp_wheel_bridge.Proxy.Forwarded.{report, transfers-forward_ffb_out}
use rp_wheel_bridge.Proxy.Written.{
  HasTried, HasTried-packet, tries_of, tries_of-append, tries_of-cleared, fate_of, cleared_in-one,
}

-- A turn: the console writes a report, the task on core 1 takes the next packet, or `follow_wheel`
-- clears the queue before the device goes on the bus again.
pub data Turn : Type 0 where
  writes : List ℕ → Turn
  takes : Turn
  clears : Turn

module _ (ch : Channels) (stream : Stream) (role : Role) (ep : ℕ) where
  open ch use {items}
  open stream use {World}

  -- FFB_OUT with the counters of core 0, and the variables and the world of core 1.
  pub record Route : Type 0 where
    pub sink : Sink ch queue_len
    pub received : ℕ
    pub forward : Ffb.Ffb
    pub world : World

  -- `FFB_OUT.receive()` and what follows; with nothing queued, or after its loop has ended, nothing.
  unfoldable pub take_packet : Route → Route
  take_packet s = elim (ch.try_receive s.sink.queue) [
    | none ↦ s
    | some (p, q) ↦
        let (f, w) = Ffb.forward_ffb_out stream role ep p (s.forward, s.world) in
        record s { sink = record s.sink { queue = q }; forward = f; world = w }
  ]

  -- `FFB_OUT.clear()`
  unfoldable pub clear_queue : Route → Route
  clear_queue s = record s { sink = record s.sink { queue = ch.clear s.sink.queue } }

  unfoldable pub take_turn : Turn → Route → Route
  unfolding take_packet clear_queue
  take_turn (writes bytes) s =
      let (sink, received) = Streams.forward_ffb_out ch bytes (s.sink, s.received) in
      record s { sink = sink; received = received }
  take_turn takes s = let next = take_packet s in if s.forward.running then next else s
  take_turn clears s = if is_wheel role then clear_queue s else s

  unfoldable pub take_turns : List Turn → Route → Route
  unfolding take_turn
  take_turns [] s = s
  take_turns (t ∷ ts) s = take_turns ts (take_turn t s)

-- The packets of the reports that the console writes.
abbrev pub packet_of : Turn → List Packet
packet_of (writes bytes) = Packet.new bytes ∷ []
packet_of takes = []
packet_of clears = []

abbrev pub packets : List Turn → List Packet
packets [] = []
packets (t ∷ ts) = packet_of t ++ packets ts

-- How often the queue is cleared.
abbrev pub clearing : Role → Turn → ℕ
clearing role (writes bytes) = 0
clearing role takes = 0
clearing role clears = if is_wheel role then 1 else 0

abbrev pub clearings : Role → List Turn → ℕ
clearings role [] = 0
clearings role (t ∷ ts) = clearing role t + clearings role ts

module _ {ch : Channels} {stream : Stream} {role : Role} {ep : ℕ} where
  open ch use {items}
  open stream use {World, transfers}

  -- The packets `all` of the console, from the world `w` on, in their order: for those that have left
  -- the queue there is one transfer each, with its outcome, unless they were cleared, at most eight at
  -- each of `times` times; the others wait, or are counted as dropped.
  abbrev pub IsForwarded : World → List Packet → ℕ → Route ch stream role ep → Type 0
  IsForwarded w all times s =
      (gone : List (Fate × Packet)) × HasTried stream (tries_of report gone) w s.world
      × (cleared_in gone ≤ queue_len * times)
      × IsQueued (packets_of gone) all s.sink

  moved :
      (w : World) (all : List Packet) (s : Route ch stream role ep) {c d : ℕ}
      → c ≡ d
      → IsForwarded w all c s
      → IsForwarded w all d s
  moved w all s e h = subst (λ n. IsForwarded w all n s) e h

  takes-IsForwarded :
      (w : World) (all : List Packet) (times : ℕ) (s : Route ch stream role ep)
      → IsForwarded w all times s
      → IsForwarded w all times (take_packet ch stream role ep s)
  unfolding take_packet
  takes-IsForwarded w all times s (gone, tried, few, queued) =
      elim (try_receive-IsQueued (packets_of gone) all s.sink queued) [
        | inl e ↦ rw (e, take_packet) (gone, tried, few, queued)
        | inr (p, q, e, queued') ↦
            let next = (Ffb.forward_ffb_out stream role ep p (s.forward, s.world)).1 in
            let taken = is_ok (stream.request_out (report p) s.world).0 in
            let split = append-Splits gone ((fate_of taken, p) ∷ []) in
            rw (e, take_packet)
              (
                gone ++ (fate_of taken, p) ∷ [],
                HasTried-packet stream report gone taken p w s.world next tried
                    (transfers-forward_ffb_out stream role ep p (s.forward, s.world)),
                omega (arith, few, split.clearings, cleared_in-one taken p),
                subst (λ l. IsQueued l all (record s.sink { queue = q })) (sym split.packets)
                    queued',
              )
      ]

  clears-IsForwarded :
      (w : World) (all : List Packet) (times : ℕ) (s : Route ch stream role ep)
      → IsForwarded w all times s
      → IsForwarded w all (times + 1) (clear_queue ch stream role ep s)
  unfolding clear_queue
  clears-IsForwarded w all times s (gone, tried, few, queued) =
      let waiting = items s.sink.queue in
      let split = append-Splits gone (all_cleared waiting) in
      let c = all_cleared-AreCleared waiting in
      (
        gone ++ all_cleared waiting,
        subst (λ l. HasTried stream l w s.world)
            (sym (append-nil (tries_of report gone))
              ∙ ap (λ l. tries_of report gone ++ l) (sym (tries_of-cleared report waiting))
              ∙ sym (tries_of-append report gone (all_cleared waiting)))
            tried,
        omega (arith, few, split.clearings, c.clearings, queued.0),
        subst (λ l. IsQueued l all (record s.sink { queue = ch.clear s.sink.queue }))
            (ap (λ l. packets_of gone ++ l) (sym c.packets) ∙ sym split.packets)
            (clear-IsQueued (packets_of gone) all s.sink queued),
      )

  take_turn-IsForwarded :
      (t : Turn) (w : World) (all : List Packet) (times : ℕ) (s : Route ch stream role ep)
      → length (packet_of t) + length all < 2 ^ 32
      → IsForwarded w all times s
      → IsForwarded w
          (all ++ packet_of t)
          (times + clearing role t)
          (take_turn ch stream role ep t s)
  unfolding take_turn Streams.forward_ffb_out
  take_turn-IsForwarded (writes bytes) w all times s small (gone, tried, few, queued) = (
    gone,
    tried,
    omega (arith, few),
    push-IsQueued (Packet.new bytes) (packets_of gone) all s.sink (omega arith) queued,
  )
  take_turn-IsForwarded takes w all times s small h = rw (append-nil all) (
      if_intro (IsForwarded w all (times + 0)) s.forward.running (take_packet ch stream role ep s) s
        (λ on.
          moved w all (take_packet ch stream role ep s) (omega arith)
            (takes-IsForwarded w all times s h))
        (λ off. moved w all s (omega arith) h))
  take_turn-IsForwarded clears w all times s small h = rw (append-nil all) (go (is_wheel role))
    where
      go :
          (wheel : Bool)
          → IsForwarded w all
              (times + (if wheel then 1 else 0))
              (if wheel then clear_queue ch stream role ep s else s)
      go true = clears-IsForwarded w all times s h
      go false = moved w all s (omega arith) h

  take_turns-IsForwarded :
      (ts : List Turn) (w : World) (all : List Packet) (times : ℕ) (s : Route ch stream role ep)
      → length all + length (packets ts) < 2 ^ 32
      → IsForwarded w all times s
      → IsForwarded w
          (all ++ packets ts)
          (times + clearings role ts)
          (take_turns ch stream role ep ts s)
  unfolding take_turns
  take_turns-IsForwarded [] w all times s small h =
      rw (append-nil all) (moved w all s (omega arith) h)
  take_turns-IsForwarded (t ∷ ts) w all times s small h =
      let total = length-append (packet_of t) (packets ts) in
      let s' = take_turn ch stream role ep t s in
      let end = take_turns ch stream role ep ts s' in
      let kept = take_turn-IsForwarded t w all times s (omega (arith, total)) h in
      moved w (all ++ packets (t ∷ ts)) end (omega arith) (
        subst (λ l. IsForwarded w l (times + clearing role t + clearings role ts) end)
          (append_assoc all (packet_of t) (packets ts))
          (take_turns-IsForwarded ts w (all ++ packet_of t) (times + clearing role t) s'
            (omega (arith, total, length-append all (packet_of t))) kept))

  -- However the console's writes, the two tasks and the clearings of the queue take turns, with fewer
  -- than 2^32 writes, from an empty queue: the transfers to the wheel are those of the console's reports,
  -- padded, one for each and in their order, but for the reports that wait, that are counted as dropped
  -- or that were cleared, at most eight at a time. A report is lost exactly if its transfer fails.
  pub console_to_wheel :
      (ts : List Turn) (s : Route ch stream role ep)
      → length (packets ts) < 2 ^ 32
      → items s.sink.queue ≡ []
      → s.sink.dropped ≡ 0
      → IsForwarded s.world (packets ts) (clearings role ts) (take_turns ch stream role ep ts s)
  console_to_wheel ts s small empty none_lost =
      moved s.world (packets ts) (take_turns ch stream role ep ts s) (omega arith) (
        take_turns-IsForwarded ts s.world [] 0 s (omega arith)
          ([], refl, omega arith, empty-IsQueued s.sink empty none_lost))

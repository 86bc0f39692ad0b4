-- ===== src/Device/Delivery.antt =====
-- `forward_in` of src/device.rs: a queue to an IN endpoint of the console, while the other core sends
-- to the queue and `follow_wheel` clears it. A write waits for the console, so that the packet that it
-- is about has left the queue before.
use mathlib.Core.List.{append_assoc, append-nil, map-append}
use rp_wheel_bridge.Base.{
  ℕ, suc, ◌+◌, ◌*◌, ◌^◌, ◌≤◌, ◌<◌, ◌≡◌, refl, sym, ap, ◌∙◌, subst, List, [], ◌∷◌, ◌++◌, map, Option,
  none, some, Bool, true, false, if◌then◌else◌, inl, inr, length, length-append, u32, arith,
}
use native.Mathlib.Nat.{mul-add}
use rp_wheel_bridge.Platform.Channel.{Channels}
use rp_wheel_bridge.Device.Packet.{Packet}
use rp_wheel_bridge.Device.Profile.{Role, is_wheel}
use rp_wheel_bridge.Device.Streams.{Sink, Write, write_of, push, count}
use rp_wheel_bridge.Device.Queued.{
  IsQueued, push-IsQueued, try_receive-IsQueued, clear-IsQueued, empty-IsQueued, Fate, delivered,
  lost, packets_of, delivered_in, lost_in, cleared_in, all_cleared, append-Splits,
  all_cleared-AreCleared,
}

-- What happens to the endpoint: the loop takes a packet from the queue, the write that waits ends, well
-- or not, or `follow_wheel` clears the queue before the device goes on the bus again.
pub data Step : Type 0 where
  fetches : Step
  ends : Bool → Step
  clears : Step

module _ (ch : Channels) (cap : ℕ) (role : Role) where
  open ch use {clear}

  -- The queue, the packet whose write waits, the writes that succeeded and the count of them.
  pub record Outlet : Type 0 where
    pub sink : Sink ch cap
    pub in_flight : Option Packet
    pub writes : List Write
    pub sent : ℕ

  -- `queue.receive()`; with nothing queued, the loop waits.
  unfoldable pub fetch : Outlet → Outlet
  fetch l = elim l.in_flight [
    | some p ↦ l
    | none ↦ elim (ch.try_receive l.sink.queue) [
      | none ↦ l
      | some (p, q) ↦ record l { sink = record l.sink { queue = q }; in_flight = some p }
    ]
  ]

  -- The end of `ep.write` or `ep.write_transfer`: after a failure the packet is given up.
  unfoldable pub end_write : Bool → Outlet → Outlet
  unfolding write_of
  end_write success l = elim l.in_flight [
    | none ↦ l
    | some p ↦
        if success
        then record l {
          in_flight = none;
          writes = l.writes ++ write_of role p ∷ [];
          sent = count l.sent;
        }
        else record l { in_flight = none }
  ]

  -- `follow_wheel` clears in the wheel role only.
  unfoldable pub clear_queue : Outlet → Outlet
  clear_queue l =
      if is_wheel role then record l { sink = record l.sink { queue = clear l.sink.queue } } else l

  unfoldable pub step : Step → Outlet → Outlet
  unfolding fetch end_write clear_queue
  step fetches l = fetch l
  step (ends success) l = end_write success l
  step clears l = clear_queue l

-- How often a step can give up a packet, and clear the queue.
abbrev pub failures_of : Step → ℕ
failures_of fetches = 0
failures_of (ends success) = if success then 0 else 1
failures_of clears = 0

abbrev pub clearings_of : Role → Step → ℕ
clearings_of role fetches = 0
clearings_of role (ends success) = 0
clearings_of role clears = if is_wheel role then 1 else 0

abbrev pub flight_of : Option Packet → List Packet
flight_of none = []
flight_of (some p) = p ∷ []

module _ {ch : Channels} {cap : ℕ} {role : Role} where
  open ch use {items}

  -- Every packet of `all`, in their order, is written to the console, lost because its write failed,
  -- cleared from the queue, about to be written, cleared behind the one about to be written (`behind`),
  -- queued, or counted as dropped. At most `fails` are lost, and at most `cap` cleared at each of
  -- `clearings` times.
  pub record IsDelivered (all : List Packet) (fails clearings : ℕ) (l : Outlet ch cap role)
      : Type 0 where
    pub gone : List (Fate × Packet)
    pub behind : List Packet
    pub wrote : l.writes ≡ map (write_of role) (delivered_in gone)
    pub counted : l.sent ≡ u32 (length (delivered_in gone))
    pub few_lost : lost_in gone ≤ fails
    pub few_cleared : cleared_in gone + length behind ≤ cap * clearings
    pub queued : IsQueued (packets_of gone ++ (flight_of l.in_flight ++ behind)) all l.sink

  pub push-IsDelivered :
      (p : Packet) (all : List Packet) (fails clearings : ℕ) (l : Outlet ch cap role)
      → suc (length all) < 2 ^ 32
      → IsDelivered all fails clearings l
      → IsDelivered (all ++ p ∷ []) fails clearings (record l { sink = push ch p l.sink })
  push-IsDelivered p all fails clearings l small h = record {
    gone = h.gone;
    behind = h.behind;
    wrote = h.wrote;
    counted = h.counted;
    few_lost = h.few_lost;
    few_cleared = h.few_cleared;
    queued = push-IsQueued p _ all l.sink small h.queued;
  }

  -- The packets that were cleared behind one that has been written are like the others.
  settled :
      (all : List Packet) (fails clearings : ℕ) (l : Outlet ch cap role)
      → IsDelivered all fails clearings (record l { in_flight = none })
      → (g : IsDelivered all fails clearings (record l { in_flight = none })) × IsQueued
          (packets_of g.gone)
          all
          l.sink
        × (g.behind ≡ [])
  settled all fails clearings l h =
      let s = append-Splits h.gone (all_cleared h.behind) in
      let c = all_cleared-AreCleared h.behind in
      let same : delivered_in (h.gone ++ all_cleared h.behind) ≡ delivered_in h.gone =
        s.deliveries
        ∙ ap (λ d. delivered_in h.gone ++ d) c.deliveries
        ∙ append-nil (delivered_in h.gone) in
      let packets : packets_of (h.gone ++ all_cleared h.behind) ≡ packets_of h.gone ++ h.behind =
        s.packets ∙ ap (λ k. packets_of h.gone ++ k) c.packets in
      let queued : IsQueued (packets_of (h.gone ++ all_cleared h.behind)) all l.sink =
        subst (λ k. IsQueued k all l.sink) (sym packets) h.queued in
      (
        record {
          gone = h.gone ++ all_cleared h.behind;
          behind = [];
          wrote = h.wrote ∙ ap (map (write_of role)) (sym same);
          counted = h.counted ∙ ap (λ d. u32 (length d)) (sym same);
          few_lost = omega (arith, h.few_lost, s.losses, c.losses);
          few_cleared = omega (arith, h.few_cleared, s.clearings, c.clearings);
          queued =
              subst (λ k. IsQueued k all l.sink)
                (sym (append-nil (packets_of (h.gone ++ all_cleared h.behind)))) queued;
        },
        queued,
        refl,
      )

  fetch-IsDelivered :
      (all : List Packet) (fails clearings : ℕ) (l : Outlet ch cap role)
      → IsDelivered all fails clearings l
      → IsDelivered all fails clearings (fetch ch cap role l)
  unfolding fetch
  fetch-IsDelivered all fails clearings l h = go l.in_flight h
    where
      go :
          (o : Option Packet)
          → IsDelivered all fails clearings (record l { in_flight = o })
          → IsDelivered all fails clearings (fetch ch cap role (record l { in_flight = o }))
      go (some p) h = h
      go none h =
          let (g, queued, none_behind) = settled all fails clearings l h in
          elim (try_receive-IsQueued (packets_of g.gone) all l.sink queued) [
            | inl e ↦ rw (e, fetch) g
            | inr (p, q, e, queued') ↦
                rw (e, fetch)
                  (record {
                    gone = g.gone;
                    behind = [];
                    wrote = g.wrote;
                    counted = g.counted;
                    few_lost = g.few_lost;
                    few_cleared = omega (arith, g.few_cleared);
                    queued = queued';
                  })
          ]

  end_write-IsDelivered :
      (success : Bool) (all : List Packet) (fails clearings : ℕ) (l : Outlet ch cap role)
      → IsDelivered all fails clearings l
      → IsDelivered all
          (fails + failures_of (ends success))
          clearings
          (end_write ch cap role success l)
  unfolding end_write
  end_write-IsDelivered success all fails clearings l h = go l.in_flight success h
    where
      -- The packet in flight joins those that are gone.
      joined :
          (f : Fate) (p : Packet) (gone : List (Fate × Packet)) (behind : List Packet)
          → IsQueued (packets_of gone ++ p ∷ behind) all l.sink
          → IsQueued (packets_of (gone ++ (f, p) ∷ []) ++ behind) all l.sink
      joined f p gone behind queued =
          subst (λ k. IsQueued k all l.sink)
            (sym (append_assoc (packets_of gone) (p ∷ []) behind)
              ∙ ap (λ k. k ++ behind) (sym (append-Splits gone ((f, p) ∷ [])).packets))
            queued

      go :
          (o : Option Packet) (success : Bool)
          → IsDelivered all fails clearings (record l { in_flight = o })
          → IsDelivered all
              (fails + failures_of (ends success))
              clearings
              (end_write ch cap role success (record l { in_flight = o }))
      go none success h = record {
        gone = h.gone;
        behind = h.behind;
        wrote = h.wrote;
        counted = h.counted;
        few_lost = omega (arith, h.few_lost);
        few_cleared = h.few_cleared;
        queued = h.queued;
      }
      go (some p) true h =
          let s = append-Splits h.gone ((delivered, p) ∷ []) in
          record {
            gone = h.gone ++ (delivered, p) ∷ [];
            behind = h.behind;
            wrote =
                ap (λ w. w ++ write_of role p ∷ []) h.wrote
                ∙ sym (map-append (write_of role) (delivered_in h.gone) (p ∷ []))
                ∙ ap (map (write_of role)) (sym s.deliveries);
            counted = omega (
              arith,
              h.counted,
              ap length s.deliveries,
              length-append (delivered_in h.gone) (p ∷ []),
            );
            few_lost = omega (arith, h.few_lost, s.losses);
            few_cleared = omega (arith, h.few_cleared, s.clearings);
            queued = joined delivered p h.gone h.behind h.queued;
          }
      go (some p) false h =
          let s = append-Splits h.gone ((lost, p) ∷ []) in
          let same = s.deliveries ∙ append-nil (delivered_in h.gone) in
          record {
            gone = h.gone ++ (lost, p) ∷ [];
            behind = h.behind;
            wrote = h.wrote ∙ ap (map (write_of role)) (sym same);
            counted = h.counted ∙ ap (λ d. u32 (length d)) (sym same);
            few_lost = omega (arith, h.few_lost, s.losses);
            few_cleared = omega (arith, h.few_cleared, s.clearings);
            queued = joined lost p h.gone h.behind h.queued;
          }

  clear_queue-IsDelivered :
      (all : List Packet) (fails clearings : ℕ) (l : Outlet ch cap role)
      → IsDelivered all fails clearings l
      → IsDelivered all fails (clearings + clearings_of role clears) (clear_queue ch cap role l)
  unfolding clear_queue
  clear_queue-IsDelivered all fails clearings l h = go (is_wheel role)
    where
      go :
          (wheel : Bool)
          → IsDelivered all fails (clearings + (if wheel then 1 else 0)) (
              if wheel
              then record l { sink = record l.sink { queue = ch.clear l.sink.queue } }
              else l)
      go false = record {
        gone = h.gone;
        behind = h.behind;
        wrote = h.wrote;
        counted = h.counted;
        few_lost = h.few_lost;
        few_cleared =
            subst (λ n. cleared_in h.gone + length h.behind ≤ cap * n) (omega arith) h.few_cleared;
        queued = h.queued;
      }
      go true =
          let waiting = items l.sink.queue in
          record {
            gone = h.gone;
            behind = h.behind ++ waiting;
            wrote = h.wrote;
            counted = h.counted;
            few_lost = h.few_lost;
            few_cleared = omega (
              arith,
              h.few_cleared,
              h.queued.0,
              length-append h.behind waiting,
              mul-add cap clearings 1,
            );
            queued =
                subst (λ k. IsQueued k all (record l.sink { queue = ch.clear l.sink.queue }))
                  (append_assoc (packets_of h.gone) (flight_of l.in_flight ++ h.behind) waiting
                    ∙ ap (λ k. packets_of h.gone ++ k)
                        (append_assoc (flight_of l.in_flight) h.behind waiting))
                  (clear-IsQueued _ all l.sink h.queued);
          }

  pub step-IsDelivered :
      (s : Step) (all : List Packet) (fails clearings : ℕ) (l : Outlet ch cap role)
      → IsDelivered all fails clearings l
      → IsDelivered all
          (fails + failures_of s)
          (clearings + clearings_of role s)
          (step ch cap role s l)
  unfolding step
  step-IsDelivered fetches all fails clearings l h =
      subst (λ n. IsDelivered all n (clearings + 0) (fetch ch cap role l)) (omega arith)
        (subst (λ n. IsDelivered all fails n (fetch ch cap role l)) (omega arith)
          (fetch-IsDelivered all fails clearings l h))
  step-IsDelivered (ends success) all fails clearings l h =
      subst
        (λ n.
          IsDelivered all (fails + failures_of (ends success)) n (end_write ch cap role success l))
        (omega arith) (end_write-IsDelivered success all fails clearings l h)
  step-IsDelivered clears all fails clearings l h =
      subst
        (λ n. IsDelivered all n (clearings + clearings_of role clears) (clear_queue ch cap role l))
        (omega arith) (clear_queue-IsDelivered all fails clearings l h)

  -- Nothing is queued, written or counted yet.
  abbrev pub IsFresh : Outlet ch cap role → Type 0
  IsFresh l =
      (items l.sink.queue ≡ [])
      × (l.sink.dropped ≡ 0)
      × (l.in_flight ≡ none)
      × (l.writes ≡ [])
      × (l.sent ≡ 0)

  pub fresh-IsDelivered : (l : Outlet ch cap role) → IsFresh l → IsDelivered [] 0 0 l
  fresh-IsDelivered l (empty, none_lost, idle, none_written, none_sent) = record {
    gone = [];
    behind = [];
    wrote = none_written;
    counted = none_sent;
    few_lost = omega arith;
    few_cleared = omega arith;
    queued =
        subst (λ o. IsQueued (flight_of o ++ []) [] l.sink) (sym idle)
          (empty-IsQueued l.sink empty none_lost);
  }

-- ===== src/Device/Queued.antt =====
-- What a queue between the cores of src/device.rs holds, while one core sends to it and the other one
-- receives.
use mathlib.Core.List.{append_assoc, append-nil}
use rp_wheel_bridge.Base.{
  ℕ, ◌+◌, ◌≤◌, length-append, suc, ◌^◌, ◌<◌, ◌≡◌, refl, none, some, ◌⊎◌, inl, inr, sym, ap, ◌∙◌,
  subst, List, [], ◌∷◌, ◌++◌, length, arith, IsThinned, none_yet, keeps, drops, IsThinned-le,
}
use native.Mathlib.Decide.{dec_lt}
use rp_wheel_bridge.Platform.Channel.{Channels}
use rp_wheel_bridge.Device.Packet.{Packet}
use rp_wheel_bridge.Device.Streams.{Sink, push, push_fits, push_full}

module _ {ch : Channels} {cap : ℕ} where
  open ch use {items}

  -- Of the packets `all`, in their order: those in `gone` have left the queue, those in the queue wait,
  -- and as many as are counted were dropped.
  abbrev pub IsQueued : List Packet → List Packet → Sink ch cap → Type 0
  IsQueued gone all s =
      (length (items s.queue) ≤ cap) × IsThinned (gone ++ items s.queue) all s.dropped

  pub push-IsQueued :
      (p : Packet) (gone all : List Packet) (s : Sink ch cap)
      → suc (length all) < 2 ^ 32
      → IsQueued gone all s
      → IsQueued gone (all ++ p ∷ []) (push ch p s)
  push-IsQueued p gone all s small (fits, h) = elim (dec_lt (length (items s.queue)) cap) [
    | yes room ↦
        let (after, same) = push_fits ch p s room in
        let kept : (gone ++ items s.queue) ++ p ∷ [] ≡ gone ++ items (push ch p s).queue =
          append_assoc gone (items s.queue) (p ∷ []) ∙ ap (λ q. gone ++ q) (sym after) in
        (
          rw after (omega (arith, length-append (items s.queue) (p ∷ []))),
          subst (IsThinned (gone ++ items (push ch p s).queue) (all ++ p ∷ [])) (sym same)
              (subst (λ k. IsThinned k (all ++ p ∷ []) s.dropped) kept (keeps h p)),
        )
    | no full ↦
        let (same, more) = push_full ch p s (omega arith) in
        let one : suc s.dropped ≡ (push ch p s).dropped = omega (arith, more, IsThinned-le h) in
        (
          rw same fits,
          subst (IsThinned (gone ++ items (push ch p s).queue) (all ++ p ∷ [])) one (
              subst (λ q. IsThinned (gone ++ q) (all ++ p ∷ []) (suc s.dropped)) (sym same)
                (drops h p)),
        )
  ]

  -- A receiver finds nothing, or it takes the packet that waits longest.
  pub try_receive-IsQueued :
      (gone all : List Packet) (s : Sink ch cap)
      → IsQueued gone all s
      → (ch.try_receive s.queue ≡ none)
        ⊎ ((p : Packet) × (q : ch.Queue Packet cap) × (ch.try_receive s.queue ≡ some (p, q))
            × IsQueued (gone ++ p ∷ []) all (record s { queue = q }))
  try_receive-IsQueued gone all s (fits, h) = go (items s.queue) refl
    where
      go :
          (waiting : List Packet)
          → items s.queue ≡ waiting
          → (ch.try_receive s.queue ≡ none)
            ⊎ ((p : Packet) × (q : ch.Queue Packet cap) × (ch.try_receive s.queue ≡ some (p, q))
                × IsQueued (gone ++ p ∷ []) all (record s { queue = q }))
      go [] none_waits = inl (ch.receive_empty s.queue none_waits)
      go (p ∷ rest) waits =
          let (q, e, left) = ch.receive_head s.queue p rest waits in
          let kept : gone ++ items s.queue ≡ (gone ++ p ∷ []) ++ items q =
            ap (λ l. gone ++ l) waits
            ∙ ap (λ l. gone ++ p ∷ l) (sym left)
            ∙ sym (append_assoc gone (p ∷ []) (items q)) in
          inr (
            p,
            q,
            e,
            (
              rw left (omega (arith, ap length waits)),
              subst (λ k. IsThinned k all s.dropped) kept h,
            ),
          )

  -- What waits when the queue is cleared leaves it.
  pub clear-IsQueued :
      (gone all : List Packet) (s : Sink ch cap)
      → IsQueued gone all s
      → IsQueued (gone ++ items s.queue) all (record s { queue = ch.clear s.queue })
  clear-IsQueued gone all s (fits, h) =
      let empty = ch.clear_items s.queue in
      (
        rw empty (omega arith),
        subst (λ k. IsThinned k all s.dropped)
            (sym (append-nil (gone ++ items s.queue))
              ∙ ap (λ q. (gone ++ items s.queue) ++ q) (sym empty))
            h,
      )

  pub empty-IsQueued : (s : Sink ch cap) → items s.queue ≡ [] → s.dropped ≡ 0 → IsQueued [] [] s
  empty-IsQueued s empty none_lost = (
    rw empty (omega arith),
    subst (λ q. IsThinned q [] s.dropped) (sym empty)
        (subst (IsThinned [] []) (sym none_lost) none_yet),
  )

-- What became of a packet that has left a queue: its write succeeded, its write failed, or the queue
-- was cleared.
pub data Fate : Type 0 where
  delivered lost cleared : Fate

abbrev pub packets_of : List (Fate × Packet) → List Packet
packets_of [] = []
packets_of ((f, p) ∷ ps) = p ∷ packets_of ps

abbrev pub delivered_in : List (Fate × Packet) → List Packet
delivered_in [] = []
delivered_in ((delivered, p) ∷ ps) = p ∷ delivered_in ps
delivered_in ((lost, p) ∷ ps) = delivered_in ps
delivered_in ((cleared, p) ∷ ps) = delivered_in ps

abbrev pub lost_in : List (Fate × Packet) → ℕ
lost_in [] = 0
lost_in ((delivered, p) ∷ ps) = lost_in ps
lost_in ((lost, p) ∷ ps) = 1 + lost_in ps
lost_in ((cleared, p) ∷ ps) = lost_in ps

abbrev pub cleared_in : List (Fate × Packet) → ℕ
cleared_in [] = 0
cleared_in ((delivered, p) ∷ ps) = cleared_in ps
cleared_in ((lost, p) ∷ ps) = cleared_in ps
cleared_in ((cleared, p) ∷ ps) = 1 + cleared_in ps

abbrev pub all_cleared : List Packet → List (Fate × Packet)
all_cleared [] = []
all_cleared (p ∷ ps) = (cleared, p) ∷ all_cleared ps

-- What the functions above make of a list and of another one behind it.
pub record Splits (xs ys : List (Fate × Packet)) : Type 0 where
  pub packets : packets_of (xs ++ ys) ≡ packets_of xs ++ packets_of ys
  pub deliveries : delivered_in (xs ++ ys) ≡ delivered_in xs ++ delivered_in ys
  pub losses : lost_in (xs ++ ys) ≡ lost_in xs + lost_in ys
  pub clearings : cleared_in (xs ++ ys) ≡ cleared_in xs + cleared_in ys

pub append-Splits : (xs ys : List (Fate × Packet)) → Splits xs ys
append-Splits [] ys = record {
  packets = refl;
  deliveries = refl;
  losses = omega arith;
  clearings = omega arith;
}
append-Splits ((delivered, p) ∷ xs) ys =
    let r = append-Splits xs ys in
    record {
      packets = ap (λ l. p ∷ l) r.packets;
      deliveries = ap (λ l. p ∷ l) r.deliveries;
      losses = r.losses;
      clearings = r.clearings;
    }
append-Splits ((lost, p) ∷ xs) ys =
    let r = append-Splits xs ys in
    record {
      packets = ap (λ l. p ∷ l) r.packets;
      deliveries = r.deliveries;
      losses = omega (arith, r.losses);
      clearings = r.clearings;
    }
append-Splits ((cleared, p) ∷ xs) ys =
    let r = append-Splits xs ys in
    record {
      packets = ap (λ l. p ∷ l) r.packets;
      deliveries = r.deliveries;
      losses = r.losses;
      clearings = omega (arith, r.clearings);
    }

-- What the functions above make of cleared packets.
pub record AreCleared (ps : List Packet) : Type 0 where
  pub packets : packets_of (all_cleared ps) ≡ ps
  pub deliveries : delivered_in (all_cleared ps) ≡ []
  pub losses : lost_in (all_cleared ps) ≡ 0
  pub clearings : cleared_in (all_cleared ps) ≡ length ps

pub all_cleared-AreCleared : (ps : List Packet) → AreCleared ps
all_cleared-AreCleared [] = record {
  packets = refl;
  deliveries = refl;
  losses = refl;
  clearings = refl;
}
all_cleared-AreCleared (p ∷ ps) =
    let r = all_cleared-AreCleared ps in
    record {
      packets = ap (λ l. p ∷ l) r.packets;
      deliveries = r.deliveries;
      losses = r.losses;
      clearings = omega (arith, r.clearings);
    }

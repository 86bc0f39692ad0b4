-- ===== src/Proxy/InPath.antt =====
-- An IN endpoint of the wheel or of DriveHub on its way to the console: `forward_in` of src/proxy.rs on
-- core 1, with whatever its closure does before it sends the packet to the queue, and `forward_in` of
-- src/device.rs on core 0 (Device.Delivery), with the queue between them, in any order.
use mathlib.Core.List.{append_assoc, append-nil, map-append}
use rp_wheel_bridge.Base.{
  ℕ, suc, ◌+◌, ◌^◌, ◌<◌, ◌≡◌, refl, sym, ap, ◌∙◌, subst, List, [], ◌∷◌, ◌++◌, map, Bool, true,
  false, if◌then◌else◌, if_intro, ok, err, length, length-append, arith,
}
use rp_wheel_bridge.Platform.Channel.{Channels}
use rp_wheel_bridge.Device.Packet
use rp_wheel_bridge.Device.Packet.{Packet}
use rp_wheel_bridge.Device.Profile.{Role}
use rp_wheel_bridge.Device.Streams.{push}
use rp_wheel_bridge.Device.Delivery.{
  Step, Outlet, step, failures_of, clearings_of, IsDelivered, push-IsDelivered, step-IsDelivered,
  IsFresh, fresh-IsDelivered,
}
use rp_wheel_bridge.Proxy.Input.{Transfer, keep_polling}

-- A turn: a transfer from the endpoint ends, with the time, or something happens on core 0.
pub data Turn : Type 0 where
  reads : ℕ → Transfer → Turn
  steps : Step → Turn

-- What the closure does to its state with a packet that comes at the given time.
abbrev pub Closure : Type 0 → Type 0
Closure S = ℕ × Packet → S → S

module _ (ch : Channels) (cap : ℕ) (role : Role) {S : Type 0} (closure : Closure S) where
  -- The queue with the endpoint of the console, the state of the closure, and whether the loop on
  -- core 1 still runs.
  pub record Route : Type 0 where
    pub line : Outlet ch cap role
    pub state : S
    pub running : Bool

  -- One round of the loop on core 1.
  unfoldable pub read_packet : ℕ → Transfer → Route → Route
  unfolding push
  read_packet now (ok bytes) r =
      let p = Packet.new bytes in
      record r {
        line = record r.line { sink = push ch p r.line.sink };
        state = closure (now, p) r.state;
      }
  read_packet now (err e) r = record r { running = keep_polling e }

  unfoldable pub take_turn : Turn → Route → Route
  unfolding read_packet step
  take_turn (reads now t) r = let next = read_packet now t r in if r.running then next else r
  take_turn (steps s) r = record r { line = step ch cap role s r.line }

  unfoldable pub take_turns : List Turn → Route → Route
  unfolding take_turn
  take_turns [] r = r
  take_turns (t ∷ ts) r = take_turns ts (take_turn t r)

-- The packets read before a detach, with their times.
abbrev pub read_from : List Turn → List (ℕ × Packet)
read_from [] = []
read_from (steps s ∷ ts) = read_from ts
read_from (reads now (ok bytes) ∷ ts) = (now, Packet.new bytes) ∷ read_from ts
read_from (reads now (err e) ∷ ts) = let rest = read_from ts in if keep_polling e then rest else []

-- How many writes fail, and how often the queue is cleared.
abbrev pub failures : List Turn → ℕ
failures [] = 0
failures (reads now t ∷ ts) = failures ts
failures (steps s ∷ ts) = failures_of s + failures ts

abbrev pub clearings : Role → List Turn → ℕ
clearings role [] = 0
clearings role (reads now t ∷ ts) = clearings role ts
clearings role (steps s ∷ ts) = clearings_of role s + clearings role ts

abbrev pub packet_of : ℕ × Packet → Packet
packet_of (now, p) = p

-- The closure on packets, one after another.
abbrev pub run_all : {S : Type 0} → Closure S → List (ℕ × Packet) → S → S
run_all closure [] s = s
run_all closure (p ∷ ps) s = run_all closure ps (closure p s)

run_all-append :
    {S : Type 0} (closure : Closure S) (ps qs : List (ℕ × Packet)) (s : S)
    → run_all closure (ps ++ qs) s ≡ run_all closure qs (run_all closure ps s)
run_all-append closure [] qs s = refl
run_all-append closure (p ∷ ps) qs s = run_all-append closure ps qs (closure p s)

length-map : (ps : List (ℕ × Packet)) → length (map packet_of ps) ≡ length ps
length-map [] = refl
length-map (p ∷ ps) = ap suc (length-map ps)

module _ {ch : Channels} {cap : ℕ} {role : Role} {S : Type 0} {closure : Closure S} where
  open ch use {items}

  -- The packets `all` are accounted for, with at most `f` lost and the queue cleared `c` times; and the
  -- closure, from its state `s` on, has run on all of them.
  abbrev pub IsPassed : S → List (ℕ × Packet) → ℕ → ℕ → Route ch cap role closure → Type 0
  IsPassed s all f c r =
      IsDelivered (map packet_of all) f c r.line × (r.state ≡ run_all closure all s)

  moved :
      (s : S) (all : List (ℕ × Packet)) (r : Route ch cap role closure) {f c g d : ℕ}
      → f ≡ g
      → c ≡ d
      → IsPassed s all f c r
      → IsPassed s all g d r
  moved s all r {f} {c} {g} {d} e k h =
      subst (λ n. IsPassed s all g n r) k (subst (λ n. IsPassed s all n c r) e h)

  reads-IsPassed :
      (now : ℕ) (bytes : List ℕ) (s : S) (all : List (ℕ × Packet)) (f c : ℕ)
      (r : Route ch cap role closure)
      → suc (length all) < 2 ^ 32
      → IsPassed s all f c r
      → IsPassed s
          (all ++ (now, Packet.new bytes) ∷ [])
          f
          c
          (read_packet ch cap role closure now (ok bytes) r)
  unfolding read_packet
  reads-IsPassed now bytes s all f c r small (given, ran) =
      let p : ℕ × Packet = (now, Packet.new bytes) in
      let line' : Outlet ch cap role = record r.line { sink = push ch p.1 r.line.sink } in
      (
        subst (λ l. IsDelivered l f c line') (sym (map-append packet_of all (p ∷ [])))
            (push-IsDelivered p.1 (map packet_of all) f c r.line (omega (arith, length-map all))
              given),
        ap (closure p) ran ∙ sym (run_all-append closure all (p ∷ []) s),
      )

  -- After a detach the queue is only drained and cleared.
  stopped-IsPassed :
      (ts : List Turn) (s : S) (all : List (ℕ × Packet)) (f c : ℕ) (r : Route ch cap role closure)
      → r.running ≡ false
      → IsPassed s all f c r
      → IsPassed s all
          (f + failures ts)
          (c + clearings role ts)
          (take_turns ch cap role closure ts r)
  unfolding take_turns take_turn
  stopped-IsPassed [] s all f c r off h = moved s all r (omega arith) (omega arith) h
  stopped-IsPassed (reads now t ∷ ts) s all f c r off h =
      if_intro
        (λ x.
          IsPassed s all (f + failures ts) (c + clearings role ts)
            (take_turns ch cap role closure ts x))
        r.running _ r (λ on. absurd cc) (λ _. stopped-IsPassed ts s all f c r off h)
  stopped-IsPassed (steps e ∷ ts) s all f c r off (given, ran) =
      let r' : Route ch cap role closure = record r { line = step ch cap role e r.line } in
      moved s all (take_turns ch cap role closure ts r') (omega arith) (omega arith) (
        stopped-IsPassed ts s all (f + failures_of e) (c + clearings_of role e) r' off
          (step-IsDelivered e (map packet_of all) f c r.line given, ran))

  take_turns-IsPassed :
      (ts : List Turn) (s : S) (all : List (ℕ × Packet)) (f c : ℕ) (r : Route ch cap role closure)
      → length all + length ts < 2 ^ 32
      → r.running ≡ true
      → IsPassed s all f c r
      → IsPassed s
          (all ++ read_from ts)
          (f + failures ts)
          (c + clearings role ts)
          (take_turns ch cap role closure ts r)
  unfolding take_turns take_turn read_packet
  take_turns-IsPassed [] s all f c r small on h =
      rw (append-nil all) (moved s all r (omega arith) (omega arith) h)
  take_turns-IsPassed (steps e ∷ ts) s all f c r small on (given, ran) =
      let r' : Route ch cap role closure = record r { line = step ch cap role e r.line } in
      moved s (all ++ read_from ts) (take_turns ch cap role closure ts r') (omega arith)
        (omega arith)
        (take_turns-IsPassed ts s all (f + failures_of e) (c + clearings_of role e) r' (omega arith)
          on (step-IsDelivered e (map packet_of all) f c r.line given, ran))
  take_turns-IsPassed (reads now (ok bytes) ∷ ts) s all f c r small on h =
      let p : ℕ × Packet = (now, Packet.new bytes) in
      let next = read_packet ch cap role closure now (ok bytes) r in
      if_intro
        (λ x.
          IsPassed s (all ++ p ∷ read_from ts) (f + failures ts) (c + clearings role ts)
            (take_turns ch cap role closure ts x))
        r.running next r
        (λ _.
          subst
            (λ l.
              IsPassed s l (f + failures ts) (c + clearings role ts)
                (take_turns ch cap role closure ts next))
            (append_assoc all (p ∷ []) (read_from ts))
            (take_turns-IsPassed ts s (all ++ p ∷ []) f c next
              (omega (arith, length-append all (p ∷ []))) on
              (reads-IsPassed now bytes s all f c r (omega arith) h)))
        (λ off. absurd cc)
  take_turns-IsPassed (reads now (err e) ∷ ts) s all f c r small on h =
      let next = read_packet ch cap role closure now (err e) r in
      if_intro
        (λ x.
          IsPassed s (all ++ read_from (reads now (err e) ∷ ts)) (f + failures ts)
            (c + clearings role ts) (take_turns ch cap role closure ts x))
        r.running next r
        (λ _.
          if_intro
            (λ l.
              IsPassed s (all ++ l) (f + failures ts) (c + clearings role ts)
                (take_turns ch cap role closure ts next))
            (keep_polling e) _ []
            (λ goes_on. take_turns-IsPassed ts s all f c next (omega arith) goes_on h)
            (λ ends. rw (append-nil all) (stopped-IsPassed ts s all f c next ends h)))
        (λ off. absurd cc)

  -- However the transfers from an IN endpoint, the writes to the console and the clearings of the queue
  -- take turns, with fewer than 2^32 turns, from an empty queue: the packets read before a detach are
  -- written to the console, each framed for the role, in their order and once, but for those that wait,
  -- that are counted as dropped, whose write failed or that were cleared; and the closure has run on
  -- every packet read, in their order.
  pub endpoint_to_console :
      (ts : List Turn) (r : Route ch cap role closure)
      → length ts < 2 ^ 32
      → r.running ≡ true
      → IsFresh r.line
      → IsPassed r.state
          (read_from ts)
          (failures ts)
          (clearings role ts)
          (take_turns ch cap role closure ts r)
  endpoint_to_console ts r small on new =
      moved r.state (read_from ts) (take_turns ch cap role closure ts r) (omega arith) (omega arith)
        (take_turns-IsPassed ts r.state [] 0 0 r (omega arith) on
          (fresh-IsDelivered r.line new, refl))

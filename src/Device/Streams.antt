-- ===== src/Device/Streams.antt =====
-- The loops of src/device.rs that read the console's OUT endpoints, one round each, what is written to
-- its IN endpoints, and the queues between the cores.
use rp_wheel_bridge.Base.{
  ℕ, zero, suc, ◌+◌, ◌-◌, ◌^◌, ◌≤◌, ◌<◌, ◌≡◌, refl, sym, ap, ◌∙◌, List, [], ◌∷◌, ◌++◌, none, some,
  Bool, if◌then◌else◌, ltb, length, take, drop, u32, beq_bytes, arith, inl, inr, length-append,
  take_all, drop_all,
}
use mathlib.Core.List.{append_assoc, append-nil}
use rp_wheel_bridge.Platform.Channel.{Channels, try_send-cases}
use rp_wheel_bridge.Device.Packet
use rp_wheel_bridge.Device.Packet.{Packet, max_packet}
use rp_wheel_bridge.Device.Profile.{Role, is_relay, is_mirror}
use rp_wheel_bridge.Device.Link.{queue_len}

-- `count(&counter)`: `fetch_add` on an `AtomicU32`.
abbrev pub count : ℕ → ℕ
count n = u32 (n + 1)

-- A call that writes to an IN endpoint: `write`, or `write_transfer` and whether a zero-length
-- packet is to end the transfer.
pub data Write : Type 0 where
  packet : List ℕ → Write
  transfer : List ℕ → Bool → Write

-- What `forward_in` writes for a queued report.
unfoldable pub write_of : Role → Packet → Write
write_of role p =
    let report = Packet.bytes p in
    if is_relay role then packet report else transfer report (ltb (length report) max_packet)

module _ (ch : Channels) where
  open ch use {Queue, items, try_send, try_receive}

  -- A queue towards the other core and the counter of what it had no room for.
  pub record Sink (cap : ℕ) : Type 0 where
    pub queue : Queue Packet cap
    pub dropped : ℕ

  -- `if QUEUE.try_send(packet).is_err() { count(&STATS.dropped) }`
  unfoldable pub push : {cap : ℕ} → Packet → Sink cap → Sink cap
  push p s = elim (try_send p s.queue) [
    | some q ↦ record s { queue = q }
    | none ↦ record s { dropped = count s.dropped }
  ]

  unfoldable pub push_all : {cap : ℕ} → List Packet → Sink cap → Sink cap
  push_all [] s = s
  push_all (p ∷ ps) s = push_all ps (push p s)

  -- The variables of `if0_output`.
  pub record If0 : Type 0 where
    pub last : Packet
    pub repeats : ℕ
    pub sink : Sink queue_len

  -- One output report `bytes` that was read.
  unfoldable pub if0_output : Role → List ℕ → If0 → If0
  unfolding push
  if0_output role bytes s =
      let p = Packet.new bytes in
      let repeated = beq_bytes (Packet.bytes p) (Packet.bytes s.last) in
      record {
        last = if repeated then s.last else p;
        repeats = if repeated then u32 (s.repeats + 1) else 0;
        sink = if is_mirror role then s.sink else push p s.sink;
      }

  -- One force feedback report that was read, and the counter of those received.
  unfoldable pub forward_ffb_out : List ℕ → Sink queue_len × ℕ → Sink queue_len × ℕ
  unfolding push
  forward_ffb_out bytes (s, received) = (push (Packet.new bytes) s, count received)

  pub push_fits :
      {cap : ℕ} (p : Packet) (s : Sink cap)
      → length (items s.queue) < cap
      → (items (push p s).queue ≡ items s.queue ++ p ∷ []) × ((push p s).dropped ≡ s.dropped)
  unfolding push
  push_fits p s h = elim (try_send-cases ch p s.queue) [
    | inl (_, (q, sent, after)) ↦ rw (sent, push) (after, refl)
    | inr (full, _) ↦ absurd (omega arith)
  ]

  pub push_full :
      {cap : ℕ} (p : Packet) (s : Sink cap)
      → cap ≤ length (items s.queue)
      → (items (push p s).queue ≡ items s.queue) × ((push p s).dropped ≡ count s.dropped)
  unfolding push
  push_full p s h = elim (try_send-cases ch p s.queue) [
    | inl (fits, _) ↦ absurd (omega arith)
    | inr (_, failed) ↦ rw (failed, push) (refl, refl)
  ]

  push_all_room :
      {cap : ℕ} (ps : List Packet) (room : ℕ) (s : Sink cap)
      → length (items s.queue) + room ≡ cap
      → s.dropped < 2 ^ 32
      → (items (push_all ps s).queue ≡ items s.queue ++ take room ps)
        × ((push_all ps s).dropped ≡ u32 (s.dropped + length (drop room ps)))
  unfolding push_all
  push_all_room [] room s h d = (
    rw (take_all {A = Packet} room [] (omega arith)) (sym (append-nil (items s.queue))),
    rw (drop_all {A = Packet} room [] (omega arith)) (omega arith),
  )
  push_all_room (p ∷ ps) zero s h d =
      let (same, more) = push_full p s (omega arith) in
      let (q, n) = push_all_room ps zero (push p s) (rw same h) (rw more (omega arith)) in
      (q ∙ ap (λ k. k ++ []) same, n ∙ rw more (omega arith))
  push_all_room (p ∷ ps) (suc room) s h d =
      let (after, kept) = push_fits p s (omega arith) in
      let (q, n) =
        push_all_room ps room (push p s)
          (rw after (omega (arith, length-append (items s.queue) (p ∷ [])))) (rw kept d) in
      (
        q
            ∙ ap (λ k. k ++ take room ps) after
            ∙ append_assoc (items s.queue) (p ∷ []) (take room ps),
        n ∙ ap (λ k. u32 (k + length (drop room ps))) kept,
      )

  -- Any number of packets that arrive while nobody drains the queue: the first ones that fit are
  -- queued in their order behind those that wait, and each of the others is counted as dropped.
  pub push_all_lem :
      {cap : ℕ} (ps : List Packet) (s : Sink cap)
      → length (items s.queue) ≤ cap
      → s.dropped < 2 ^ 32
      → let room = cap - length (items s.queue) in
        (items (push_all ps s).queue ≡ items s.queue ++ take room ps)
        × ((push_all ps s).dropped ≡ u32 (s.dropped + length (drop room ps)))
  push_all_lem ps s h d = push_all_room ps _ s (omega arith) d

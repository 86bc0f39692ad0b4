-- ===== src/Proxy/Ins.antt =====
-- `forward_in` of src/proxy.rs: an IN endpoint of the wheel, or of DriveHub in the relay role, to its
-- queue.
use rp_wheel_bridge.Base.{
  ℕ, ◌+◌, ◌-◌, ◌^◌, ◌≤◌, ◌<◌, ◌≡◌, refl, ap, ◌∙◌, List, [], ◌∷◌, ◌++◌, if◌then◌else◌, length, take,
  drop, u32, ok, err, Bool-cases, inl, inr,
}
use rp_wheel_bridge.Platform.Channel.{Channels}
use rp_wheel_bridge.Device.Packet
use rp_wheel_bridge.Device.Packet.{Packet}
use rp_wheel_bridge.Device.Streams.{Sink, push, push_all, push_all_lem}
use rp_wheel_bridge.Proxy.Input.{Transfer, keep_polling}

-- What was read before a detach.
abbrev pub received : List Transfer → List Packet
received [] = []
received (ok bytes ∷ ts) = Packet.new bytes ∷ received ts
received (err e ∷ ts) = let rest = received ts in if keep_polling e then rest else []

module _ (ch : Channels) {cap : ℕ} where
  -- The loop, whose `push` is a `try_send` to a queue.
  unfoldable pub forward_in : List Transfer → Sink ch cap → Sink ch cap
  forward_in [] s = s
  forward_in (ok bytes ∷ ts) s = forward_in ts (push ch (Packet.new bytes) s)
  forward_in (err e ∷ ts) s = let rest = forward_in ts s in if keep_polling e then rest else s

  forward_in-push_all :
      (ts : List Transfer) (s : Sink ch cap) → forward_in ts s ≡ push_all ch (received ts) s
  unfolding forward_in push_all
  forward_in-push_all [] s = refl
  forward_in-push_all (ok bytes ∷ ts) s = forward_in-push_all ts (push ch (Packet.new bytes) s)
  forward_in-push_all (err e ∷ ts) s = elim (Bool-cases (keep_polling e)) [
    | inl on ↦ rw on (forward_in-push_all ts s)
    | inr off ↦ rw off refl
  ]

  -- Whatever the transfers from an IN endpoint give, while nobody drains the queue: the packets read
  -- before a detach are queued behind those that wait, in their order, as far as there is room, each
  -- of the others is counted as dropped, and failures that are no detach lose nothing.
  pub forward_in_lem :
      (ts : List Transfer) (s : Sink ch cap)
      → length (ch.items s.queue) ≤ cap
      → s.dropped < 2 ^ 32
      → let room = cap - length (ch.items s.queue) in
        let s' = forward_in ts s in
        (ch.items s'.queue ≡ ch.items s.queue ++ take room (received ts))
        × (s'.dropped ≡ u32 (s.dropped + length (drop room (received ts))))
  forward_in_lem ts s h d =
      let (queue, dropped) = push_all_lem ch (received ts) s h d in
      let same = forward_in-push_all ts s in
      (
        ap (λ (t : Sink ch cap). ch.items t.queue) same ∙ queue,
        ap (λ (t : Sink ch cap). t.dropped) same ∙ dropped,
      )

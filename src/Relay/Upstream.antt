-- ===== src/Relay/Upstream.antt =====
-- The IN endpoints of DriveHub on their way to the console: the closures of `run` in src/relay.rs.
use mathlib.Core.List.{append_assoc, append-nil}
use rp_wheel_bridge.Base.{
  refl, ℕ, ◌+◌, ◌^◌, ◌<◌, ◌≡◌, sym, ap, ◌∙◌, subst, List, [], ◌∷◌, ◌++◌, map, true, length, u32,
  arith,
}
use rp_wheel_bridge.Platform.Channel.{Channels}
use rp_wheel_bridge.Device.Packet
use rp_wheel_bridge.Device.Packet.{Packet}
use rp_wheel_bridge.Device.Profile.{relay}
use rp_wheel_bridge.Device.Streams.{Write, packet, write_of, count}
use rp_wheel_bridge.Device.Queued.{delivered_in}
use rp_wheel_bridge.Device.Delivery.{fetches, ends, clears, IsDelivered, IsFresh}
use rp_wheel_bridge.Proxy.Sampler
use rp_wheel_bridge.Proxy.Sampler.{Sampler, silent}
use rp_wheel_bridge.Proxy.InPath.{
  reads, steps, clearings, failures, Turn, Closure, Route, take_turns, read_from, packet_of,
  run_all, endpoint_to_console,
}

-- The IN endpoints of DriveHub.
pub data Source : Type 0 where
  if0 hidpp ffb : Source

-- The counter of the endpoint, the packets logged by `log_hidpp`, and the sampler.
pub record Taps : Type 0 where
  pub received : ℕ
  pub logged : List Packet
  pub sampler : Sampler

abbrev pub fresh : Taps
fresh = record { received = 0; logged = []; sampler = silent }

-- What the closure of each endpoint does before it sends the packet to the queue.
unfoldable pub on_packet : Source → Closure Taps
unfolding Sampler.log
on_packet if0 (now, p) t = record t { received = count t.received }
on_packet hidpp (now, p) t = record t { received = count t.received; logged = t.logged ++ p ∷ [] }
on_packet ffb (now, p) t = record t {
  received = count t.received;
  sampler = Sampler.log now (Packet.bytes p) t.sampler;
}

-- HID++ is logged in full.
abbrev pub logged_of : Source → List (ℕ × Packet) → List Packet
logged_of if0 ps = []
logged_of hidpp ps = map packet_of ps
logged_of ffb ps = []

-- A packet as it is, in one packet.
abbrev pub verbatim : Packet → Write
verbatim p = packet (Packet.bytes p)

run_all-received :
    (source : Source) (ps : List (ℕ × Packet)) (t : Taps)
    → t.received < 2 ^ 32
    → (run_all (on_packet source) ps t).received ≡ u32 (t.received + length ps)
unfolding on_packet
run_all-received source [] t h = omega arith
run_all-received if0 (p ∷ ps) t h =
    run_all-received if0 ps (on_packet if0 p t) (omega arith) ∙ omega arith
run_all-received hidpp (p ∷ ps) t h =
    run_all-received hidpp ps (on_packet hidpp p t) (omega arith) ∙ omega arith
run_all-received ffb (p ∷ ps) t h =
    run_all-received ffb ps (on_packet ffb p t) (omega arith) ∙ omega arith

run_all-logged :
    (source : Source) (ps : List (ℕ × Packet)) (t : Taps)
    → (run_all (on_packet source) ps t).logged ≡ t.logged ++ logged_of source ps
unfolding on_packet
run_all-logged if0 [] t = sym (append-nil t.logged)
run_all-logged hidpp [] t = sym (append-nil t.logged)
run_all-logged ffb [] t = sym (append-nil t.logged)
run_all-logged if0 (p ∷ ps) t = run_all-logged if0 ps (on_packet if0 p t)
run_all-logged hidpp (p ∷ ps) t =
    run_all-logged hidpp ps (on_packet hidpp p t)
    ∙ append_assoc t.logged (packet_of p ∷ []) (map packet_of ps)
run_all-logged ffb (p ∷ ps) t = run_all-logged ffb ps (on_packet ffb p t)

-- In the relay role nothing clears the queues.
clearings-relay : (ts : List Turn) → clearings relay ts ≡ 0
clearings-relay [] = refl
clearings-relay (reads now t ∷ ts) = clearings-relay ts
clearings-relay (steps fetches ∷ ts) = omega (arith, clearings-relay ts)
clearings-relay (steps (ends success) ∷ ts) = omega (arith, clearings-relay ts)
clearings-relay (steps clears ∷ ts) = omega (arith, clearings-relay ts)

module _ {ch : Channels} {cap : ℕ} where
  -- The packets `all` are accounted for, with at most `fails` lost and none cleared; those written to
  -- the console went as they are, each in a packet of its own; all are counted, and those of HID++ are
  -- logged.
  abbrev pub IsRelayed :
      (source : Source) → List (ℕ × Packet) → ℕ → Route ch cap relay (on_packet source) → Type 0
  IsRelayed source all fails r =
      (given : IsDelivered (map packet_of all) fails 0 r.line) × (r.line.writes
        ≡ map verbatim (delivered_in given.gone))
      × (r.state.received ≡ u32 (length all))
      × (r.state.logged ≡ logged_of source all)

  -- However the transfers from an IN endpoint of DriveHub and the writes to the console take turns, with
  -- fewer than 2^32 turns, from an empty queue: the packets that are read before a detach are written to
  -- the console as they are, each once and in a packet of its own, in their order, but for those that
  -- wait, those counted as dropped, and at most one for each write that fails; the packets read are
  -- counted (modulo 2^32), and those of HID++ are logged in full.
  pub drivehub_to_console :
      (source : Source) (ts : List Turn) (r : Route ch cap relay (on_packet source))
      → length ts < 2 ^ 32
      → r.running ≡ true
      → IsFresh r.line
      → r.state ≡ fresh
      → IsRelayed source
          (read_from ts)
          (failures ts)
          (take_turns ch cap relay (on_packet source) ts r)
  unfolding write_of
  drivehub_to_console source ts r small on empty new =
      let (given, ran) = endpoint_to_console ts r small on empty in
      let all = read_from ts in
      let r' = take_turns ch cap relay (on_packet source) ts r in
      let from_fresh = ran ∙ ap (run_all (on_packet source) all) new in
      let kept : IsDelivered (map packet_of all) (failures ts) 0 r'.line =
        subst (λ n. IsDelivered (map packet_of all) (failures ts) n r'.line) (clearings-relay ts)
          given in
      (
        kept,
        kept.wrote,
        ap (λ t. t.received) from_fresh
            ∙ run_all-received source all fresh (omega arith)
            ∙ omega arith,
        ap (λ t. t.logged) from_fresh ∙ run_all-logged source all fresh,
      )

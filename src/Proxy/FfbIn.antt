-- ===== src/Proxy/FfbIn.antt =====
-- Force feedback from the wheel to the console: the closure of `run` for IF2 in src/proxy.rs.
use rp_wheel_bridge.Base.{ℕ, ◌^◌, ◌<◌, ◌≡◌, refl, ap, ◌∙◌, List, [], ◌∷◌, map, none, true, length}
use rp_wheel_bridge.Platform.Channel.{Channels}
use rp_wheel_bridge.Hid.Gaps
use rp_wheel_bridge.Hid.Gaps.{GapMeter, tick, tick_all, tick_all-new, pauses}
use rp_wheel_bridge.Device.Packet
use rp_wheel_bridge.Device.Packet.{Packet}
use rp_wheel_bridge.Device.Profile.{Role}
use rp_wheel_bridge.Device.Streams.{count}
use rp_wheel_bridge.Device.Delivery.{IsDelivered, IsFresh}
use rp_wheel_bridge.Proxy.Sampler
use rp_wheel_bridge.Proxy.Sampler.{Sampler, silent}
use rp_wheel_bridge.Proxy.InPath.{
  clearings, failures, Turn, Closure, Route, take_turns, read_from, packet_of, run_all,
  endpoint_to_console,
}

-- The variables of the closure, and `WHEEL_FFB`.
pub record Watch : Type 0 where
  pub gap : GapMeter
  pub sampler : Sampler
  pub wheel_ffb : ℕ

abbrev pub fresh : Watch
fresh = record { gap = Gaps.new 100; sampler = silent; wheel_ffb = 0 }

-- What the closure does before it sends the packet to the queue.
unfoldable pub on_ffb : Closure Watch
unfolding tick Sampler.log
on_ffb (now, p) w = record {
  gap = tick now w.gap;
  sampler = Sampler.log now (Packet.bytes p) w.sampler;
  wheel_ffb = count w.wheel_ffb;
}

abbrev pub time_of : ℕ × Packet → ℕ
time_of (now, p) = now

run_all-gap :
    (ps : List (ℕ × Packet)) (w : Watch)
    → (run_all on_ffb ps w).gap ≡ tick_all (map time_of ps) w.gap
unfolding on_ffb tick_all
run_all-gap [] w = refl
run_all-gap (p ∷ ps) w = run_all-gap ps (on_ffb p w)

module _ {ch : Channels} {cap : ℕ} {role : Role} where
  -- The packets `all` are accounted for, with at most `fails` lost and the queue cleared `times` times;
  -- and the pauses of 100 ms and more between them are logged.
  abbrev pub IsForwarded : List (ℕ × Packet) → ℕ → ℕ → Route ch cap role on_ffb → Type 0
  IsForwarded all fails times r =
      IsDelivered (map packet_of all) fails times r.line
      × (r.state.gap.gaps ≡ pauses 100 none (map time_of all))

  -- However the wheel's force feedback, the writes to the console and the clearings of the queue take
  -- turns, with fewer than 2^32 turns, from an empty queue: the wheel's packets before a detach are
  -- written to the console, each framed for the role, in their order and once, but for those that wait,
  -- that are counted as dropped, whose write failed or that were cleared; and the pauses of at least
  -- 100 ms between the wheel's packets are logged, and no others.
  pub wheel_ffb_to_console :
      (ts : List Turn) (r : Route ch cap role on_ffb)
      → length ts < 2 ^ 32
      → r.running ≡ true
      → IsFresh r.line
      → r.state ≡ fresh
      → IsForwarded
          (read_from ts)
          (failures ts)
          (clearings role ts)
          (take_turns ch cap role on_ffb ts r)
  wheel_ffb_to_console ts r small on empty new =
      let (given, ran) = endpoint_to_console ts r small on empty in
      let all = read_from ts in
      (
        given,
        ap (λ w. w.gap.gaps) (ran ∙ ap (run_all on_ffb all) new)
            ∙ ap (λ g. g.gaps) (run_all-gap all fresh)
            ∙ tick_all-new 100 (map time_of all),
      )

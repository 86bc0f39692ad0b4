-- ===== src/Auth/Poll.antt =====
-- The polling of F2 in src/auth.rs and its timeout.
use rp_wheel_bridge.Base.{
  ℕ, zero, suc, ◌+◌, ◌*◌, ◌≤◌, ◌<◌, ◌≢◌, refl, List, Bool, false, Option, none, some, replicate,
  arith,
}
use rp_wheel_bridge.Platform.Channel.{Channels}
use rp_wheel_bridge.Auth.Signer.{
  Signing, Polled, Fetch, poll, get_feature, after_poll, cache, fetch_signature, fetch_pages,
  signer_timeout, signer_poll, saw, timed_out, is_ready,
}
use rp_wheel_bridge.Auth.State.{id_state, state_len, signature_pages}

module _ {ch : Channels} (env : Signing ch) (iface : ℕ) where
  open env use {World, now, after, after_time, in_time}

  get_feature_time :
      (id : ℕ) (buf : List ℕ) (w : World) → now w ≤ now (get_feature env iface id buf w).world
  unfolding get_feature
  get_feature_time id buf w = in_time _ buf w

  poll_ends :
      (fuel start : ℕ) (state : List ℕ) (seen : Bool) (w : World)
      → start + signer_timeout + signer_poll ≤ now w + signer_poll * fuel
      → 0 < fuel
      → (poll env iface fuel start state seen w).0 ≢ Polled.out_of_fuel
  unfolding poll
  poll_ends zero start state seen w h pos = absurd (omega arith)
  poll_ends (suc fuel) start state seen w h pos =
      let r = get_feature env iface id_state state w in
      let w' = after signer_poll r.world in
      ground (
        arith,
        get_feature_time id_state state w,
        after_time signer_poll r.world,
        poll_ends fuel start r.buf (saw seen r) w',
      )

  cache_ends :
      (state : List ℕ) (m : Option (List (List ℕ)) × World)
      → (cache env iface state m).0 ≢ Fetch.out_of_fuel
  unfolding cache
  cache_ends state (none, w) = λ e. cc
  cache_ends state (some pages, w) = λ e. cc

  after_poll_ends :
      (m : Polled × World)
      → m.0 ≢ Polled.out_of_fuel
      → (after_poll env iface m).0 ≢ Fetch.out_of_fuel
  unfolding after_poll
  after_poll_ends (timed_out, w) h = λ e. cc
  after_poll_ends (Polled.out_of_fuel, w) h = absurd (h refl)
  after_poll_ends (is_ready state, w) h =
      cache_ends state (fetch_pages env iface signature_pages 0 w)

  -- 501 rounds of polling are enough: with that fuel or more `fetch_signature` always reports one
  -- of its three outcomes, since each round waits 20 ms and the polling gives up after 10 s.
  pub fetch_signature_ends :
      (fuel : ℕ) (w : World) → 501 ≤ fuel → (fetch_signature env iface fuel w).0 ≢ Fetch.out_of_fuel
  unfolding fetch_signature
  fetch_signature_ends fuel w h =
      after_poll_ends (poll env iface fuel (now w) (replicate state_len 0) false w)
        (poll_ends fuel (now w) (replicate state_len 0) false w (omega arith) (omega arith))

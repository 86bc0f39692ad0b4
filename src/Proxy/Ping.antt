-- ===== src/Proxy/Ping.antt =====
-- The wake-up of src/proxy.rs: how `ping_until_answered` ends, and what `replay_ghub_init` sends.
use rp_wheel_bridge.Base.{
  ℕ, zero, suc, ◌+◌, ◌-◌, ◌*◌, ◌≤◌, ◌<◌, ◌≡◌, refl, ap, ◌∙◌, List, [], ◌∷◌, map, true, false, arith,
  Bool-cases, inl, inr, ◌⊎◌, leb,
}
use rp_wheel_bridge.Proxy.Wheel.{Wheel, Heard, Out}
use rp_wheel_bridge.Proxy.Requests.{
  pings, ping, hidpp_short_setup, ping_interval, ping_timeout, ping_until_answered, replay,
}

module _ (wheel : Wheel) where
  open wheel use {World, now, control_out, after, until, heard, hear, outs}

  -- The wheel has answered, or it is time to give up.
  abbrev pub IsOver : ℕ → World → Type 0
  IsOver start w = ((heard w).answered ≡ true) ⊎ (start + ping_timeout ≤ now w)

  pings_end :
      (fuel start due : ℕ) (w : World)
      → 0 < fuel
      → due ≤ now w + ping_interval
      → start + ping_timeout + 2 * ping_interval ≤ due + ping_interval * fuel
      → ((pings wheel fuel start due w).0 ≡ true) × IsOver start (pings wheel fuel start due w).1
  unfolding pings
  pings_end zero start due w pos late h = absurd (omega arith)
  pings_end (suc fuel) start due w pos late h =
      let sent = (control_out hidpp_short_setup ping w).1 in
      elim (Bool-cases (heard w).answered) [
        | inl told ↦ rw told (refl, inl told)
        | inr none_yet ↦ elim (Bool-cases (leb ping_timeout (now w - start))) [
          | inl over ↦ rw (none_yet, over) (refl, inr (ground arith))
          | inr early ↦
              rw (none_yet, early)
                (pings_end fuel start (due + ping_interval) (until due sent) (ground arith)
                  (omega (arith, wheel.until_time due sent)) (omega arith))
        ]
      ]

  -- The pinging ends: 501 rounds are enough, and then the wheel has answered or 10 s are over.
  pub ping_until_answered_ends :
      (fuel : ℕ) (w : World)
      → 501 ≤ fuel
      → let (ended, end) = ping_until_answered wheel fuel w in (ended ≡ true) × IsOver (now w) end
  unfolding ping_until_answered
  ping_until_answered_ends fuel w h =
      let h' : Heard = record { answered = false; answer = (heard w).answer } in
      let u = hear h' w in
      let (ended, over) =
        pings_end fuel (now u) (now u + ping_interval) u (omega arith) (omega arith)
          (omega arith) in
      (
        ended,
        elim over [
          | inl told ↦ inl told
          | inr late ↦ inr (omega (arith, late, wheel.now-hear h' w))
        ],
      )

  -- The requests of a table, each with the request that sends it.
  abbrev pub as_sent : List (ℕ × List ℕ) → List Out
  as_sent = map (λ r. (hidpp_short_setup, r.1))

  abbrev pub total_delay : List (ℕ × List ℕ) → ℕ
  total_delay [] = 0
  total_delay ((delay_ms, message) ∷ requests) = delay_ms + total_delay requests

  -- `l` with `requests` before it, the latest request first.
  abbrev pub sent_after : List Out → List Out → List Out
  sent_after [] l = l
  sent_after (r ∷ rs) l = sent_after rs (r ∷ l)

  -- The replay sends every request of the table once, in its order, whether or not some of them fail,
  -- and takes at least as long as the delays together.
  pub replay_lem :
      (requests : List (ℕ × List ℕ)) (w : World)
      → let end = replay wheel requests w in
        (outs end ≡ sent_after (as_sent requests) (outs w))
        × (now w + total_delay requests ≤ now end)
  unfolding replay
  replay_lem [] w = (refl, omega arith)
  replay_lem ((delay_ms, message) ∷ requests) w =
      let u = after delay_ms w in
      let (r, v) = control_out hidpp_short_setup message u in
      let (sent, time) = replay_lem requests v in
      (
        sent
            ∙ ap (sent_after (as_sent requests)) (
                wheel.outs-out hidpp_short_setup message u
                ∙ ap (λ l. (hidpp_short_setup, message) ∷ l) (wheel.outs-after delay_ms w)),
        omega
            (arith, time, wheel.after_time delay_ms w, wheel.out_time hidpp_short_setup message u),
      )

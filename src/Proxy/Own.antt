-- ===== src/Proxy/Own.antt =====
-- Which requests the start of the wheel's EP0 task (src/proxy.rs) sends.
use rp_wheel_bridge.Base.{
  ℕ, zero, suc, ◌+◌, ◌≡◌, refl, sym, ap, ◌∙◌, List, [], ◌∷◌, ◌++◌, All, All-append, Option, none,
  some, Bool, true, false, ◌==◌, get_or, bit_and, Bool-cases, inl, inr, leb, ◌-◌, if_intro,
}
use mathlib.Core.List.{append_assoc}
use rp_wheel_bridge.Hub.Reset.{is_ok}
use rp_wheel_bridge.Device.Profile.{Role, is_mirror}
use rp_wheel_bridge.Proxy.Hidpp.{bridge_swid}
use rp_wheel_bridge.Proxy.Wheel.{Wheel, Heard, Out}
use rp_wheel_bridge.Proxy.Requests.{
  ping, hidpp_short_setup, set_idle_setup, set_idle_all, pings, ping_until_answered, ping_interval,
  ping_timeout, hidpp_request, wait_answer, reset_answer, get_feature, query_led_feature, store_led,
  ask_features, ask_trueforce, with_count, with_set, log_feature_table, get_feature_message,
  get_count_message, get_feature_id_message, trueforce_message, feature_query_timeout, led_effects,
  feature_set, trueforce,
}
use rp_wheel_bridge.Proxy.Serve.{rapid_ping, serve_start, set_waking, wake, link}
use rp_wheel_bridge.Proxy.Sent.{Sends, Sends-refl, Sends-same, Sends-out, Sends-trans}

-- The software ID of a request.
abbrev pub request_swid : List ℕ → ℕ
request_swid message = bit_and (get_or message 3 0) 0x0f

-- A SET_IDLE, or a HID++ short request with the bridge's software ID.
pub data IsOwn : Out → Type 0 where
  idle : (iface : ℕ) → IsOwn (set_idle_setup iface, [])
  hidpp :
      (message : List ℕ) → request_swid message ≡ bridge_swid → IsOwn (hidpp_short_setup, message)

module _ (wheel : Wheel) where
  open wheel use {
    World, now, control_in, control_out, after, until, listen, heard, mine, hear, put, outs,
  }

  abbrev pub SendsOwn : World → World → Type 0
  SendsOwn = Sends wheel IsOwn

  -- Nothing was sent and the statics of this task are as they were.
  still : (w w' : World) → outs w' ≡ outs w → mine w' ≡ mine w → SendsOwn w w'
  still w w' e m = Sends-same wheel IsOwn w w' e (ap (λ k. k.links) m) (ap (λ k. k.waking) m)

  hear-SendsOwn : (h : Heard) (w : World) → SendsOwn w (hear h w)
  hear-SendsOwn h w = still w (hear h w) (wheel.outs-hear h w) (wheel.mine-hear h w)

  out-SendsOwn :
      (message : List ℕ) (w : World)
      → request_swid message ≡ bridge_swid
      → SendsOwn w (control_out hidpp_short_setup message w).1
  out-SendsOwn message w e = Sends-out wheel IsOwn hidpp_short_setup message w (hidpp message e)

  abbrev then_sends : {u v w : World} → SendsOwn u v → SendsOwn v w → SendsOwn u w
  then_sends f g = Sends-trans wheel IsOwn f g

  wait_answer-SendsOwn : (d : ℕ) (w : World) → SendsOwn w (wait_answer wheel d w).1
  unfolding wait_answer
  wait_answer-SendsOwn d w =
      then_sends (still w (listen d w) (wheel.outs-listen d w) (wheel.mine-listen d w))
        (hear-SendsOwn _ (listen d w))

  hidpp_request-SendsOwn :
      (message : List ℕ) (w : World)
      → request_swid message ≡ bridge_swid
      → SendsOwn w (hidpp_request wheel message w).1
  unfolding hidpp_request reset_answer
  hidpp_request-SendsOwn message w e =
      let w' = reset_answer wheel w in
      let (sent, v) = control_out hidpp_short_setup message w' in
      let sends : SendsOwn w v = then_sends (hear-SendsOwn _ w) (out-SendsOwn message w' e) in
      elim (Bool-cases (is_ok sent)) [
        | inl good ↦ rw good (then_sends sends (wait_answer-SendsOwn feature_query_timeout v))
        | inr bad ↦ rw bad sends
      ]

  get_feature-SendsOwn : (feature : ℕ) (w : World) → SendsOwn w (get_feature wheel feature w).1
  unfolding get_feature
  get_feature-SendsOwn feature w = hidpp_request-SendsOwn (get_feature_message feature) w refl

  store_led-SendsOwn : (o : Option ℕ) (w : World) → SendsOwn w (store_led wheel o w)
  unfolding store_led
  store_led-SendsOwn none w = Sends-refl wheel IsOwn w
  store_led-SendsOwn (some index) w =
      if_intro (SendsOwn w) (index == 0) _ _ (λ e. Sends-refl wheel IsOwn w)
        (λ e.
          Sends-same wheel IsOwn w _ (wheel.outs-put _ w) (ap (λ k. k.links) (wheel.mine-put _ w))
            (ap (λ k. k.waking) (wheel.mine-put _ w)))

  query_led_feature-SendsOwn : (w : World) → SendsOwn w (query_led_feature wheel w)
  unfolding query_led_feature
  query_led_feature-SendsOwn w =
      then_sends (get_feature-SendsOwn led_effects w)
        (store_led-SendsOwn (get_feature wheel led_effects w).0 _)

  ask_features-SendsOwn :
      (left index set_index : ℕ) (w : World)
      → SendsOwn w (ask_features wheel left index set_index w)
  unfolding ask_features
  ask_features-SendsOwn zero index set_index w = Sends-refl wheel IsOwn w
  ask_features-SendsOwn (suc left) index set_index w =
      then_sends (hidpp_request-SendsOwn (get_feature_id_message set_index index) w refl)
        (ask_features-SendsOwn left (index + 1) set_index _)

  ask_trueforce-SendsOwn : (o : Option ℕ) (w : World) → SendsOwn w (ask_trueforce wheel o w)
  unfolding ask_trueforce
  ask_trueforce-SendsOwn none w = Sends-refl wheel IsOwn w
  ask_trueforce-SendsOwn (some tf) w =
      if_intro (SendsOwn w) (tf == 0) _ _ (λ e. Sends-refl wheel IsOwn w)
        (λ e.
          then_sends (hidpp_request-SendsOwn (trueforce_message tf 0) w refl)
            (hidpp_request-SendsOwn (trueforce_message tf 1) _ refl))

  with_count-SendsOwn :
      (set_index : ℕ) (o : Option (List ℕ)) (w : World)
      → SendsOwn w (with_count wheel set_index o w)
  unfolding with_count
  with_count-SendsOwn set_index none w = Sends-refl wheel IsOwn w
  with_count-SendsOwn set_index (some count) w =
      then_sends (ask_features-SendsOwn (get_or count 4 0) 1 set_index w) (
        then_sends (get_feature-SendsOwn trueforce _) (
          ask_trueforce-SendsOwn
            (get_feature wheel trueforce (ask_features wheel (get_or count 4 0) 1 set_index w)).0
            _))

  with_set-SendsOwn : (o : Option ℕ) (w : World) → SendsOwn w (with_set wheel o w)
  unfolding with_set
  with_set-SendsOwn none w = Sends-refl wheel IsOwn w
  with_set-SendsOwn (some set_index) w =
      if_intro (SendsOwn w) (set_index == 0) _ _ (λ e. Sends-refl wheel IsOwn w)
        (λ e.
          then_sends (hidpp_request-SendsOwn (get_count_message set_index) w refl) (
            with_count-SendsOwn set_index (hidpp_request wheel (get_count_message set_index) w).0
              _))

  log_feature_table-SendsOwn : (w : World) → SendsOwn w (log_feature_table wheel w)
  unfolding log_feature_table
  log_feature_table-SendsOwn w =
      then_sends (get_feature-SendsOwn feature_set w)
        (with_set-SendsOwn (get_feature wheel feature_set w).0 _)

  set_idle_all-SendsOwn : (w : World) → SendsOwn w (set_idle_all wheel w)
  unfolding set_idle_all
  set_idle_all-SendsOwn w =
      then_sends (then_sends (idle_sends 0 w) (idle_sends 1 _)) (idle_sends 2 _)
    where
      idle_sends : (iface : ℕ) (v : World) → SendsOwn v (control_out (set_idle_setup iface) [] v).1
      idle_sends iface v = Sends-out wheel IsOwn (set_idle_setup iface) [] v (idle iface)

  pings-SendsOwn : (fuel start due : ℕ) (w : World) → SendsOwn w (pings wheel fuel start due w).1
  unfolding pings
  pings-SendsOwn zero start due w = Sends-refl wheel IsOwn w
  pings-SendsOwn (suc fuel) start due w =
      let sent = (control_out hidpp_short_setup ping w).1 in
      if_intro (λ (m : Bool × World). SendsOwn w m.1) (heard w).answered _ _
        (λ e. Sends-refl wheel IsOwn w)
        (λ e.
          if_intro (λ (m : Bool × World). SendsOwn w m.1) (leb ping_timeout (now w - start)) _ _
            (λ e. Sends-refl wheel IsOwn w)
            (λ e. then_sends (out-SendsOwn ping w refl) (
              then_sends
                (still sent (until due sent) (wheel.outs-until due sent)
                  (wheel.mine-until due sent))
                (pings-SendsOwn fuel start (due + ping_interval) (until due sent)))))

  ping_until_answered-SendsOwn :
      (fuel : ℕ) (w : World) → SendsOwn w (ping_until_answered wheel fuel w).1
  unfolding ping_until_answered
  ping_until_answered-SendsOwn fuel w = then_sends (hear-SendsOwn _ w) (pings-SendsOwn fuel _ _ _)

  -- A step that sends nothing and sets `WAKING`.
  outs-set_waking : (on : Bool) (w : World) → outs (set_waking wheel on w) ≡ outs w
  unfolding set_waking
  outs-set_waking on w = wheel.outs-put _ w

  mine-set_waking :
      (on : Bool) (w : World) → mine (set_waking wheel on w) ≡ record (mine w) { waking = on }
  unfolding set_waking
  mine-set_waking on w = wheel.mine-put _ w

  -- What is known of the EP0 task when it comes to its loop.
  abbrev pub IsStarted : World → World → Type 0
  IsStarted w end =
      (new : List Out) × (outs end ≡ new ++ outs w)
      × All IsOwn new
      × ((mine end).waking ≡ false)
      × ((mine end).links ≡ true ∷ (mine w).links)

  start_lem :
      {w i x q : World}
      → SendsOwn w i
      → SendsOwn (set_waking wheel true i) x
      → SendsOwn (set_waking wheel false x) q
      → IsStarted w (link wheel true q)
  unfolding link
  start_lem {w} {i} {x} {q} a p b = (
    b.new ++ (p.new ++ a.new),
    wheel.outs-put _ q
        ∙ b.outs_lem
        ∙ ap (λ l. b.new ++ l)
            (outs-set_waking false x
              ∙ p.outs_lem
              ∙ ap (λ l. p.new ++ l) (outs-set_waking true i ∙ a.outs_lem)
              ∙ sym (append_assoc p.new a.new (outs w)))
        ∙ sym (append_assoc b.new (p.new ++ a.new) (outs w)),
    All-append IsOwn b.new (p.new ++ a.new) b.all (All-append IsOwn p.new a.new p.all a.all),
    ap (λ k. k.waking) (wheel.mine-put _ q)
        ∙ b.waking
        ∙ ap (λ k. k.waking) (mine-set_waking false x),
    ap (λ k. k.links) (wheel.mine-put _ q)
        ∙ ap (λ l. true ∷ l)
            (b.links
              ∙ ap (λ k. k.links) (mine-set_waking false x)
              ∙ p.links
              ∙ ap (λ k. k.links) (mine-set_waking true i)
              ∙ a.links),
  )

  -- Before the wheel's EP0 task goes into its loop, the wheel has been sent nothing but SET_IDLEs and
  -- HID++ requests with the bridge's own software ID; `WAKING` is off again, and `wheel_link` has
  -- been called once, with true. (Pings wake the wheel, outside the mirror role.)
  pub serve_start-IsStarted :
      (role : Role) (fuel : ℕ) (requests : List (ℕ × List ℕ)) (w : World)
      → is_mirror role ≡ false
      → IsStarted w (serve_start wheel role rapid_ping fuel requests w)
  unfolding serve_start wake
  serve_start-IsStarted role fuel requests w other =
      let i = set_idle_all wheel w in
      let u = set_waking wheel true i in
      let v = (ping_until_answered wheel fuel u).1 in
      let x = after 100 v in
      let y = set_waking wheel false x in
      let q = query_led_feature wheel (log_feature_table wheel y) in
      rw other (
        start_lem {w = w} {i = i} {x = x} {q = q} (set_idle_all-SendsOwn w)
          (then_sends (ping_until_answered-SendsOwn fuel u)
            (still v x (wheel.outs-after 100 v) (wheel.mine-after 100 v)))
          (then_sends (log_feature_table-SendsOwn y)
            (query_led_feature-SendsOwn (log_feature_table wheel y))))

-- ===== src/Proxy/Loop.antt =====
-- What the loop of `serve_ep0` in src/proxy.rs sends to the wheel.
use rp_wheel_bridge.Base.{ℕ, ◌≡◌, refl, ◌∙◌, subst, List, [], ◌∷◌, ◌++◌, replicate, if_intro}
use rp_wheel_bridge.Platform.Channel.{Channels}
use rp_wheel_bridge.Device.Packet
use rp_wheel_bridge.Device.Control.{ControlOut}
use rp_wheel_bridge.Proxy.RevLights.{rev_lights}
use rp_wheel_bridge.Proxy.Repeat.{repeat_setup, repeat_control}
use rp_wheel_bridge.Proxy.Wheel.{Wheel, Out}
use rp_wheel_bridge.Proxy.Serve.{
  Event, upstream, report, recover, tick, Loop, get_status, clear_halt, rev_lights_setup,
  send_levels, on_report, recover_halt, serve_round, serve_loop,
}

module _ (wheel : Wheel) {ch : Channels} where
  open wheel use {host, World, control_in, control_out, mine, put, outs}

  -- The requests with data that an event leads to.
  pub data IsAnswer : Event ch → List Out → Type 0 where
    repeats :
        (msg : ControlOut ch)
        → IsAnswer (upstream msg) ((repeat_setup host msg, Packet.bytes msg.body) ∷ [])
    unchanged : (bytes : List ℕ) → IsAnswer (report bytes) []
    lights : (bytes message : List ℕ) → IsAnswer (report bytes) ((rev_lights_setup, message) ∷ [])
    clears : (ep : ℕ) → IsAnswer (recover ep) ((clear_halt ep, []) ∷ [])
    asks : IsAnswer tick []

  -- From one list of requests, the latest first, to another, by the events of a list.
  pub data IsServed : List (Event ch) → List Out → List Out → Type 0 where
    done : {l : List Out} → IsServed [] l l
    next :
        {e : Event ch} {es : List (Event ch)} {new l m : List Out}
        → IsAnswer e new
        → IsServed es (new ++ l) m
        → IsServed (e ∷ es) l m

  -- What a round adds.
  abbrev Adds : Event ch → World → World → Type 0
  Adds e w w' = (new : List Out) × IsAnswer e new × (outs w' ≡ new ++ outs w)

  send_levels-Adds :
      (bytes : List ℕ) (messages : List (List ℕ)) (w : World)
      → Adds (report bytes) w (send_levels wheel messages w)
  unfolding send_levels
  send_levels-Adds bytes [] w = ([], unchanged bytes, refl)
  send_levels-Adds bytes (message ∷ messages) w = (
    (rev_lights_setup, message) ∷ [],
    lights bytes message,
    wheel.outs-out rev_lights_setup message w,
  )

  serve_round-Adds : (e : Event ch) (m : Loop × World) → Adds e m.1 (serve_round wheel e m).1
  unfolding serve_round repeat_control on_report recover_halt
  serve_round-Adds (upstream msg) (s, w) =
      let b = Packet.bytes msg.body in
      let sent = wheel.outs-out (repeat_setup host msg) b w in
      let (hidpp, w') = repeat_control host msg w in
      (
        (repeat_setup host msg, b) ∷ [],
        repeats msg,
        if_intro (λ v. outs v ≡ (repeat_setup host msg, b) ∷ outs w) hidpp _ _
            (λ yes. wheel.outs-put _ w' ∙ sent) (λ no. sent),
      )
  serve_round-Adds (report bytes) (s, w) =
      send_levels-Adds bytes
        (rev_lights (mine w).led bytes (record { last = s.rev_level; sent = [] })).sent w
  serve_round-Adds (recover ep) (s, w) = (
    (clear_halt ep, []) ∷ [],
    clears ep,
    wheel.outs-put _ (control_out (clear_halt ep) [] w).1 ∙ wheel.outs-out (clear_halt ep) [] w,
  )
  serve_round-Adds tick (s, w) = ([], asks, wheel.outs-in get_status (replicate 2 0) w)

  -- Whatever the loop takes up and whatever the wheel answers: each request of the console is repeated
  -- to the wheel exactly once and in its order, each halt is cleared once, an output report leads to
  -- at most one request, for the rev lights, and nothing else is sent with data.
  pub serve_loop-IsServed :
      (es : List (Event ch)) (m : Loop × World)
      → IsServed es (outs m.1) (outs (serve_loop wheel es m).1)
  unfolding serve_loop
  serve_loop-IsServed [] m = done
  serve_loop-IsServed (e ∷ es) m =
      let (new, answer, added) = serve_round-Adds e m in
      next answer (
        subst (λ l. IsServed es l (outs (serve_loop wheel es (serve_round wheel e m)).1)) added
          (serve_loop-IsServed es (serve_round wheel e m)))

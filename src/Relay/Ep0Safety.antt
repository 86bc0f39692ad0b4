-- ===== src/Relay/Ep0Safety.antt =====
-- `STATE` of src/auth.rs while src/relay.rs serves DriveHub's EP0.
use rp_wheel_bridge.Base.{ℕ, sym, subst, List, [], ◌∷◌, Option-cases, inl, inr}
use rp_wheel_bridge.Platform.Channel.{Channels}
use rp_wheel_bridge.Device.Packet
use rp_wheel_bridge.Proxy.Repeat.{repeat_control, repeat_setup}
use rp_wheel_bridge.Auth.Console.{IsValid, Requests-IsValid}
use rp_wheel_bridge.Auth.Signer.{Signing, Nonces, try_signer}
use rp_wheel_bridge.Auth.Handle.{serve_round}
use rp_wheel_bridge.Auth.Safety.{IsSafe, handle-IsValid, try_signer-IsValid}
use rp_wheel_bridge.Relay.Ep0.{Ready, control_out, auth_cmd, Backend, on_ready, serve_ep0, run_ep0}

module _ {ch : Channels} (env : Signing ch) (fuel : ℕ) where
  open env use {host, World, shared, store}

  serve_round-IsSafe :
      (s : Nonces) (w : World) → IsSafe env 0 w → IsSafe env 0 (serve_round env 0 fuel s w).1
  unfolding serve_round
  serve_round-IsSafe s w h = elim (Option-cases (ch.try_receive (shared w).cmds)) [
    | inl empty ↦ rw (empty, serve_round) h
    | inr ((cmd, q), taken) ↦
        let c = record (shared w) { cmds = q } in
        rw (taken, serve_round)
          (handle-IsValid env 0 fuel cmd s (store c w)
            (subst (λ k. IsValid k.state) (sym (env.shared-store c w)) h))
  ]

  on_ready-IsSafe :
      (r : Ready env fuel) (m : Backend env fuel × World)
      → IsSafe env 0 m.1
      → IsSafe env 0 (on_ready env fuel r m).1
  unfolding on_ready repeat_control
  on_ready-IsSafe (control_out msg) (s, w) h =
      Requests-IsValid ch (env.out_requests (repeat_setup host msg) (Packet.bytes msg.body) w) h
  on_ready-IsSafe auth_cmd (s, w) h = serve_round-IsSafe s.nonces w h

  serve_ep0-IsSafe :
      (rs : List (Ready env fuel)) (m : Backend env fuel × World)
      → IsSafe env 0 m.1
      → IsSafe env 0 (serve_ep0 env fuel rs m).1
  unfolding serve_ep0
  serve_ep0-IsSafe [] m h = h
  serve_ep0-IsSafe (r ∷ rs) m h =
      serve_ep0-IsSafe rs (on_ready env fuel r m) (on_ready-IsSafe r m h)

  -- In the relay role, too, `STATE` stays well formed: through the probing of DriveHub and whatever
  -- class requests and commands of the authentication come after it, in whatever order, with any
  -- requests of the console during each transfer.
  pub run_ep0-IsValid :
      (rs : List (Ready env fuel)) (s : Backend env fuel) (w : World)
      → IsValid (shared w).state
      → IsValid (shared (run_ep0 env fuel rs (s, w)).1).state
  unfolding run_ep0
  run_ep0-IsValid rs s w h =
      serve_ep0-IsSafe rs (s, (try_signer env 0 w).1) (try_signer-IsValid env 0 w h).0

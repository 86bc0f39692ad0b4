-- ===== src/Proxy/Forwarded.antt =====
-- The transfers that `forward_ffb_out` of src/proxy.rs makes.
use rp_wheel_bridge.Base.{
  Option, none, some, ℕ, ◌≡◌, refl, ◌∙◌, List, ◌∷◌, Bool, true, false, ◌&&◌, if_intro, Result, ok,
  err,
}
use rp_wheel_bridge.Hub.Reset.{is_ok}
use rp_wheel_bridge.Platform.Usb.{PipeError}
use rp_wheel_bridge.Device.Packet
use rp_wheel_bridge.Device.Packet.{Packet, max_packet}
use rp_wheel_bridge.Device.Profile.{Role, is_wheel}
use rp_wheel_bridge.Proxy.Ffb.{
  Stream, Ffb, padded, is_stall, is_due, is_detach, after_clear, recover_ffb, on_error, on_result,
  forward_ffb_out,
}

-- The report of a packet.
abbrev pub report : Packet → List ℕ
report p = padded (Packet.bytes p)

module _ (stream : Stream) where
  open stream use {World, now, request_out, wheel_link, clear_halt, reset_data_toggle, transfers}

  transfers-after_clear :
      (o : Option Bool) (w : World) → transfers (after_clear stream o w) ≡ transfers w
  unfolding after_clear
  transfers-after_clear (some true) w = stream.transfers-reset w
  transfers-after_clear (some false) w = refl
  transfers-after_clear none w = refl

  transfers-recover_ffb : (ep : ℕ) (w : World) → transfers (recover_ffb stream ep w) ≡ transfers w
  unfolding recover_ffb
  transfers-recover_ffb ep w =
      let v = wheel_link false w in
      let (cleared, x) = clear_halt ep v in
      stream.transfers-link true (after_clear stream cleared x)
      ∙ transfers-after_clear cleared x
      ∙ stream.transfers-clear ep v
      ∙ stream.transfers-link false w

  transfers-on_result :
      (role : Role) (ep : ℕ) (r : Result (Unit {0}) PipeError) (m : Ffb × World)
      → transfers (on_result stream role ep r m).1 ≡ transfers m.1
  unfolding on_result on_error
  transfers-on_result role ep (ok u) (s, w) = refl
  transfers-on_result role ep (err e) (s, w) =
      let recovered = transfers-recover_ffb ep w in
      if_intro (λ (m : Ffb × World). transfers m.1 ≡ transfers w) (is_detach e) _ _ (λ d. refl)
        (λ d.
          if_intro (λ (m : Ffb × World). transfers m.1 ≡ transfers w)
            (is_stall e && is_due s.last_recovery (now w) && is_wheel role) _ _ (λ due. recovered)
            (λ other. refl))

  pub transfers-forward_ffb_out :
      (role : Role) (ep : ℕ) (p : Packet) (m : Ffb × World)
      → transfers (forward_ffb_out stream role ep p m).1
        ≡ (report p, is_ok (request_out (report p) m.1).0) ∷ transfers m.1
  unfolding forward_ffb_out
  transfers-forward_ffb_out role ep p (s, w) =
      let b = Packet.bytes p in
      let (r, w') = request_out (padded b) w in
      transfers-on_result role ep r (_, w') ∙ stream.transfers-out (padded b) w

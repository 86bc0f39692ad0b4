-- ===== src/Proxy/Upstream.antt =====
-- The way of a class request from the console to the wheel: `control_out` of src/device.rs queues it,
-- `repeat_control` of src/proxy.rs sends it.
use rp_wheel_bridge.Base.{
  ℕ, ◌≤◌, ◌<◌, ◌≡◌, ap, ◌∙◌, List, [], ◌∷◌, ◌++◌, length, u16, true, false, arith, inl, inr,
  take_all,
}
use rp_wheel_bridge.Platform.Channel.{Channels}
use rp_wheel_bridge.Platform.Usb.{class_interface_out}
use rp_wheel_bridge.Device.Packet
use rp_wheel_bridge.Device.Packet.{bytes-new, max_packet}
use rp_wheel_bridge.Device.Profile.{Profile, is_wheel}
use rp_wheel_bridge.Device.Control.{
  Request, ControlOut, OutStatics, control_out, is_class_interface,
}
use rp_wheel_bridge.Device.Requests.{to_auth, repeated, control_out-repeats}
use rp_wheel_bridge.Proxy.Wheel.{Wheel, Out}
use rp_wheel_bridge.Proxy.Repeat.{repeat_setup, repeat_control}

-- The request as the console sent it.
abbrev pub as_sent : Request → List ℕ → Out
as_sent req bytes = (class_interface_out req.request req.value req.index (length bytes), bytes)

module _ (ch : Channels) (wheel : Wheel) where
  bytes_lem : (bytes : List ℕ) → length bytes ≤ max_packet → Packet.bytes (Packet.new bytes) ≡ bytes
  bytes_lem bytes fits = bytes-new bytes ∙ take_all max_packet bytes fits

  outs-repeat_control :
      (req : Request) (bytes : List ℕ) (w : wheel.World)
      → length bytes ≤ max_packet
      → wheel.outs (repeat_control wheel.host (repeated ch req bytes) w).1
        ≡ as_sent req bytes ∷ wheel.outs w
  unfolding repeat_control
  outs-repeat_control req bytes w fits =
      let whole = bytes_lem bytes fits in
      let len : u16 (length bytes) ≡ length bytes = omega arith in
      wheel.outs-out (repeat_setup wheel.host (repeated ch req bytes))
        (Packet.bytes (Packet.new bytes)) w
      ∙ ap
          (λ b.
            (class_interface_out req.request req.value req.index (u16 (length b)), b)
            ∷ wheel.outs w)
          whole
      ∙ ap (λ n. (class_interface_out req.request req.value req.index n, bytes) ∷ wheel.outs w) len

  -- In the relay and mirror roles, a class request of the console with at most 64 bytes of data, that
  -- is not part of the authentication and finds room in the queue, is queued as a message which the
  -- EP0 task of the wheel sends as the same request: type, value, interface, length and every byte.
  pub control_out-repeat_control :
      (p : Profile) (req : Request) (bytes : List ℕ) (s : OutStatics ch)
      → is_class_interface req ≡ true
      → is_wheel p.role ≡ false
      → to_auth p req ≡ false
      → length bytes ≤ max_packet
      → length (ch.items s.control_out_queue) < 8
      → let s' = (control_out ch p req bytes s).1 in
        (msg : ControlOut ch) × (ch.items s'.control_out_queue
          ≡ ch.items s.control_out_queue ++ msg ∷ [])
        × ((w : wheel.World)
            → wheel.outs (repeat_control wheel.host msg w).1 ≡ as_sent req bytes ∷ wheel.outs w)
  control_out-repeat_control p req bytes s ok role other fits room =
      let (r, queued) = control_out-repeats ch p req bytes s ok role other in
      elim queued [
        | inl (free, after, same) ↦
            (repeated ch req bytes, after, λ w. outs-repeat_control req bytes w fits)
        | inr (full, _, _) ↦ absurd (omega arith)
      ]

-- ===== src/Device/Requests.antt =====
-- What the control requests of src/device.rs do, in each role.
use rp_wheel_bridge.Base.{
  ℕ, ◌+◌, ◌≤◌, ◌<◌, ◌≡◌, ◌≢◌, ◌⊎◌, inl, inr, refl, List, [], ◌∷◌, ◌++◌, some, Bool, true, false,
  ◌&&◌, ◌==◌, if◌then◌else◌, length, take, get_or, arith, u32, length-take, get_or-take, ◌∙◌,
}
use rp_wheel_bridge.Platform.Channel.{Channels, try_send-cases}
use rp_wheel_bridge.Device.Packet
use rp_wheel_bridge.Device.Profile.{Profile, is_wheel}
use rp_wheel_bridge.Device.Control.{
  Request, OutResponse, accepted, id, control_in, dispatch_in, get_report_in, or_local, control_out,
  class_out, repeat_out, queue_control, wheel_out, ControlOut, OutStatics, is_hidpp,
  is_auth_request, is_class_interface, hid_get_report, hid_set_report, hid_set_idle,
  hid_set_protocol,
}
use rp_wheel_bridge.Auth.State.{
  Shared, get_report, set_report, id_state, id_signature, id_reset, id_nonce, state_len,
  state_ready, state_signing,
}
use rp_wheel_bridge.Auth.Console.{IsValid}
use rp_wheel_bridge.Auth.Replies.{get_report-state, length-get_report-state}

-- Whether a request is taken by the auth relay.
abbrev pub to_auth : Profile → Request → Bool
to_auth p req = is_auth_request p req && (req.request == hid_set_report) && (id req == id_nonce)

module _ (ch : Channels) where
  open ch use {items}

  get_report_kept :
      (n : ℕ) (buf : List ℕ) (c : Shared ch)
      → n ≢ id_reset
      → n ≢ id_signature
      → (get_report ch n buf c).shared ≡ c
  unfolding get_report
  get_report_kept n buf c h k = ground arith

  -- An IN request other than a read of F1 or F3 never changes the auth statics, in any role.
  pub control_in-auth :
      (get_descriptor : ℕ) (p : Profile) (req : Request) (buf input : List ℕ) (c : Shared ch)
      → id req ≢ id_reset
      → id req ≢ id_signature
      → (control_in ch get_descriptor p req buf input c).auth ≡ c
  unfolding control_in dispatch_in get_report_in or_local
  control_in-auth get_descriptor p req buf input c h k =
      ground (arith, get_report_kept (id req) buf c)

  -- The message that repeats an OUT request to the wheel.
  abbrev pub repeated : Request → List ℕ → ControlOut ch
  repeated req bytes = record {
    request = req.request;
    value = req.value;
    index = req.index;
    body = Packet.new bytes;
  }

  -- An upstream request to repeat is queued behind the ones that wait or, if eight wait already,
  -- counted as dropped; nothing else happens to it.
  queue_control_lem :
      (msg : ControlOut ch) (s : OutStatics ch)
      → let s' = queue_control ch msg s in
        ((length (items s.control_out_queue) < 8)
          × (items s'.control_out_queue ≡ items s.control_out_queue ++ msg ∷ [])
          × (s'.dropped ≡ s.dropped))
        ⊎ ((8 ≤ length (items s.control_out_queue))
            × (s'.control_out_queue ≡ s.control_out_queue)
            × (s'.dropped ≡ u32 (s.dropped + 1)))
  unfolding queue_control
  queue_control_lem msg s = elim (try_send-cases ch msg s.control_out_queue) [
    | inl (fits, (q', sent, after)) ↦ rw (sent, queue_control) (inl (fits, after, refl))
    | inr (full, failed) ↦ rw (failed, queue_control) (inr (full, refl, refl))
  ]

  -- The statics with a HID++ request counted.
  abbrev counted : Request → OutStatics ch → OutStatics ch
  counted req s = record s {
    hidpp_set_report = if is_hidpp req then u32 (s.hidpp_set_report + 1) else s.hidpp_set_report;
  }

  set_report_other :
      (n : ℕ) (bytes : List ℕ) (c : Shared ch)
      → (n == id_nonce) ≡ false
      → set_report ch n bytes c ≡ (false, c)
  unfolding set_report
  set_report_other n bytes c h = ground arith

  control_out_other :
      (p : Profile) (req : Request) (bytes : List ℕ) (s : OutStatics ch)
      → is_class_interface req ≡ true
      → is_wheel p.role ≡ false
      → to_auth p req ≡ false
      → control_out ch p req bytes s
        ≡ (OutResponse.accepted, queue_control ch (repeated req bytes) (counted req s))
  unfolding control_out class_out repeat_out
  control_out_other p req bytes s ok role other =
      ground (arith, set_report_other (id req) bytes s.auth)

  -- Every class request to an interface that is not an auth report is, in the relay and mirror
  -- roles, accepted and repeated to the backend behind the requests that wait; if eight wait
  -- already it is counted as dropped and the queue is left alone.
  pub control_out-repeats :
      (p : Profile) (req : Request) (bytes : List ℕ) (s : OutStatics ch)
      → is_class_interface req ≡ true
      → is_wheel p.role ≡ false
      → to_auth p req ≡ false
      → let (r, s') = control_out ch p req bytes s in
        (r ≡ OutResponse.accepted)
        × (((length (items s.control_out_queue) < 8)
              × (items s'.control_out_queue ≡ items s.control_out_queue ++ repeated req bytes ∷ [])
              × (s'.dropped ≡ s.dropped))
            ⊎ ((8 ≤ length (items s.control_out_queue))
                × (s'.control_out_queue ≡ s.control_out_queue)
                × (s'.dropped ≡ u32 (s.dropped + 1))))
  unfolding control_out
  control_out-repeats p req bytes s ok role other =
      rw (control_out_other p req bytes s ok role other)
        (refl, queue_control_lem (repeated req bytes) (counted req s))

  -- In the wheel role only HID++ SET_REPORTs reach the wheel: any other OUT request leaves the
  -- queue to the wheel and the counters as they are, and one that is no SET_IDLE, SET_PROTOCOL or
  -- SET_REPORT to an interface is rejected.
  pub control_out-wheel :
      (p : Profile) (req : Request) (bytes : List ℕ) (s : OutStatics ch)
      → is_wheel p.role ≡ true
      → is_hidpp req ≡ false
      → let (r, s') = control_out ch p req bytes s in
        (s'.control_out_queue ≡ s.control_out_queue)
        × (s'.dropped ≡ s.dropped)
        × (s'.hidpp_set_report ≡ s.hidpp_set_report)
        × (is_class_interface req ≡ true
            → req.request ≢ hid_set_idle
            → req.request ≢ hid_set_protocol
            → req.request ≢ hid_set_report
            → r ≡ OutResponse.rejected)
  unfolding control_out class_out repeat_out wheel_out
  control_out-wheel p req bytes s role other = ground arith

  state_response :
      (get_descriptor : ℕ) (p : Profile) (req : Request) (buf input : List ℕ) (c : Shared ch)
      → is_class_interface req ≡ true
      → req.request ≡ hid_get_report
      → is_auth_request p req ≡ true
      → id req ≡ id_state
      → (get_report ch id_state buf c).answer ≡ some state_len
      → (control_in ch get_descriptor p req buf input c).response
        ≡ accepted (take state_len (get_report ch id_state buf c).buf)
  unfolding control_in dispatch_in get_report_in or_local
  state_response get_descriptor p req buf input c ok get auth f2 told = ground arith

  -- The console's poll of F2 is accepted in the wheel and relay roles with 16 bytes, of which byte
  -- 1 is its nonce id and byte 2 says whether a signature is cached.
  pub control_in-state :
      (get_descriptor : ℕ) (p : Profile) (req : Request) (buf input : List ℕ) (c : Shared ch)
      → IsValid c.state
      → state_len ≤ length buf
      → is_class_interface req ≡ true
      → req.request ≡ hid_get_report
      → is_auth_request p req ≡ true
      → id req ≡ id_state
      → (bytes : List ℕ) × ((control_in ch get_descriptor p req buf input c).response
          ≡ accepted bytes)
        × (length bytes ≡ state_len)
        × (get_or bytes 1 0 ≡ c.state.nonce_id)
        × (get_or bytes 2 0 ≡ (if c.state.ready then state_ready else state_signing))
  control_in-state get_descriptor p req buf input c v fits ok get auth f2 =
      let r = get_report ch id_state buf c in
      let told = get_report-state ch buf c v fits in
      (
        take state_len r.buf,
        state_response get_descriptor p req buf input c ok get auth f2 told.0,
        omega (arith, length-take state_len r.buf, length-get_report-state ch buf c),
        get_or-take state_len r.buf 1 0 (omega arith) ∙ told.1,
        get_or-take state_len r.buf 2 0 (omega arith) ∙ told.2,
      )

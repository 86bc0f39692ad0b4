-- ===== src/Proxy/Serve.antt =====
-- `serve_ep0` of src/proxy.rs: the start of the wheel's EP0 task and the rounds of its loop.
use rp_wheel_bridge.Base.{
  ℕ, ◌+◌, List, [], ◌∷◌, Option, some, Bool, true, false, if◌then◌else◌, replicate, u32,
}
use rp_wheel_bridge.Platform.Channel.{Channels}
use rp_wheel_bridge.Platform.Usb.{Setup, class_interface_out}
use rp_wheel_bridge.Hub.Reset.{is_ok}
use rp_wheel_bridge.Device.Profile.{Role, is_mirror}
use rp_wheel_bridge.Device.Control.{ControlOut, hid_set_report, if_hidpp}
use rp_wheel_bridge.Proxy.Repeat.{repeat_control}
use rp_wheel_bridge.Proxy.RevLights.{rev_lights, hidpp_long_len}
use rp_wheel_bridge.Proxy.Wheel.{Wheel}
use rp_wheel_bridge.Proxy.Requests.{
  set_idle_all, ping_until_answered, replay, log_feature_table, query_led_feature,
}

abbrev pub hidpp_long_output : ℕ
hidpp_long_output = 0x0211

pub data WakeUp : Type 0 where
  rapid_ping ghub_replay : WakeUp

-- Standard GET_STATUS (device), 2 bytes
abbrev pub get_status : Setup
get_status = Setup.bytes (0x80 ∷ 0x00 ∷ 0x00 ∷ 0x00 ∷ 0x00 ∷ 0x00 ∷ 0x02 ∷ 0x00 ∷ [])

-- CLEAR_FEATURE(ENDPOINT_HALT)
abbrev pub clear_halt : ℕ → Setup
clear_halt ep = Setup.bytes (0x02 ∷ 0x01 ∷ 0x00 ∷ 0x00 ∷ ep ∷ 0x00 ∷ 0x00 ∷ 0x00 ∷ [])

abbrev pub rev_lights_setup : Setup
rev_lights_setup = class_interface_out hid_set_report hidpp_long_output if_hidpp hidpp_long_len

-- What the loop waits for.
pub data Event (ch : Channels) : Type 0 where
  -- a request of the console to repeat
  upstream : ControlOut ch → Event ch
  -- an output report of the console
  report : List ℕ → Event ch
  -- the endpoint whose halt is to be cleared
  recover : ℕ → Event ch
  -- the liveness check is due
  tick : Event ch

pub record Loop : Type 0 where
  pub rev_level : Option ℕ
  pub responding : Bool

module _ (wheel : Wheel) where
  open wheel use {host, World, control_in, control_out, after, mine, put}

  -- `device::wheel_link`
  unfoldable pub link : Bool → World → World
  link up w = put (record (mine w) { links = up ∷ (mine w).links }) w

  unfoldable pub set_waking : Bool → World → World
  set_waking on w = put (record (mine w) { waking = on }) w

  -- `requests` are those of src/ghub_init.rs.
  unfoldable pub wake : WakeUp → ℕ → List (ℕ × List ℕ) → World → World
  wake rapid_ping fuel requests w = (ping_until_answered wheel fuel w).1
  wake ghub_replay fuel requests w = replay wheel requests w

  -- What comes before the loop.
  unfoldable pub serve_start : Role → WakeUp → ℕ → List (ℕ × List ℕ) → World → World
  unfolding set_waking wake link
  serve_start role wake_up fuel requests w =
      let w' = set_waking true (set_idle_all wheel w) in
      let w' = set_waking false (after 100 (wake wake_up fuel requests w')) in
      let w' = query_led_feature wheel (log_feature_table wheel w') in
      link true (if is_mirror role then w else w')

  -- The rev lights: a request, if the level changes.
  unfoldable pub send_levels : List (List ℕ) → World → World
  send_levels [] w = w
  send_levels (message ∷ messages) w = (control_out rev_lights_setup message w).1

  unfoldable pub on_report : List ℕ → Option ℕ → World → Option ℕ × World
  unfolding send_levels
  on_report bytes last w =
      let s = rev_lights (mine w).led bytes (record { last = last; sent = [] }) in
      (s.last, send_levels s.sent w)

  unfoldable pub recover_halt : ℕ → World → World
  recover_halt ep w =
      let (r, w) = control_out (clear_halt ep) [] w in
      put (record (mine w) { halt_cleared = some (is_ok r) }) w

  module _ {ch : Channels} where
    unfoldable pub serve_round : Event ch → Loop × World → Loop × World
    unfolding repeat_control on_report recover_halt
    serve_round (upstream msg) (s, w) =
        let (hidpp, w) = repeat_control host msg w in
        let counted = record (mine w) { hidpp_written = u32 ((mine w).hidpp_written + 1) } in
        (s, if hidpp then put counted w else w)
    serve_round (report bytes) (s, w) =
        let (level, w) = on_report bytes s.rev_level w in (record s { rev_level = level }, w)
    serve_round (recover ep) (s, w) = (s, recover_halt ep w)
    serve_round tick (s, w) =
        let r = control_in get_status (replicate 2 0) w in
        (record s { responding = is_ok r.result }, r.world)

    unfoldable pub serve_loop : List (Event ch) → Loop × World → Loop × World
    unfolding serve_round
    serve_loop [] m = m
    serve_loop (e ∷ es) m = serve_loop es (serve_round e m)

-- ===== src/Proxy/Requests.antt =====
-- The bridge's own requests to the wheel in src/proxy.rs: SET_IDLE, the wake-up, and the questions
-- about the wheel's HID++ features.
use rp_wheel_bridge.Base.{
  ℕ, zero, suc, ◌+◌, ◌-◌, ◌*◌, ◌/◌, ◌%◌, List, [], ◌∷◌, Option, none, some, Bool, true, false, ◌==◌,
  leb, if◌then◌else◌, get_or, length, bit_or,
}
use rp_wheel_bridge.Platform.Usb.{Setup, class_interface_out}
use rp_wheel_bridge.Hub.Reset.{is_ok}
use rp_wheel_bridge.Device.Control.{hid_set_report, hid_set_idle, if_input, if_hidpp}
use rp_wheel_bridge.Proxy.Hidpp.{bridge_swid}
use rp_wheel_bridge.Proxy.Wheel.{Wheel}

abbrev pub if_ffb : ℕ
if_ffb = 2

abbrev pub hidpp_short_output : ℕ
hidpp_short_output = 0x0210

-- Durations are in milliseconds.
abbrev pub feature_query_timeout : ℕ
feature_query_timeout = 500

abbrev pub ping_interval : ℕ
ping_interval = 20

abbrev pub ping_timeout : ℕ
ping_timeout = 10000

abbrev pub ping : List ℕ
ping = 0x10 ∷ 0xff ∷ 0x00 ∷ 0x1b ∷ 0x00 ∷ 0x00 ∷ 0x5a ∷ []

abbrev pub hidpp_short_setup : Setup
hidpp_short_setup = class_interface_out hid_set_report hidpp_short_output if_hidpp (length ping)

abbrev pub set_idle_setup : ℕ → Setup
set_idle_setup iface = class_interface_out hid_set_idle 0 iface 0

abbrev pub feature_set : ℕ
feature_set = 0x0001

abbrev pub trueforce : ℕ
trueforce = 0x8139

abbrev pub led_effects : ℕ
led_effects = 0x807a

-- The messages that ask for a feature's index, for the number of features, for one of them and for
-- the TRUEFORCE state.
abbrev pub get_feature_message : ℕ → List ℕ
get_feature_message feature =
    0x10 ∷ 0xff ∷ 0x00 ∷ bridge_swid ∷ (feature / 256 % 256) ∷ (feature % 256) ∷ 0x00 ∷ []

abbrev pub get_count_message : ℕ → List ℕ
get_count_message set_index = 0x10 ∷ 0xff ∷ set_index ∷ bridge_swid ∷ 0 ∷ 0 ∷ 0 ∷ []

abbrev pub get_feature_id_message : ℕ → ℕ → List ℕ
get_feature_id_message set_index index =
    0x10 ∷ 0xff ∷ set_index ∷ bit_or 0x10 bridge_swid ∷ index ∷ 0 ∷ 0 ∷ []

abbrev pub trueforce_message : ℕ → ℕ → List ℕ
trueforce_message tf function =
    0x10 ∷ 0xff ∷ tf ∷ bit_or (function * 16) bridge_swid ∷ 0 ∷ 0 ∷ 0 ∷ []

-- `(answer[2] != 0xff).then_some(answer)`, of an answer if there is one
unfoldable pub accepted_answer : Option (List ℕ) → Option (List ℕ)
accepted_answer none = none
accepted_answer (some a) = if get_or a 2 0 == 0xff then none else some a

module _ (wheel : Wheel) where
  open wheel use {World, now, control_in, control_out, after, until, listen, heard, mine, hear, put}

  -- `BRIDGE_ANSWER.wait()` with a timeout: an answer that is there is taken.
  unfoldable pub wait_answer : ℕ → World → Option (List ℕ) × World
  wait_answer d w =
      let w = listen d w in
      ((heard w).answer, hear (record { answered = (heard w).answered; answer = none }) w)

  -- `BRIDGE_ANSWER.reset()`
  unfoldable pub reset_answer : World → World
  reset_answer w = hear (record { answered = (heard w).answered; answer = none }) w

  unfoldable pub hidpp_request : List ℕ → World → Option (List ℕ) × World
  unfolding wait_answer reset_answer accepted_answer
  hidpp_request msg w =
      let (sent, w) = control_out hidpp_short_setup msg (reset_answer w) in
      let (answer, w') = wait_answer feature_query_timeout w in
      if is_ok sent then (accepted_answer answer, w') else (none, w)

  unfoldable pub get_feature : ℕ → World → Option ℕ × World
  unfolding hidpp_request
  get_feature feature w =
      let (answer, w) = hidpp_request (get_feature_message feature) w in
      (elim answer [ none ↦ none | some a ↦ some (get_or a 4 0) ], w)

  -- `query_led_feature`: what its answer leads to.
  unfoldable pub store_led : Option ℕ → World → World
  store_led none w = w
  store_led (some index) w = if index == 0 then w else put (record (mine w) { led = index }) w

  unfoldable pub query_led_feature : World → World
  unfolding get_feature store_led
  query_led_feature w = let (answer, w) = get_feature led_effects w in store_led answer w

  -- `for index in 1..=count[4]`, with the number of indexes left
  unfoldable pub ask_features : ℕ → ℕ → ℕ → World → World
  unfolding hidpp_request
  ask_features zero index set_index w = w
  ask_features (suc left) index set_index w =
      ask_features left (index + 1) set_index
        (hidpp_request (get_feature_id_message set_index index) w).1

  -- The TRUEFORCE state, if the wheel has the feature.
  unfoldable pub ask_trueforce : Option ℕ → World → World
  unfolding hidpp_request
  ask_trueforce none w = w
  ask_trueforce (some tf) w =
      let w' = (hidpp_request (trueforce_message tf 0) w).1 in
      let w'' = (hidpp_request (trueforce_message tf 1) w').1 in if tf == 0 then w else w''

  -- What follows the number of features.
  unfoldable pub with_count : ℕ → Option (List ℕ) → World → World
  unfolding ask_features get_feature ask_trueforce
  with_count set_index none w = w
  with_count set_index (some count) w =
      let w = ask_features (get_or count 4 0) 1 set_index w in
      let (tf, w) = get_feature trueforce w in ask_trueforce tf w

  -- What follows the index of the feature set.
  unfoldable pub with_set : Option ℕ → World → World
  unfolding hidpp_request with_count
  with_set none w = w
  with_set (some set_index) w =
      let (count, w') = hidpp_request (get_count_message set_index) w in
      let w'' = with_count set_index count w' in if set_index == 0 then w else w''

  unfoldable pub log_feature_table : World → World
  unfolding get_feature with_set
  log_feature_table w = let (answer, w) = get_feature feature_set w in with_set answer w

  -- `set_idle_all`; a failure is at most logged.
  unfoldable pub set_idle_all : World → World
  set_idle_all w =
      let w = (control_out (set_idle_setup if_input) [] w).1 in
      let w = (control_out (set_idle_setup if_hidpp) [] w).1 in
      (control_out (set_idle_setup if_ffb) [] w).1

  -- The loop of `ping_until_answered`; `due` is the next tick. The result says whether the fuel was
  -- enough.
  unfoldable pub pings : ℕ → ℕ → ℕ → World → Bool × World
  pings zero start due w = (false, w)
  pings (suc fuel) start due w =
      let sent = (control_out hidpp_short_setup ping w).1 in
      let rest = pings fuel start (due + ping_interval) (until due sent) in
      if (heard w).answered
      then (true, w)
      else if leb ping_timeout (now w - start)
      then (true, w)
      else rest

  unfoldable pub ping_until_answered : ℕ → World → Bool × World
  unfolding pings
  ping_until_answered fuel w =
      let w = hear (record { answered = false; answer = (heard w).answer }) w in
      pings fuel (now w) (now w + ping_interval) w

  -- `replay_ghub_init`, of the requests that are left
  unfoldable pub replay : List (ℕ × List ℕ) → World → World
  replay [] w = w
  replay ((delay_ms, msg) ∷ requests) w =
      replay requests (control_out hidpp_short_setup msg (after delay_ms w)).1

-- ===== src/Device/Control.antt =====
-- `Control` of src/device.rs: the control requests, answered on the spot.
use rp_wheel_bridge.Base.{
  ℕ, ◌+◌, ◌/◌, ◌%◌, List, [], ◌∷◌, Option, none, some, Bool, true, false, not, ◌&&◌, ◌||◌, ◌==◌,
  if◌then◌else◌, get_elem?, get_or, take, u32,
}
use rp_wheel_bridge.Platform.Channel.{Channels}
use rp_wheel_bridge.Device.Packet
use rp_wheel_bridge.Device.Packet.{Packet}
use rp_wheel_bridge.Device.Profile.{Profile, is_wheel, is_mirror, desc_type_report}
use rp_wheel_bridge.Auth.State.{Shared, Reply, get_report, set_report}

abbrev pub hid_get_report : ℕ
hid_get_report = 0x01

abbrev pub hid_get_idle : ℕ
hid_get_idle = 0x02

abbrev pub hid_get_protocol : ℕ
hid_get_protocol = 0x03

abbrev pub hid_set_report : ℕ
hid_set_report = 0x09

abbrev pub hid_set_idle : ℕ
hid_set_idle = 0x0a

abbrev pub hid_set_protocol : ℕ
hid_set_protocol = 0x0b

abbrev pub report_type_input : ℕ
report_type_input = 0x01

abbrev pub report_type_feature : ℕ
report_type_feature = 0x03

abbrev pub if_input : ℕ
if_input = 0

abbrev pub if_hidpp : ℕ
if_hidpp = 1

-- embassy-usb's `Request`, as far as the handler reads it.
pub data RequestType : Type 0 where
  standard class other : RequestType

pub record Request : Type 0 where
  pub to_interface : Bool
  pub request_type : RequestType
  pub request : ℕ
  pub value : ℕ
  pub index : ℕ

-- `req.value.to_be_bytes()`
abbrev pub kind : Request → ℕ
kind req = req.value / 256 % 256

abbrev pub id : Request → ℕ
id req = req.value % 256

-- `None` passes the request on to embassy-usb.
pub data InResponse : Type 0 where
  ignored rejected : InResponse
  accepted : List ℕ → InResponse

pub data OutResponse : Type 0 where
  ignored rejected accepted : OutResponse

-- `PROFILE.features.iter().find(|f| f[0] == id)`
unfoldable pub find_feature : ℕ → List (List ℕ) → Option (List ℕ)
find_feature n [] = none
find_feature n (f ∷ fs) = if get_or f 0 0 == n then some f else find_feature n fs

-- `match (kind, PROFILE.hid.get(index))`
unfoldable pub report_descriptor : ℕ → Option (ℕ × List ℕ) → InResponse
report_descriptor k none = rejected
report_descriptor k (some (bcd, report)) =
    if k == desc_type_report then accepted report else rejected

-- `match (kind, id, req.index, feature)`, from its second arm on
unfoldable pub input_report : Profile → List ℕ → Request → InResponse
input_report p input req =
    if kind req == report_type_input
      && (id req == 0x01)
      && (req.index == if_input)
      && is_wheel p.role
    then accepted input
    else rejected

unfoldable pub local_report : Profile → List ℕ → Request → Option (List ℕ) → InResponse
unfolding input_report
local_report p input req none = input_report p input req
local_report p input req (some f) =
    if kind req == report_type_feature && (req.index == if_input)
    then accepted f
    else input_report p input req

-- `PROFILE.role != Role::Mirror && kind == REPORT_TYPE_FEATURE && req.index == IF_INPUT`
abbrev pub is_auth_request : Profile → Request → Bool
is_auth_request p req =
    not (is_mirror p.role) && (kind req == report_type_feature) && (req.index == if_input)

abbrev pub is_class : RequestType → Bool
is_class class = true
is_class _ = false

abbrev pub is_class_interface : Request → Bool
is_class_interface req = req.to_interface && is_class req.request_type

-- `req.request == HID_SET_REPORT && req.index == IF_HIDPP`
abbrev pub is_hidpp : Request → Bool
is_hidpp req = req.request == hid_set_report && (req.index == if_hidpp)

module _ (ch : Channels) where
  -- What an IN request leaves: the response and the auth statics.
  pub record Answer : Type 0 where
    pub response : InResponse
    pub auth : Shared ch

  -- A report of `get_report` if it gave one, or else the answer that follows.
  unfoldable pub or_local : Reply ch → InResponse → Answer
  or_local r here = record {
    response = elim r.answer [ some n ↦ accepted (take n r.buf) | none ↦ here ];
    auth = r.shared;
  }

  unfoldable pub get_report_in : Profile → Request → List ℕ → List ℕ → Shared ch → Answer
  unfolding local_report find_feature or_local
  get_report_in p req buf input c =
      let here = local_report p input req (find_feature (id req) p.features) in
      if is_auth_request p req
      then or_local (get_report ch (id req) buf c) here
      else record { response = here; auth = c }

  -- `control_in`; `get_descriptor` is embassy-usb's `Request::GET_DESCRIPTOR`, and `input` the
  -- latest input report.
  unfoldable pub dispatch_in :
      ℕ → Profile → RequestType → Request → List ℕ → List ℕ → Shared ch → Answer
  unfolding get_report_in report_descriptor
  dispatch_in get_descriptor p standard req buf input c = record {
    response =
        if req.request == get_descriptor
        then report_descriptor (kind req) (get_elem? p.hid req.index)
        else rejected;
    auth = c;
  }
  dispatch_in get_descriptor p class req buf input c =
      if req.request == hid_get_report
      then get_report_in p req buf input c
      else if req.request == hid_get_idle
      then record { response = accepted (0 ∷ []); auth = c }
      else if req.request == hid_get_protocol
      then record { response = accepted (1 ∷ []); auth = c }
      else record { response = rejected; auth = c }
  dispatch_in get_descriptor p other req buf input c = record { response = rejected; auth = c }

  unfoldable pub control_in : ℕ → Profile → Request → List ℕ → List ℕ → Shared ch → Answer
  unfolding dispatch_in
  control_in get_descriptor p req buf input c =
      if req.to_interface
      then dispatch_in get_descriptor p req.request_type req buf input c
      else record { response = InResponse.ignored; auth = c }

  -- A class request to repeat to the wheel.
  pub record ControlOut : Type 0 where
    pub request : ℕ
    pub value : ℕ
    pub index : ℕ
    pub body : Packet

  -- The statics that an OUT request may change.
  pub record OutStatics : Type 0 where
    pub auth : Shared ch
    pub control_out_queue : ch.Queue ControlOut 8
    pub hidpp_set_report : ℕ
    pub dropped : ℕ

  -- `CONTROL_OUT.try_send(msg)`, or a dropped message more
  unfoldable pub queue_control : ControlOut → OutStatics → OutStatics
  queue_control msg s = elim (ch.try_send msg s.control_out_queue) [
    | some q ↦ record s { control_out_queue = q }
    | none ↦ record s { dropped = u32 (s.dropped + 1) }
  ]

  -- The wheel role's answer to what is neither auth nor HID++
  unfoldable pub wheel_out : ℕ → OutResponse
  wheel_out request =
      if request == hid_set_idle || request == hid_set_protocol || request == hid_set_report
      then OutResponse.accepted
      else OutResponse.rejected

  -- What follows the auth test of `control_out`.
  unfoldable pub repeat_out : Profile → Request → List ℕ → OutStatics → OutResponse × OutStatics
  unfolding queue_control wheel_out
  repeat_out p req bytes s =
      if not (is_wheel p.role) || is_hidpp req
      then (
        OutResponse.accepted,
        queue_control
            (record {
              request = req.request;
              value = req.value;
              index = req.index;
              body = Packet.new bytes;
            })
            s,
      )
      else (wheel_out req.request, s)

  unfoldable pub class_out : Profile → Request → List ℕ → OutStatics → OutResponse × OutStatics
  unfolding repeat_out
  class_out p req bytes s =
      let s =
        if is_hidpp req then record s { hidpp_set_report = u32 (s.hidpp_set_report + 1) } else s in
      let (taken, auth) = set_report ch (id req) bytes s.auth in
      if is_auth_request p req && (req.request == hid_set_report) && taken
      then (OutResponse.accepted, record s { auth = auth })
      else repeat_out p req bytes s

  unfoldable pub control_out : Profile → Request → List ℕ → OutStatics → OutResponse × OutStatics
  unfolding class_out
  control_out p req bytes s =
      if is_class_interface req then class_out p req bytes s else (OutResponse.ignored, s)

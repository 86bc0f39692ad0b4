-- ===== src/Device/Examples.antt =====
-- Witnesses and tests of the native-port device (src/device.rs).
use rp_wheel_bridge.Base.{
  ℕ, ◌≡◌, ◌≢◌, refl, List, [], ◌∷◌, Bool, true, false, length, take, drop, replicate,
}
use rp_wheel_bridge.Platform.Channel.{fifo}
use rp_wheel_bridge.Device.Packet
use rp_wheel_bridge.Device.Packet.{Packet, bytes-new, max_packet}
use rp_wheel_bridge.Device.Profile.{ps5, wheel, hid_descriptor}
use rp_wheel_bridge.Device.Tables.{
  c269_if0_report_desc, c272_if0_report_desc, hidpp_report_desc, ffb_report_desc, feature_03,
  feature_31,
}
use rp_wheel_bridge.Device.Control.{
  Request, class, OutResponse, OutStatics, control_out, hid_set_idle, hid_set_protocol,
  hid_set_report, is_class_interface,
}
use rp_wheel_bridge.Device.Requests.{control_out-wheel}
use rp_wheel_bridge.Device.Link.{Queues, connected, follow, follow_all}
use rp_wheel_bridge.Device.Streams.{Sink, write_of, transfer}
use rp_wheel_bridge.Auth.State.{Shared, initial}

-- The tables have the lengths of their Rust types.
table_lengths :
    (length c269_if0_report_desc ≡ 193)
    × (length c272_if0_report_desc ≡ 141)
    × (length hidpp_report_desc ≡ 84)
    × (length ffb_report_desc ≡ 30)
    × (length feature_03 ≡ 48)
    × (length feature_31 ≡ 253)
table_lengths = (refl, refl, refl, refl, refl, refl)

-- The HID descriptor that IF2 presents is the one that feature 0x31 quotes.
if2_hid_descriptor : 0x09 ∷ 0x21 ∷ hid_descriptor 0x0111 30 ≡ take 9 (drop 75 feature_31)
unfolding hid_descriptor
if2_hid_descriptor = refl

abbrev auth : Shared fifo
auth = record { state = initial; cmds = [] }

abbrev statics : OutStatics fifo
statics = record { auth = auth; control_out_queue = []; hidpp_set_report = 0; dropped = 0 }

abbrev buf : List ℕ
buf = replicate 256 0

-- GET_REPORT(Feature, F2) on IF0.
abbrev get_f2 : Request
get_f2 = record {
  to_interface = true;
  request_type = class;
  request = 0x01;
  value = 0x3f2;
  index = 0;
}

-- SET_REPORT(Output, 0x30) on IF0, and SET_REPORT(Output, 0x10) on IF1.
abbrev set_if0 : Request
set_if0 = record {
  to_interface = true;
  request_type = class;
  request = 0x09;
  value = 0x230;
  index = 0;
}

abbrev set_hidpp : Request
set_hidpp = record set_if0 { value = 0x210; index = 1 }

hidpp_accepted : (control_out fifo ps5 set_hidpp (0x10 ∷ 0xff ∷ []) statics).1.hidpp_set_report ≡ 1
unfolding control_out
hidpp_accepted = refl

control_out-wheel_example :
    let (r, s') = control_out fifo ps5 set_if0 (0x30 ∷ []) statics in
    (s'.control_out_queue ≡ [])
    × (s'.dropped ≡ 0)
    × (s'.hidpp_set_report ≡ 0)
    × (is_class_interface set_if0 ≡ true
        → set_if0.request ≢ hid_set_idle
        → set_if0.request ≢ hid_set_protocol
        → set_if0.request ≢ hid_set_report
        → r ≡ OutResponse.rejected)
control_out-wheel_example = control_out-wheel fifo ps5 set_if0 (0x30 ∷ []) statics refl refl

abbrev queues : Queues fifo
queues = record {
  input_in = [];
  hidpp_in = [];
  control_out = [];
  ffb_in = [];
  ffb_out = [];
  if0_out = Packet.new (0x30 ∷ []) ∷ [];
}

-- The wheel goes at 1000 ms and is back 20 ms later: the device is off the bus until 1500 ms.
abbrev blink : List (ℕ × Bool)
blink = (1000, false) ∷ (1020, true) ∷ []

blink_pullups :
    (follow_all fifo blink (connected fifo 10 queues)).pullups
    ≡ (1500, true) ∷ (1000, false) ∷ (10, true) ∷ []
unfolding follow_all follow connected
blink_pullups = refl

abbrev three : List Packet
three = Packet.new (1 ∷ []) ∷ Packet.new (2 ∷ []) ∷ Packet.new (3 ∷ []) ∷ []

abbrev sink : Sink fifo 2
sink = record { queue = []; dropped = 0 }

-- A HID++ long report on a 20-byte endpoint ends with a zero-length packet; a full one does not.
zero_length_packets :
    (write_of wheel (Packet.new (replicate 20 7)) ≡ transfer (replicate 20 7) true)
    × (write_of wheel (Packet.new (replicate 64 7)) ≡ transfer (replicate 64 7) false)
unfolding write_of Packet.new Packet.bytes
zero_length_packets = (refl, refl)

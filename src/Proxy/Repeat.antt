-- ===== src/Proxy/Repeat.antt =====
-- `repeat_control` of src/proxy.rs: a class request of the console, repeated to the wheel or, in the
-- relay role, to DriveHub.
use rp_wheel_bridge.Base.{Bool, ◌&&◌, ◌==◌, length, u16}
use rp_wheel_bridge.Platform.Channel.{Channels}
use rp_wheel_bridge.Platform.Usb.{Host, Setup, class_interface_out}
use rp_wheel_bridge.Hub.Reset.{is_ok}
use rp_wheel_bridge.Device.Packet
use rp_wheel_bridge.Device.Control.{ControlOut, hid_set_report, if_hidpp}

module _ (host : Host) {ch : Channels} where
  open host use {World, control_out}

  -- The request that repeats a message.
  abbrev pub repeat_setup : ControlOut ch → Setup
  repeat_setup msg =
      class_interface_out msg.request msg.value msg.index (u16 (length (Packet.bytes msg.body)))

  -- Whether the message was a HID++ request that went through.
  unfoldable pub repeat_control : ControlOut ch → World → Bool × World
  repeat_control msg w =
      let (r, w) = control_out (repeat_setup msg) (Packet.bytes msg.body) w in
      (msg.request == hid_set_report && (msg.index == if_hidpp) && is_ok r, w)

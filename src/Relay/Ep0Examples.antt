-- ===== src/Relay/Ep0Examples.antt =====
-- Tests and concrete instances for DriveHub's EP0: one that answers every read with the buffer's bytes.
use native.Mathlib.Nat.{le_refl, le-add_right}
use rp_wheel_bridge.Base.{ℕ, ◌+◌, refl, List, [], ◌∷◌, ok, length, replicate}
use rp_wheel_bridge.Platform.Channel.{fifo}
use rp_wheel_bridge.Platform.Usb.{Host, Setup}
use rp_wheel_bridge.Device.Packet
use rp_wheel_bridge.Device.Control.{ControlOut}
use rp_wheel_bridge.Auth.State.{Shared, initial, nonce, id_nonce}
use rp_wheel_bridge.Auth.Console.{IsValid, none_yet, initial-IsValid}
use rp_wheel_bridge.Auth.Signer.{Signing}
use rp_wheel_bridge.Auth.Handle.{no_nonces}
use rp_wheel_bridge.Relay.Ep0.{control_out, auth_cmd, Backend, run_ep0}
use rp_wheel_bridge.Relay.Ep0Safety.{run_ep0-IsValid}

record Drive : Type 0 where
  time : ℕ
  statics : Shared fifo
  requests : List Setup

abbrev drive_host : Host
drive_host = record {
  World = Drive;
  now = λ w. w.time;
  control_in = λ s buf w. record {
    result = ok (length buf);
    buf = buf;
    world = record w { time = w.time + 1 };
  };
  control_out = λ s buf w. (ok tt, record w { time = w.time + 1; requests = s ∷ w.requests });
  after = λ d w. record w { time = w.time + d };
  in_time = λ s buf w. le-add_right w.time 1;
  out_time = λ s buf w. le-add_right w.time 1;
  after_time = λ d w. le_refl (w.time + d);
  in_length = λ s buf w. refl;
  in_bytes = λ s buf w h. h;
}

abbrev drive : Signing fifo
drive = record {
  host = drive_host;
  shared = λ w. w.statics;
  store = λ c w. record w { statics = c };
  shared-store = λ c w. refl;
  in_requests = λ s buf w. none_yet;
  out_requests = λ s buf w. none_yet;
  after_requests = λ d w. none_yet;
}

-- A HID++ request of the console and a page of a nonce.
abbrev hidpp : ControlOut fifo
hidpp = record {
  request = 0x09;
  value = 0x210;
  index = 1;
  body = Packet.new (0x10 ∷ 0xff ∷ 0x00 ∷ 0x1c ∷ 0x00 ∷ 0x00 ∷ 0x00 ∷ []);
}

abbrev plugged : Drive
plugged = record {
  time = 0;
  statics = record {
    state = initial;
    cmds = nonce (Packet.new (id_nonce ∷ 7 ∷ 0 ∷ replicate 61 0)) ∷ [];
  };
  requests = [];
}

abbrev backend : Backend drive 501
backend = record { nonces = no_nonces; hidpp_written = 0 }

run_ep0-IsValid_example :
    IsValid
      (run_ep0 drive 501 (control_out hidpp ∷ auth_cmd ∷ []) (backend, plugged)).1.statics.state
run_ep0-IsValid_example =
    run_ep0-IsValid drive 501 (control_out hidpp ∷ auth_cmd ∷ []) backend plugged initial-IsValid

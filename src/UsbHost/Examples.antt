-- ===== src/UsbHost/Examples.antt =====
-- Tests and concrete instances for the USB host: devices that answer every request with the same
-- bytes.
use native.Mathlib.Nat.{le_refl, le-add_right}
use rp_wheel_bridge.Base.{
  ℕ, ◌+◌, ◌≤◌, ◌≡◌, refl, List, [], ◌∷◌, ◌++◌, Option, none, some, true, ok, get_or, copy_at,
  if◌then◌else◌, ◌==◌, length, length-copy_at, All-copy_at, IsByte, arith,
}
use rp_wheel_bridge.Platform.Usb.{Host}
use rp_wheel_bridge.Device.Profile.{wheel, relay}
use rp_wheel_bridge.Hub.Ports.{Kind}
use rp_wheel_bridge.UsbHost.Strings.{DeviceDescriptor, log_strings, get_string, desc_type_string}
use rp_wheel_bridge.UsbHost.StringsSafe.{log_strings-none, manufacturer_read}
use rp_wheel_bridge.Hid.Finder.{HidInterface}
use rp_wheel_bridge.UsbHost.Utf16.{utf16_le, units, decode_utf16, bytes_of, encode_utf16}
use rp_wheel_bridge.UsbHost.HostTask
use rp_wheel_bridge.UsbHost.HostTask.{
  Device, HostEvent, HostTask, Reaches, Detaches, connected, served_out, disconnected, other_event,
  served, hub_run, stays, goes, boot, on_event, in_phase, serve, free_address, serve_of, to_serve,
  addresses, held, host_task_lem,
}
use rp_wheel_bridge.UsbHost.Devices.{
  classify, serve_device, signer_calls, first_interface, hid_probe, open_ep0, try_signer,
  auth_serve, hid_monitor,
}

-- A device that answers with three bytes: a bLength and the start of a string descriptor.
abbrev answering : (b : ℕ) → IsByte b → Host
answering b byte = record {
  World = ℕ;
  now = λ w. w;
  control_in = λ s buf w. record {
    result = ok (length (short b));
    buf = copy_at buf 0 (short b);
    world = w + 1;
  };
  control_out = λ s buf w. (ok tt, w + 1);
  after = λ d w. w + d;
  in_time = λ s buf w. le-add_right w 1;
  out_time = λ s buf w. le-add_right w 1;
  after_time = λ d w. le_refl (w + d);
  in_length = λ s buf w. length-copy_at buf 0 (short b);
  in_bytes = λ s buf w h.
      All-copy_at IsByte buf 0 (short b) h (byte, (omega arith, (omega arith, (omega arith, tt))));
}
  where
    short : ℕ → List ℕ
    short b = b ∷ 0x03 ∷ 0x41 ∷ 0x00 ∷ []

abbrev descriptor : DeviceDescriptor
descriptor = record {
  vendor_id = 0x046d;
  product_id = 0xc272;
  device_class = 0;
  manufacturer = 1;
  product = 2;
  serial_number = 0;
}

four_header :
    (buf : List ℕ)
    → get_or (copy_at buf 0 (0x04 ∷ 0x03 ∷ 0x41 ∷ 0x00 ∷ [])) 1 0 ≡ desc_type_string
    → 2 ≤ get_or (copy_at buf 0 (0x04 ∷ 0x03 ∷ 0x41 ∷ 0x00 ∷ [])) 0 0
four_header [] e = absurd (omega (arith, e))
four_header (x ∷ []) e = absurd (omega (arith, e))
four_header (x ∷ y ∷ buf) e = omega arith

log_strings-none_example : (log_strings (answering 1 (omega arith)) true descriptor 0).0 ≡ none
unfolding manufacturer_read get_string
log_strings-none_example =
    log_strings-none (answering 1 (omega arith)) descriptor 0 4 (λ e. absurd (omega (arith, e)))
      refl (omega arith) refl (omega arith)

-- The pad signs in the wheel role only; the wheel is not probed.
pad_calls :
    serve_device wheel
      (none ∷ some (record { number = 3; report_desc_len = 0; in_ep = none; out_ep = none }) ∷ [])
      Kind.other
      true
      true
    ≡ hid_probe ∷ open_ep0 ∷ try_signer 3 ∷ auth_serve 3 ∷ hid_monitor ∷ []
unfolding serve_device signer_calls first_interface
pad_calls = refl

hub_kind : classify relay (record descriptor { product_id = 0xc269 }) ≡ Kind.relay_backend
unfolding classify
hub_kind = refl

-- A device that answers when two attempts have failed.
abbrev third : ℕ → Option ℕ × ℕ
third w = if w == 2 then (some 7, 3) else (none, w)

abbrev hub_device : Device
hub_device = record { device_address = 1; kind = Kind.hub }

abbrev wheel_device : Device
wheel_device = record { device_address = 2; kind = Kind.wheel }

-- A hub comes and goes, and a wheel comes, whose proxy stops.
abbrev comings : List HostEvent
comings =
    connected hub_device ∷ other_event ∷ disconnected ∷ connected wheel_device ∷ served_out ∷ []

abbrev wheel_served : HostTask
wheel_served = record {
  phase = served wheel_device;
  started = (2, HostTask.serve_device Kind.wheel) ∷ (1, hub_run) ∷ [];
  freed = 1 ∷ [];
}

comings_lem : Reaches boot comings wheel_served
unfolding on_event in_phase serve free_address serve_of
comings_lem = goes refl (goes refl (goes refl (goes refl (goes refl stays))))

host_task_lem_example :
    (wheel_served.started ≡ to_serve comings [])
    × (addresses wheel_served.started ≡ held wheel_served.phase ++ wheel_served.freed)
    × Detaches wheel_served
host_task_lem_example = host_task_lem comings wheel_served comings_lem

-- "A" and U+1F3CE (a racing car), as bytes.
racing :
    bytes_of (encode_utf16 (0x41 ∷ 0x1f3ce ∷ [])) ≡ 0x41 ∷ 0x00 ∷ 0x3c ∷ 0xd8 ∷ 0xce ∷ 0xdf ∷ []
racing = refl

-- An unpaired surrogate is shown as the replacement character.
unpaired : utf16_le (0x3c ∷ 0xd8 ∷ 0x41 ∷ 0x00 ∷ 0x42 ∷ []) ≡ 0xfffd ∷ 0x41 ∷ []
unfolding utf16_le units decode_utf16
unpaired = refl

-- The HID descriptor of the wheel's force feedback interface.
abbrev raw : List ℕ
raw = 0x09 ∷ 0x21 ∷ 0x11 ∷ 0x01 ∷ 0x00 ∷ 0x01 ∷ 0x22 ∷ 0x1e ∷ 0x00 ∷ []

abbrev no_report : HidInterface
no_report = record { number = 2; report_desc_len = 0; in_ep = none; out_ep = none }

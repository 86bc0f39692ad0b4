-- ===== src/UsbHost/Devices.antt =====
-- What src/usb_host.rs does with a device: `classify`, `serve_device` and `enumerate_with_retry`.
use rp_wheel_bridge.Base.{
  ℕ, zero, suc, ◌<◌, ◌≡◌, ap, ◌∙◌, List, [], ◌∷◌, ◌++◌, Option, none, some, Bool, ◌&&◌, ◌==◌,
  if◌then◌else◌, arith,
}
use rp_wheel_bridge.Device.Profile.{Role, is_wheel, is_relay}
use rp_wheel_bridge.Hid.Finder.{HidInterface}
use rp_wheel_bridge.Hub.Ports.{Kind}
use rp_wheel_bridge.UsbHost.Strings.{DeviceDescriptor}

abbrev pub class_hub : ℕ
class_hub = 0x09

abbrev pub wheel_vid : ℕ
wheel_vid = 0x046d

abbrev pub wheel_pid : ℕ
wheel_pid = 0xc272

abbrev pub backend_vid : ℕ
backend_vid = 0x046d

abbrev pub backend_pid : ℕ
backend_pid = 0xc269

unfoldable pub classify : Role → DeviceDescriptor → Kind
classify role d =
    if d.vendor_id == wheel_vid && (d.product_id == wheel_pid)
    then Kind.wheel
    else if d.vendor_id == backend_vid && (d.product_id == backend_pid) && is_relay role
    then Kind.relay_backend
    else if d.device_class == class_hub
    then Kind.hub
    else Kind.other

-- `ifaces.iter().flatten().next()`
unfoldable pub first_interface : List (Option HidInterface) → Option HidInterface
first_interface [] = none
first_interface (none ∷ ifaces) = first_interface ifaces
first_interface (some iface ∷ ifaces) = some iface

-- What `serve_device` calls, with the interface number where it has one.
pub data Call : Type 0 where
  proxy_run hid_probe relay_run open_ep0 hid_monitor : Call
  try_signer auth_serve : ℕ → Call

-- The calls about the console's authentication; `opens` and `signs`: EP0 can be opened, and the device
-- answers as a signer.
unfoldable pub signer_calls : Role → Option HidInterface → (opens signs : Bool) → List Call
signer_calls role none opens signs = []
signer_calls role (some iface) opens signs =
    if is_wheel role
    then open_ep0
      ∷ (if opens
          then try_signer iface.number ∷ (if signs then auth_serve iface.number ∷ [] else [])
          else [])
    else []

-- The calls of `serve_device`, in their order.
unfoldable pub serve_device :
    Role → List (Option HidInterface) → Kind → (opens signs : Bool) → List Call
unfolding first_interface signer_calls
serve_device role ifaces Kind.wheel opens signs = proxy_run ∷ []
serve_device role ifaces Kind.relay_backend opens signs = hid_probe ∷ relay_run ∷ []
serve_device role ifaces Kind.hub opens signs = []
serve_device role ifaces Kind.other opens signs =
    hid_probe ∷ signer_calls role (first_interface ifaces) opens signs ++ hid_monitor ∷ []

-- `enumerate` reads and logs the device, `bus_reset` puts it back to address 0.
module _ {World Device : Type 0} (enumerate : World → Option Device × World)
    (bus_reset : World → World) where
  -- What an attempt leads to, with what the rest of the loop gives.
  unfoldable pub on_attempt : Option Device × World → Option Device × World → Option Device × World
  on_attempt (some d, v) rest = (some d, v)
  on_attempt (none, v) rest = rest

  -- The loop, with fuel for its attempts.
  unfoldable pub enumerate_with_retry : ℕ → World → Option Device × World
  unfolding on_attempt
  enumerate_with_retry zero w = (none, w)
  enumerate_with_retry (suc fuel) w =
      let m = enumerate w in on_attempt m (enumerate_with_retry fuel (bus_reset m.1))

  -- The device answers at the attempt after `n` that fail.
  pub data Answers : ℕ → World → Device → World → Type 0 where
    now : {w v : World} {d : Device} → enumerate w ≡ (some d, v) → Answers zero w d v
    later :
        {n : ℕ} {w v x : World} {d : Device}
        → enumerate w ≡ (none, v)
        → Answers n (bus_reset v) d x
        → Answers (suc n) w d x

  -- A device that answers at some attempt is found, with a bus reset after each attempt that failed.
  pub enumerate_with_retry-Answers :
      (n fuel : ℕ) (w x : World) (d : Device)
      → Answers n w d x
      → n < fuel
      → enumerate_with_retry fuel w ≡ (some d, x)
  unfolding enumerate_with_retry
  enumerate_with_retry-Answers n zero w x d h lt = absurd (omega arith)
  enumerate_with_retry-Answers zero (suc fuel) w x d (now e) lt =
      ap (λ m. on_attempt m (enumerate_with_retry fuel (bus_reset m.1))) e
  enumerate_with_retry-Answers (suc n) (suc fuel) w x d (later {v = v} e h) lt =
      ap (λ m. on_attempt m (enumerate_with_retry fuel (bus_reset m.1))) e
      ∙ enumerate_with_retry-Answers n fuel (bus_reset v) x d h (omega arith)

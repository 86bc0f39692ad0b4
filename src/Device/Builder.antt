-- ===== src/Device/Builder.antt =====
-- The USB device that `task` of src/device.rs builds: its calls of embassy-usb's `Builder`, in their
-- order, and what embassy-usb documents of them.
use Prim.Native.String.{String}
use rp_wheel_bridge.Base.{
  ℕ, suc, ◌+◌, ◌-◌, ◌≡◌, List, [], ◌∷◌, ◌++◌, Option, none, some, Bool, true, false, map, length,
  refl,
}
use rp_wheel_bridge.Hid.Finder.{Visit, sub, endpoint, other, class_hid, desc_type_hid}
use rp_wheel_bridge.Device.Profile.{Profile, Ep, hid_descriptor}

pub data UsbVersion : Type 0 where
  two : UsbVersion

-- embassy-usb's `Config`, as far as `task` sets it.
pub record Config : Type 0 where
  pub vendor_id : ℕ
  pub product_id : ℕ
  pub bcd_usb : UsbVersion
  pub composite_with_iads : Bool
  pub device_class : ℕ
  pub device_sub_class : ℕ
  pub device_protocol : ℕ
  pub device_release : ℕ
  pub manufacturer : Option String
  pub product : Option String
  pub serial_number : Option String
  pub self_powered : Bool
  pub max_power : ℕ
  pub max_packet_size_0 : ℕ

abbrev pub config : Profile → Config
config p = record {
  vendor_id = p.vid;
  product_id = p.pid;
  bcd_usb = two;
  composite_with_iads = false;
  device_class = 0x00;
  device_sub_class = 0x00;
  device_protocol = 0x00;
  device_release = p.release;
  manufacturer = some p.manufacturer;
  product = some p.product;
  serial_number = some p.serial;
  self_powered = true;
  max_power = p.max_power_ma;
  max_packet_size_0 = 64;
}

pub data Direction : Type 0 where
  dir_out dir_in : Direction

-- `EndpointAddress::from_parts`, of embassy-usb-driver, is what the two parts stand for.
pub record EndpointAddress : Type 0 where
  pub number : ℕ
  pub direction : Direction

abbrev pub ep : ℕ → Direction → EndpointAddress
ep number dir = record { number = number; direction = dir }

-- A call of the builder, of the function, the interface or the alternate setting made last.
pub data Call : Type 0 where
  builder_new : Config → Call
  handler : Call
  function : (class sub_class protocol : ℕ) → Call
  interface : Call
  alt_setting : (class sub_class protocol : ℕ) → Call
  descriptor : (desc_type : ℕ) → List ℕ → Call
  endpoint_interrupt_in : EndpointAddress → (max_packet_size interval : ℕ) → Call
  endpoint_interrupt_out : EndpointAddress → (max_packet_size interval : ℕ) → Call
  build : Call

abbrev pub endpoint_in : Ep → Call
endpoint_in e = endpoint_interrupt_in (ep e.number dir_in) e.max_packet_size e.interval

abbrev pub endpoint_out : Ep → Call
endpoint_out e = endpoint_interrupt_out (ep e.number dir_out) e.max_packet_size e.interval

-- `hid_desc[i]`: the HID descriptors of the three interfaces. The source's array has three.
unfoldable pub hid_desc : Profile → List (List ℕ)
unfolding hid_descriptor
hid_desc p = map (λ d. hid_descriptor d.0 (length d.1)) p.hid

-- One interface with its HID descriptor and its endpoints.
abbrev pub interface_calls : List ℕ → List Call → List Call
interface_calls desc endpoints =
    Call.interface ∷ alt_setting class_hid 0 0 ∷ descriptor desc_type_hid desc ∷ endpoints

abbrev pub optional_out : Option Ep → List Call
optional_out none = []
optional_out (some e) = endpoint_out e ∷ []

-- The interfaces, by their HID descriptors.
unfoldable pub interfaces : Profile → List (List ℕ) → List Call
interfaces p (d0 ∷ d1 ∷ d2 ∷ ds) =
    interface_calls d0 (optional_out p.if0_out ++ endpoint_in p.if0_in ∷ [])
    ++ interface_calls d1 (endpoint_in p.if1_in ∷ [])
    ++ interface_calls d2 (endpoint_in p.if2_in ∷ endpoint_out p.if2_out ∷ [])
interfaces p _ = []

unfoldable pub builder_calls : Profile → List Call
unfolding hid_desc interfaces
builder_calls p =
    builder_new (config p) ∷ handler ∷ function class_hid 0 0 ∷ interfaces p (hid_desc p)
    ++ build ∷ []

-- What embassy-usb's builder has come to: the descriptors of the configuration, as a host visits
-- them, the interfaces so far, the alternate settings of the last one, and whether functions are
-- announced by a descriptor of their own.
pub record View : Type 0 where
  pub written : List Visit
  pub interface_count : ℕ
  pub setting_count : ℕ
  pub has_iads : Bool

abbrev pub write : Visit → View → View
write v s = record s { written = s.written ++ v ∷ [] }

-- `address`: the byte of an endpoint address.
abbrev pub interrupt : ℕ → Bool → Visit
interrupt address is_in =
    sub (endpoint (record { address = address; is_in = is_in; is_interrupt = true }))

-- What a call adds to that. A function has no descriptor of its own when the configuration says so.
abbrev pub shown : (EndpointAddress → ℕ) → Call → View → View
shown address (builder_new c) v = record {
  written = [];
  interface_count = 0;
  setting_count = 0;
  has_iads = c.composite_with_iads;
}
shown address Call.interface v = record v {
  interface_count = suc v.interface_count;
  setting_count = 0;
}
shown address (alt_setting c s p) v =
    write
      (Visit.interface (record {
        interface_number = v.interface_count - 1;
        alternate_setting = v.setting_count;
        interface_class = c;
      }))
      (record v { setting_count = suc v.setting_count })
shown address (descriptor t bytes) v = write (sub (other ((length bytes + 2) ∷ t ∷ bytes))) v
shown address (endpoint_interrupt_in a size interval) v = write (interrupt (address a) true) v
shown address (endpoint_interrupt_out a size interval) v = write (interrupt (address a) false) v
shown address _ v = v

-- embassy-usb's `Builder`, with what it documents of each call.
pub record UsbBuilder : Type 1 where
  pub Builder : Type 0
  pub fresh : Builder
  pub call : Call → Builder → Builder
  pub view : Builder → View
  pub address : EndpointAddress → ℕ
  pub new_view :
      (c : Config) (b : Builder)
      → view (call (builder_new c) b) ≡ record {
        written = [];
        interface_count = 0;
        setting_count = 0;
        has_iads = c.composite_with_iads;
      }
  pub handler_view : (b : Builder) → view (call handler b) ≡ view b
  pub function_view :
      (c s p : ℕ) (b : Builder)
      → (view b).has_iads ≡ false
      → view (call (function c s p) b) ≡ view b
  -- Interfaces and their settings are numbered from 0.
  pub interface_view :
      (b : Builder)
      → view (call Call.interface b)
        ≡ record (view b) { interface_count = suc (view b).interface_count; setting_count = 0 }
  pub alt_setting_view :
      (c s p : ℕ) (b : Builder)
      → view (call (alt_setting c s p) b)
        ≡ write
            (Visit.interface (record {
              interface_number = (view b).interface_count - 1;
              alternate_setting = (view b).setting_count;
              interface_class = c;
            }))
            (record (view b) { setting_count = suc (view b).setting_count })
  -- A length and a type byte precede the bytes given.
  pub descriptor_view :
      (t : ℕ) (bytes : List ℕ) (b : Builder)
      → view (call (descriptor t bytes) b)
        ≡ write (sub (other ((length bytes + 2) ∷ t ∷ bytes))) (view b)
  pub in_view :
      (a : EndpointAddress) (size interval : ℕ) (b : Builder)
      → view (call (endpoint_interrupt_in a size interval) b)
        ≡ write (interrupt (address a) true) (view b)
  pub out_view :
      (a : EndpointAddress) (size interval : ℕ) (b : Builder)
      → view (call (endpoint_interrupt_out a size interval) b)
        ≡ write (interrupt (address a) false) (view b)
  pub build_view : (b : Builder) → view (call build b) ≡ view b

-- A builder that does what is documented.
abbrev pub documented : UsbBuilder
documented = record {
  Builder = View;
  fresh = record { written = []; interface_count = 0; setting_count = 0; has_iads = true };
  call = shown byte;
  view = λ v. v;
  address = byte;
  new_view = λ c b. refl;
  handler_view = λ b. refl;
  function_view = λ c s p b plain. refl;
  interface_view = λ b. refl;
  alt_setting_view = λ c s p b. refl;
  descriptor_view = λ t bytes b. refl;
  in_view = λ a size interval b. refl;
  out_view = λ a size interval b. refl;
  build_view = λ b. refl;
}
  where
    byte : EndpointAddress → ℕ
    byte a = elim a.direction [ dir_in ↦ 0x80 + a.number | dir_out ↦ a.number ]

module _ (u : UsbBuilder) where
  open u use {Builder, fresh, call, view}

  unfoldable pub call_all : List Call → Builder → Builder
  call_all [] b = b
  call_all (c ∷ cs) b = call_all cs (call c b)

  -- The descriptors that a host visits in the device that `task` builds.
  unfoldable pub task_configuration : Profile → List Visit
  unfolding call_all builder_calls
  task_configuration p = (view (call_all (builder_calls p) fresh)).written

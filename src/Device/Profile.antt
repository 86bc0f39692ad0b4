-- ===== src/Device/Profile.antt =====
-- The personalities of src/device.rs (`PROFILE` selects one of them).
use Prim.Native.String.{String}
use rp_wheel_bridge.Base.{
  ℕ, List, [], ◌∷◌, Option, none, some, Bool, true, false, u16, le_bytes16, ◌++◌,
}
use rp_wheel_bridge.Device.Tables.{
  c269_if0_report_desc, c272_if0_report_desc, hidpp_report_desc, ffb_report_desc, feature_03,
  feature_31,
}

pub data Role : Type 0 where
  wheel relay mirror : Role

-- An interrupt endpoint: number (without direction), max packet size, interval in ms.
pub record Ep : Type 0 where
  pub number : ℕ
  pub max_packet_size : ℕ
  pub interval : ℕ

pub record Profile : Type 0 where
  pub name : String
  pub role : Role
  pub vid : ℕ
  pub pid : ℕ
  pub release : ℕ
  pub manufacturer : String
  pub product : String
  pub serial : String
  pub max_power_ma : ℕ
  -- bcdHID and report descriptor of IF0, IF1, IF2
  pub hid : List (ℕ × List ℕ)
  pub if0_out : Option Ep
  pub if0_in : Ep
  pub if1_in : Ep
  pub if2_in : Ep
  pub if2_out : Ep
  -- IF0 feature reports answered locally (report ID first)
  pub features : List (List ℕ)

abbrev ep : ℕ → ℕ → ℕ → Ep
ep n size ms = record { number = n; max_packet_size = size; interval = ms }

abbrev pub c269 : Profile
c269 = record {
  name = "PS device";
  role = wheel;
  vid = 0x046d;
  pid = 0xc269;
  release = 0x3300;
  manufacturer = "Logitech ";
  product = "PRO Raccing Wheel for Playstation /PC";
  serial = "000000000000";
  max_power_ma = 200;
  hid =
      (0x0110, c269_if0_report_desc) ∷ (0x0111, hidpp_report_desc) ∷ (0x0111, ffb_report_desc) ∷ [];
  if0_out = some (ep 1 64 1);
  if0_in = ep 1 64 5;
  if1_in = ep 3 20 5;
  if2_in = ep 2 64 1;
  if2_out = ep 2 64 1;
  features = feature_03 ∷ feature_31 ∷ [];
}

abbrev pub ps5 : Profile
ps5 = c269

abbrev pub relay_c269 : Profile
relay_c269 = record c269 { name = "relay device"; role = relay }

abbrev pub mirror_c272 : Profile
mirror_c272 = record {
  name = "mirror device";
  role = mirror;
  vid = 0x046d;
  pid = 0xc272;
  release = 0x3309;
  manufacturer = "Logitech ";
  product = "PRO Racing Wheel";
  serial = "000000000000";
  max_power_ma = 100;
  hid =
      (0x0111, c272_if0_report_desc) ∷ (0x0111, hidpp_report_desc) ∷ (0x0111, ffb_report_desc) ∷ [];
  if0_out = none;
  if0_in = ep 1 64 1;
  if1_in = ep 2 64 1;
  if2_in = ep 3 64 1;
  if2_out = ep 3 64 1;
  features = [];
}

abbrev pub is_wheel : Role → Bool
is_wheel wheel = true
is_wheel _ = false

abbrev pub is_relay : Role → Bool
is_relay relay = true
is_relay _ = false

abbrev pub is_mirror : Role → Bool
is_mirror mirror = true
is_mirror _ = false

abbrev pub desc_type_report : ℕ
desc_type_report = 0x22

-- `hid_descriptor`: bcdHID, country code, count, then type and length of the report descriptor.
unfoldable pub hid_descriptor : ℕ → ℕ → List ℕ
hid_descriptor bcd_hid report_len =
    le_bytes16 bcd_hid ++ 0x00 ∷ 0x01 ∷ desc_type_report ∷ le_bytes16 (u16 report_len)

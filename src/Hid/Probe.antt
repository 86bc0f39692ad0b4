-- ===== src/Hid/Probe.antt =====
-- `probe` and `read_feature_reports` of src/hid.rs: what the bridge asks a device other than the wheel
-- about its HID interfaces. What it logs is left out; times are in milliseconds.
use mathlib.Core.Option
use rp_wheel_bridge.Base.{
  ℕ, ◌+◌, ◌*◌, ◌/◌, ◌≡◌, min, List, [], ◌∷◌, Option, none, some, Bool, not, ◌&&◌, ◌==◌,
  if◌then◌else◌, take, length, replicate, copy_at, u16, Result, ok, err,
}
use rp_wheel_bridge.Platform.Usb.{
  Host, Setup, PipeError, hid_report_descriptor, class_interface_in, class_interface_out,
}
use rp_wheel_bridge.Hid.Finder.{HidInterface}
use rp_wheel_bridge.Hid.Descriptor.{Slots, ReportSize, feature, same_kind, log_report_summary}

abbrev pub report_desc_buf_len : ℕ
report_desc_buf_len = 512

abbrev pub log_drain : ℕ
log_drain = 50

abbrev pub feature_buf_len : ℕ
feature_buf_len = 256

abbrev pub usage_page_ps_auth : ℕ
usage_page_ps_auth = 0xfff0

abbrev pub hid_req_get_report : ℕ
hid_req_get_report = 0x01

abbrev pub hid_req_set_idle : ℕ
hid_req_set_idle = 0x0a

abbrev pub hid_report_type_feature : ℕ
hid_report_type_feature = 0x03

-- A host whose control requests can be told afterwards, the latest first.
pub record Asked : Type 1 where
  pub host : Host
  pub open host use *
  pub asked : World → List Setup
  pub asked-in :
      (s : Setup) (buf : List ℕ) (w : World) → asked (control_in s buf w).world ≡ s ∷ asked w
  pub asked-out :
      (s : Setup) (buf : List ℕ) (w : World) → asked (control_out s buf w).1 ≡ s ∷ asked w
  pub asked-after : (d : ℕ) (w : World) → asked (after d w) ≡ asked w

-- `r.kind == ReportKind::Feature && r.id != 0`
abbrev pub is_feature : ReportSize → Bool
is_feature r = same_kind r.kind feature && not (r.id == 0)

-- The bytes of a report with its ID, as far as the buffer reaches.
abbrev pub feature_len : ReportSize → ℕ
feature_len r = min ((r.bits + 7) / 8 + 1) feature_buf_len

abbrev pub feature_setup : ℕ → ReportSize → Setup
feature_setup iface r =
    class_interface_in hid_req_get_report (hid_report_type_feature * 256 + r.id) iface
      (u16 (feature_len r))

abbrev pub idle_setup : ℕ → Setup
idle_setup iface = class_interface_out hid_req_set_idle 0 iface 0

module _ (host : Host) where
  open host use {World, control_in, control_out, after}

  -- The reports that are left, with the buffer.
  unfoldable pub read_features : Slots → ℕ → List ℕ → World → World
  read_features [] iface buf w = w
  read_features (none ∷ reports) iface buf w = read_features reports iface buf w
  read_features (some r ∷ reports) iface buf w =
      let got = control_in (feature_setup iface r) (take (feature_len r) buf) w in
      let rest = read_features reports iface (copy_at buf 0 got.buf) (after log_drain got.world) in
      let skipped = read_features reports iface buf w in
      if is_feature r && not (r.usage_page == usage_page_ps_auth) then rest else skipped

  unfoldable pub read_feature_reports : Slots → ℕ → World → World
  unfolding read_features
  read_feature_reports reports iface w = read_features reports iface (replicate feature_buf_len 0) w

  -- What the answer to the request for the report descriptor leads to.
  unfoldable pub on_descriptor : Result ℕ PipeError → List ℕ → ℕ → World → World
  unfolding read_feature_reports
  on_descriptor (err e) buf iface w = w
  on_descriptor (ok n) buf iface w =
      let reports = Option.get_or (log_report_summary (take n buf)) [] in
      read_feature_reports reports iface (after log_drain (after log_drain w))

  -- One interface, with the buffer.
  unfoldable pub probe_interface : HidInterface → List ℕ → World → List ℕ × World
  unfolding on_descriptor
  probe_interface iface buf w =
      let len = min iface.report_desc_len (length buf) in
      let got = control_in (hid_report_descriptor iface.number (u16 len)) (take len buf) w in
      let w' = on_descriptor got.result got.buf iface.number got.world in
      let w' = (control_out (idle_setup iface.number) [] w').1 in
      (copy_at buf 0 got.buf, after log_drain w')

  unfoldable pub probe_all : List (Option HidInterface) → List ℕ → World → World
  unfolding probe_interface
  probe_all [] buf w = w
  probe_all (none ∷ ifaces) buf w = probe_all ifaces buf w
  probe_all (some iface ∷ ifaces) buf w =
      let (buf, w) = probe_interface iface buf w in probe_all ifaces buf w

  -- `is_open`: EP0 could be opened.
  unfoldable pub probe : Bool → List (Option HidInterface) → World → World
  unfolding probe_all
  probe is_open ifaces w =
      let w' = probe_all ifaces (replicate report_desc_buf_len 0) w in if is_open then w' else w

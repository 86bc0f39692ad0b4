-- ===== src/Hid/Reads.antt =====
-- What `probe` of src/hid.rs asks a device, and what it leaves alone.
use mathlib.Core.List.{append_assoc}
use rp_wheel_bridge.Base.{
  ℕ, ◌+◌, ◌*◌, ◌≤◌, ◌≡◌, ◌≢◌, refl, sym, ap, ◌∙◌, min, List, [], ◌∷◌, ◌++◌, All, All-append, Option,
  none, some, Bool, true, not, ◌&&◌, ◌==◌, if_intro, take, length, replicate, length-replicate,
  length-copy_at, copy_at, u16, Result, ok, err, arith,
}
use mathlib.Core.Option
use rp_wheel_bridge.Platform.Usb.{Setup, PipeError, hid_report_descriptor, class_interface_in}
use rp_wheel_bridge.Hid.Finder.{HidInterface}
use rp_wheel_bridge.Hid.Descriptor.{
  Slots, ReportSize, ReportKind, input, output, feature, same_kind, log_report_summary,
}
use rp_wheel_bridge.Hid.Probe.{
  Asked, is_feature, feature_len, feature_setup, feature_buf_len, idle_setup, usage_page_ps_auth,
  hid_req_get_report, hid_report_type_feature, log_drain, report_desc_buf_len, read_features,
  read_feature_reports, on_descriptor, probe_interface, probe_all, probe,
}

-- The summary of a descriptor lists the report.
abbrev pub IsListed : ReportSize → Slots → Type 0
IsListed r all = (before : Slots) × (rest : Slots) × (before ++ some r ∷ rest ≡ all)

module _ (device : Asked) where
  open device use {host, World, control_in}

  -- The reports in the descriptor that the device gives for an interface, asked in the world `v`.
  abbrev pub IsDescribed : ℕ → Slots → Type 0
  IsDescribed iface reports =
      (v : World) × (len : ℕ) × (buf : List ℕ) × (n : ℕ) × (let got =
          control_in (hid_report_descriptor iface len) buf v in
        (got.result ≡ ok n) × (reports ≡ Option.get_or (log_report_summary (take n got.buf)) []))

  -- A report descriptor, a feature report that the device's descriptor lists, and not as one of the
  -- authentication, or a SET_IDLE.
  pub data IsHarmless : Setup → Type 0 where
    descriptor :
        (iface len : ℕ) → len ≤ report_desc_buf_len → IsHarmless (hid_report_descriptor iface len)
    read :
        (iface : ℕ) (reports : Slots) (r : ReportSize)
        → IsDescribed iface reports
        → IsListed r reports
        → r.kind ≡ feature
        → r.id ≢ 0
        → r.usage_page ≢ usage_page_ps_auth
        → (len : ℕ) → len ≤ feature_buf_len
        → IsHarmless
            (class_interface_in hid_req_get_report (hid_report_type_feature * 256 + r.id) iface len)
    idle : (iface : ℕ) → IsHarmless (idle_setup iface)

same_kind-feature : (k : ReportKind) → same_kind k feature ≡ true → k ≡ feature
same_kind-feature input h = absurd cc
same_kind-feature output h = absurd cc
same_kind-feature feature h = refl

module _ (device : Asked) where
  open device use {host, World, control_in, control_out, after, asked}

  feature_setup-IsHarmless :
      (iface : ℕ) (reports : Slots) (r : ReportSize)
      → IsDescribed device iface reports
      → IsListed r reports
      → (is_feature r && not (r.usage_page == usage_page_ps_auth)) ≡ true
      → IsHarmless device (feature_setup iface r)
  feature_setup-IsHarmless iface reports r described listed h =
      read iface reports r described listed (same_kind-feature r.kind (ground arith)) (ground arith)
        (ground arith) (u16 (feature_len r)) (omega arith)

  -- From `w` to `w'` only harmless requests were sent.
  abbrev pub AsksHarmless : World → World → Type 0
  AsksHarmless w w' = (new : List Setup) × (asked w' ≡ new ++ asked w) × All (IsHarmless device) new

  asks_nothing : (w : World) → AsksHarmless w w
  asks_nothing w = ([], refl, record {})

  then_asks : {u v w : World} → AsksHarmless u v → AsksHarmless v w → AsksHarmless u w
  then_asks {u} (f, f_lem, f_all) (g, g_lem, g_all) = (
    g ++ f,
    g_lem ∙ ap (λ l. g ++ l) f_lem ∙ sym (append_assoc g f (asked u)),
    All-append (IsHarmless device) g f g_all f_all,
  )

  in-AsksHarmless :
      (s : Setup) (buf : List ℕ) (w : World)
      → IsHarmless device s
      → AsksHarmless w (control_in s buf w).world
  in-AsksHarmless s buf w h = (s ∷ [], device.asked-in s buf w, (h, record {}))

  after-AsksHarmless : (d : ℕ) (w : World) → AsksHarmless w (after d w)
  after-AsksHarmless d w = ([], device.asked-after d w, record {})

  read_features-AsksHarmless :
      (before reports all : Slots) (iface : ℕ) (buf : List ℕ) (w : World)
      → before ++ reports ≡ all
      → IsDescribed device iface all
      → AsksHarmless w (read_features host reports iface buf w)
  unfolding read_features
  read_features-AsksHarmless before [] all iface buf w e d = asks_nothing w
  read_features-AsksHarmless before (none ∷ reports) all iface buf w e d =
      read_features-AsksHarmless (before ++ none ∷ []) reports all iface buf w
        (append_assoc before (none ∷ []) reports ∙ e) d
  read_features-AsksHarmless before (some r ∷ reports) all iface buf w e d =
      let got = control_in (feature_setup iface r) (take (feature_len r) buf) w in
      let split = append_assoc before (some r ∷ []) reports ∙ e in
      if_intro (AsksHarmless w) (is_feature r && not (r.usage_page == usage_page_ps_auth)) _ _
        (λ reads.
          then_asks
            (in-AsksHarmless (feature_setup iface r) (take (feature_len r) buf) w
              (feature_setup-IsHarmless iface all r d (before, reports, e) reads))
            (then_asks (after-AsksHarmless log_drain got.world) (
              read_features-AsksHarmless (before ++ some r ∷ []) reports all iface
                (copy_at buf 0 got.buf) (after log_drain got.world) split d)))
        (λ skips.
          read_features-AsksHarmless (before ++ some r ∷ []) reports all iface buf w split d)

  -- The answer to the request for the descriptor, in the world `v`.
  on_descriptor-AsksHarmless :
      (r : Result ℕ PipeError) (iface len : ℕ) (asked_buf : List ℕ) (v w : World)
      → let got = control_in (hid_report_descriptor iface len) asked_buf v in
        got.result ≡ r → AsksHarmless w (on_descriptor host r got.buf iface w)
  unfolding on_descriptor read_feature_reports
  on_descriptor-AsksHarmless (err e) iface len asked_buf v w answer = asks_nothing w
  on_descriptor-AsksHarmless (ok n) iface len asked_buf v w answer =
      let got = control_in (hid_report_descriptor iface len) asked_buf v in
      let reports = Option.get_or (log_report_summary (take n got.buf)) [] in
      then_asks (after-AsksHarmless log_drain w) (
        then_asks (after-AsksHarmless log_drain (after log_drain w)) (
          read_features-AsksHarmless [] reports reports iface (replicate feature_buf_len 0)
            (after log_drain (after log_drain w)) refl (v, len, asked_buf, n, (answer, refl))))

  probe_interface-AsksHarmless :
      (iface : HidInterface) (buf : List ℕ) (w : World)
      → length buf ≡ report_desc_buf_len
      → AsksHarmless w (probe_interface host iface buf w).1
  unfolding probe_interface
  probe_interface-AsksHarmless iface buf w fits =
      let len = min iface.report_desc_len (length buf) in
      let s = hid_report_descriptor iface.number (u16 len) in
      let got = control_in s (take len buf) w in
      let v = on_descriptor host got.result got.buf iface.number got.world in
      let x = (control_out (idle_setup iface.number) [] v).1 in
      then_asks
        (in-AsksHarmless s (take len buf) w
          (descriptor iface.number (u16 len) (omega (arith, fits))))
        (then_asks
          (on_descriptor-AsksHarmless got.result iface.number (u16 len) (take len buf) w got.world
            refl)
          (then_asks {u = v} {v = x}
            (
              idle_setup iface.number ∷ [],
              device.asked-out (idle_setup iface.number) [] v,
              (idle iface.number, record {}),
            )
            (after-AsksHarmless log_drain x)))

  probe_all-AsksHarmless :
      (ifaces : List (Option HidInterface)) (buf : List ℕ) (w : World)
      → length buf ≡ report_desc_buf_len
      → AsksHarmless w (probe_all host ifaces buf w)
  unfolding probe_all probe_interface
  probe_all-AsksHarmless [] buf w fits = asks_nothing w
  probe_all-AsksHarmless (none ∷ ifaces) buf w fits = probe_all-AsksHarmless ifaces buf w fits
  probe_all-AsksHarmless (some iface ∷ ifaces) buf w fits =
      let (buf', w') = probe_interface host iface buf w in
      then_asks (probe_interface-AsksHarmless iface buf w fits)
        (probe_all-AsksHarmless ifaces buf' w' (length-copy_at buf 0 _ ∙ fits))

  -- Probing a device asks it for nothing but report descriptors of at most 512 bytes, feature reports
  -- of at most 256 bytes that the descriptor of the interface, as the device gives it, lists with a
  -- usage page other than that of the authentication, and SET_IDLEs; whatever the device answers.
  pub probe-AsksHarmless :
      (is_open : Bool) (ifaces : List (Option HidInterface)) (w : World)
      → AsksHarmless w (probe host is_open ifaces w)
  unfolding probe
  probe-AsksHarmless is_open ifaces w =
      if_intro (AsksHarmless w) is_open _ _
        (λ opened.
          probe_all-AsksHarmless ifaces (replicate report_desc_buf_len 0) w
            (length-replicate {A = ℕ} report_desc_buf_len 0))
        (λ closed. asks_nothing w)

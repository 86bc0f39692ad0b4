-- ===== src/Hid/Examples.antt =====
-- Tests and concrete instances for the descriptor parser.
use mathlib.Core.Option
use rp_wheel_bridge.Base.{ℕ, ◌*◌, ◌≡◌, refl, List, [], ◌∷◌, Option, none, some, true, length, arith}
use rp_wheel_bridge.Device.Tables.{c269_if0_report_desc, c272_if0_report_desc}
use rp_wheel_bridge.Hid.Descriptor.{
  Slots, ReportKind, input, output, feature, Globals, start, max_reports, add_report, grow, fill,
  value_of, scan, log_report_summary,
}
use rp_wheel_bridge.Hid.Keys.{lookup, IsUnique}
use rp_wheel_bridge.Hid.Scan.{log_report_summary_lem}
use rp_wheel_bridge.Hid.Items.{ShortItem, encode, run_items, scan-encode}
use rp_wheel_bridge.Hid.Finder.{
  Sub, endpoint, find_interfaces, visit_all, visit, on_interface, free_slot, at_current, add_sub,
  add_endpoint, add_other, listed_len, max_hid_interfaces,
}
use rp_wheel_bridge.Hid.Interfaces.{Group, visits, described, slots, find_interfaces_lem}

-- The bits of a report that a descriptor declares.
abbrev declared : ℕ → ReportKind → List ℕ → Option ℕ
declared n k desc = elim (log_report_summary desc) [
  | none ↦ none
  | some rs ↦ Option.map (λ r. r.bits) (lookup n k rs)
]

-- The feature reports that are answered locally have the length that the descriptor declares, the
-- byte of their id included.
c269_feature_03 : declared 0x03 feature c269_if0_report_desc ≡ some (47 * 8)
unfolding log_report_summary scan lookup add_report grow fill value_of
c269_feature_03 = refl

c269_input : declared 0x01 input c269_if0_report_desc ≡ some (63 * 8)
unfolding log_report_summary scan lookup add_report grow fill value_of
c269_input = refl

c272_input : declared 0x00 input c272_if0_report_desc ≡ some (30 * 8)
unfolding log_report_summary scan lookup add_report grow fill value_of
c272_input = refl

abbrev globals : Globals
globals = record { usage_page = 0xff00; report_size = 8; report_count = 31; report_id = 5 }

abbrev two_slots : Slots
two_slots = some (record { id = 5; kind = output; bits = 16; usage_page = 1 }) ∷ none ∷ []

log_report_summary_lem_example :
    (rs : Slots) × (log_report_summary c269_if0_report_desc ≡ some rs)
    × (length rs ≡ max_reports)
    × IsUnique rs
log_report_summary_lem_example = log_report_summary_lem c269_if0_report_desc

-- Usage page 1, report size 16, usage 0x30, input.
abbrev items : List ShortItem
items =
    record { prefix = 0x05; value = 1 }
    ∷ record { prefix = 0x75; value = 16 }
    ∷ record { prefix = 0x0a; value = 0x30 }
    ∷ record { prefix = 0x81; value = 2 }
    ∷ []

items_bytes : encode items ≡ 0x05 ∷ 1 ∷ 0x75 ∷ 16 ∷ 0x0a ∷ 0x30 ∷ 0 ∷ 0x81 ∷ 2 ∷ []
unfolding encode
items_bytes = refl

scan-encode_example : scan 9 (encode items) start ≡ some (run_items items start)
unfolding encode
scan-encode_example =
    scan-encode items 9 start
      (
        (omega arith, omega arith),
        (
          (omega arith, omega arith),
          ((omega arith, omega arith), ((omega arith, omega arith), record {})),
        ),
      )
      (omega arith)

-- A wheel with a vendor interface first, which is skipped with its endpoint.
abbrev groups : List Group
groups =
    (
      record { interface_number = 0; alternate_setting = 0; interface_class = 0xff },
      endpoint (record { address = 0x81; is_in = true; is_interrupt = true }) ∷ [],
    )
    ∷ (
      record { interface_number = 1; alternate_setting = 0; interface_class = 3 },
      Sub.other (9 ∷ 0x21 ∷ 0x11 ∷ 1 ∷ 0 ∷ 1 ∷ 0x22 ∷ 0x54 ∷ 0 ∷ [])
          ∷ endpoint (record { address = 0x82; is_in = true; is_interrupt = true })
          ∷ [],
    )
    ∷ []

groups-find_interfaces :
    find_interfaces (visits groups)
    ≡ some (record {
      number = 1;
      report_desc_len = 0x54;
      in_ep = some (record { address = 0x82; is_in = true; is_interrupt = true });
      out_ep = none;
    })
      ∷ none
      ∷ none
      ∷ none
      ∷ []
unfolding find_interfaces visits visit_all visit on_interface free_slot at_current add_sub
    add_endpoint add_other listed_len
groups-find_interfaces = refl

find_interfaces_lem_example :
    find_interfaces (visits groups) ≡ slots max_hid_interfaces (described groups)
find_interfaces_lem_example = find_interfaces_lem groups

-- ===== src/Hid/Scan.antt =====
-- The loop of `log_report_summary` (src/hid.rs): its end and the table that it leaves.
use rp_wheel_bridge.Base.{
  ℕ, zero, suc, ◌+◌, ◌/◌, ◌≤◌, ◌≡◌, refl, ap, List, [], ◌∷◌, some, length, length-drop, length-set,
  get_or, arith,
}
use mathlib.Core.Option
use rp_wheel_bridge.Hid.Descriptor.{
  ReportKind, input, output, feature, Slots, Globals, Parser, start, add_report, main_item,
  global_item, short_item, Item, truncated, long, short, read_item, scan, log_report_summary,
  max_reports, data_size,
}
use rp_wheel_bridge.Hid.Keys.{IsUnique}
use rp_wheel_bridge.Hid.Reports.{add_report_lem}

-- The parser's tables keep their sizes, no report is listed twice, and the stack pointer stays
-- within the stack of four.
pub record IsParser (p : Parser) : Type 0 where
  pub slots : length p.reports ≡ max_reports
  pub unique : IsUnique p.reports
  pub stack_len : length p.stack ≡ 4
  pub depth_le : p.depth ≤ 4

add_report-kept :
    (g : Globals) (kind : ReportKind) (rs : Slots)
    → (length (add_report g kind rs) ≡ length rs) × (IsUnique rs → IsUnique (add_report g kind rs))
add_report-kept g kind rs = let (len, unique, found) = add_report_lem g kind rs in (len, unique)

main_item-IsParser : (tag : ℕ) (p : Parser) → IsParser p → IsParser (main_item tag p)
unfolding main_item
main_item-IsParser tag p h = ground (
  arith,
  add_report-kept p.g input p.reports,
  add_report-kept p.g output p.reports,
  add_report-kept p.g feature p.reports,
)

global_item-IsParser :
    (tag value : ℕ) (p : Parser) → IsParser p → IsParser (global_item tag value p)
unfolding global_item
global_item-IsParser tag value p h = ground (arith, length-set p.stack p.depth p.g)

short_item-IsParser :
    (prefix value : ℕ) (p : Parser) → IsParser p → IsParser (short_item prefix value p)
unfolding short_item
short_item-IsParser prefix value p h =
    ground
      (arith, main_item-IsParser (prefix / 16) p h, global_item-IsParser (prefix / 16) value p h)

-- Reading an item leaves no more bytes than there were.
abbrev IsShorter : List ℕ → Item → Type 0
IsShorter rest truncated = Unit
IsShorter rest (long after) = length after ≤ length rest
IsShorter rest (short prefix value after) = length after ≤ length rest

read_item-IsShorter : (prefix : ℕ) (rest : List ℕ) → IsShorter rest (read_item prefix rest)
unfolding read_item
read_item-IsShorter prefix rest =
    ground (arith, length-drop (2 + get_or rest 0 0) rest, length-drop (data_size prefix) rest)

-- With fuel for as many items as there are bytes the loop ends.
pub scan_lem :
    (fuel : ℕ) (desc : List ℕ) (p : Parser)
    → length desc ≤ fuel
    → IsParser p
    → (q : Parser) × (scan fuel desc p ≡ some q) × IsParser q
unfolding scan
scan_lem fuel [] p le h = (p, refl, h)
scan_lem zero (prefix ∷ rest) p le h = absurd (omega arith)
scan_lem (suc fuel) (prefix ∷ rest) p le h =
    go (read_item prefix rest) (read_item-IsShorter prefix rest) (λ after q. scan_lem fuel after q)
  where
    go :
        (item : Item)
        → IsShorter rest item
        → ((after : List ℕ) (r : Parser)
            → length after ≤ fuel
            → IsParser r
            → (q : Parser) × (scan fuel after r ≡ some q) × IsParser q)
        → (q : Parser) × ((elim item [
          | truncated ↦ some p
          | long after ↦ scan fuel after p
          | short n value after ↦ scan fuel after (short_item n value p)
        ])
            ≡ some q)
          × IsParser q
    go truncated s later = (p, refl, h)
    go (long after) s later = later after p (omega arith) h
    go (short n value after) s later =
        later after (short_item n value p) (omega arith) (short_item-IsParser n value p h)

start-IsParser : IsParser start
unfolding IsUnique
start-IsParser = record {
  slots = refl;
  unique = record {};
  stack_len = refl;
  depth_le = omega arith;
}

-- Whatever bytes a device sends as its report descriptor, the summary ends, and gives 24 slots that
-- list no pair of a report id and a kind twice.
pub log_report_summary_lem :
    (desc : List ℕ)
    → (rs : Slots) × (log_report_summary desc ≡ some rs) × (length rs ≡ max_reports) × IsUnique rs
unfolding log_report_summary
log_report_summary_lem desc =
    let (q, e, h) = scan_lem (length desc) desc start (omega arith) start-IsParser in
    (q.reports, ap (Option.map (λ r. r.reports)) e, h.slots, h.unique)

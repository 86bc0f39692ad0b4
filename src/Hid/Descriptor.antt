-- ===== src/Hid/Descriptor.antt =====
-- `log_report_summary` of src/hid.rs: the walk over a HID report descriptor. What it logs is left
-- out. The bytes not yet read stand for the index `i`.
use rp_wheel_bridge.Base.{
  ℕ, zero, suc, ◌+◌, ◌-◌, ◌*◌, ◌/◌, ◌%◌, List, [], ◌∷◌, Option, none, some, Bool, true, false, ◌&&◌,
  ◌==◌, ltb, leb, if◌then◌else◌, get_or, set, take, drop, length, replicate, u8, u16, u32,
}
use mathlib.Core.Option

abbrev pub max_reports : ℕ
max_reports = 24

pub data ReportKind : Type 0 where
  input output feature : ReportKind

abbrev pub same_kind : ReportKind → ReportKind → Bool
same_kind input input = true
same_kind output output = true
same_kind feature feature = true
same_kind _ _ = false

pub record ReportSize : Type 0 where
  pub id : ℕ
  pub kind : ReportKind
  pub bits : ℕ
  pub usage_page : ℕ

pub record Globals : Type 0 where
  pub usage_page : ℕ
  pub report_size : ℕ
  pub report_count : ℕ
  pub report_id : ℕ

-- `Globals::default()`
abbrev pub default : Globals
default = record { usage_page = 0; report_size = 0; report_count = 0; report_id = 0 }

abbrev pub Slots : Type 0
Slots = List (Option ReportSize)

-- The report that was read with this id and kind, `reports.iter_mut().flatten().find(..)`, with
-- `bits` more.
unfoldable pub grow : ℕ → ReportKind → ℕ → Slots → Option Slots
grow n k bits [] = none
grow n k bits (none ∷ rs) = Option.map (λ rest. none ∷ rest) (grow n k bits rs)
grow n k bits (some r ∷ rs) =
    let later = grow n k bits rs in
    if r.id == n && same_kind r.kind k
    then some (some (record r { bits = u32 (r.bits + bits) }) ∷ rs)
    else Option.map (λ rest. some r ∷ rest) later

-- `reports.iter_mut().find(|r| r.is_none())`, filled with `r`.
unfoldable pub fill : ReportSize → Slots → Option Slots
fill r [] = none
fill r (none ∷ rs) = some (some r ∷ rs)
fill r (some s ∷ rs) = Option.map (λ rest. some s ∷ rest) (fill r rs)

unfoldable pub add_report : Globals → ReportKind → Slots → Slots
add_report g kind reports =
    let bits = u32 (g.report_size * g.report_count) in
    elim (grow g.report_id kind bits reports) [
      | some rs ↦ rs
      | none ↦
          Option.get_or
            (fill (record { id = g.report_id; kind = kind; bits = bits; usage_page = g.usage_page })
              reports)
            reports
    ]

-- The variables of the loop but for `i`.
pub record Parser : Type 0 where
  pub reports : Slots
  pub g : Globals
  pub stack : List Globals
  pub depth : ℕ
  pub usage : Option ℕ

abbrev pub start : Parser
start = record {
  reports = replicate max_reports none;
  g = default;
  stack = replicate 4 default;
  depth = 0;
  usage = none;
}

-- A main item, by its tag.
unfoldable pub main_item : ℕ → Parser → Parser
main_item tag p = record p {
  reports =
      if tag == 0x8
      then add_report p.g input p.reports
      else if tag == 0x9
      then add_report p.g output p.reports
      else if tag == 0xb
      then add_report p.g feature p.reports
      else p.reports;
  usage = none;
}

-- A global item, by its tag.
unfoldable pub global_item : ℕ → ℕ → Parser → Parser
global_item tag value p =
    if tag == 0x0
    then record p { g = record p.g { usage_page = u16 value } }
    else if tag == 0x7
    then record p { g = record p.g { report_size = value } }
    else if tag == 0x8
    then record p { g = record p.g { report_id = u8 value } }
    else if tag == 0x9
    then record p { g = record p.g { report_count = value } }
    else if tag == 0xa && ltb p.depth (length p.stack)
    then record p { stack = set p.stack p.depth p.g; depth = p.depth + 1 }
    else if tag == 0xb && ltb 0 p.depth
    then record p { depth = p.depth - 1; g = get_or p.stack (p.depth - 1) default }
    else p

-- What a short item does, by its type, `prefix >> 2 & 3`, and its tag, `prefix >> 4`.
unfoldable pub short_item : ℕ → ℕ → Parser → Parser
unfolding main_item global_item
short_item prefix value p =
    let type = prefix / 4 % 4 in
    let tag = prefix / 16 in
    if type == 0
    then main_item tag p
    else if type == 1
    then global_item tag value p
    else if type == 2 && (tag == 0)
    then record p { usage = elim p.usage [ some u ↦ some u | none ↦ some value ] }
    else p

-- `match prefix & 3 { 3 => 4, n => n }`
abbrev pub data_size : ℕ → ℕ
data_size prefix = if prefix % 4 == 3 then 4 else prefix % 4

-- `bytes.iter().rev().fold(0, |acc, &b| (acc << 8) | b)`; the low eight bits of `acc << 8` are
-- clear, so the "or" adds.
unfoldable pub value_of : List ℕ → ℕ
value_of [] = 0
value_of (b ∷ bs) = u32 (value_of bs * 256) + b

-- What the item at the front of the descriptor is.
pub data Item : Type 0 where
  -- It is cut off, and the loop ends.
  truncated : Item
  -- A long item, which is skipped, and the bytes after it.
  long : List ℕ → Item
  -- A short item: prefix, value and the bytes after it.
  short : ℕ → ℕ → List ℕ → Item

unfoldable pub read_item : ℕ → List ℕ → Item
read_item prefix rest =
    if prefix == 0xfe
    then long (drop (2 + get_or rest 0 0) rest)
    else if leb (data_size prefix) (length rest)
    then short prefix (value_of (take (data_size prefix) rest)) (drop (data_size prefix) rest)
    else truncated

-- The loop; `none`: the fuel is used up.
unfoldable pub scan : ℕ → List ℕ → Parser → Option Parser
unfolding read_item short_item
scan fuel [] p = some p
scan zero (prefix ∷ rest) p = none
scan (suc fuel) (prefix ∷ rest) p = elim (read_item prefix rest) [
  | truncated ↦ some p
  | long after ↦ scan fuel after p
  | short n value after ↦ scan fuel after (short_item n value p)
]

-- `log_report_summary`, with fuel for as many items as the descriptor has bytes.
unfoldable pub log_report_summary : List ℕ → Option Slots
unfolding scan
log_report_summary desc = Option.map (λ p. p.reports) (scan (length desc) desc start)

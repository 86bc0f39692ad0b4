-- ===== src/Hid/Finder.antt =====
-- `find_interfaces` and `HidFinder` of src/hid.rs: the HID interfaces of a configuration.
use rp_wheel_bridge.Base.{
  ℕ, suc, List, [], ◌∷◌, Option, none, some, Bool, not, ◌&&◌, ◌==◌, leb, if◌then◌else◌, get_or, set,
  drop, length, replicate, le16,
}
use mathlib.Core.Option

abbrev pub max_hid_interfaces : ℕ
max_hid_interfaces = 4

abbrev pub class_hid : ℕ
class_hid = 0x03

abbrev pub desc_type_hid : ℕ
desc_type_hid = 0x21

abbrev pub desc_type_report : ℕ
desc_type_report = 0x22

-- embassy-usb-host's descriptors, as far as the finder reads them.
pub record Endpoint : Type 0 where
  pub address : ℕ
  pub is_in : Bool
  pub is_interrupt : Bool

pub record Interface : Type 0 where
  pub interface_number : ℕ
  pub alternate_setting : ℕ
  pub interface_class : ℕ

pub record HidInterface : Type 0 where
  pub number : ℕ
  pub report_desc_len : ℕ
  pub in_ep : Option Endpoint
  pub out_ep : Option Endpoint

-- What the host stack visits, in the order of the descriptors.
pub data Sub : Type 0 where
  endpoint : Endpoint → Sub
  other : List ℕ → Sub

pub data Visit : Type 0 where
  interface : Interface → Visit
  sub : Sub → Visit

pub record HidFinder : Type 0 where
  pub ifaces : List (Option HidInterface)
  pub current : Option ℕ

abbrev pub finder : HidFinder
finder = record { ifaces = replicate max_hid_interfaces none; current = none }

-- `position(Option::is_none)`
unfoldable pub free_slot : List (Option HidInterface) → Option ℕ
free_slot [] = none
free_slot (none ∷ is) = some 0
free_slot (some i ∷ is) = Option.map suc (free_slot is)

abbrev pub new_interface : Interface → HidInterface
new_interface i = record {
  number = i.interface_number;
  report_desc_len = 0;
  in_ep = none;
  out_ep = none;
}

abbrev pub is_hid : Interface → Bool
is_hid i = i.interface_class == class_hid && (i.alternate_setting == 0)

unfoldable pub on_interface : Interface → HidFinder → HidFinder
unfolding free_slot
on_interface i f =
    if is_hid i
    then elim (free_slot f.ifaces) [
      | some slot ↦ record {
        ifaces = set f.ifaces slot (some (new_interface i));
        current = some slot;
      }
      | none ↦ record f { current = none }
    ]
    else record f { current = none }

-- `ep.get_or_insert(e)`
abbrev pub get_or_insert : Option Endpoint → Endpoint → Option Endpoint
get_or_insert none e = some e
get_or_insert (some d) e = some d

-- `on_endpoint` on the interface being visited
unfoldable pub add_endpoint : Endpoint → HidInterface → HidInterface
add_endpoint e h =
    if not e.is_interrupt
    then h
    else if e.is_in
    then record h { in_ep = get_or_insert h.in_ep e }
    else record h { out_ep = get_or_insert h.out_ep e }

-- The length of the first report descriptor among `count` entries of three bytes.
unfoldable pub listed_len : ℕ → List ℕ → Option ℕ
listed_len (suc count) (kind ∷ lo ∷ hi ∷ entries) =
    let later = listed_len count entries in
    if kind == desc_type_report then some (le16 lo hi) else later
listed_len _ _ = none

-- `on_other` on the interface being visited
unfoldable pub add_other : List ℕ → HidInterface → HidInterface
unfolding listed_len
add_other raw h =
    if get_or raw 1 0 == desc_type_hid && leb 6 (length raw)
    then record h {
      report_desc_len = Option.get_or (listed_len (get_or raw 5 0) (drop 6 raw)) h.report_desc_len;
    }
    else h

unfoldable pub add_sub : Sub → HidInterface → HidInterface
unfolding add_endpoint add_other
add_sub (endpoint e) h = add_endpoint e h
add_sub (other raw) h = add_other raw h

-- `self.current.and_then(|slot| self.ifaces[slot].as_mut())`, and what becomes of it.
unfoldable pub at_current : Option ℕ → (HidInterface → HidInterface) → HidFinder → HidFinder
at_current none change f = f
at_current (some slot) change f = record f {
  ifaces = set f.ifaces slot (Option.map change (get_or f.ifaces slot none));
}

unfoldable pub visit : Visit → HidFinder → HidFinder
unfolding on_interface at_current add_sub
visit (interface i) f = on_interface i f
visit (sub s) f = at_current f.current (add_sub s) f

unfoldable pub visit_all : List Visit → HidFinder → HidFinder
unfolding visit
visit_all [] f = f
visit_all (v ∷ vs) f = visit_all vs (visit v f)

-- `find_interfaces`, of the descriptors that the host stack visits.
unfoldable pub find_interfaces : List Visit → List (Option HidInterface)
unfolding visit_all
find_interfaces vs = (visit_all vs finder).ifaces

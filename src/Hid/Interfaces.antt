-- ===== src/Hid/Interfaces.antt =====
-- What `find_interfaces` of src/hid.rs finds.
use mathlib.Core.List.{append_assoc}
use mathlib.Core.Option
use rp_wheel_bridge.Base.{
  ℕ, zero, suc, ◌≡◌, refl, sym, ap, ◌∙◌, List, [], ◌∷◌, ◌++◌, map, Option, none, some, true, false,
  if◌then◌else◌, is_some, get_or, set, length, replicate, All, All-append, Bool-cases, inl, inr,
}
use rp_wheel_bridge.Hid.Finder.{
  Interface, HidInterface, Sub, Visit, interface, sub, HidFinder, free_slot, new_interface, is_hid,
  on_interface, add_sub, at_current, visit, visit_all, find_interfaces, max_hid_interfaces,
}

-- An interface descriptor and the descriptors that follow it.
abbrev pub Group : Type 0
Group = Interface × List Sub

unfoldable pub visits : List Group → List Visit
visits [] = []
visits ((i, subs) ∷ gs) = interface i ∷ map sub subs ++ visits gs

unfoldable pub add_subs : List Sub → HidInterface → HidInterface
add_subs [] h = h
add_subs (s ∷ ss) h = add_subs ss (add_sub s h)

-- The HID interfaces, each with what its own descriptors say.
unfoldable pub described : List Group → List HidInterface
unfolding add_subs
described [] = []
described ((i, subs) ∷ gs) =
    if is_hid i then add_subs subs (new_interface i) ∷ described gs else described gs

-- The first `n`, and empty slots up to `n`.
unfoldable pub slots : ℕ → List HidInterface → List (Option HidInterface)
slots zero hs = []
slots (suc n) [] = none ∷ slots n []
slots (suc n) (h ∷ hs) = some h ∷ slots n hs

abbrev Found : Type 0
Found = List (Option HidInterface)

abbrev IsTaken : Option HidInterface → Type 0
IsTaken o = is_some o ≡ true

slots-none : (n : ℕ) → slots n [] ≡ replicate n none
unfolding slots
slots-none zero = refl
slots-none (suc n) = ap (λ os. none ∷ os) (slots-none n)

free_slot-taken :
    (ps : Found) (m : ℕ)
    → All IsTaken ps
    → free_slot (ps ++ replicate (suc m) none) ≡ some (length ps)
unfolding free_slot
free_slot-taken [] m h = refl
free_slot-taken (none ∷ ps) m (h, hs) = absurd cc
free_slot-taken (some p ∷ ps) m (h, hs) = ap (Option.map suc) (free_slot-taken ps m hs)

free_slot-full : (ps : Found) → All IsTaken ps → free_slot (ps ++ []) ≡ none
unfolding free_slot
free_slot-full [] h = refl
free_slot-full (none ∷ ps) (h, hs) = absurd cc
free_slot-full (some p ∷ ps) (h, hs) = ap (Option.map suc) (free_slot-full ps hs)

set_end :
    (ps : Found) (o v : Option HidInterface) (qs : Found)
    → set (ps ++ o ∷ qs) (length ps) v ≡ ps ++ v ∷ qs
set_end [] o v qs = refl
set_end (p ∷ ps) o v qs = ap (λ os. p ∷ os) (set_end ps o v qs)

get_end :
    (ps : Found) (o : Option HidInterface) (qs : Found) → get_or (ps ++ o ∷ qs) (length ps) none ≡ o
get_end [] o qs = refl
get_end (p ∷ ps) o qs = get_end ps o qs

-- The state with the interface `h` being visited.
abbrev visiting : Found → HidInterface → Found → HidFinder
visiting ps h qs = record { ifaces = ps ++ some h ∷ qs; current = some (length ps) }

abbrev resting : Found → HidFinder
resting os = record { ifaces = os; current = none }

visit-visiting :
    (s : Sub) (ps : Found) (h : HidInterface) (qs : Found)
    → visit (sub s) (visiting ps h qs) ≡ visiting ps (add_sub s h) qs
unfolding visit at_current
visit-visiting s ps h qs = rw (get_end ps (some h) qs) (
    ap (λ os. record { ifaces = os; current = some (length ps) })
      (set_end ps (some h) (some (add_sub s h)) qs))

subs-visiting :
    (ss : List Sub) (vs : List Visit) (ps : Found) (h : HidInterface) (qs : Found)
    → visit_all (map sub ss ++ vs) (visiting ps h qs)
      ≡ visit_all vs (visiting ps (add_subs ss h) qs)
unfolding visit_all add_subs
subs-visiting [] vs ps h qs = refl
subs-visiting (s ∷ ss) vs ps h qs =
    ap (visit_all (map sub ss ++ vs)) (visit-visiting s ps h qs)
    ∙ subs-visiting ss vs ps (add_sub s h) qs

subs-resting :
    (ss : List Sub) (vs : List Visit) (os : Found)
    → visit_all (map sub ss ++ vs) (resting os) ≡ visit_all vs (resting os)
unfolding visit_all visit at_current
subs-resting [] vs os = refl
subs-resting (s ∷ ss) vs os = subs-resting ss vs os

abbrev state : Found → Option ℕ → HidFinder
state os current = record { ifaces = os; current = current }

-- What an interface descriptor does, with room for `m` more or none.
interface-other :
    (i : Interface) (os : Found) (c : Option ℕ)
    → is_hid i ≡ false
    → visit (interface i) (state os c) ≡ resting os
unfolding visit on_interface
interface-other i os c other = rw (other, on_interface) refl

interface-room :
    (i : Interface) (ps : Found) (m : ℕ) (c : Option ℕ)
    → is_hid i ≡ true
    → All IsTaken ps
    → visit (interface i) (state (ps ++ replicate (suc m) none) c)
      ≡ visiting ps (new_interface i) (replicate m none)
unfolding visit on_interface
interface-room i ps m c hid h =
    rw (hid, free_slot-taken ps m h, on_interface)
      (ap (λ os. record { ifaces = os; current = some (length ps) })
        (set_end ps none (some (new_interface i)) (replicate m none)))

interface-full :
    (i : Interface) (ps : Found) (c : Option ℕ)
    → is_hid i ≡ true
    → All IsTaken ps
    → visit (interface i) (state (ps ++ []) c) ≡ resting (ps ++ [])
unfolding visit on_interface
interface-full i ps c hid h = rw (hid, free_slot-full ps h, on_interface) refl

abbrev found : List Visit → HidFinder → Found
found vs f = (visit_all vs f).ifaces

group-other :
    (i : Interface) (subs : List Sub) (vs : List Visit) (os : Found) (c : Option ℕ)
    → is_hid i ≡ false
    → found (interface i ∷ map sub subs ++ vs) (state os c) ≡ found vs (resting os)
unfolding visit_all
group-other i subs vs os c other =
    ap (found (map sub subs ++ vs)) (interface-other i os c other)
    ∙ ap (λ f. f.ifaces) (subs-resting subs vs os)

group-room :
    (i : Interface) (subs : List Sub) (vs : List Visit) (ps : Found) (m : ℕ) (c : Option ℕ)
    → is_hid i ≡ true
    → All IsTaken ps
    → found (interface i ∷ map sub subs ++ vs) (state (ps ++ replicate (suc m) none) c)
      ≡ found vs (
          state
            ((ps ++ some (add_subs subs (new_interface i)) ∷ []) ++ replicate m none)
            (some (length ps)))
unfolding visit_all
group-room i subs vs ps m c hid h =
    let new = some (add_subs subs (new_interface i)) in
    ap (found (map sub subs ++ vs)) (interface-room i ps m c hid h)
    ∙ ap (λ f. f.ifaces) (subs-visiting subs vs ps (new_interface i) (replicate m none))
    ∙ ap (λ os. found vs (state os (some (length ps))))
        (sym (append_assoc ps (new ∷ []) (replicate m none)))

group-full :
    (i : Interface) (subs : List Sub) (vs : List Visit) (ps : Found) (c : Option ℕ)
    → is_hid i ≡ true
    → All IsTaken ps
    → found (interface i ∷ map sub subs ++ vs) (state (ps ++ []) c) ≡ found vs (resting (ps ++ []))
unfolding visit_all
group-full i subs vs ps c hid h =
    ap (found (map sub subs ++ vs)) (interface-full i ps c hid h)
    ∙ ap (λ f. f.ifaces) (subs-resting subs vs (ps ++ []))

visits-found :
    (gs : List Group) (ps : Found) (n : ℕ) (c : Option ℕ)
    → All IsTaken ps
    → found (visits gs) (state (ps ++ replicate n none) c) ≡ ps ++ slots n (described gs)
unfolding visits described visit_all slots
visits-found [] ps n c h = ap (λ os. ps ++ os) (sym (slots-none n))
visits-found ((i, subs) ∷ gs) ps zero c h = elim (Bool-cases (is_hid i)) [
  | inr other ↦ group-other i subs (visits gs) (ps ++ []) c other ∙ visits-found gs ps zero none h
  | inl hid ↦ group-full i subs (visits gs) ps c hid h ∙ visits-found gs ps zero none h
]
visits-found ((i, subs) ∷ gs) ps (suc m) c h = elim (Bool-cases (is_hid i)) [
  | inr other ↦
      group-other i subs (visits gs) (ps ++ replicate (suc m) none) c other
      ∙ visits-found gs ps (suc m) none h
      ∙ rw other refl
  | inl hid ↦
      let new = some (add_subs subs (new_interface i)) in
      group-room i subs (visits gs) ps m c hid h
      ∙ visits-found gs (ps ++ new ∷ []) m (some (length ps))
          (All-append IsTaken ps (new ∷ []) h (refl, record {}))
      ∙ append_assoc ps (new ∷ []) (slots m (described gs))
      ∙ rw hid refl
]

-- The first four HID interfaces (in their alternate setting 0) are found, in the order of their
-- descriptors, each with its own endpoints and report descriptor length: what belongs to another
-- interface, or to one that is left out, never ends up with them.
pub find_interfaces_lem :
    (gs : List Group) → find_interfaces (visits gs) ≡ slots max_hid_interfaces (described gs)
unfolding find_interfaces
find_interfaces_lem gs = visits-found gs [] max_hid_interfaces none (record {})

-- ===== src/Hub/RoundTrip.antt =====
-- A device that comes to a port of the hub and goes, through the loop of events and a child of
-- src/hub.rs.
use rp_wheel_bridge.Base.{
  ℕ, zero, suc, ◌<◌, ◌≡◌, refl, sym, ap, ◌∙◌, List, [], ◌∷◌, none, some, Bool, true, false, get_or,
  set, length, get_or-set_self, arith,
}
use rp_wheel_bridge.Hub.Ports.{
  Kind, is_hub, attached, detached, device_detected, device_removed, on_event, detect, assign,
  release, free_child,
}
use rp_wheel_bridge.Hub.Assigned.{free_child_lem}
use rp_wheel_bridge.Hub.Children.{
  Child, waiting, serving, served_out, hear, serve_ends, System, Turn, port_event, child_runs,
  child_ends, run_child, take_turn, take_turns,
}

set_twice {ℓ} : {A : Type ℓ} (xs : List A) (i : ℕ) (u v : A) → set (set xs i u) i v ≡ set xs i v
set_twice [] i u v = refl
set_twice (x ∷ xs) zero u v = refl
set_twice (x ∷ xs) (suc i) u v = ap (λ l. x ∷ l) (set_twice xs i u v)

set_back {ℓ} :
    {A : Type ℓ} (xs : List A) (i : ℕ) (v d : A)
    → i < length xs
    → get_or xs i d ≡ v
    → set xs i v ≡ xs
set_back [] i v d lt e = refl
set_back (x ∷ xs) zero v d lt e = ap (λ y. y ∷ xs) (sym e)
set_back (x ∷ xs) (suc i) v d lt e = ap (λ l. x ∷ l) (set_back xs i v d (omega arith) e)

-- Child `c` is the one that a device on port `port` will get, and nothing is left to tell it.
pub record IsReady {Device : Type 0} (port c : ℕ) (s : System Device) : Type 0 where
  pub chosen : free_child s.hub.busy ≡ some c
  pub port_exists : port < length s.hub.port_child
  pub port_free : get_or s.hub.port_child port none ≡ none
  pub slot_exists : c < length s.hub.slots
  pub slot_empty : get_or s.hub.slots c none ≡ none
  pub kid_exists : c < length s.kids
  pub kid_waits : get_or s.kids c waiting ≡ waiting

module _ {Device : Type 0} where
  -- The system once the device is detected.
  abbrev detected : ℕ → ℕ → Device → Kind → System Device → System Device
  detected port c d kind s = record s { hub = assign Device port c d kind s.hub }

  detected_lem :
      (port c : ℕ) (d : Device) (kind : Kind) (s : System Device)
      → IsReady port c s
      → is_hub kind ≡ false
      → take_turn Device (port_event (device_detected port (some (d, kind)))) s
        ≡ detected port c d kind s
  unfolding take_turn on_event detect
  detected_lem port c d kind s h single = rw (h.chosen, single) refl

  -- The system with the device served.
  abbrev served : ℕ → ℕ → Child Device → System Device → System Device
  served port c kid s = record {
    hub = record {
      port_child = set s.hub.port_child port (some c);
      busy = set s.hub.busy c true;
      slots = s.hub.slots;
    };
    kids = set s.kids c kid;
    freed = s.freed;
  }

  served_lem :
      (port c : ℕ) (d : Device) (kind : Kind) (s : System Device)
      → IsReady port c s
      → take_turn Device (child_runs c) (detected port c d kind s) ≡ served port c (serving d) s
  unfolding take_turn run_child hear assign
  served_lem port c d kind s h =
      rw
        (
          get_or-set_self s.hub.slots c (some (attached d kind)) none h.slot_exists,
          h.kid_waits,
          set_twice s.hub.slots c (some (attached d kind)) none,
          set_back s.hub.slots c none none h.slot_exists h.slot_empty,
        )
        refl

  served_out_lem :
      (port c : ℕ) (d : Device) (s : System Device)
      → IsReady port c s
      → take_turn Device (child_ends c) (served port c (serving d) s)
        ≡ served port c (served_out d) s
  unfolding take_turn serve_ends
  served_out_lem port c d s h =
      rw
        (
          get_or-set_self s.kids c (serving d) waiting h.kid_exists,
          set_twice s.kids c (serving d) (served_out d),
        )
        refl

  removed_lem :
      (port c : ℕ) (kid : Child Device) (d : Device) (s : System Device)
      → IsReady port c s
      → hear Device detached kid ≡ (waiting, d ∷ [])
      → take_turns Device
          (port_event (device_removed port) ∷ child_runs c ∷ [])
          (served port c kid s)
        ≡ record s { freed = d ∷ s.freed }
  unfolding take_turns take_turn on_event release run_child
  removed_lem port c kid d s h gives =
      let (busy_exists, free) = free_child_lem s.hub.busy c h.chosen in
      rw
        (
          get_or-set_self s.hub.port_child port (some c) none h.port_exists,
          get_or-set_self s.hub.slots c (some detached) none h.slot_exists,
          get_or-set_self s.kids c kid waiting h.kid_exists,
          gives,
          set_twice s.hub.port_child port (some c) none,
          set_back s.hub.port_child port none none h.port_exists h.port_free,
          set_twice s.hub.busy c true false,
          set_back s.hub.busy c false false busy_exists free,
          set_twice s.hub.slots c (some detached) none,
          set_back s.hub.slots c none none h.slot_exists h.slot_empty,
          set_twice s.kids c kid waiting,
          set_back s.kids c waiting waiting h.kid_exists h.kid_waits,
        )
        refl

  abbrev pub leaving : ℕ → ℕ → List (Turn Device)
  leaving port c = port_event (device_removed port) ∷ child_runs c ∷ []

  -- What follows the detection; `over`: the serving ends before the device goes.
  abbrev pub staying : ℕ → ℕ → Bool → List (Turn Device)
  staying port c true = child_ends c ∷ leaving port c
  staying port c false = leaving port c

  -- The turns in which a device comes to a port, is served, and goes.
  abbrev pub visit : ℕ → ℕ → Device → Kind → Bool → List (Turn Device)
  visit port c d kind over =
      port_event (device_detected port (some (d, kind))) ∷ child_runs c ∷ staying port c over

  staying_lem :
      (port c : ℕ) (d : Device) (over : Bool) (s : System Device)
      → IsReady port c s
      → take_turns Device (staying port c over) (served port c (serving d) s)
        ≡ record s { freed = d ∷ s.freed }
  unfolding take_turns hear
  staying_lem port c d true s h =
      ap (take_turns Device (leaving port c)) (served_out_lem port c d s h)
      ∙ removed_lem port c (served_out d) d s h refl
  staying_lem port c d false s h = removed_lem port c (serving d) d s h refl

  -- When a device that is no hub comes to a free port and goes again, and the children run in between,
  -- its address is given back exactly once, and the ports, the signals and the children are as they
  -- were; whether or not a transfer has failed meanwhile.
  pub take_turns-visit :
      (port c : ℕ) (d : Device) (kind : Kind) (over : Bool) (s : System Device)
      → IsReady port c s
      → is_hub kind ≡ false
      → take_turns Device (visit port c d kind over) s ≡ record s { freed = d ∷ s.freed }
  unfolding take_turns
  take_turns-visit port c d kind over s h single =
      ap (take_turns Device (child_runs c ∷ staying port c over))
        (detected_lem port c d kind s h single)
      ∙ ap (take_turns Device (staying port c over)) (served_lem port c d kind s h)
      ∙ staying_lem port c d over s h

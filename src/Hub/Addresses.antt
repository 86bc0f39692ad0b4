-- ===== src/Hub/Addresses.antt =====
-- Which addresses src/hub.rs gives back.
use rp_wheel_bridge.Base.{
  ℕ, ◌≡◌, ◌≢◌, List, [], ◌∷◌, All, All-set, All-append, All-replicate, get_or-All, Option, none,
  some, true, get_or, inl, inr, ◌⊎◌, if_intro,
}
use rp_wheel_bridge.Hub.Ports.{
  Kind, is_hub, Event, attached, detached, HubEvent, device_detected, device_removed, idle, Hub,
  on_event, detect, assign, release, free_child, children,
}
use rp_wheel_bridge.Hub.Children.{
  Child, waiting, serving, served_out, hear, serve_ends, System, boot, Turn, port_event, child_runs,
  child_ends, run_child, take_turn, take_turns,
}

module _ {Device : Type 0} (P : Device → Type 0) where
  -- A device that is detected is a hub or has `P`.
  abbrev pub IsServed : Turn Device → Type 0
  IsServed (port_event (device_detected port (some (d, kind)))) = (is_hub kind ≡ true) ⊎ P d
  IsServed _ = Unit

  abbrev OfEvent : Option (Event Device) → Type 0
  OfEvent none = Unit
  OfEvent (some (attached d kind)) = P d
  OfEvent (some detached) = Unit

  abbrev OfChild : Child Device → Type 0
  OfChild waiting = Unit
  OfChild (serving d) = P d
  OfChild (served_out d) = P d

  -- Only devices with `P` are signalled, served and given back.
  record IsHeld (s : System Device) : Type 0 where
    of_slots : All OfEvent s.hub.slots
    of_kids : All OfChild s.kids
    of_freed : All P s.freed

  boot-IsHeld : IsHeld (boot Device)
  boot-IsHeld = record {
    of_slots = All-replicate OfEvent children none (record {});
    of_kids = All-replicate OfChild children waiting (record {});
    of_freed = record {};
  }

  detect-slots :
      (port : ℕ) (free : Option ℕ) (enumerated : Option (Device × Kind)) (h : Hub Device)
      → IsServed (port_event (device_detected port enumerated))
      → All OfEvent h.slots
      → All OfEvent (detect Device port free enumerated h).slots
  unfolding detect assign
  detect-slots port none enumerated h p k = k
  detect-slots port (some c) none h p k = k
  detect-slots port (some c) (some (d, kind)) h p k =
      if_intro (λ (h : Hub Device). All OfEvent h.slots) (is_hub kind) _ _ (λ hub. k)
        (λ other.
          let ok : P d = elim p [ inl hub ↦ absurd cc | inr served ↦ served ] in
          All-set OfEvent h.slots c (some (attached d kind)) ok k)

  release-slots :
      (port : ℕ) (child : Option ℕ) (h : Hub Device)
      → All OfEvent h.slots
      → All OfEvent (release Device port child h).slots
  unfolding release
  release-slots port none h k = k
  release-slots port (some c) h k = All-set OfEvent h.slots c (some detached) (record {}) k

  on_event-slots :
      (e : HubEvent Device) (h : Hub Device)
      → IsServed (port_event e)
      → All OfEvent h.slots
      → All OfEvent (on_event Device e h).slots
  unfolding on_event
  on_event-slots (device_detected port enumerated) h p k =
      detect-slots port (free_child h.busy) enumerated h p k
  on_event-slots (device_removed port) h p k =
      release-slots port (get_or h.port_child port none) h k
  on_event-slots idle h p k = k

  hear-OfChild :
      (e : Event Device) (kid : Child Device)
      → OfEvent (some e)
      → OfChild kid
      → OfChild (hear Device e kid).0 × All P (hear Device e kid).1
  unfolding hear
  hear-OfChild (attached d kind) waiting p k = (p, record {})
  hear-OfChild (attached d kind) (serving e) p k = (k, record {})
  hear-OfChild (attached d kind) (served_out e) p k = (k, record {})
  hear-OfChild detached waiting p k = (k, record {})
  hear-OfChild detached (serving e) p k = (record {}, (k, record {}))
  hear-OfChild detached (served_out e) p k = (record {}, (k, record {}))

  serve_ends-OfChild : (kid : Child Device) → OfChild kid → OfChild (serve_ends Device kid)
  unfolding serve_ends
  serve_ends-OfChild waiting k = k
  serve_ends-OfChild (serving d) k = k
  serve_ends-OfChild (served_out d) k = k

  run_child-IsHeld :
      (c : ℕ) (o : Option (Event Device)) (s : System Device)
      → OfEvent o
      → IsHeld s
      → IsHeld (run_child Device c o s)
  unfolding run_child
  run_child-IsHeld c none s p h = h
  run_child-IsHeld c (some e) s p h =
      let kid = get_or s.kids c waiting in
      let (of_kid, given) =
        hear-OfChild e kid p (get_or-All OfChild s.kids c waiting (record {}) h.of_kids) in
      record {
        of_slots = All-set OfEvent s.hub.slots c none (record {}) h.of_slots;
        of_kids = All-set OfChild s.kids c (hear Device e kid).0 of_kid h.of_kids;
        of_freed = All-append P (hear Device e kid).1 s.freed given h.of_freed;
      }

  take_turn-IsHeld :
      (t : Turn Device) (s : System Device) → IsServed t → IsHeld s → IsHeld (take_turn Device t s)
  unfolding take_turn
  take_turn-IsHeld (port_event e) s p h = record {
    of_slots = on_event-slots e s.hub p h.of_slots;
    of_kids = h.of_kids;
    of_freed = h.of_freed;
  }
  take_turn-IsHeld (child_runs c) s p h =
      run_child-IsHeld c (get_or s.hub.slots c none) s
        (get_or-All OfEvent s.hub.slots c none (record {}) h.of_slots) h
  take_turn-IsHeld (child_ends c) s p h = record {
    of_slots = h.of_slots;
    of_kids =
        All-set OfChild s.kids c (serve_ends Device (get_or s.kids c waiting))
          (serve_ends-OfChild (get_or s.kids c waiting)
            (get_or-All OfChild s.kids c waiting (record {}) h.of_kids))
          h.of_kids;
    of_freed = h.of_freed;
  }

  take_turns-IsHeld :
      (ts : List (Turn Device)) (s : System Device)
      → All IsServed ts
      → IsHeld s
      → IsHeld (take_turns Device ts s)
  unfolding take_turns
  take_turns-IsHeld [] s ps h = h
  take_turns-IsHeld (t ∷ ts) s (p, ps) h =
      take_turns-IsHeld ts (take_turn Device t s) ps (take_turn-IsHeld t s p h)

-- A device that is only ever found to be a hub is never given back, whatever happens on the ports and
-- in whatever order the children run: the host stack keeps its address.
pub take_turns-hub :
    {Device : Type 0} (d : Device) (ts : List (Turn Device))
    → All (IsServed (λ e. e ≢ d)) ts
    → All (λ e. e ≢ d) (take_turns Device ts (boot Device)).freed
take_turns-hub {Device} d ts only =
    let h = take_turns-IsHeld (λ e. e ≢ d) ts (boot Device) only (boot-IsHeld (λ e. e ≢ d)) in
    h.of_freed

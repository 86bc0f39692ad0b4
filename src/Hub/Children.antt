-- ===== src/Hub/Children.antt =====
-- `child` of src/hub.rs: serves the device that the loop of events hands over, until it is removed;
-- and the two together, with the signals between them. Serving itself is left out but for its end.
use rp_wheel_bridge.Base.{ℕ, List, [], ◌∷◌, ◌++◌, Option, none, some, get_or, set, replicate}
use rp_wheel_bridge.Hub.Ports.{Event, attached, detached, HubEvent, Hub, start, on_event, children}

module _ (Device : Type 0) where
  -- Where a child is: it waits for a device, serves one, or has served it out and waits for its
  -- removal.
  pub data Child : Type 0 where
    waiting : Child
    serving : Device → Child
    served_out : Device → Child

  -- A child that is told something, and the device whose address it gives back.
  unfoldable pub hear : Event Device → Child → Child × List Device
  hear (attached d kind) waiting = (serving d, [])
  hear (attached d kind) (serving e) = (serving e, [])
  hear (attached d kind) (served_out e) = (served_out e, [])
  hear detached waiting = (waiting, [])
  hear detached (serving e) = (waiting, e ∷ [])
  hear detached (served_out e) = (waiting, e ∷ [])

  -- `serve_device` is over: a transfer failed.
  unfoldable pub serve_ends : Child → Child
  serve_ends waiting = waiting
  serve_ends (serving d) = served_out d
  serve_ends (served_out d) = served_out d

  -- The hub with its children, and the devices whose addresses were given back, the latest first.
  pub record System : Type 0 where
    pub hub : Hub Device
    pub kids : List Child
    pub freed : List Device

  abbrev pub boot : System
  boot = record { hub = start Device; kids = replicate children waiting; freed = [] }

  -- What happens next: an event of a port, child `c` runs, or what child `c` serves ends.
  pub data Turn : Type 0 where
    port_event : HubEvent Device → Turn
    child_runs : ℕ → Turn
    child_ends : ℕ → Turn

  -- A child takes what its signal holds.
  unfoldable pub run_child : ℕ → Option (Event Device) → System → System
  unfolding hear
  run_child c none s = s
  run_child c (some e) s =
      let (kid, given) = hear e (get_or s.kids c waiting) in
      record {
        hub = record s.hub { slots = set s.hub.slots c none };
        kids = set s.kids c kid;
        freed = given ++ s.freed;
      }

  unfoldable pub take_turn : Turn → System → System
  unfolding run_child serve_ends
  take_turn (port_event e) s = record s { hub = on_event Device e s.hub }
  take_turn (child_runs c) s = run_child c (get_or s.hub.slots c none) s
  take_turn (child_ends c) s = record s {
    kids = set s.kids c (serve_ends (get_or s.kids c waiting));
  }

  unfoldable pub take_turns : List Turn → System → System
  unfolding take_turn
  take_turns [] s = s
  take_turns (t ∷ ts) s = take_turns ts (take_turn t s)

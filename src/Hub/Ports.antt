-- ===== src/Hub/Ports.antt =====
-- The port events of src/hub.rs: `events` and the children that it hands devices to.
use rp_wheel_bridge.Base.{
  ℕ, suc, List, [], ◌∷◌, Option, none, some, Bool, true, false, if◌then◌else◌, get_or, set,
  replicate,
}

-- Ports tracked and devices served at the same time.
abbrev pub max_ports : ℕ
max_ports = 8

abbrev pub children : ℕ
children = 3

-- `usb_host::Kind`
pub data Kind : Type 0 where
  wheel relay_backend hub other : Kind

abbrev pub is_hub : Kind → Bool
is_hub Kind.hub = true
is_hub _ = false

-- `busy.iter().position(|b| !b)`
unfoldable pub free_child : List Bool → Option ℕ
free_child [] = none
free_child (false ∷ bs) = some 0
free_child (true ∷ bs) = elim (free_child bs) [ none ↦ none | some c ↦ some (suc c) ]

module _ (Device : Type 0) where
  -- What a child is told; `Device` is the enumeration info with the HID interfaces found.
  pub data Event : Type 0 where
    attached : Device → Kind → Event
    detached : Event

  -- What `wait_for_event` reports. A detected device comes with what `enumerate` makes of it.
  pub data HubEvent : Type 0 where
    device_detected : ℕ → Option (Device × Kind) → HubEvent
    device_removed : ℕ → HubEvent
    -- `Ok(_)`, or an error, after which the loop waits 100 ms
    idle : HubEvent

  -- The variables of `events`, and the signal of each child: a signal holds the latest value that
  -- was not waited for yet.
  pub record Hub : Type 0 where
    pub port_child : List (Option ℕ)
    pub busy : List Bool
    pub slots : List (Option Event)

  abbrev pub start : Hub
  start = record {
    port_child = replicate max_ports none;
    busy = replicate children false;
    slots = replicate children none;
  }

  -- The device `d` goes to child `c`. A port that is not tracked is not remembered.
  unfoldable pub assign : ℕ → ℕ → Device → Kind → Hub → Hub
  assign port c d kind h = record {
    port_child = set h.port_child port (some c);
    busy = set h.busy c true;
    slots = set h.slots c (some (attached d kind));
  }

  -- `port_child.get_mut(port).and_then(Option::take)`, and what follows for the child it gives.
  unfoldable pub release : ℕ → Option ℕ → Hub → Hub
  release port none h = h
  release port (some c) h = record {
    port_child = set h.port_child port none;
    busy = set h.busy c false;
    slots = set h.slots c (some detached);
  }

  unfoldable pub detect : ℕ → Option ℕ → Option (Device × Kind) → Hub → Hub
  unfolding assign
  detect port none enumerated h = h
  detect port (some c) none h = h
  detect port (some c) (some (d, kind)) h = if is_hub kind then h else assign port c d kind h

  -- A round of the loop of `events`.
  unfoldable pub on_event : HubEvent → Hub → Hub
  unfolding detect release free_child
  on_event (device_detected port enumerated) h = detect port (free_child h.busy) enumerated h
  on_event (device_removed port) h = release port (get_or h.port_child port none) h
  on_event idle h = h

  unfoldable pub on_events : List HubEvent → Hub → Hub
  unfolding on_event
  on_events [] h = h
  on_events (e ∷ es) h = on_events es (on_event e h)

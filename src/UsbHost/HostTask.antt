-- ===== src/UsbHost/HostTask.antt =====
-- `host_task` of src/usb_host.rs: the device on the root port, from its connection to the release of
-- its address.
use rp_wheel_bridge.Base.{
  ℕ, ◌≡◌, refl, sym, ap, ◌∙◌, List, [], ◌∷◌, ◌++◌, Option, none, some, if◌then◌else◌, ◌⊎◌, inl, inr,
  subst,
}
use mathlib.Core.Option.{some-injective}
use rp_wheel_bridge.Hub.Ports.{Kind, is_hub}

-- `EnumerationInfo`, as far as the loop reads it: the address, and what `classify` makes of it.
pub record Device : Type 0 where
  pub device_address : ℕ
  pub kind : Kind

-- What `serve` runs.
pub data Serve : Type 0 where
  hub_run : Serve
  serve_device : Kind → Serve

unfoldable pub serve_of : Kind → Serve
serve_of kind = if is_hub kind then hub_run else serve_device kind

-- What happens. A connected device comes with what `enumerate_with_retry` returns.
pub data HostEvent : Type 0 where
  connected : Device → HostEvent
  -- `serve` ends on its own.
  served_out : HostEvent
  -- `wait_for_device_event` reports a detach, or something else.
  disconnected other_event : HostEvent

-- Where the loop waits.
pub data Phase : Type 0 where
  -- `wait_for_connection`
  waiting : Phase
  -- The `select` of `serve` and `wait_for_disconnect`.
  serving : Device → Phase
  -- The second `wait_for_disconnect`.
  served : Device → Phase

-- With what was served and the addresses given back, the latest first.
pub record HostTask : Type 0 where
  pub phase : Phase
  pub started : List (ℕ × Serve)
  pub freed : List ℕ

abbrev pub boot : HostTask
boot = record { phase = waiting; started = []; freed = [] }

unfoldable pub serve : Device → HostTask → HostTask
unfolding serve_of
serve d s = record s {
  phase = serving d;
  started = (d.device_address, serve_of d.kind) ∷ s.started;
}

-- `bus.free_address(info.device_address)`, and the next round.
unfoldable pub free_address : Device → HostTask → HostTask
free_address d s = record s { phase = waiting; freed = d.device_address ∷ s.freed }

-- `none`: the loop does not wait for this event.
unfoldable pub in_phase : HostEvent → Phase → HostTask → Option HostTask
unfolding serve free_address
in_phase (connected d) waiting s = some (serve d s)
in_phase served_out (serving d) s = some (record s { phase = served d })
in_phase disconnected (serving d) s = some (free_address d s)
in_phase disconnected (served d) s = some (free_address d s)
in_phase other_event (serving d) s = some s
in_phase other_event (served d) s = some s
in_phase _ _ s = none

unfoldable pub on_event : HostEvent → HostTask → Option HostTask
unfolding in_phase
on_event e s = in_phase e s.phase s

-- A run of the loop, by the events that it waited for.
pub data Reaches : HostTask → List HostEvent → HostTask → Type 0 where
  stays : {s : HostTask} → Reaches s [] s
  goes :
      {s t u : HostTask} {e : HostEvent} {es : List HostEvent}
      → on_event e s ≡ some t
      → Reaches t es u
      → Reaches s (e ∷ es) u

-- The address that is in use.
abbrev pub held : Phase → List ℕ
held waiting = []
held (serving d) = d.device_address ∷ []
held (served d) = d.device_address ∷ []

abbrev pub addresses : List (ℕ × Serve) → List ℕ
addresses [] = []
addresses ((a, serve) ∷ started) = a ∷ addresses started

-- The addresses given back are those of the devices served, but for the one in use.
abbrev pub IsAccounted : HostTask → Type 0
IsAccounted s = addresses s.started ≡ held s.phase ++ s.freed

-- What the events say is to be served, behind what was before.
abbrev pub to_serve : List HostEvent → List (ℕ × Serve) → List (ℕ × Serve)
to_serve [] before = before
to_serve (connected d ∷ es) before = to_serve es ((d.device_address, serve_of d.kind) ∷ before)
to_serve (_ ∷ es) before = to_serve es before

-- The phase is known: what is in use.
at_phase :
    (s : HostTask) (p : Phase)
    → s.phase ≡ p
    → IsAccounted s
    → addresses s.started ≡ held p ++ s.freed
at_phase s p here h = h ∙ ap (λ q. held q ++ s.freed) here

-- What an event leads to, with the devices that are to be served.
abbrev Leads : HostEvent → HostTask → HostTask → Type 0
Leads e s t = IsAccounted t × (t.started ≡ to_serve (e ∷ []) s.started)

leads : (e : HostEvent) (s u t : HostTask) → some u ≡ some t → Leads e s u → Leads e s t
leads e s u t same h = subst (Leads e s) (some-injective u t same) h

in_phase-Leads :
    (e : HostEvent) (p : Phase) (s t : HostTask)
    → s.phase ≡ p
    → in_phase e p s ≡ some t
    → IsAccounted s
    → Leads e s t
unfolding in_phase serve free_address
in_phase-Leads (connected d) waiting s t here same h =
    leads (connected d) s (serve d s) t same
      (ap (λ rest. d.device_address ∷ rest) (at_phase s waiting here h), refl)
in_phase-Leads served_out (serving d) s t here same h =
    leads served_out s (record s { phase = served d }) t same (at_phase s (serving d) here h, refl)
in_phase-Leads disconnected (serving d) s t here same h =
    leads disconnected s (free_address d s) t same (at_phase s (serving d) here h, refl)
in_phase-Leads disconnected (served d) s t here same h =
    leads disconnected s (free_address d s) t same (at_phase s (served d) here h, refl)
in_phase-Leads other_event (serving d) s t here same h = leads other_event s s t same (h, refl)
in_phase-Leads other_event (served d) s t here same h = leads other_event s s t same (h, refl)
in_phase-Leads _ _ s t here same h = absurd cc

to_serve-cons :
    (e : HostEvent) (es : List HostEvent) (before : List (ℕ × Serve))
    → to_serve (e ∷ es) before ≡ to_serve es (to_serve (e ∷ []) before)
to_serve-cons (connected d) es before = refl
to_serve-cons served_out es before = refl
to_serve-cons disconnected es before = refl
to_serve-cons other_event es before = refl

Reaches-IsAccounted :
    {es : List HostEvent} {s t : HostTask}
    → Reaches s es t
    → IsAccounted s
    → IsAccounted t × (t.started ≡ to_serve es s.started)
unfolding on_event
Reaches-IsAccounted stays h = (h, refl)
Reaches-IsAccounted {s = s} (goes {t = t} {e = e} {es = es} same later) h =
    let (kept, first) = in_phase-Leads e s.phase s t refl same h in
    let (end, rest) = Reaches-IsAccounted later kept in
    (end, rest ∙ ap (to_serve es) first ∙ sym (to_serve-cons e es s.started))

-- A detach leads back to the wait for a device, with every address given back.
abbrev pub Detaches : HostTask → Type 0
Detaches s =
    (s.phase ≡ waiting)
    ⊎ ((t : HostTask) × (on_event disconnected s ≡ some t)
        × (t.phase ≡ waiting)
        × (t.freed ≡ addresses s.started))

detaches : (s : HostTask) → IsAccounted s → Detaches s
unfolding on_event in_phase free_address
detaches s h = go s.phase refl
  where
    go :
        (p : Phase)
        → s.phase ≡ p
        → (s.phase ≡ waiting)
          ⊎ ((t : HostTask) × (in_phase disconnected p s ≡ some t)
              × (t.phase ≡ waiting)
              × (t.freed ≡ addresses s.started))
    go waiting here = inl here
    go (serving d) here = inr (free_address d s, refl, refl, sym (at_phase s (serving d) here h))
    go (served d) here = inr (free_address d s, refl, refl, sym (at_phase s (served d) here h))

-- However devices come and go: each device that is connected is served once, as its kind wants, in
-- their order; the address of each is given back once, in their order, but for that of the device
-- that is connected now, if any; and when that one is detached, its address is given back as well.
pub host_task_lem :
    (es : List HostEvent) (s : HostTask)
    → Reaches boot es s
    → (s.started ≡ to_serve es []) × (addresses s.started ≡ held s.phase ++ s.freed) × Detaches s
host_task_lem es s run =
    let (h, started) = Reaches-IsAccounted run refl in (started, h, detaches s h)

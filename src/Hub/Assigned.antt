-- ===== src/Hub/Assigned.antt =====
-- Which child serves which port (src/hub.rs): the bookkeeping of `events`.
use rp_wheel_bridge.Base.{
  ℕ, zero, suc, ◌<◌, ◌≡◌, ◌≢◌, refl, List, [], ◌∷◌, Option, none, some, Bool, true, false,
  if◌then◌else◌, if_intro, get_or, length, length-set, get_or-set, get_or-replicate, replicate, ltb,
  ◌&&◌, arith, Option-cases, inl, inr, ◌==◌,
}
use rp_wheel_bridge.Hub.Ports.{
  Kind, HubEvent, Hub, start, free_child, assign, release, detect, on_event, on_events, max_ports,
  children, device_detected, device_removed, is_hub, idle,
}

pub free_child_lem :
    (bs : List Bool) (c : ℕ)
    → free_child bs ≡ some c
    → (c < length bs) × (get_or bs c false ≡ false)
unfolding free_child
free_child_lem [] c e = absurd cc
free_child_lem (false ∷ bs) zero e = (omega arith, refl)
free_child_lem (false ∷ bs) (suc c) e = absurd (ground arith)
free_child_lem (true ∷ bs) zero e = elim (Option-cases (free_child bs)) [
  | inl full ↦ absurd (ground arith)
  | inr (b, found) ↦ absurd (ground arith)
]
free_child_lem (true ∷ bs) (suc c) e = elim (Option-cases (free_child bs)) [
  | inl full ↦ absurd (ground arith)
  | inr (b, found) ↦ ground (arith, free_child_lem bs c)
]

pub get_or-some : (os : List (Option ℕ)) (i c : ℕ) → get_or os i none ≡ some c → i < length os
get_or-some [] i c e = absurd cc
get_or-some (o ∷ os) zero c e = omega arith
get_or-some (o ∷ os) (suc i) c e = omega (arith, get_or-some os i c e)

no_child : (port c : ℕ) → get_or (replicate max_ports none) port none ≢ some c
no_child port c e = cc (e, get_or-replicate {A = Option ℕ} max_ports port none)

module _ {Device : Type 0} where
  abbrev pub child_of : Hub Device → ℕ → Option ℕ
  child_of h port = get_or h.port_child port none

  abbrev pub is_busy : Hub Device → ℕ → Bool
  is_busy h c = get_or h.busy c false

  -- The child of a port is one of the three and busy, and no other port has it.
  pub record IsAssigned (h : Hub Device) : Type 0 where
    pub ports : length h.port_child ≡ max_ports
    pub served : length h.busy ≡ children
    pub busy_lem : (port c : ℕ) → child_of h port ≡ some c → is_busy h c ≡ true
    pub one_port : (p q c : ℕ) → child_of h p ≡ some c → child_of h q ≡ some c → p ≡ q

  pub start-IsAssigned : IsAssigned (start Device)
  start-IsAssigned = record {
    ports = refl;
    served = refl;
    busy_lem = λ port c e. absurd (no_child port c e);
    one_port = λ p q c e f. absurd (no_child p c e);
  }

  pub child_of-assign :
      (port c q : ℕ) (d : Device) (kind : Kind) (h : Hub Device)
      → child_of (assign Device port c d kind h) q
        ≡ (if port == q && ltb port (length h.port_child) then some c else child_of h q)
  unfolding assign
  child_of-assign port c q d kind h = get_or-set h.port_child port q (some c) none

  pub is_busy-assign :
      (port c b : ℕ) (d : Device) (kind : Kind) (h : Hub Device)
      → is_busy (assign Device port c d kind h) b
        ≡ (if c == b && ltb c (length h.busy) then true else is_busy h b)
  unfolding assign
  is_busy-assign port c b d kind h = get_or-set h.busy c b true false

  pub child_of-release :
      (port c q : ℕ) (h : Hub Device)
      → child_of (release Device port (some c) h) q
        ≡ (if port == q && ltb port (length h.port_child) then none else child_of h q)
  unfolding release
  child_of-release port c q h = get_or-set h.port_child port q none none

  pub is_busy-release :
      (port c b : ℕ) (h : Hub Device)
      → is_busy (release Device port (some c) h) b
        ≡ (if c == b && ltb c (length h.busy) then false else is_busy h b)
  unfolding release
  is_busy-release port c b h = get_or-set h.busy c b false false

  assign-IsAssigned :
      (port c : ℕ) (d : Device) (kind : Kind) (h : Hub Device)
      → c < children
      → is_busy h c ≡ false
      → IsAssigned h
      → IsAssigned (assign Device port c d kind h)
  unfolding assign
  assign-IsAssigned port c d kind h lt free v = record {
    ports = omega (arith, length-set h.port_child port (some c), v.ports);
    served = omega (arith, length-set h.busy c true, v.served);
    busy_lem = λ q b e. ground (
      arith,
      child_of-assign port c q d kind h,
      is_busy-assign port c b d kind h,
      v.busy_lem q b,
      v.served,
    );
    one_port = λ p q b e f. ground (
      arith,
      child_of-assign port c p d kind h,
      child_of-assign port c q d kind h,
      v.one_port p q b,
      v.busy_lem p b,
      v.busy_lem q b,
    );
  }

  release-IsAssigned :
      (port c : ℕ) (h : Hub Device)
      → child_of h port ≡ some c
      → IsAssigned h
      → IsAssigned (release Device port (some c) h)
  unfolding release
  release-IsAssigned port c h own v = record {
    ports = omega (arith, length-set h.port_child port none, v.ports);
    served = omega (arith, length-set h.busy c false, v.served);
    busy_lem = λ q b e. ground (
      arith,
      child_of-release port c q h,
      is_busy-release port c b h,
      v.busy_lem q b,
      v.one_port port q c,
      get_or-some h.port_child port c own,
    );
    one_port = λ p q b e f.
        ground (arith, child_of-release port c p h, child_of-release port c q h, v.one_port p q b);
  }

  on_event-IsAssigned :
      (e : HubEvent Device) (h : Hub Device) → IsAssigned h → IsAssigned (on_event Device e h)
  unfolding on_event detect release
  on_event-IsAssigned idle h v = v
  on_event-IsAssigned (device_detected port none) h v = elim (Option-cases (free_child h.busy)) [
    | inl full ↦ rw full v
    | inr (c, found) ↦ rw found v
  ]
  on_event-IsAssigned (device_detected port (some (d, kind))) h v =
      elim (Option-cases (free_child h.busy)) [
        | inl full ↦ rw full v
        | inr (c, found) ↦
            let (lt, free) = free_child_lem h.busy c found in
            rw found (
              if_intro IsAssigned (is_hub kind) _ _ (λ e. v)
                (λ e. assign-IsAssigned port c d kind h (omega (arith, v.served)) free v))
      ]
  on_event-IsAssigned (device_removed port) h v = elim (Option-cases (child_of h port)) [
    | inl nobody ↦ rw nobody v
    | inr (c, own) ↦ rw own (release-IsAssigned port c h own v)
  ]

  -- Whatever the hub reports, the children and the ports stay consistent: the child of a port is
  -- busy, and it is not the child of another port.
  pub on_events-IsAssigned :
      (es : List (HubEvent Device)) (h : Hub Device)
      → IsAssigned h
      → IsAssigned (on_events Device es h)
  unfolding on_events
  on_events-IsAssigned [] h v = v
  on_events-IsAssigned (e ∷ es) h v =
      on_events-IsAssigned es (on_event Device e h) (on_event-IsAssigned e h v)

-- ===== src/Hub/Lost.antt =====
-- When a child of src/hub.rs is freed again, and when it never is.
use rp_wheel_bridge.Base.{
  ℕ, zero, suc, ◌<◌, ◌≡◌, ◌≢◌, List, [], ◌∷◌, none, some, Bool, true, false, if_intro, get_or,
  length, arith, Bool-cases, Option-cases, inl, inr, ◌==◌,
}
use rp_wheel_bridge.Hub.Ports.{
  Kind, HubEvent, Hub, free_child, assign, release, detect, on_event, on_events, device_detected,
  device_removed, is_hub, idle,
}
use rp_wheel_bridge.Hub.Assigned.{
  child_of, is_busy, IsAssigned, free_child_lem, get_or-some, child_of-assign, is_busy-assign,
  child_of-release, is_busy-release,
}

get_or-true : (bs : List Bool) (i : ℕ) → get_or bs i false ≡ true → i < length bs
get_or-true [] i e = absurd cc
get_or-true (b ∷ bs) zero e = omega arith
get_or-true (b ∷ bs) (suc i) e = omega (arith, get_or-true bs i e)

module _ {Device : Type 0} where
  -- A child that no port has, and that is busy all the same.
  pub record IsLost (c : ℕ) (h : Hub Device) : Type 0 where
    pub lost_busy : is_busy h c ≡ true
    pub lost_port : (port : ℕ) → child_of h port ≢ some c

  on_event-IsLost :
      (c : ℕ) (e : HubEvent Device) (h : Hub Device) → IsLost c h → IsLost c (on_event Device e h)
  unfolding on_event detect
  on_event-IsLost c idle h l = l
  on_event-IsLost c (device_detected port none) h l = elim (Option-cases (free_child h.busy)) [
    | inl full ↦ rw full l
    | inr (b, found) ↦ rw found l
  ]
  on_event-IsLost c (device_detected port (some (d, kind))) h l =
      elim (Option-cases (free_child h.busy)) [
        | inl full ↦ rw full l
        | inr (b, found) ↦
            let (lt, free) = free_child_lem h.busy b found in
            rw found (
              if_intro (IsLost c) (is_hub kind) _ _ (λ e. l)
                (λ e. record {
                  lost_busy = ground (arith, is_busy-assign port b c d kind h, l.lost_busy);
                  lost_port = λ q own.
                      ground (arith, child_of-assign port b q d kind h, l.lost_port q, l.lost_busy);
                }))
      ]
  on_event-IsLost c (device_removed port) h l = elim (Option-cases (child_of h port)) [
    | inl nobody ↦ rw (nobody, release) l
    | inr (b, own) ↦ rw own (record {
      lost_busy = ground (arith, is_busy-release port b c h, l.lost_busy, l.lost_port port);
      lost_port = λ q mine. ground (arith, child_of-release port b q h, l.lost_port q);
    })
  ]

  on_events-IsLost :
      (c : ℕ) (es : List (HubEvent Device)) (h : Hub Device)
      → IsLost c h
      → IsLost c (on_events Device es h)
  unfolding on_events
  on_events-IsLost c [] h l = l
  on_events-IsLost c (e ∷ es) h l =
      on_events-IsLost c es (on_event Device e h) (on_event-IsLost c e h l)

  -- When a second device is detected on a port whose first one was not reported as removed, the
  -- first one's child is lost: no later event of the hub ever frees it, so one device less can be
  -- served from then on.
  pub detected_twice_lem :
      (port c b : ℕ) (d : Device) (kind : Kind) (h : Hub Device) (es : List (HubEvent Device))
      → IsAssigned h
      → child_of h port ≡ some c
      → free_child h.busy ≡ some b
      → is_hub kind ≡ false
      → IsLost c (on_events Device (device_detected port (some (d, kind)) ∷ es) h)
  unfolding on_events on_event detect
  detected_twice_lem port c b d kind h es v own found plain =
      let (lt, free) = free_child_lem h.busy b found in
      rw (found, plain)
        (on_events-IsLost c es (assign Device port b d kind h) (record {
          lost_busy = ground (arith, is_busy-assign port b c d kind h, v.busy_lem port c own);
          lost_port = λ q mine. ground (
            arith,
            child_of-assign port b q d kind h,
            v.one_port port q c,
            v.busy_lem port c own,
            get_or-some h.port_child port c own,
          );
        }))

  -- Every busy child has a port.
  abbrev pub IsServing : Hub Device → Type 0
  IsServing h = (c : ℕ) → is_busy h c ≡ true → (port : ℕ) × (child_of h port ≡ some c)

  -- A device is detected only on a tracked port that has no child.
  abbrev pub IsOrderly : HubEvent Device → Hub Device → Type 0
  IsOrderly idle h = Unit
  IsOrderly (device_removed port) h = Unit
  IsOrderly (device_detected port enumerated) h =
      (port < length h.port_child) × (child_of h port ≡ none)

  -- A child that is still busy keeps its port.
  kept-release :
      (port b c q : ℕ) (h : Hub Device)
      → IsAssigned h
      → child_of h port ≡ some b
      → child_of h q ≡ some c
      → is_busy (release Device port (some b) h) c ≡ true
      → child_of (release Device port (some b) h) q ≡ some c
  kept-release port b c q h v own mine busy = elim (Bool-cases (port == q)) [
    | inl same ↦
        let e : port ≡ q = ground arith in
        let f : b ≡ c = cc (own, mine, e) in
        absurd
          (ground (arith, is_busy-release port b c h, get_or-true h.busy b (v.busy_lem port b own)))
    | inr other ↦ ground (arith, child_of-release port b q h)
  ]

  -- When devices are detected only on ports that are free, no child is ever lost: a child is busy
  -- only as long as a port has it.
  pub on_event-IsServing :
      (e : HubEvent Device) (h : Hub Device)
      → IsAssigned h
      → IsOrderly e h
      → IsServing h
      → IsServing (on_event Device e h)
  unfolding on_event detect
  on_event-IsServing idle h v o s = s
  on_event-IsServing (device_detected port none) h v o s = elim (Option-cases (free_child h.busy)) [
    | inl full ↦ rw full s
    | inr (b, found) ↦ rw found s
  ]
  on_event-IsServing (device_detected port (some (d, kind))) h v o s =
      elim (Option-cases (free_child h.busy)) [
        | inl full ↦ rw full s
        | inr (b, found) ↦ rw found (
            if_intro IsServing (is_hub kind) _ _ (λ e. s)
              (λ e c busy. elim (Bool-cases (b == c)) [
                | inl new ↦ (port, ground (arith, child_of-assign port b port d kind h))
                | inr old ↦
                    let (q, mine) = s c (ground (arith, is_busy-assign port b c d kind h)) in
                    (q, ground (arith, child_of-assign port b q d kind h))
              ]))
      ]
  on_event-IsServing (device_removed port) h v o s = elim (Option-cases (child_of h port)) [
    | inl nobody ↦ rw (nobody, release) s
    | inr (b, own) ↦ rw own (λ c busy.
        let (q, mine) = s c (ground (arith, is_busy-release port b c h)) in
        (q, kept-release port b c q h v own mine busy))
  ]

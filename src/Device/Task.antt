-- ===== src/Device/Task.antt =====
-- The start of `task` of src/device.rs, and `follow_wheel` behind it: when the device is on the
-- console's bus. Times are in milliseconds.
use rp_wheel_bridge.Base.{
  ℕ, ◌≡◌, refl, max, List, [], ◌∷◌, Option, none, some, Bool, true, false, if◌then◌else◌, is_some,
}
use rp_wheel_bridge.Platform.Channel.{Channels}
use rp_wheel_bridge.Device.Profile.{Role, is_wheel, wheel, relay, mirror}
use rp_wheel_bridge.Device.Link.{
  Port, Queues, connected, follow_all, follow_all_lem, IsAlternating, last_link, level,
}

abbrev pub mirror_wait_for_wheel : Bool
mirror_wait_for_wheel = false

-- Whether the device waits for `BACKEND_READY`.
unfoldable pub waits : Role → Bool
waits wheel = false
waits relay = true
waits mirror = mirror_wait_for_wheel

-- A time and the link reports that are not taken yet.
abbrev pub Waiting : Type 0
Waiting = ℕ × List (ℕ × Bool)

-- `while !WHEEL_LINK.receive().await {}`; `none`: it waits for ever.
unfoldable pub await_wheel : ℕ → List (ℕ × Bool) → Option Waiting
await_wheel now [] = none
await_wheel now ((t, true) ∷ links) = some (max now t, links)
await_wheel now ((t, false) ∷ links) = await_wheel (max now t) links

-- `BACKEND_READY.wait()`, if the role waits for it; `ready`: when it is signalled, if ever.
unfoldable pub await_backend : Role → Option ℕ → ℕ → Option ℕ
unfolding waits
await_backend role ready now =
    if waits role then elim ready [ some t ↦ some (max now t) | none ↦ none ] else some now

-- What comes before the device is built.
unfoldable pub await_start : Role → Option ℕ → ℕ → List (ℕ × Bool) → Option Waiting
unfolding await_backend await_wheel
await_start role ready now links = elim (await_backend role ready now) [
  | none ↦ none
  | some t ↦ if is_wheel role then await_wheel t links else some (t, links)
]

module _ (ch : Channels) where
  -- `follow_wheel` does nothing outside the wheel role.
  unfoldable pub follow_wheel : Role → List (ℕ × Bool) → Port ch → Port ch
  follow_wheel role links p = let q = follow_all ch links p in if is_wheel role then q else p

  -- The device of `task`, from time `now` on; `none`: it is not built, and off the bus.
  unfoldable pub task : Role → Option ℕ → ℕ → List (ℕ × Bool) → Queues ch → Option (Port ch)
  unfolding await_start follow_wheel
  task role ready now links q = elim (await_start role ready now links) [
    | none ↦ none
    | some (t, rest) ↦ some (follow_wheel role rest (connected ch t q))
  ]

  -- Whether the console sees a device.
  abbrev pub on_bus : Option (Port ch) → Bool
  on_bus none = false
  on_bus (some p) = level p.pullups

  abbrev pub IsSteady : Option (Port ch) → Type 0
  IsSteady none = Unit
  IsSteady (some p) = IsAlternating p.pullups

-- Whether the device should be on the bus, by its role.
abbrev pub expected : Role → Option ℕ → List (ℕ × Bool) → Bool
expected wheel ready links = last_link false links
expected relay ready links = is_some ready
expected mirror ready links = true

module _ {ch : Channels} where
  -- Once the wheel's first report has come, `follow_wheel` sees to the others.
  await_wheel-follow :
      (links : List (ℕ × Bool)) (now : ℕ) (q : Queues ch)
      → let p = task ch wheel none now links q in
        (on_bus ch p ≡ last_link false links) × IsSteady ch p
  unfolding task await_start await_backend await_wheel waits follow_wheel
  await_wheel-follow [] now q = (refl, record {})
  await_wheel-follow ((t, true) ∷ links) now q = follow_all_lem (max now t) q links
  await_wheel-follow ((t, false) ∷ links) now q = await_wheel-follow links (max now t) q

  -- Whatever the backend and the wheel do and when, the console sees the device as its role wants: in
  -- the wheel role exactly if the latest report says that the wheel is attached, in the relay role
  -- once the backend is ready, in the mirror role always. Each time the device goes off the bus it
  -- stays off for at least 500 ms.
  pub task_lem :
      (role : Role) (ready : Option ℕ) (now : ℕ) (links : List (ℕ × Bool)) (q : Queues ch)
      → let p = task ch role ready now links q in
        (on_bus ch p ≡ expected role ready links) × IsSteady ch p
  unfolding task await_start await_backend await_wheel waits follow_wheel connected
  task_lem wheel ready now links q = await_wheel-follow links now q
  task_lem relay none now links q = (refl, record {})
  task_lem relay (some t) now links q = (refl, refl)
  task_lem mirror ready now links q = (refl, refl)

-- ===== src/Proxy/Presented.antt =====
-- The layouts of src/proxy.rs and src/relay.rs on the device that src/device.rs builds.
use rp_wheel_bridge.Base.{ℕ, ◌≡◌, refl, ap, ◌∙◌, List, [], ◌∷◌, Option, none, some, length}
use rp_wheel_bridge.Hid.Finder.{find_interfaces}
use rp_wheel_bridge.Device.Profile.{Profile, Ep}
use rp_wheel_bridge.Device.Builder.{UsbBuilder, task_configuration}
use rp_wheel_bridge.Device.Found.{presented_in, presented_out, presents, task_configuration-found}
use rp_wheel_bridge.Proxy.Layout.{Layout, layout, RelayLayout, relay_layout, find}

module _ (u : UsbBuilder) where
  abbrev pub shared_layout : Profile → Layout
  shared_layout p = record {
    if0_in = presented_in u p.if0_in;
    if1_in = presented_in u p.if1_in;
    if2_in = presented_in u p.if2_in;
    if2_out = presented_out u p.if2_out;
  }

  abbrev pub with_out : Layout → Option Ep → Option RelayLayout
  with_out l none = none
  with_out l (some e) = some (record { shared = l; if0_out = presented_out u e })

  presented_layouts :
      (p : Profile) (l0 l1 l2 : ℕ) (o : Option Ep)
      → let ifaces =
          presents u 0 l0 p.if0_in o
          ∷ presents u 1 l1 p.if1_in none
          ∷ presents u 2 l2 p.if2_in (some p.if2_out)
          ∷ none
          ∷ [] in
        (layout ifaces ≡ some (shared_layout p))
        × (relay_layout ifaces ≡ with_out (shared_layout p) o)
  unfolding layout relay_layout find
  presented_layouts p l0 l1 l2 none = (refl, refl)
  presented_layouts p l0 l1 l2 (some e) = (refl, refl)

  -- The host side of the bridge accepts what its device side presents: on the device built from a
  -- profile with three interfaces, the proxy's layout is found, with the profile's endpoints; the
  -- relay's is found exactly if the profile has an OUT endpoint on IF0, and has that one.
  pub task_configuration-layout :
      (p : Profile) (b0 b1 b2 : ℕ) (r0 r1 r2 : List ℕ)
      → p.hid ≡ (b0, r0) ∷ (b1, r1) ∷ (b2, r2) ∷ []
      → let ifaces = find_interfaces (task_configuration u p) in
        (layout ifaces ≡ some (shared_layout p))
        × (relay_layout ifaces ≡ with_out (shared_layout p) p.if0_out)
  task_configuration-layout p b0 b1 b2 r0 r1 r2 three =
      let found = task_configuration-found u p b0 b1 b2 r0 r1 r2 three in
      let (shared, relayed) = presented_layouts p (length r0) (length r1) (length r2) p.if0_out in
      (ap layout found ∙ shared, ap relay_layout found ∙ relayed)

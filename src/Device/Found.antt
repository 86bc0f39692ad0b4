-- ===== src/Device/Found.antt =====
-- What a host finds in the device that src/device.rs builds.
use rp_wheel_bridge.Base.{
  ℕ, ◌+◌, ◌%◌, ◌/◌, ◌≡◌, refl, ap, ◌∙◌, List, [], ◌∷◌, ◌++◌, Option, none, some, Bool, true, false,
  ◌&&◌, and_left, and_right, length, u16, le16, arith,
}
use mathlib.Core.Option
use rp_wheel_bridge.Hid.Finder.{
  HidInterface, Endpoint, Sub, Interface, endpoint, other, find_interfaces, listed_len, add_sub,
  add_other, add_endpoint, max_hid_interfaces, class_hid, desc_type_hid,
}
use rp_wheel_bridge.Hid.Interfaces.{Group, visits, described, slots, add_subs, find_interfaces_lem}
use rp_wheel_bridge.Device.Profile.{Profile, Ep, hid_descriptor}
use rp_wheel_bridge.Device.Builder.{
  Call, config, UsbBuilder, View, shown, EndpointAddress, dir_in, dir_out, ep, interface_calls,
  optional_out, endpoint_in, endpoint_out, interfaces, hid_desc, builder_calls, call_all,
  task_configuration, builder_new, handler, function, alt_setting, descriptor,
  endpoint_interrupt_in, endpoint_interrupt_out, build,
}

abbrev all : (Call → Bool) → List Call → Bool
all test [] = true
all test (c ∷ cs) = test c && all test cs

-- A length written as two bytes, and read.
le16_lem : (n : ℕ) → le16 (u16 n % 256) (u16 n / 256 % 256) ≡ u16 n
le16_lem n = omega arith

module _ (u : UsbBuilder) where
  open u use {Builder, view, address}

  abbrev shown_all : List Call → View → View
  shown_all [] v = v
  shown_all (c ∷ cs) v = shown_all cs (shown address c v)

  -- The calls but for that of a function.
  abbrev is_plain : Call → Bool
  is_plain (function c s p) = false
  is_plain _ = true

  abbrev ArePlain : List Call → Type 0
  ArePlain cs = all is_plain cs ≡ true

  view-call :
      (c : Call) (b : Builder) → is_plain c ≡ true → view (u.call c b) ≡ shown address c (view b)
  view-call (builder_new c) b h = u.new_view c b
  view-call handler b h = u.handler_view b
  view-call (function c s p) b h = absurd cc
  view-call Call.interface b h = u.interface_view b
  view-call (alt_setting c s p) b h = u.alt_setting_view c s p b
  view-call (descriptor t bytes) b h = u.descriptor_view t bytes b
  view-call (endpoint_interrupt_in a size interval) b h = u.in_view a size interval b
  view-call (endpoint_interrupt_out a size interval) b h = u.out_view a size interval b
  view-call build b h = u.build_view b

  view-call_all :
      (cs : List Call) (b : Builder) → ArePlain cs → view (call_all u cs b) ≡ shown_all cs (view b)
  unfolding call_all
  view-call_all [] b h = refl
  view-call_all (c ∷ cs) b h =
      view-call_all cs (u.call c b) (and_right (is_plain c) (all is_plain cs) h)
      ∙ ap (shown_all cs) (view-call c b (and_left (is_plain c) (all is_plain cs) h))

  abbrev new_view : View
  new_view = record { written = []; interface_count = 0; setting_count = 0; has_iads = false }

  -- The function is announced by no descriptor, since the configuration says so.
  task_configuration_lem :
      (p : Profile)
      → ArePlain (interfaces p (hid_desc p) ++ build ∷ [])
      → task_configuration u p
        ≡ (shown_all (interfaces p (hid_desc p) ++ build ∷ []) new_view).written
  unfolding task_configuration builder_calls call_all
  task_configuration_lem p plain =
      let opened = u.call (builder_new (config p)) u.fresh in
      let handled = u.call handler opened in
      let ready : view handled ≡ new_view = u.handler_view opened ∙ u.new_view (config p) u.fresh in
      let apart : view (u.call (function class_hid 0 0) handled) ≡ new_view =
        u.function_view class_hid 0 0 handled (ap (λ v. v.has_iads) ready) ∙ ready in
      ap (λ v. v.written)
        (view-call_all (interfaces p (hid_desc p) ++ build ∷ [])
            (u.call (function class_hid 0 0) handled) plain
          ∙ ap (shown_all (interfaces p (hid_desc p) ++ build ∷ [])) apart)

  abbrev pub presented : EndpointAddress → Endpoint
  presented a = record {
    address = address a;
    is_in = elim a.direction [ dir_in ↦ true | dir_out ↦ false ];
    is_interrupt = true;
  }

  abbrev pub presented_in : Ep → Endpoint
  presented_in e = presented (ep e.number dir_in)

  abbrev pub presented_out : Ep → Endpoint
  presented_out e = presented (ep e.number dir_out)

  -- An interface that is presented, by its number, report descriptor's length and endpoints.
  abbrev pub presents : ℕ → ℕ → Ep → Option Ep → Option HidInterface
  presents n report_len in_ep out_ep = some (record {
    number = n;
    report_desc_len = u16 report_len;
    in_ep = some (presented_in in_ep);
    out_ep = Option.map presented_out out_ep;
  })

  -- The calls and the descriptors of the interfaces, with or without IF0's OUT endpoint.
  module _ (if0_in if1_in if2_in if2_out : Ep) (d0 d1 d2 : List ℕ) where
    abbrev calls : Option Ep → List Call
    calls if0_out =
        interface_calls d0 (optional_out if0_out ++ endpoint_in if0_in ∷ [])
        ++ interface_calls d1 (endpoint_in if1_in ∷ [])
        ++ interface_calls d2 (endpoint_in if2_in ∷ endpoint_out if2_out ∷ [])
        ++ build ∷ []

    abbrev hid_interface : ℕ → Interface
    hid_interface n = record {
      interface_number = n;
      alternate_setting = 0;
      interface_class = class_hid;
    }

    abbrev raw : List ℕ → Sub
    raw d = other ((length d + 2) ∷ desc_type_hid ∷ d)

    abbrev out_endpoint : Option Ep → List Sub
    out_endpoint none = []
    out_endpoint (some e) = endpoint (presented_out e) ∷ []

    abbrev groups : Option Ep → List Group
    groups if0_out =
        (hid_interface 0, raw d0 ∷ out_endpoint if0_out ++ endpoint (presented_in if0_in) ∷ [])
        ∷ (hid_interface 1, raw d1 ∷ endpoint (presented_in if1_in) ∷ [])
        ∷ (
          hid_interface 2,
          raw d2 ∷ endpoint (presented_in if2_in) ∷ endpoint (presented_out if2_out) ∷ [],
        )
        ∷ []

    calls-ArePlain : (o : Option Ep) → ArePlain (calls o)
    calls-ArePlain none = refl
    calls-ArePlain (some e) = refl

    shown-groups : (o : Option Ep) → (shown_all (calls o) new_view).written ≡ visits (groups o)
    unfolding visits
    shown-groups none = refl
    shown-groups (some e) = refl

  described-groups :
      (i0 i1 i2 i2_out : Ep) (b0 b1 b2 l0 l1 l2 : ℕ) (o : Option Ep)
      → slots max_hid_interfaces (
          described (
            groups i0 i1 i2 i2_out
              (hid_descriptor b0 l0)
              (hid_descriptor b1 l1)
              (hid_descriptor b2 l2)
              o))
        ≡ presents 0 l0 i0 o ∷ presents 1 l1 i1 none ∷ presents 2 l2 i2 (some i2_out) ∷ none ∷ []
  unfolding slots described add_subs add_sub add_other add_endpoint listed_len hid_descriptor
  described-groups i0 i1 i2 i2_out b0 b1 b2 l0 l1 l2 none =
      rw (le16_lem l0, le16_lem l1, le16_lem l2) refl
  described-groups i0 i1 i2 i2_out b0 b1 b2 l0 l1 l2 (some e) =
      rw (le16_lem l0, le16_lem l1, le16_lem l2) refl

  module _ (p : Profile) (b0 b1 b2 : ℕ) (r0 r1 r2 : List ℕ)
      (three : p.hid ≡ (b0, r0) ∷ (b1, r1) ∷ (b2, r2) ∷ []) where
    -- A host finds three HID interfaces in the device, numbered 0 to 2, each with the endpoints of the
    -- profile and the length of its report descriptor.
    pub task_configuration-found :
        find_interfaces (task_configuration u p)
        ≡ presents 0 (length r0) p.if0_in p.if0_out
          ∷ presents 1 (length r1) p.if1_in none
          ∷ presents 2 (length r2) p.if2_in (some p.if2_out)
          ∷ none
          ∷ []
    unfolding hid_desc interfaces
    task_configuration-found =
        let d0 = hid_descriptor b0 (length r0) in
        let d1 = hid_descriptor b1 (length r1) in
        let d2 = hid_descriptor b2 (length r2) in
        let plain : ArePlain (interfaces p (hid_desc p) ++ build ∷ []) =
          rw three (calls-ArePlain p.if0_in p.if1_in p.if2_in p.if2_out d0 d1 d2 p.if0_out) in
        let visited : task_configuration u p
            ≡ visits (groups p.if0_in p.if1_in p.if2_in p.if2_out d0 d1 d2 p.if0_out) =
          task_configuration_lem p plain
          ∙ rw three (shown-groups p.if0_in p.if1_in p.if2_in p.if2_out d0 d1 d2 p.if0_out) in
        ap find_interfaces visited
        ∙ find_interfaces_lem (groups p.if0_in p.if1_in p.if2_in p.if2_out d0 d1 d2 p.if0_out)
        ∙ described-groups p.if0_in p.if1_in p.if2_in p.if2_out b0 b1 b2 (length r0) (length r1)
            (length r2) p.if0_out

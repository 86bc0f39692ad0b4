-- ===== src/Proxy/Recovery.antt =====
-- How `forward_ffb_out` of src/proxy.rs recovers from a stall, and what the console sees of it.
use rp_wheel_bridge.Base.{
  ℕ, ◌+◌, ◌≤◌, ◌≡◌, refl, sym, ap, ◌∙◌, subst, List, [], ◌∷◌, ◌++◌, Option, none, some, Bool, true,
  false, ◌&&◌, if_intro, Result, ok, err, arith,
}
use mathlib.Core.List.{reverse, reverse-cons}
use rp_wheel_bridge.Platform.Channel.{Channels}
use rp_wheel_bridge.Platform.Usb.{PipeError}
use rp_wheel_bridge.Device.Packet
use rp_wheel_bridge.Device.Packet.{Packet, max_packet}
use rp_wheel_bridge.Device.Profile.{Role, is_wheel}
use rp_wheel_bridge.Device.Link.{Queues, connected, follow_all, follow_all_lem, level, last_link}
use rp_wheel_bridge.Proxy.Ffb.{
  Stream, Ffb, started, padded, carries_trueforce, is_stall, is_due, is_detach, after_clear,
  recover_ffb, on_error, on_result, forward_ffb_out, forward_ffbs, ffb_recovery_interval,
}

-- A recovery at `t` comes at least 5 s after the one before it.
abbrev pub IsLater : Option ℕ → ℕ → Type 0
IsLater none t = Unit
IsLater (some before) t = before + ffb_recovery_interval ≤ t

-- The calls of `wheel_link`, the latest first, with the time of the last recovery: each recovery
-- takes the device off the bus when it starts and puts it back when it ends.
pub data IsPaced : Option ℕ → List (ℕ × Bool) → Type 0 where
  none_yet : IsPaced none []
  recovered :
      {before : Option ℕ} {links : List (ℕ × Bool)} (t u : ℕ)
      → IsPaced before links
      → IsLater before t
      → t ≤ u
      → IsPaced (some t) ((u, true) ∷ (t, false) ∷ links)

is_due-IsLater : (o : Option ℕ) (t : ℕ) → is_due o t ≡ true → IsLater o t
is_due-IsLater none t h = record {}
is_due-IsLater (some before) t h = ground arith

module _ (stream : Stream) where
  open stream use {World, now, request_out, wheel_link, clear_halt, reset_data_toggle, links}

  links-after_clear : (o : Option Bool) (w : World) → links (after_clear stream o w) ≡ links w
  unfolding after_clear
  links-after_clear (some true) w = stream.links-reset w
  links-after_clear (some false) w = refl
  links-after_clear none w = refl

  after_clear_time : (o : Option Bool) (w : World) → now w ≤ now (after_clear stream o w)
  unfolding after_clear
  after_clear_time (some true) w = stream.reset_time w
  after_clear_time (some false) w = omega arith
  after_clear_time none w = omega arith

  -- A recovery ends with the device back on the bus.
  recover_ffb-links :
      (ep : ℕ) (w : World)
      → (u : ℕ) × (links (recover_ffb stream ep w) ≡ (u, true) ∷ (now w, false) ∷ links w)
        × (now w ≤ u)
  unfolding recover_ffb
  recover_ffb-links ep w =
      let v = wheel_link false w in
      let (cleared, x) = clear_halt ep v in
      let y = after_clear stream cleared x in
      (
        now y,
        stream.links-link true y
            ∙ ap (λ l. (now y, true) ∷ l)
                (links-after_clear cleared x ∙ stream.links-clear ep v ∙ stream.links-link false w),
        omega (arith, after_clear_time cleared x, stream.clear_time ep v, stream.link_time false w),
      )

  abbrev IsPacedRun : Ffb × World → Type 0
  IsPacedRun m = IsPaced m.0.last_recovery (links m.1)

  on_error-IsPaced :
      (role : Role) (ep : ℕ) (e : PipeError) (m : Ffb × World)
      → IsPacedRun m
      → IsPacedRun (on_error stream role ep e m)
  unfolding on_error
  on_error-IsPaced role ep e (s, w) h =
      if_intro IsPacedRun (is_stall e && is_due s.last_recovery (now w) && is_wheel role) _ _
        (λ due.
          let (u, trace, le) = recover_ffb-links ep w in
          subst (IsPaced (some (now w))) (sym trace)
            (recovered (now w) u h (is_due-IsLater s.last_recovery (now w) (ground arith)) le))
        (λ other. h)

  on_result-IsPaced :
      (role : Role) (ep : ℕ) (r : Result (Unit {0}) PipeError) (m : Ffb × World)
      → IsPacedRun m
      → IsPacedRun (on_result stream role ep r m)
  unfolding on_result
  on_result-IsPaced role ep (ok u) (s, w) h = h
  on_result-IsPaced role ep (err e) (s, w) h =
      if_intro IsPacedRun (is_detach e) _ _ (λ d. h) (λ d. on_error-IsPaced role ep e (s, w) h)

  forward_ffb_out-IsPaced :
      (role : Role) (ep : ℕ) (p : Packet) (m : Ffb × World)
      → IsPacedRun m
      → IsPacedRun (forward_ffb_out stream role ep p m)
  unfolding forward_ffb_out
  forward_ffb_out-IsPaced role ep p (s, w) h =
      let b = Packet.bytes p in
      let (r, w') = request_out (padded b) w in
      if_intro (λ s'. IsPacedRun (on_result stream role ep r (s', w'))) (carries_trueforce b) _ _
        (λ t.
          on_result-IsPaced role ep r (_, w')
            (subst (IsPaced s.last_recovery) (sym (stream.links-out (padded b) w)) h))
        (λ t.
          on_result-IsPaced role ep r (_, w')
            (subst (IsPaced s.last_recovery) (sym (stream.links-out (padded b) w)) h))

  forward_ffbs-IsPaced :
      (role : Role) (ep : ℕ) (ps : List Packet) (m : Ffb × World)
      → IsPacedRun m
      → IsPacedRun (forward_ffbs stream role ep ps m)
  unfolding forward_ffbs
  forward_ffbs-IsPaced role ep [] m h = h
  forward_ffbs-IsPaced role ep (p ∷ ps) m h =
      if_intro IsPacedRun m.0.running _ _
        (λ on.
          forward_ffbs-IsPaced role ep ps (forward_ffb_out stream role ep p m)
            (forward_ffb_out-IsPaced role ep p m h))
        (λ off. h)

last_link-append :
    (known : Bool) (xs : List (ℕ × Bool)) (t : ℕ) (up : Bool)
    → last_link known (xs ++ (t, up) ∷ []) ≡ up
last_link-append known [] t up = refl
last_link-append known ((u, was) ∷ xs) t up = last_link-append was xs t up

IsPaced-last :
    (o : Option ℕ) (links : List (ℕ × Bool))
    → IsPaced o links
    → last_link true (reverse links) ≡ true
IsPaced-last _ _ none_yet = refl
IsPaced-last _ _ (recovered {before} {links} t u h later le) =
    ap (last_link true) (reverse-cons (u, true) ((t, false) ∷ links))
    ∙ last_link-append true (reverse ((t, false) ∷ links)) u true

module _ (stream : Stream) where
  open stream use {World, links}

  -- Whatever the wheel answers to the force feedback, each recovery starts at least 5 s after the one
  -- before it, takes the device off the bus and puts it back; and when these calls reach
  -- `follow_wheel`, the console's pull-up ends on.
  pub forward_ffbs-follow_all :
      (ch : Channels) (role : Role) (ep : ℕ) (ps : List Packet) (w : World) (start : ℕ)
      (q : Queues ch)
      → links w ≡ []
      → let (s, w') = forward_ffbs stream role ep ps (started, w) in
        IsPaced s.last_recovery (links w')
        × (level (follow_all ch (reverse (links w')) (connected ch start q)).pullups ≡ true)
  forward_ffbs-follow_all ch role ep ps w start q none_before =
      let m = forward_ffbs stream role ep ps (started, w) in
      let paced =
        forward_ffbs-IsPaced stream role ep ps (started, w)
          (subst (IsPaced none) (sym none_before) none_yet) in
      (
        paced,
        (follow_all_lem start q (reverse (links m.1))).0
            ∙ IsPaced-last m.0.last_recovery (links m.1) paced,
      )

-- ===== src/Proxy/Input.antt =====
-- `forward_input` of src/proxy.rs: the wheel's input reports.
use rp_wheel_bridge.Base.{
  ℕ, ◌≡◌, refl, sym, subst, ap, ◌∙◌, List, [], ◌∷◌, Bool, true, false, not, ◌==◌, if◌then◌else◌,
  if_intro, length, Result, ok, err, AllBytes, All, arith, Bool-cases, inl, inr,
}
use rp_wheel_bridge.Platform.Channel.{Channels}
use rp_wheel_bridge.Platform.Usb.{PipeError, stall, disconnected, canceled}
use rp_wheel_bridge.Device.Packet
use rp_wheel_bridge.Device.Packet.{Packet}
use rp_wheel_bridge.Device.Profile.{Role, is_mirror}
use rp_wheel_bridge.Device.Streams.{Sink, push, count}
use rp_wheel_bridge.Device.Link.{queue_len}
use rp_wheel_bridge.InputMap.{translate, neutral, c272_len, c269_len}
use rp_wheel_bridge.InputMap.Controls.{translate-rest}

-- What an IN transfer gives: the bytes read into the buffer of 64, or an error.
abbrev pub Transfer : Type 0
Transfer = Result (List ℕ) PipeError

-- `keep_polling`: a detach ends the loop, any other error does not.
abbrev pub keep_polling : PipeError → Bool
keep_polling disconnected = false
keep_polling canceled = false
keep_polling stall = true
keep_polling (PipeError.other n) = true

module _ (ch : Channels) where
  -- `INPUT`, the queue `INPUT_IN` and `WHEEL_INPUT`, and whether the loop still runs.
  pub record Inputs : Type 0 where
    pub input : List ℕ
    pub upstream : Sink ch queue_len
    pub wheel_input : ℕ
    pub running : Bool

  -- `static INPUT`
  abbrev pub started : Sink ch queue_len → Inputs
  started upstream = record {
    input = neutral;
    upstream = upstream;
    wheel_input = 0;
    running = true;
  }

  -- One round of the loop.
  unfoldable pub forward_input : Role → Transfer → Inputs → Inputs
  forward_input role (ok report) s =
      if not (length report == c272_len)
      then s
      else if is_mirror role
      then record s {
        wheel_input = count s.wheel_input;
        upstream = push ch (Packet.new report) s.upstream;
      }
      else record s { wheel_input = count s.wheel_input; input = translate report }
  forward_input role (err e) s = record s { running = keep_polling e }

  -- The loop, as long as it runs.
  unfoldable pub forward_inputs : Role → List Transfer → Inputs → Inputs
  unfolding forward_input
  forward_inputs role [] s = s
  forward_inputs role (t ∷ ts) s =
      let rest = forward_inputs role ts (forward_input role t s) in if s.running then rest else s

-- The report that the console is to be shown: the translation of the latest report of the right
-- length that was read before the wheel was detached.
unfoldable pub shown : List ℕ → List Transfer → List ℕ
shown before [] = before
shown before (ok report ∷ ts) =
    shown (if length report == c272_len then translate report else before) ts
shown before (err e ∷ ts) = if keep_polling e then shown before ts else before

-- What was read is bytes.
abbrev pub IsRead : Transfer → Type 0
IsRead (ok report) = AllBytes report
IsRead (err e) = Unit

abbrev pub IsReport : List ℕ → Type 0
IsReport r = (length r ≡ c269_len) × AllBytes r

shown-IsReport :
    (ts : List Transfer) (before : List ℕ)
    → All IsRead ts
    → IsReport before
    → IsReport (shown before ts)
unfolding shown
shown-IsReport [] before h r = r
shown-IsReport (ok report ∷ ts) before (bytes, h) r =
    shown-IsReport ts (if length report == c272_len then translate report else before) h
      (elim (Bool-cases (length report == c272_len)) [
        | inl whole ↦
            let (len, all, _, _, _, _, _, _) = translate-rest report (ground arith) bytes in
            rw whole (len, all)
        | inr other ↦ rw other r
      ])
shown-IsReport (err e ∷ ts) before (bytes, h) r =
    if_intro IsReport (keep_polling e) _ _ (λ k. shown-IsReport ts before h r) (λ k. r)

if_true : {A : Type 0} (x y : A) (b : Bool) → b ≡ true → (if b then x else y) ≡ x
if_true x y true e = refl
if_true x y false e = absurd cc

neutral-IsReport : IsReport neutral
unfolding neutral
neutral-IsReport = (refl, ground arith)

module _ {ch : Channels} where
  pub stopped :
      (role : Role) (ts : List Transfer) (s : Inputs ch)
      → s.running ≡ false
      → forward_inputs ch role ts s ≡ s
  unfolding forward_inputs
  stopped role [] s off = refl
  stopped role (t ∷ ts) s off = rw (off, forward_inputs) refl

  pub round :
      (role : Role) (t : Transfer) (ts : List Transfer) (s : Inputs ch)
      → s.running ≡ true
      → forward_inputs ch role (t ∷ ts) s ≡ forward_inputs ch role ts (forward_input ch role t s)
  unfolding forward_inputs
  round role t ts s on = if_true _ _ s.running on

  forward_input-ok :
      (role : Role) (report : List ℕ) (s : Inputs ch)
      → is_mirror role ≡ false
      → ((forward_input ch role (ok report) s).input
          ≡ (if length report == c272_len then translate report else s.input))
        × ((forward_input ch role (ok report) s).upstream ≡ s.upstream)
        × ((forward_input ch role (ok report) s).running ≡ s.running)
  unfolding forward_input
  forward_input-ok role report s other = elim (Bool-cases (length report == c272_len)) [
    | inl whole ↦ rw (whole, other) (refl, refl, refl)
    | inr cut ↦ rw cut (refl, refl, refl)
  ]

  forward_inputs-shown :
      (role : Role) (ts : List Transfer) (s : Inputs ch)
      → is_mirror role ≡ false
      → s.running ≡ true
      → ((forward_inputs ch role ts s).input ≡ shown s.input ts)
        × ((forward_inputs ch role ts s).upstream ≡ s.upstream)
  unfolding forward_inputs forward_input shown
  forward_inputs-shown role [] s other on = (refl, refl)
  forward_inputs-shown role (ok report ∷ ts) s other on =
      let (input, queue, runs) = forward_input-ok role report s other in
      let (i, u) =
        forward_inputs-shown role ts (forward_input ch role (ok report) s) other (runs ∙ on) in
      (
        ap (λ r. r.input) (round role (ok report) ts s on) ∙ i ∙ ap (λ b. shown b ts) input,
        ap (λ r. r.upstream) (round role (ok report) ts s on) ∙ u ∙ queue,
      )
  forward_inputs-shown role (err e ∷ ts) s other on = elim (Bool-cases (keep_polling e)) [
    | inl polls ↦
        let (i, u) = forward_inputs-shown role ts (forward_input ch role (err e) s) other polls in
        (
          ap (λ r. r.input) (round role (err e) ts s on) ∙ i ∙ rw polls refl,
          ap (λ r. r.upstream) (round role (err e) ts s on) ∙ u,
        )
    | inr ends ↦
        let same = stopped role ts (forward_input ch role (err e) s) ends in
        (
          ap (λ r. r.input) (round role (err e) ts s on) ∙ ap (λ r. r.input) same ∙ rw ends refl,
          ap (λ r. r.upstream) (round role (err e) ts s on) ∙ ap (λ r. r.upstream) same,
        )
  ]

-- Outside the mirror role, whatever the transfers from the wheel give: the console is shown the
-- translation of the latest whole report read before a detach, or the neutral report before the
-- first one; it is always 64 bytes, and nothing is queued as a packet.
pub forward_inputs_lem :
    {ch : Channels} (role : Role) (ts : List Transfer) (upstream : Sink ch queue_len)
    → is_mirror role ≡ false
    → All IsRead ts
    → let s = forward_inputs ch role ts (started ch upstream) in
      (s.input ≡ shown neutral ts) × IsReport s.input × (s.upstream ≡ upstream)
forward_inputs_lem {ch} role ts upstream other h =
    let (i, u) = forward_inputs-shown role ts (started ch upstream) other refl in
    (i, subst IsReport (sym i) (shown-IsReport ts neutral h neutral-IsReport), u)

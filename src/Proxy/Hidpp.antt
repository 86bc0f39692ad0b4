-- ===== src/Proxy/Hidpp.antt =====
-- The HID++ messages of the wheel in src/proxy.rs: answers to the bridge's own requests stay with
-- the bridge, all others go to the console.
use rp_wheel_bridge.Base.{
  ℕ, ◌≡◌, refl, ap, ◌∙◌, List, [], ◌∷◌, Option, none, some, Bool, true, false, not, ◌&&◌, ◌||◌,
  ◌==◌, if◌then◌else◌, get_elem?, take, replicate, copy_at, bit_and, Bool-cases, inl, inr,
}
use rp_wheel_bridge.Platform.Channel.{Channels}
use rp_wheel_bridge.Device.Packet
use rp_wheel_bridge.Device.Packet.{Packet}
use rp_wheel_bridge.Device.Streams.{Sink, push, push_all, count}
use rp_wheel_bridge.Device.Link.{hidpp_in_queue_len}

-- Software ID of the bridge's own requests.
abbrev pub bridge_swid : ℕ
bridge_swid = 0x0b

-- `b.get(i).map_or(0, |x| x & 0x0f)`
abbrev pub low_nibble : Option ℕ → ℕ
low_nibble none = 0
low_nibble (some x) = bit_and x 0x0f

abbrev pub is_error : Option ℕ → Bool
is_error none = false
is_error (some x) = x == 0xff

-- The software ID of a message: in byte 3, or in byte 4 of an error answer.
unfoldable pub swid : List ℕ → ℕ
swid b = low_nibble (get_elem? b (if is_error (get_elem? b 2) then 4 else 3))

-- The first 20 bytes, filled up with zeros.
unfoldable pub answer_of : List ℕ → List ℕ
answer_of b = copy_at (replicate 20 0) 0 (take 20 b)

module _ (ch : Channels) where
  -- The statics that a message may change: `WHEEL_HIDPP`, `WHEEL_ANSWERED`, `BRIDGE_ANSWER` (a
  -- signal, which holds the latest answer) and the queue to the console.
  pub record Messages : Type 0 where
    pub wheel_hidpp : ℕ
    pub wheel_answered : Bool
    pub bridge_answer : Option (List ℕ)
    pub upstream : Sink ch hidpp_in_queue_len

  -- What `run` does with a message; `waking` is `WAKING`.
  unfoldable pub on_hidpp : Bool → Packet → Messages → Messages
  unfolding swid answer_of
  on_hidpp waking p s =
      let b = Packet.bytes p in
      let own = swid b == bridge_swid in
      if waking || own
      then record {
        wheel_hidpp = count s.wheel_hidpp;
        wheel_answered = s.wheel_answered || (waking && not (swid b == 0));
        bridge_answer = if own then some (answer_of b) else s.bridge_answer;
        upstream = s.upstream;
      }
      else record s { wheel_hidpp = count s.wheel_hidpp; upstream = push ch p s.upstream }

  unfoldable pub on_hidpps : Bool → List Packet → Messages → Messages
  unfolding on_hidpp
  on_hidpps waking [] s = s
  on_hidpps waking (p ∷ ps) s = on_hidpps waking ps (on_hidpp waking p s)

-- The messages that are not for the bridge.
unfoldable pub foreign : List Packet → List Packet
foreign [] = []
foreign (p ∷ ps) = if swid (Packet.bytes p) == bridge_swid then foreign ps else p ∷ foreign ps

-- The latest answer to the bridge, or else what was there before.
unfoldable pub latest_own : Option (List ℕ) → List Packet → Option (List ℕ)
latest_own before [] = before
latest_own before (p ∷ ps) =
    let b = Packet.bytes p in
    latest_own (if swid b == bridge_swid then some (answer_of b) else before) ps

module _ (ch : Channels) where
  on_hidpp-own :
      (p : Packet) (s : Messages ch)
      → (swid (Packet.bytes p) == bridge_swid) ≡ true
      → ((on_hidpp ch false p s).upstream ≡ s.upstream)
        × ((on_hidpp ch false p s).bridge_answer ≡ some (answer_of (Packet.bytes p)))
  unfolding on_hidpp
  on_hidpp-own p s own = rw (own, on_hidpp) (refl, refl)

  on_hidpp-foreign :
      (p : Packet) (s : Messages ch)
      → (swid (Packet.bytes p) == bridge_swid) ≡ false
      → ((on_hidpp ch false p s).upstream ≡ push ch p s.upstream)
        × ((on_hidpp ch false p s).bridge_answer ≡ s.bridge_answer)
  unfolding on_hidpp
  on_hidpp-foreign p s other = rw (other, on_hidpp) (refl, refl)

  -- Once the wheel is awake, the messages that it sends are split: the console's queue is given
  -- exactly those that are not for the bridge, in their order, and the bridge has the latest of
  -- those that are.
  pub on_hidpps-awake :
      (ps : List Packet) (s : Messages ch)
      → ((on_hidpps ch false ps s).upstream ≡ push_all ch (foreign ps) s.upstream)
        × ((on_hidpps ch false ps s).bridge_answer ≡ latest_own s.bridge_answer ps)
  unfolding on_hidpps on_hidpp foreign latest_own push_all
  on_hidpps-awake [] s = (refl, refl)
  on_hidpps-awake (p ∷ ps) s = elim (Bool-cases (swid (Packet.bytes p) == bridge_swid)) [
    | inl own ↦
        let (queue, answer) = on_hidpp-own p s own in
        let (more, latest) = on_hidpps-awake ps (on_hidpp ch false p s) in
        rw own
          (more ∙ ap (push_all ch (foreign ps)) queue, latest ∙ ap (λ a. latest_own a ps) answer)
    | inr other ↦
        let (queue, answer) = on_hidpp-foreign p s other in
        let (more, latest) = on_hidpps-awake ps (on_hidpp ch false p s) in
        rw other
          (more ∙ ap (push_all ch (foreign ps)) queue, latest ∙ ap (λ a. latest_own a ps) answer)
  ]

  -- While the bridge wakes the wheel, nothing that the wheel sends reaches the console.
  pub on_hidpps-waking :
      (ps : List Packet) (s : Messages ch) → (on_hidpps ch true ps s).upstream ≡ s.upstream
  unfolding on_hidpps on_hidpp
  on_hidpps-waking [] s = refl
  on_hidpps-waking (p ∷ ps) s = on_hidpps-waking ps (on_hidpp ch true p s)

-- ===== src/Auth/Signer.antt =====
-- The signer side of src/auth.rs: what core 1 does with the signing device's control pipe. The
-- loops whose number of rounds the device decides take fuel; Poll shows how much is enough.
use rp_wheel_bridge.Base.{
  ℕ, zero, suc, ◌+◌, ◌-◌, ◌*◌, ◌≡◌, List, [], ◌∷◌, map, Bool, true, false, ◌&&◌, ◌||◌, Option, none,
  some, ◌==◌, leb, if◌then◌else◌, Result, ok, err, length, get_or, set, replicate, is_some,
}
use rp_wheel_bridge.Platform.Channel.{Channels}
use mathlib.Core.Option
use rp_wheel_bridge.Platform.Usb.{Host, Setup, PipeError, class_interface_in, class_interface_out}
use rp_wheel_bridge.Platform.Actions.{Action}
use rp_wheel_bridge.Auth.State.{
  State, Shared, id_nonce, id_reset, id_state, id_signature, reset_len, state_len, signature_len,
  signature_pages, state_signing, state_ready,
}
use rp_wheel_bridge.Auth.Console.{Requests}

abbrev pub nonce_len : ℕ
nonce_len = 64

abbrev pub last_nonce_page : ℕ
last_nonce_page = 4

abbrev pub nonce_pages : ℕ
nonce_pages = last_nonce_page + 1

-- Durations are in milliseconds.
abbrev pub signer_poll : ℕ
signer_poll = 20

abbrev pub signer_probe_tries : ℕ
signer_probe_tries = 5

abbrev pub signer_probe_pause : ℕ
signer_probe_pause = 200

abbrev pub signer_timeout : ℕ
signer_timeout = 10000

abbrev pub sign_attempts : ℕ
sign_attempts = 4

abbrev pub resign_pause : ℕ
resign_pause = 300

abbrev pub reset_settle : ℕ
reset_settle = 50

abbrev pub nonce_page_gap : ℕ
nonce_page_gap = 10

abbrev pub stale_ready_grace : ℕ
stale_ready_grace = 500

abbrev pub hid_get_report : ℕ
hid_get_report = 0x01

abbrev pub hid_set_report : ℕ
hid_set_report = 0x09

-- `REPORT_TYPE_FEATURE << 8 | id`
abbrev pub feature_value : ℕ → ℕ
feature_value id = 0x03 * 256 + id

-- The signer's pipe, and the statics that it shares with the console's core. Whatever the signer
-- side waits for, the console may make requests meanwhile, and nothing else touches the statics.
pub record Signing (ch : Channels) : Type 1 where
  pub host : Host
  pub open host use *
  pub shared : World → Shared ch
  pub store : Shared ch → World → World
  pub shared-store : (c : Shared ch) (w : World) → shared (store c w) ≡ c
  pub in_requests :
      (s : Setup) (buf : List ℕ) (w : World)
      → Requests ch (shared w) (shared (control_in s buf w).world)
  pub out_requests :
      (s : Setup) (buf : List ℕ) (w : World)
      → Requests ch (shared w) (shared (control_out s buf w).1)
  pub after_requests : (d : ℕ) (w : World) → Requests ch (shared w) (shared (after d w))

-- `NONCE` and `NONCE_REFUSED`: only the signer side uses them.
pub record Nonces : Type 0 where
  pub pages : List (List ℕ)
  pub refused : Bool

pub data Fetch : Type 0 where
  done page_lost not_ready out_of_fuel : Fetch

-- How the polling of F2 ends.
pub data Polled : Type 0 where
  is_ready : List ℕ → Polled
  timed_out out_of_fuel : Polled

-- What `get_feature` and `set_nonce` keep of a transfer's result.
abbrev pub received : Result ℕ PipeError → Option ℕ
received (ok n) = some n
received (err e) = none

abbrev pub is_ok {ℓ} : {A : Type ℓ} → Result A PipeError → Bool
is_ok (ok a) = true
is_ok (err e) = false

-- A transfer's answer (`None`: failed), the buffer and the world after it.
pub record Got (World : Type 0) : Type 0 where
  pub answer : Option ℕ
  pub buf : List ℕ
  pub world : World

abbrev pub zero_page : List ℕ
zero_page = replicate signature_len 0

-- The critical section that ends `fetch_signature`.
unfoldable pub publish : List ℕ → List (List ℕ) → State → State
publish state pages s = record s {
  ready_state = set state 1 s.nonce_id;
  signature = map (λ page. set page 1 s.nonce_id) pages;
  next_page = 0;
  ready = true;
}

-- `seen_signing |= ..`, which a failed GET leaves alone.
abbrev pub saw : {W : Type 0} → Bool → Got W → Bool
saw seen r = seen || is_some r.answer && (get_or r.buf 2 0 == state_signing)

module _ {ch : Channels} (env : Signing ch) (iface : ℕ) where
  open env use {World, now, control_in, control_out, after, shared, store}

  unfoldable pub get_feature : ℕ → List ℕ → World → Got World
  get_feature id buf w =
      let r =
        control_in (class_interface_in hid_get_report (feature_value id) iface (length buf)) buf
          w in
      record { answer = received r.result; buf = r.buf; world = r.world }

  unfoldable pub set_nonce : List ℕ → Action World Bool
  set_nonce bytes w =
      let (r, w') =
        control_out
          (class_interface_out hid_set_report (feature_value id_nonce) iface (length bytes)) bytes
          w in
      (is_ok r, w')

  unfoldable pub reset_signer : World → World
  reset_signer w = (get_feature id_reset (replicate reset_len 0) w).world

  -- `for attempt in 1..=SIGNER_PROBE_TRIES` with the attempts left
  unfoldable pub try_from : ℕ → List ℕ → Action World Bool
  try_from zero buf w = (false, w)
  try_from (suc left) buf w =
      let r = get_feature id_reset buf w in
      let c = shared r.world in
      let again =
        try_from left r.buf (if leb 1 left then after signer_probe_pause r.world else r.world) in
      if is_some r.answer
      then (true, store (record c { state = record c.state { reset = r.buf } }) r.world)
      else again

  unfoldable pub try_signer : Action World Bool
  try_signer w = try_from signer_probe_tries (replicate reset_len 0) w

  -- The loop over F2: `state` is the buffer, which a failed GET leaves as it finds it.
  unfoldable pub poll : ℕ → ℕ → List ℕ → Bool → Action World Polled
  poll zero start state seen w = (Polled.out_of_fuel, w)
  poll (suc fuel) start state seen w =
      let r = get_feature id_state state w in
      let seen' = saw seen r in
      let believed = seen' || leb stale_ready_grace (now r.world - start) in
      let rest = poll fuel start r.buf seen' (after signer_poll r.world) in
      if leb signer_timeout (now w - start)
      then (timed_out, w)
      else if is_some r.answer && (get_or r.buf 2 0 == state_ready) && believed
      then (is_ready r.buf, r.world)
      else rest

  -- The loop over the F1 pages, from page `i` on; `none`: a page was lost.
  unfoldable pub fetch_pages : ℕ → ℕ → Action World (Option (List (List ℕ)))
  fetch_pages zero i w = (some [], w)
  fetch_pages (suc left) i w =
      let r = get_feature id_signature zero_page w in
      let (rest, w') = fetch_pages left (i + 1) r.world in
      if is_some r.answer && (get_or r.buf 2 0 == i)
      then (Option.map (λ pages. r.buf ∷ pages) rest, w')
      else (none, r.world)

  unfoldable pub cache : List ℕ → Option (List (List ℕ)) × World → Fetch × World
  cache state (none, w) = (page_lost, w)
  cache state (some pages, w) =
      (Fetch.done, store (record (shared w) { state = publish state pages (shared w).state }) w)

  unfoldable pub after_poll : Polled × World → Fetch × World
  after_poll (timed_out, w) = (not_ready, w)
  after_poll (Polled.out_of_fuel, w) = (Fetch.out_of_fuel, w)
  after_poll (is_ready state, w) = cache state (fetch_pages signature_pages 0 w)

  unfoldable pub fetch_signature : ℕ → Action World Fetch
  fetch_signature fuel w = after_poll (poll fuel (now w) (replicate state_len 0) false w)

  -- The nonce pages, one SET F0 each, until one is refused.
  unfoldable pub send_pages : List (List ℕ) → Action World Bool
  send_pages [] w = (true, w)
  send_pages (page ∷ pages) w =
      let (taken, w') = set_nonce page w in
      let rest = send_pages pages (after nonce_page_gap w') in if taken then rest else (false, w')

  -- What comes before an attempt: nothing, or F3 and all nonce pages again.
  unfoldable pub resend : Bool → List (List ℕ) → Action World Bool
  resend false pages w = (true, w)
  resend true pages w = send_pages pages (after reset_settle (reset_signer (after resign_pause w)))

  -- `for attempt in 1..=SIGN_ATTEMPTS` with the attempts left; `again`: `attempt > 1 || resend`
  unfoldable pub sign_from : ℕ → ℕ → Bool → List (List ℕ) → World → World
  sign_from fuel zero again pages w = reset_signer w
  sign_from fuel (suc left) again pages w =
      let (sent, w') = resend again pages w in
      let (result, w'') = fetch_signature fuel w' in
      if sent
      then elim result [
        | done ↦ w''
        | page_lost ↦ sign_from fuel left true pages w''
        | not_ready ↦ reset_signer w''
        | out_of_fuel ↦ w''
      ]
      else w'

-- ===== src/Auth/Safety.antt =====
-- The invariant of `STATE` in src/auth.rs through everything the signer side does: probing a
-- signer, and acting on any console event, with any requests of the console in between.
use rp_wheel_bridge.Base.{
  ℕ, zero, suc, ◌≡◌, refl, ◌∙◌, List, [], ◌∷◌, Bool, true, false, if_intro, is_some, leb, length,
  replicate, if◌then◌else◌, get_elem?,
}
use rp_wheel_bridge.Platform.Channel.{Channels}
use rp_wheel_bridge.Auth.State.{State, Cmd, reset, nonce, id_reset, reset_len}
use rp_wheel_bridge.Auth.Console.{IsValid, Requests, none_yet, Requests-trans, Requests-IsValid}
use rp_wheel_bridge.Auth.Signer.{
  Signing, Fetch, page_lost, not_ready, get_feature, set_nonce, reset_signer, try_from, try_signer,
  signer_probe_pause, signer_probe_tries, send_pages, nonce_page_gap, resend, resign_pause,
  reset_settle, fetch_signature, sign_from, sign_attempts, Nonces, last_nonce_page,
}
use rp_wheel_bridge.Auth.Publish.{
  get_feature-Requests, length-get_feature, IsOutcome, fetch_signature-IsOutcome,
}
use rp_wheel_bridge.Auth.Handle.{sign, handle, handle_nonce, is_page}
use rp_wheel_bridge.Device.Packet

module _ {ch : Channels} (env : Signing ch) (iface : ℕ) where
  open env use {World, after, shared, store, shared-store, out_requests, after_requests}

  abbrev pub IsSafe : World → Type 0
  IsSafe w = IsValid (shared w).state

  by-Requests : {w v : World} → Requests ch (shared w) (shared v) → IsSafe w → IsSafe v
  by-Requests r h = Requests-IsValid ch r h

  set_nonce-Requests :
      (page : List ℕ) (w : World) → Requests ch (shared w) (shared (set_nonce env iface page w).1)
  unfolding set_nonce
  set_nonce-Requests page w = out_requests _ page w

  reset_signer-Requests : (w : World) → Requests ch (shared w) (shared (reset_signer env iface w))
  unfolding reset_signer
  reset_signer-Requests w = get_feature-Requests env iface id_reset _ w

  send_pages-Requests :
      (pages : List (List ℕ)) (w : World)
      → Requests ch (shared w) (shared (send_pages env iface pages w).1)
  unfolding send_pages
  send_pages-Requests [] w = none_yet
  send_pages-Requests (page ∷ pages) w =
      let sent = set_nonce-Requests page w in
      let w' = (set_nonce env iface page w).1 in
      if_intro (λ (m : Bool × World). Requests ch (shared w) (shared m.1)) _ _ _
        (λ _.
          Requests-trans ch (Requests-trans ch sent (after_requests nonce_page_gap w'))
            (send_pages-Requests pages (after nonce_page_gap w')))
        (λ _. sent)

  resend-Requests :
      (again : Bool) (pages : List (List ℕ)) (w : World)
      → Requests ch (shared w) (shared (resend env iface again pages w).1)
  unfolding resend
  resend-Requests false pages w = none_yet
  resend-Requests true pages w =
      let w1 = after resign_pause w in
      let w2 = reset_signer env iface w1 in
      Requests-trans ch
        (Requests-trans ch (after_requests resign_pause w)
          (Requests-trans ch (reset_signer-Requests w1) (after_requests reset_settle w2)))
        (send_pages-Requests pages (after reset_settle w2))

  pub fetch_signature-IsSafe :
      (fuel : ℕ) (w : World) → IsSafe w → IsSafe (fetch_signature env iface fuel w).1
  fetch_signature-IsSafe fuel w h =
      safe (fetch_signature env iface fuel w) (fetch_signature-IsOutcome env iface fuel w)
    where
      safe : (m : Fetch × World) → IsOutcome env iface w m → IsSafe m.1
      safe (Fetch.done, w') o = o.2 h
      safe (page_lost, w') o = by-Requests o h
      safe (not_ready, w') o = by-Requests o h
      safe (Fetch.out_of_fuel, w') o = by-Requests o h

  sign_from-IsSafe :
      (fuel left : ℕ) (again : Bool) (pages : List (List ℕ)) (w : World)
      → IsSafe w
      → IsSafe (sign_from env iface fuel left again pages w)
  unfolding sign_from
  sign_from-IsSafe fuel zero again pages w h = by-Requests (reset_signer-Requests w) h
  sign_from-IsSafe fuel (suc left) again pages w h =
      let w' = (resend env iface again pages w).1 in
      let h' : IsSafe w' = by-Requests (resend-Requests again pages w) h in
      let m = fetch_signature env iface fuel w' in
      let h'' : IsSafe m.1 = fetch_signature-IsSafe fuel w' h' in
      if_intro IsSafe (resend env iface again pages w).0 _ _
        (λ _. next m.0 m.1 h'' (sign_from-IsSafe fuel left true pages m.1 h'')) (λ _. h')
    where
      next :
          (r : Fetch) (v : World)
          → IsSafe v
          → IsSafe (sign_from env iface fuel left true pages v)
          → IsSafe (elim r [
            | Fetch.done ↦ v
            | page_lost ↦ sign_from env iface fuel left true pages v
            | not_ready ↦ reset_signer env iface v
            | Fetch.out_of_fuel ↦ v
          ])
      next Fetch.done v hv again_safe = hv
      next page_lost v hv again_safe = again_safe
      next not_ready v hv again_safe = by-Requests (reset_signer-Requests v) hv
      next Fetch.out_of_fuel v hv again_safe = hv

  handle_nonce-IsSafe :
      (fuel : ℕ) (page : List ℕ) (s : Nonces) (w : World)
      → IsSafe w
      → IsSafe (handle_nonce env iface fuel page s w).1
  unfolding handle_nonce sign
  handle_nonce-IsSafe fuel page s w h =
      let safe : IsSafe (set_nonce env iface page w).1 =
        by-Requests (set_nonce-Requests page w) h in
      if_intro (λ (m : Nonces × World). IsSafe m.1) (is_page (get_elem? page 2) last_nonce_page) _ _
        (λ _. sign_from-IsSafe fuel sign_attempts _ _ (set_nonce env iface page w).1 safe)
        (λ _. safe)

  -- Whatever event of the console the signer side acts on, and whatever the console requests in the
  -- meantime, `STATE` stays well formed: a signature that is offered is complete, its pages are
  -- numbered in order and carry the console's nonce id, and the next page lies within it.
  pub handle-IsValid :
      (fuel : ℕ) (cmd : Cmd) (s : Nonces) (w : World)
      → IsValid (shared w).state
      → IsValid (shared (handle env iface fuel cmd s w).1).state
  unfolding handle
  handle-IsValid fuel reset s w h = by-Requests (reset_signer-Requests w) h
  handle-IsValid fuel (nonce packet) s w h = handle_nonce-IsSafe fuel (Packet.bytes packet) s w h

  abbrev IsTried : World → Bool × World → Type 0
  IsTried w (answered, w') =
      (IsSafe w → IsSafe w') × (answered ≡ false → Requests ch (shared w) (shared w'))

  IsTried-trans :
      {w v : World} (m : Bool × World)
      → Requests ch (shared w) (shared v)
      → IsTried v m
      → IsTried w m
  IsTried-trans (b, w') r t = (λ h. t.0 (by-Requests r h), λ e. Requests-trans ch r (t.1 e))

  reset-IsValid :
      (buf : List ℕ) (s : State)
      → length buf ≡ reset_len
      → IsValid s
      → IsValid (record s { reset = buf })
  reset-IsValid buf s len v = record {
    reset_length = len;
    ready_length = v.ready_length;
    page_count = v.page_count;
    page_lengths = v.page_lengths;
    next_in_range = v.next_in_range;
    ready_state_lem = v.ready_state_lem;
    pages = v.pages;
  }

  try_from-IsTried :
      (left : ℕ) (buf : List ℕ) (w : World)
      → length buf ≡ reset_len
      → IsTried w (try_from env iface left buf w)
  unfolding try_from
  try_from-IsTried zero buf w len = (λ h. h, λ e. none_yet)
  try_from-IsTried (suc left) buf w len =
      let r = get_feature env iface id_reset buf w in
      let got = get_feature-Requests env iface id_reset buf w in
      let len' : length r.buf ≡ reset_len = length-get_feature env iface id_reset buf w ∙ len in
      let v = if leb 1 left then after signer_probe_pause r.world else r.world in
      let waited : Requests ch (shared w) (shared v) =
        if_intro (λ u. Requests ch (shared w) (shared u)) (leb 1 left) _ _
          (λ _. Requests-trans ch got (after_requests signer_probe_pause r.world)) (λ _. got) in
      let c = shared r.world in
      if_intro (IsTried w) (is_some r.answer) _ _
        (λ _. (
          λ h.
              rw (shared-store (record c { state = record c.state { reset = r.buf } }) r.world)
                (reset-IsValid r.buf c.state len' (by-Requests got h)),
          λ e. cc,
        ))
        (λ _.
          IsTried-trans (try_from env iface left r.buf v) waited
            (try_from-IsTried left r.buf v len'))

  -- Probing a device keeps `STATE` well formed; a device that gives no F3 in five tries changes
  -- nothing, the statics then differing by the console's requests alone.
  pub try_signer-IsValid :
      (w : World)
      → IsValid (shared w).state
      → let (answered, w') = try_signer env iface w in
        IsValid (shared w').state × (answered ≡ false → Requests ch (shared w) (shared w'))
  unfolding try_signer
  try_signer-IsValid w h =
      let t = try_from-IsTried signer_probe_tries (replicate reset_len 0) w refl in (t.0 h, t.1)

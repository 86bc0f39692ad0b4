-- ===== src/Auth/Handle.antt =====
-- `handle` and `serve` of src/auth.rs: one console event, acted on by the signer side.
use rp_wheel_bridge.Base.{
  ℕ, List, Bool, false, not, ◌&&◌, ◌||◌, Option, none, some, ◌==◌, ltb, if◌then◌else◌, length,
  get_elem?, set, replicate,
}
use rp_wheel_bridge.Platform.Channel.{Channels}
use rp_wheel_bridge.Device.Packet
use rp_wheel_bridge.Auth.State.{Cmd, reset, nonce}
use rp_wheel_bridge.Auth.Signer.{
  Signing, Nonces, nonce_len, nonce_pages, last_nonce_page, sign_attempts, set_nonce, reset_signer,
  sign_from,
}

-- The initial values of `NONCE` and `NONCE_REFUSED`.
abbrev pub no_nonces : Nonces
no_nonces = record { pages = replicate nonce_pages (replicate nonce_len 0); refused = false }

-- `if let Some(&n) = data.get(2) && n < NONCE_PAGES && data.len() == NONCE_LEN`
unfoldable pub keep_page : Option ℕ → List ℕ → List (List ℕ) → List (List ℕ)
keep_page none page pages = pages
keep_page (some n) page pages =
    if ltb n nonce_pages && (length page == nonce_len) then set pages n page else pages

-- `data.get(2) == Some(&n)`
abbrev pub is_page : Option ℕ → ℕ → Bool
is_page none n = false
is_page (some m) n = m == n

module _ {ch : Channels} (env : Signing ch) (iface fuel : ℕ) where
  open env use {World, shared, store}
  open ch use {try_receive, clear}

  unfoldable pub sign : Bool → List (List ℕ) → World → World
  sign resend pages w = sign_from env iface fuel sign_attempts resend pages w

  unfoldable pub handle_nonce : List ℕ → Nonces → World → Nonces × World
  handle_nonce page s w =
      let number = get_elem? page 2 in
      let pages = keep_page number page s.pages in
      let (taken, w') = set_nonce env iface page w in
      let refused = s.refused || not taken in
      let signed = sign refused pages w' in
      if is_page number last_nonce_page
      then (record { pages = pages; refused = false }, signed)
      else (record { pages = pages; refused = if is_page number 0 then false else refused }, w')

  unfoldable pub handle : Cmd → Nonces → World → Nonces × World
  handle reset s w = (s, reset_signer env iface w)
  handle (nonce packet) s w = handle_nonce (Packet.bytes packet) s w

  -- `serve` drops what was queued before there was a signer, ..
  unfoldable pub serve_start : World → World
  serve_start w = let c = shared w in store (record c { cmds = clear c.cmds }) w

  -- .. and then acts on one event after another; with none queued it waits.
  unfoldable pub serve_round : Nonces → World → Nonces × World
  serve_round s w =
      let c = shared w in
      elim (try_receive c.cmds) [
        | none ↦ (s, w)
        | some (cmd, q) ↦ handle cmd s (store (record c { cmds = q }) w)
      ]

-- ===== src/Auth/Nonce.antt =====
-- The nonce pages on the signer side of src/auth.rs: what is kept to sign again, and what becomes
-- of a page that the signer refuses.
use rp_wheel_bridge.Base.{
  ℕ, ◌<◌, ◌≡◌, refl, ap, List, [], ◌∷◌, false, not, ◌||◌, some, ◌==◌, if◌then◌else◌, length,
  get_elem?, set, arith,
}
use rp_wheel_bridge.Platform.Channel.{Channels}
use rp_wheel_bridge.Auth.Signer.{
  Signing, Nonces, nonce_len, nonce_pages, last_nonce_page, set_nonce,
}
use rp_wheel_bridge.Auth.Handle.{handle_nonce, keep_page, sign}

-- A nonce page as the protocol has it: 64 bytes, its number in byte 2.
pub record IsNoncePage (n : ℕ) (page : List ℕ) : Type 0 where
  pub whole : length page ≡ nonce_len
  pub numbered : get_elem? page 2 ≡ some n

module _ {ch : Channels} (env : Signing ch) (iface fuel : ℕ) where
  open env use {World}

  -- A nonce page replaces the kept page of its number and no other, whether the signer takes it
  -- or not.
  pub handle_nonce-pages :
      (n : ℕ) (page : List ℕ) (s : Nonces) (w : World)
      → IsNoncePage n page
      → n < nonce_pages
      → (handle_nonce env iface fuel page s w).0.pages ≡ set s.pages n page
  unfolding handle_nonce keep_page
  handle_nonce-pages n page s w p lt = ground (arith, p.numbered, p.whole)

  -- Whether a refusal is remembered: a page 1 to 3 that the signer refuses marks the nonce to be
  -- sent again, and a page taken leaves the mark as it is; but page 0 clears the mark also when the
  -- signer has just refused this very page, and so a refused page 0 is never sent again before the
  -- first attempt to sign.
  pub handle_nonce-refused :
      (n : ℕ) (page : List ℕ) (s : Nonces) (w : World)
      → IsNoncePage n page
      → n < last_nonce_page
      → (handle_nonce env iface fuel page s w).0.refused
        ≡ (if n == 0 then false else s.refused || not (set_nonce env iface page w).0)
  unfolding handle_nonce
  handle_nonce-refused n page s w p lt = ground (arith, p.numbered)

  -- The last page starts the signing, with all pages sent again if one was refused, and clears
  -- the mark for the next nonce.
  pub handle_nonce-last :
      (page : List ℕ) (s : Nonces) (w : World)
      → IsNoncePage last_nonce_page page
      → let (taken, w') = set_nonce env iface page w in
        handle_nonce env iface fuel page s w ≡ (
          record { pages = set s.pages last_nonce_page page; refused = false },
          sign env iface fuel (s.refused || not taken) (set s.pages last_nonce_page page) w',
        )
  unfolding handle_nonce keep_page
  handle_nonce-last page s w p = ground (arith, p.numbered, p.whole)

set_all :
    (xs : List (List ℕ)) (a b c d e : List ℕ)
    → length xs ≡ nonce_pages
    → set (set (set (set (set xs 0 a) 1 b) 2 c) 3 d) 4 e ≡ a ∷ b ∷ c ∷ d ∷ e ∷ []
set_all (u ∷ v ∷ x ∷ y ∷ z ∷ []) a b c d e h = refl
set_all [] a b c d e h = absurd (omega arith)
set_all (u ∷ []) a b c d e h = absurd (omega arith)
set_all (u ∷ v ∷ []) a b c d e h = absurd (omega arith)
set_all (u ∷ v ∷ x ∷ []) a b c d e h = absurd (omega arith)
set_all (u ∷ v ∷ x ∷ y ∷ []) a b c d e h = absurd (omega arith)
set_all (u ∷ v ∷ x ∷ y ∷ z ∷ t ∷ ts) a b c d e h = absurd (omega arith)

module _ {ch : Channels} (env : Signing ch) (iface fuel : ℕ) where
  open env use {World}

  -- The signer side's nonce pages, one after another.
  abbrev pub handle_pages : List (List ℕ) → Nonces → World → Nonces × World
  handle_pages [] s w = (s, w)
  handle_pages (page ∷ pages) s w =
      let (s', w') = handle_nonce env iface fuel page s w in handle_pages pages s' w'

  -- When the five pages of a nonce have come, in order, the signer side holds exactly that nonce,
  -- with no page of an earlier one, and no refusal is left over for the next.
  pub handle_pages_lem :
      (a b c d e : List ℕ) (s : Nonces) (w : World)
      → length s.pages ≡ nonce_pages
      → IsNoncePage 0 a
      → IsNoncePage 1 b
      → IsNoncePage 2 c
      → IsNoncePage 3 d
      → IsNoncePage 4 e
      → (handle_pages (a ∷ b ∷ c ∷ d ∷ e ∷ []) s w).0
        ≡ record { pages = a ∷ b ∷ c ∷ d ∷ e ∷ []; refused = false }
  handle_pages_lem a b c d e s w len pa pb pc pd pe =
      rw (handle_nonce-last env iface fuel e s4.0 s4.1 pe)
        (ap (λ k. record { pages = k; refused = false }) kept)
    where
      s1 : Nonces × World
      s1 = handle_nonce env iface fuel a s w

      s2 : Nonces × World
      s2 = handle_nonce env iface fuel b s1.0 s1.1

      s3 : Nonces × World
      s3 = handle_nonce env iface fuel c s2.0 s2.1

      s4 : Nonces × World
      s4 = handle_nonce env iface fuel d s3.0 s3.1

      kept : set s4.0.pages 4 e ≡ a ∷ b ∷ c ∷ d ∷ e ∷ []
      kept =
          rw
            (
              handle_nonce-pages env iface fuel 3 d s3.0 s3.1 pd (omega arith),
              handle_nonce-pages env iface fuel 2 c s2.0 s2.1 pc (omega arith),
              handle_nonce-pages env iface fuel 1 b s1.0 s1.1 pb (omega arith),
              handle_nonce-pages env iface fuel 0 a s w pa (omega arith),
            )
            (set_all s.pages a b c d e len)

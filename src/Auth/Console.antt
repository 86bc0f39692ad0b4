-- ===== src/Auth/Console.antt =====
-- What the console can do to the statics of src/auth.rs between two moments, in any order and
-- number of requests, and the invariant of `STATE` that it keeps.
use rp_wheel_bridge.Base.{ℕ, ◌≤◌, ◌<◌, ◌≡◌, refl, List, [], true, length, get_or, All, arith}
use rp_wheel_bridge.Platform.Channel.{Channels}
use rp_wheel_bridge.Auth.State.{
  State, Shared, initial, get_report, set_report, reset_len, state_len, signature_len,
  signature_pages, state_ready,
}

-- A signature page carries the console's nonce id and its own number.
abbrev pub IsPage : ℕ → ℕ → List ℕ → Type 0
IsPage nonce_id i page = (get_or page 1 0 ≡ nonce_id) × (get_or page 2 0 ≡ i)

pub record IsValid (s : State) : Type 0 where
  pub reset_length : length s.reset ≡ reset_len
  pub ready_length : length s.ready_state ≡ state_len
  pub page_count : length s.signature ≡ signature_pages
  pub page_lengths : All (λ p. length p ≡ signature_len) s.signature
  pub next_in_range : s.next_page ≤ signature_pages
  pub ready_state_lem :
      s.ready ≡ true
      → (get_or s.ready_state 1 0 ≡ s.nonce_id) × (get_or s.ready_state 2 0 ≡ state_ready)
  pub pages :
      s.ready ≡ true → (i : ℕ) → i < signature_pages → IsPage s.nonce_id i (get_or s.signature i [])

pub initial-IsValid : IsValid initial
unfolding initial
initial-IsValid = record {
  reset_length = refl;
  ready_length = refl;
  page_count = refl;
  page_lengths = ground arith;
  next_in_range = omega arith;
  ready_state_lem = λ h. cc;
  pages = λ h. cc;
}

module _ (ch : Channels) where
  -- Requests of the console lead from `c` to another value of the statics.
  pub data Requests (c : Shared ch) : Shared ch → Type 0 where
    none_yet : Requests c c
    get :
        {d : Shared ch}
        → Requests c d
        → (id : ℕ) (buf : List ℕ) → Requests c (get_report ch id buf d).shared
    put :
        {d : Shared ch}
        → Requests c d
        → (id : ℕ) (bytes : List ℕ) → Requests c (set_report ch id bytes d).1

  get_report-IsValid :
      (id : ℕ) (buf : List ℕ) (c : Shared ch)
      → IsValid c.state
      → IsValid (get_report ch id buf c).shared.state
  unfolding get_report
  get_report-IsValid id buf c v = grind (arith, v.pages)

  set_report-IsValid :
      (id : ℕ) (bytes : List ℕ) (c : Shared ch)
      → IsValid c.state
      → IsValid (set_report ch id bytes c).1.state
  unfolding set_report
  set_report-IsValid id bytes c v = grind (arith, v.pages)

  pub Requests-IsValid : {c d : Shared ch} → Requests c d → IsValid c.state → IsValid d.state
  Requests-IsValid none_yet v = v
  Requests-IsValid (get {d} r id buf) v = get_report-IsValid id buf d (Requests-IsValid r v)
  Requests-IsValid (put {d} r id bytes) v = set_report-IsValid id bytes d (Requests-IsValid r v)

  pub Requests-trans : {a b c : Shared ch} → Requests a b → Requests b c → Requests a c
  Requests-trans r none_yet = r
  Requests-trans r (get s id buf) = get (Requests-trans r s) id buf
  Requests-trans r (put s id bytes) = put (Requests-trans r s) id bytes

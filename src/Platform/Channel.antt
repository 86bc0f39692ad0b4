-- ===== src/Platform/Channel.antt =====
-- `embassy_sync::channel::Channel`: a bounded queue, first in first out, whose `try_send` fails
-- when it is full. Each static channel of src/device.rs and src/auth.rs is a value of `Queue`.
use native.Mathlib.Decide.{dec_lt}
use mathlib.Core.Logic.{◌⊎◌, inl, inr}
use rp_wheel_bridge.Base.{
  ℕ, ◌≤◌, ◌<◌, ◌≡◌, refl, List, [], ◌∷◌, ◌++◌, Option, none, some, length, ltb, if◌then◌else◌,
  arith,
}

pub record Channels : Type 1 where
  pub Queue : Type 0 → ℕ → Type 0
  pub items : {A : Type 0} {cap : ℕ} → Queue A cap → List A
  pub try_send : {A : Type 0} {cap : ℕ} → A → Queue A cap → Option (Queue A cap)
  -- `none`: the receiver waits.
  pub try_receive : {A : Type 0} {cap : ℕ} → Queue A cap → Option (A × Queue A cap)
  pub clear : {A : Type 0} {cap : ℕ} → Queue A cap → Queue A cap
  pub send_fits :
      {A : Type 0} {cap : ℕ} (a : A) (q : Queue A cap)
      → length (items q) < cap
      → (q' : Queue A cap) × (try_send a q ≡ some q') × (items q' ≡ items q ++ a ∷ [])
  pub send_full :
      {A : Type 0} {cap : ℕ} (a : A) (q : Queue A cap)
      → cap ≤ length (items q)
      → try_send a q ≡ none
  pub receive_empty : {A : Type 0} {cap : ℕ} (q : Queue A cap) → items q ≡ [] → try_receive q ≡ none
  pub receive_head :
      {A : Type 0} {cap : ℕ} (q : Queue A cap) (a : A) (rest : List A)
      → items q ≡ a ∷ rest
      → (q' : Queue A cap) × (try_receive q ≡ some (a, q')) × (items q' ≡ rest)
  pub clear_items : {A : Type 0} {cap : ℕ} (q : Queue A cap) → items (clear q) ≡ []

-- A list of at most `cap` items meets the description.
abbrev fifo_send : {A : Type 0} → ℕ → A → List A → Option (List A)
fifo_send cap a q = if ltb (length q) cap then some (q ++ a ∷ []) else none

abbrev fifo_receive : {A : Type 0} → List A → Option (A × List A)
fifo_receive [] = none
fifo_receive (a ∷ q) = some (a, q)

pub fifo_send_fits :
    {A : Type 0} (cap : ℕ) (a : A) (q : List A)
    → length q < cap
    → (q' : List A) × (fifo_send cap a q ≡ some q') × (q' ≡ q ++ a ∷ [])
fifo_send_fits cap a q h = (q ++ a ∷ [], ground arith, refl)

pub fifo_send_full :
    {A : Type 0} (cap : ℕ) (a : A) (q : List A) → cap ≤ length q → fifo_send cap a q ≡ none
fifo_send_full cap a q h = ground arith

pub fifo_receive_empty : {A : Type 0} (q : List A) → q ≡ [] → fifo_receive q ≡ none
fifo_receive_empty q h = ground arith

pub fifo_receive_head :
    {A : Type 0} (q : List A) (a : A) (rest : List A)
    → q ≡ a ∷ rest
    → (q' : List A) × (fifo_receive q ≡ some (a, q')) × (q' ≡ rest)
fifo_receive_head q a rest h = (rest, ground arith, refl)

abbrev pub fifo : Channels
fifo = record {
  Queue = λ A cap. List A;
  items = λ q. q;
  try_send = λ {A} {cap} a q. fifo_send cap a q;
  try_receive = λ q. fifo_receive q;
  clear = λ q. [];
  send_fits = λ {A} {cap} a q h. fifo_send_fits cap a q h;
  send_full = λ {A} {cap} a q h. fifo_send_full cap a q h;
  receive_empty = λ q h. fifo_receive_empty q h;
  receive_head = λ q a rest h. fifo_receive_head q a rest h;
  clear_items = λ q. refl;
}

module _ (ch : Channels) {A : Type 0} {cap : ℕ} where
  open ch use {Queue, items, try_send, send_fits, send_full}

  -- A send either puts the item behind the others or fails on a full queue.
  pub try_send-cases :
      (a : A) (q : Queue A cap)
      → ((length (items q) < cap)
          × ((q' : Queue A cap) × (try_send a q ≡ some q') × (items q' ≡ items q ++ a ∷ [])))
        ⊎ ((cap ≤ length (items q)) × (try_send a q ≡ none))
  try_send-cases a q = elim (dec_lt (length (items q)) cap) [
    | yes h ↦ inl (h, send_fits a q h)
    | no h ↦ let full : cap ≤ length (items q) = omega arith in inr (full, send_full a q full)
  ]

-- ===== src/UartLog/Accounts.antt =====
-- How the lines of the log of src/uart_log.rs account for the records.
use mathlib.Core.List.{append_assoc}
use rp_wheel_bridge.Base.{
  ℕ, suc, ◌≤◌, ◌≡◌, refl, ap, ◌∙◌, List, [], ◌∷◌, ◌++◌, length, length-append, arith,
}

-- A record that went out: its text and the number of those dropped before it.
abbrev pub Entry : Type 0
Entry = ℕ × List (List ℕ)

-- The records `rs` are, in their order: for each entry as many that were dropped as it says, and
-- its own; and then `pending` that were dropped.
abbrev pub Accounts : List Entry → ℕ → List (List (List ℕ)) → Type 0
Accounts [] pending rs = length rs ≡ pending
Accounts ((dropped, texts) ∷ es) pending rs =
    (lost rest : List (List (List ℕ))) × (rs ≡ lost ++ texts ∷ rest)
    × (length lost ≡ dropped)
    × Accounts es pending rest

pub Accounts-lost :
    (es : List Entry) (pending : ℕ) (rs : List (List (List ℕ))) (texts : List (List ℕ))
    → Accounts es pending rs
    → Accounts es (suc pending) (rs ++ texts ∷ [])
Accounts-lost [] pending rs texts h = omega (arith, length-append rs (texts ∷ []), h)
Accounts-lost ((dropped, t) ∷ es) pending rs texts (lost, rest, split, count, h) = (
  lost,
  rest ++ texts ∷ [],
  ap (λ k. k ++ texts ∷ []) split ∙ append_assoc lost (t ∷ rest) (texts ∷ []),
  count,
  Accounts-lost es pending rest texts h,
)

pub Accounts-sent :
    (es : List Entry) (pending : ℕ) (rs : List (List (List ℕ))) (texts : List (List ℕ))
    → Accounts es pending rs
    → Accounts (es ++ (pending, texts) ∷ []) 0 (rs ++ texts ∷ [])
Accounts-sent [] pending rs texts h = (rs, [], refl, h, refl)
Accounts-sent ((dropped, t) ∷ es) pending rs texts (lost, rest, split, count, h) = (
  lost,
  rest ++ texts ∷ [],
  ap (λ k. k ++ texts ∷ []) split ∙ append_assoc lost (t ∷ rest) (texts ∷ []),
  count,
  Accounts-sent es pending rest texts h,
)

-- No more are pending than there are records.
pub Accounts-le :
    (es : List Entry) (pending : ℕ) (rs : List (List (List ℕ)))
    → Accounts es pending rs
    → pending ≤ length rs
Accounts-le [] pending rs h = omega (arith, h)
Accounts-le ((dropped, t) ∷ es) pending rs (lost, rest, split, count, h) =
    omega (arith, ap length split, length-append lost (t ∷ rest), Accounts-le es pending rest h)

-- ===== src/Base/Thinned.antt =====
-- Lists without some of their elements, counted.
use Prim.Native.Nat.{ℕ, suc, ◌≤◌}
use mathlib.Core.List.{List, [], ◌∷◌, ◌++◌}
use native.Mathlib.Omega.{arith}
use rp_wheel_bridge.Base.Lists.{length, length-append}

module _ {ℓ} {A : Type ℓ} where
  -- `kept` is `all` without `n` of its elements.
  pub data IsThinned : List A → List A → ℕ → Type ℓ where
    none_yet : IsThinned [] [] 0
    keeps :
        {kept all : List A} {n : ℕ}
        → IsThinned kept all n
        → (a : A) → IsThinned (kept ++ a ∷ []) (all ++ a ∷ []) n
    drops :
        {kept all : List A} {n : ℕ}
        → IsThinned kept all n
        → (a : A) → IsThinned kept (all ++ a ∷ []) (suc n)

  pub IsThinned-le : {kept all : List A} {n : ℕ} → IsThinned kept all n → n ≤ length all
  IsThinned-le none_yet = omega arith
  IsThinned-le (keeps {all = all} h a) = omega (arith, IsThinned-le h, length-append all (a ∷ []))
  IsThinned-le (drops {all = all} h a) = omega (arith, IsThinned-le h, length-append all (a ∷ []))

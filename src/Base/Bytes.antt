-- ===== src/Base/Bytes.antt =====
-- Bytes and 16-bit words as native numbers, and properties of a byte checked on all 256 values.
use Prim.Native.Nat.{ℕ, zero, suc, ◌+◌, ◌*◌, ◌/◌, ◌%◌, ◌^◌, ◌<◌, ◌≤◌}
use mathlib.Core.Path.{◌≡◌}
use mathlib.Core.Logic.{inl, inr}
use mathlib.Core.Bool.{Bool, true, false, ◌&&◌}
use mathlib.Core.List.{List, [], ◌∷◌}
use native.Mathlib.Omega.{arith}
use rp_wheel_bridge.Base.Tests.{Bool-cases, ◌==◌}
use rp_wheel_bridge.Base.Lists.{All}

-- `x as u8`, `x as u16` and the wrap of `u32` arithmetic.
abbrev pub u8 : ℕ → ℕ
u8 n = n % 2 ^ 8

abbrev pub u16 : ℕ → ℕ
u16 n = n % 2 ^ 16

abbrev pub u32 : ℕ → ℕ
u32 n = n % 2 ^ 32

abbrev pub IsByte : ℕ → Type 0
IsByte b = b < 256

abbrev pub AllBytes : List ℕ → Type 0
AllBytes = All IsByte

-- `u16::from_le_bytes([lo, hi])`
abbrev pub le16 : ℕ → ℕ → ℕ
le16 lo hi = lo + 256 * hi

-- `v.to_le_bytes()` of a `u16`
abbrev pub le_bytes16 : ℕ → List ℕ
le_bytes16 v = v % 256 ∷ (v / 256 % 256) ∷ []

-- Equality of byte slices, `a == b`.
unfoldable pub beq_bytes : List ℕ → List ℕ → Bool
beq_bytes [] [] = true
beq_bytes [] (y ∷ ys) = false
beq_bytes (x ∷ xs) [] = false
beq_bytes (x ∷ xs) (y ∷ ys) = x == y && beq_bytes xs ys

-- Whether a test holds of the `left` numbers from `lo` on, by running it on each.
unfoldable pub every : (ℕ → Bool) → ℕ → ℕ → Bool
every test zero lo = true
every test (suc left) lo = test lo && every test left (lo + 1)

every-holds :
    (test : ℕ → Bool) (left lo : ℕ) {x : ℕ}
    → every test left lo ≡ true
    → lo ≤ x
    → x < lo + left
    → test x ≡ true
unfolding every
every-holds test zero lo run ge lt = absurd (omega arith)
every-holds test (suc left) lo {x} run ge lt = elim (Bool-cases (lo == x)) [
  | inl here ↦ ground arith
  | inr later ↦ every-holds test left (lo + 1) (ground arith) (ground arith) (omega arith)
]

abbrev pub every_byte : (ℕ → Bool) → Bool
every_byte test = every test 256 0

-- A test that passes on all 256 bytes holds of a byte.
pub every_byte_lem : (test : ℕ → Bool) (b : ℕ) → every_byte test ≡ true → IsByte b → test b ≡ true
every_byte_lem test b run lt = every-holds test 256 0 run (omega arith) (omega arith)

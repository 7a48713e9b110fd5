-- ===== src/Base/Bits/Digits.antt =====
-- The native `&` and `|` stand for a recursion over binary digits with fuel; here is its equation
-- for the lowest digit, without the fuel.
use Prim.Native.Nat.{min, max, digits, bitwise, bit_and, bit_or, bit_and-bitwise, bit_or-bitwise}
use Prim.Native.Nat.{ℕ, zero, suc, ◌+◌, ◌*◌, ◌/◌, ◌%◌, ◌≤◌, ◌<◌}
use mathlib.Core.Path.{◌≡◌, refl}
use native.Mathlib.Nat.{le_refl}
use native.Mathlib.Omega.{arith}

module _ (base : ℕ → ℕ) (op : ℕ → ℕ → ℕ) where
  enough : (n m a b : ℕ) → a ≤ n → a ≤ m → digits base op n a b ≡ digits base op m a b
  enough zero zero a b h k = refl
  enough zero (suc m) zero b h k = refl
  enough zero (suc m) (suc a) b h k = absurd (omega arith)
  enough (suc n) zero zero b h k = refl
  enough (suc n) zero (suc a) b h k = absurd (omega arith)
  enough (suc n) (suc m) zero b h k = refl
  enough (suc n) (suc m) (suc a) b h k =
      rw (enough n m (suc a / 2) (b / 2) (omega arith) (omega arith))

  one_digit :
      (a b : ℕ)
      → bitwise base op (suc a) b ≡ bitwise base op (suc a / 2) (b / 2) * 2 + op (suc a % 2) (b % 2)
  one_digit a b = omega (arith, enough a (suc a / 2) (suc a / 2) (b / 2) (omega arith) (le_refl _))

pub bit_or_digit : (a b : ℕ) → bit_or a b ≡ bit_or (a / 2) (b / 2) * 2 + max (a % 2) (b % 2)
bit_or_digit zero b = simp bit_or-bitwise (omega arith)
bit_or_digit (suc a) b = simp bit_or-bitwise (one_digit (λ y. y) max a b)

pub bit_and_digit : (a b : ℕ) → bit_and a b ≡ bit_and (a / 2) (b / 2) * 2 + min (a % 2) (b % 2)
bit_and_digit zero b = simp bit_and-bitwise (omega arith)
bit_and_digit (suc a) b = simp bit_and-bitwise (one_digit (λ y. 0) min a b)

-- A mask of nothing, with fuel for the value.
pub and_none : (fuel a : ℕ) → a < suc fuel → bit_and a 0 ≡ 0
and_none fuel zero h = refl
and_none zero (suc a) h = absurd (omega arith)
and_none (suc fuel) (suc a) h =
    omega (arith, bit_and_digit (suc a) 0, and_none fuel (suc a / 2) (omega arith))

pub none_or : (b : ℕ) → bit_or 0 b ≡ b
none_or b = bit_or-bitwise 0 b

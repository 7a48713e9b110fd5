-- ===== src/Base/Bits/Single.antt =====
-- Single bits of a word, and what `&`, `|` and `~` do to them.
use nycu_advanced_unix_progr.Base.Bits.Digits.{bit_or_digit, bit_and_digit, and_none}
use nycu_advanced_unix_progr.Base.Tests.{◌==◌, if◌then◌else◌}
use Prim.Native.Nat.{ℕ, zero, suc, ◌-◌, ◌*◌, ◌/◌, ◌%◌, ◌^◌, ◌<◌, bit_and, bit_or, min, max}
use mathlib.Core.Path.{◌≡◌, refl, ap, ◌∙◌}
use native.Mathlib.Nat.{pow-suc}
use native.Mathlib.Omega.{arith}

-- Bit k of a word.
abbrev pub bit : ℕ → ℕ → ℕ
bit zero a = a % 2
bit (suc k) a = bit k (a / 2)

pub bit-lt : (k a : ℕ) → bit k a < 2
bit-lt zero a = omega arith
bit-lt (suc k) a = bit-lt k (a / 2)

pub bit-bit_and : (k a b : ℕ) → bit k (bit_and a b) ≡ min (bit k a) (bit k b)
bit-bit_and zero a b = omega (arith, bit_and_digit a b)
bit-bit_and (suc k) a b =
    let half : bit_and a b / 2 ≡ bit_and (a / 2) (b / 2) = omega (arith, bit_and_digit a b) in
    ap (bit k) half ∙ bit-bit_and k (a / 2) (b / 2)

pub bit-bit_or : (k a b : ℕ) → bit k (bit_or a b) ≡ max (bit k a) (bit k b)
bit-bit_or zero a b = omega (arith, bit_or_digit a b)
bit-bit_or (suc k) a b =
    let half : bit_or a b / 2 ≡ bit_or (a / 2) (b / 2) = omega (arith, bit_or_digit a b) in
    ap (bit k) half ∙ bit-bit_or k (a / 2) (b / 2)

bit-zero : (k : ℕ) → bit k 0 ≡ 0
bit-zero zero = refl
bit-zero (suc k) = bit-zero k

pub bit-pow : (k j : ℕ) → bit k (2 ^ j) ≡ (if k == j then 1 else 0)
bit-pow zero zero = refl
bit-pow zero (suc j) = ground (arith, pow-suc 2 j)
bit-pow (suc k) zero = ground (arith, bit-zero k)
bit-pow (suc k) (suc j) =
    let half : 2 ^ suc j / 2 ≡ 2 ^ j = omega (arith, pow-suc 2 j) in
    ap (bit k) half ∙ bit-pow k j ∙ ground arith

-- `~a` on a word of n bits.
pub bit_not : (n k a : ℕ) → k < n → a < 2 ^ n → bit k (2 ^ n - 1 - a) ≡ 1 - bit k a
bit_not zero k a h l = elim h [ ]
bit_not (suc n) zero a h l = omega (arith, pow-suc 2 n)
bit_not (suc n) (suc k) a h l =
    let half : (2 ^ suc n - 1 - a) / 2 ≡ 2 ^ n - 1 - a / 2 = omega (arith, pow-suc 2 n) in
    ap (bit k) half ∙ bit_not n k (a / 2) (omega arith) (omega (arith, pow-suc 2 n))

-- `a & (1 << k)`.
pub bit_and-pow : (k a : ℕ) → bit_and a (2 ^ k) ≡ bit k a * 2 ^ k
bit_and-pow zero a = omega (arith, bit_and_digit a 1, and_none (a / 2) (a / 2) (omega arith))
bit_and-pow (suc k) a =
    let half : 2 ^ suc k / 2 ≡ 2 ^ k = omega (arith, pow-suc 2 k) in
    let low : 2 ^ suc k % 2 ≡ 0 = omega (arith, pow-suc 2 k) in
    let rest : bit_and (a / 2) (2 ^ suc k / 2) ≡ bit k (a / 2) * 2 ^ k =
      ap (bit_and (a / 2)) half ∙ bit_and-pow k (a / 2) in
    omega
      (arith, bit_and_digit a (2 ^ suc k), rest, ap (λ (p : ℕ). bit k (a / 2) * p) (pow-suc 2 k))

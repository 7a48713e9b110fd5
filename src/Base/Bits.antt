-- ===== src/Base/Bits.antt =====
-- `&` and `|` on words as arithmetic: the masks by which the debugger keeps the upper bytes of a
-- word and replaces its lowest byte.
pub mod Digits
pub mod Single
use Digits.{bit_or_digit, bit_and_digit, and_none}
use Prim.Native.Nat.{ℕ, zero, suc, ◌+◌, ◌-◌, ◌*◌, ◌/◌, ◌%◌, ◌^◌, ◌<◌, bit_and, bit_or}
use mathlib.Core.Path.{◌≡◌, refl, ap}
use native.Mathlib.Nat.{pow-suc, one-le-pow}
use native.Mathlib.Omega.{arith}

-- The same recursion as the operation's own: one digit at a time, with fuel for the value.
or_none : (fuel a : ℕ) → a < suc fuel → bit_or a 0 ≡ a
or_none fuel zero h = refl
or_none zero (suc a) h = absurd (omega arith)
or_none (suc fuel) (suc a) h =
    omega (arith, bit_or_digit (suc a) 0, or_none fuel (suc a / 2) (omega arith))

scale : (q k : ℕ) → q * 2 ^ suc k ≡ 2 * (q * 2 ^ k)
scale q k = omega (arith, ap (λ (p : ℕ). q * p) (pow-suc 2 k))

-- `(q << k) | r`, where `r` has k bits.
pub bit_or-add : (k q r : ℕ) → r < 2 ^ k → bit_or (q * 2 ^ k) r ≡ q * 2 ^ k + r
bit_or-add zero q r h = ground (arith, or_none q q (omega arith))
bit_or-add (suc k) q r h =
    ground (arith, scale q k, bit_or_digit (q * 2 ^ suc k) r, bit_or-add k q (r / 2) (omega arith))

-- `a & (m << k)` looks at the bits above the lowest k alone.
pub bit_and_high :
    (k q r m : ℕ) → r < 2 ^ k → bit_and (q * 2 ^ k + r) (m * 2 ^ k) ≡ bit_and q m * 2 ^ k
bit_and_high zero q r m h =
    let e : r ≡ 0 = omega arith in
    let e' : q * 1 + 0 ≡ q = omega arith in
    let e'' : m * 1 ≡ m = omega arith in rw (e, e', e'') (omega arith)
bit_and_high (suc k) q r m h = ground (
  arith,
  scale q k,
  scale m k,
  scale (bit_and q m) k,
  bit_and_digit (q * 2 ^ suc k + r) (m * 2 ^ suc k),
  bit_and_high k q (r / 2) m (omega arith),
)

-- A mask of k ones keeps the lowest k bits.
bit_and_ones : (k q r : ℕ) → r < 2 ^ k → bit_and (q * 2 ^ k + r) (2 ^ k - 1) ≡ r
bit_and_ones zero q r h = omega (arith, and_none (q * 2 ^ 0 + r) (q * 2 ^ 0 + r) (omega arith))
bit_and_ones (suc k) q r h = ground (
  arith,
  scale q k,
  pow-suc 2 k,
  one-le-pow k 2,
  bit_and_digit (q * 2 ^ suc k + r) (2 ^ suc k - 1),
  bit_and_ones k q (r / 2) (omega arith),
)

-- `a & 0xffffffffffffff00` on a 64-bit word.
pub bit_and_upper : (a : ℕ) → a < 2 ^ 64 → bit_and a 0xffffffffffffff00 ≡ a / 256 * 256
bit_and_upper a h =
    let e : a ≡ a / 256 * 256 + a % 256 = omega arith in
    let e' : 0 * 2 ^ 56 + a / 256 ≡ a / 256 = omega arith in
    omega (
      arith,
      ap (λ (x : ℕ). bit_and x 0xffffffffffffff00) e,
      ap (λ (x : ℕ). bit_and x (2 ^ 56 - 1)) e',
      bit_and_high 8 (a / 256) (a % 256) (2 ^ 56 - 1) (omega arith),
      bit_and_ones 56 0 (a / 256) (omega arith),
    )

-- `a & 0xff`.
pub bit_and_byte : (a : ℕ) → bit_and a 0xff ≡ a % 256
bit_and_byte a =
    let e : a ≡ a / 256 * 256 + a % 256 = omega arith in
    omega
      (arith, ap (λ (x : ℕ). bit_and x 0xff) e, bit_and_ones 8 (a / 256) (a % 256) (omega arith))

-- `(a & 0xffffffffffffff00) | b` puts the byte `b` in the lowest place.
pub bit_or_low_byte :
    (a b : ℕ) → a < 2 ^ 64 → b < 256 → bit_or (bit_and a 0xffffffffffffff00) b ≡ a / 256 * 256 + b
bit_or_low_byte a b ha hb =
    omega (
      arith,
      ap (λ (x : ℕ). bit_or x b) (bit_and_upper a ha),
      bit_or-add 8 (a / 256) b (omega arith),
    )

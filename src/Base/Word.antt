-- ===== src/Base/Word.antt =====
-- 64-bit words as the debugger reads and writes them: `unsigned long long` values below 2 ^ 64,
-- their bytes in memory order, and the masks of hw4/command.hpp.
use nycu_advanced_unix_progr.Base.{
  ℕ, zero, suc, ◌+◌, ◌-◌, ◌*◌, ◌/◌, ◌%◌, ◌^◌, ◌<◌, bit_and, bit_or, ◌≡◌, refl, ap, ◌∙◌, [], ◌∷◌,
  Bytes, arith,
}
use nycu_advanced_unix_progr.Base.Bits.{bit_or_low_byte, bit_and_byte}

-- `(unsigned long long) -1`.
abbrev pub minus_one : ℕ
minus_one = 2 ^ 64 - 1

-- Addition and subtraction on `unsigned long long` wrap.
unfoldable pub add64 : ℕ → ℕ → ℕ
add64 a b = (a + b) % 2 ^ 64

unfoldable pub sub64 : ℕ → ℕ → ℕ
sub64 a b = (a + 2 ^ 64 - b) % 2 ^ 64

-- `((unsigned char*) &w)[j]` on a little-endian machine.
unfoldable pub get_byte : ℕ → ℕ → ℕ
get_byte zero w = w % 256
get_byte (suc j) w = get_byte j (w / 256)

-- The first n bytes of a word.
unfoldable pub word_bytes : ℕ → ℕ → Bytes
word_bytes zero w = []
word_bytes (suc n) w = (w % 256) ∷ word_bytes n (w / 256)

-- The word of the n bytes from address a on, in a memory of bytes.
unfoldable pub word_at : ℕ → (ℕ → ℕ) → ℕ → ℕ
word_at zero mem a = 0
word_at (suc n) mem a = mem a + 256 * word_at n mem (a + 1)

-- `(w & 0xffffffffffffff00) | 0xcc`.
unfoldable pub trap : ℕ → ℕ
trap w = bit_or (bit_and w 0xffffffffffffff00) 0xcc

-- `(w & 0xffffffffffffff00) | (code & 0x00000000000000ff)`.
unfoldable pub restore : ℕ → ℕ → ℕ
restore w code = bit_or (bit_and w 0xffffffffffffff00) (bit_and code 0xff)

pub trap-eq : (w : ℕ) → w < 2 ^ 64 → trap w ≡ w / 256 * 256 + 0xcc
unfolding trap
trap-eq w h = bit_or_low_byte w 0xcc h (omega arith)

pub restore-eq : (w code : ℕ) → w < 2 ^ 64 → restore w code ≡ w / 256 * 256 + code % 256
unfolding restore
restore-eq w code h =
    ap (λ (b : ℕ). bit_or (bit_and w 0xffffffffffffff00) b) (bit_and_byte code)
    ∙ bit_or_low_byte w (code % 256) h (omega arith)

pub get_byte-word_at :
    (n : ℕ) (mem : ℕ → ℕ) (a j : ℕ)
    → ((b : ℕ) → mem b < 256)
    → j < n
    → get_byte j (word_at n mem a) ≡ mem (a + j)
unfolding get_byte word_at
get_byte-word_at zero mem a j byte h = elim h [ ]
get_byte-word_at (suc n) mem a zero byte h =
    let e : a + 0 ≡ a = omega arith in rw e (omega (arith, byte a))
get_byte-word_at (suc n) mem a (suc j) byte h =
    let e : a + suc j ≡ a + 1 + j = omega arith in
    let e' : (mem a + 256 * word_at n mem (a + 1)) / 256 ≡ word_at n mem (a + 1) =
      omega (arith, byte a) in
    rw (e, e') (get_byte-word_at n mem (a + 1) j byte (omega arith))

pub word_at-lt : (mem : ℕ → ℕ) (a : ℕ) → ((b : ℕ) → mem b < 256) → word_at 8 mem a < 2 ^ 64
unfolding word_at
word_at-lt mem a byte = omega (
  arith,
  byte a,
  byte (a + 1),
  byte (a + 1 + 1),
  byte (a + 1 + 1 + 1),
  byte (a + 1 + 1 + 1 + 1),
  byte (a + 1 + 1 + 1 + 1 + 1),
  byte (a + 1 + 1 + 1 + 1 + 1 + 1),
  byte (a + 1 + 1 + 1 + 1 + 1 + 1 + 1),
)

-- A word whose lowest byte is replaced keeps its other bytes.
pub get_byte-low : (j w b : ℕ) → b < 256 → get_byte (suc j) (w / 256 * 256 + b) ≡ get_byte (suc j) w
unfolding get_byte
get_byte-low j w b h = let e : (w / 256 * 256 + b) / 256 ≡ w / 256 = omega arith in rw e refl

pub get_byte-low_zero : (w b : ℕ) → b < 256 → get_byte 0 (w / 256 * 256 + b) ≡ b
unfolding get_byte
get_byte-low_zero w b h = omega arith

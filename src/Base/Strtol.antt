-- ===== src/Base/Strtol.antt =====
-- The number parsing that the programs call: strtol(s, NULL, base), and atoi. A `long` is
-- its 64-bit pattern, as the callers store it in an `unsigned long long`.
use nycu_advanced_unix_progr.Base.{
  ℕ, ◌+◌, ◌-◌, ◌*◌, ◌%◌, ◌^◌, Bool, true, false, ◌&&◌, ◌||◌, [], ◌∷◌, Bytes, ltb, leb, ◌==◌,
  if◌then◌else◌,
}
use nycu_advanced_unix_progr.Base.Int.{ℤ, pos, negsuc}

-- The value of a digit or letter; 36 is no digit in any base.
unfoldable pub digit_value : ℕ → ℕ
digit_value c =
    if leb b'0' c && leb c b'9'
    then c - b'0'
    else if leb b'a' c && leb c b'z'
    then c - b'a' + 10
    else if leb b'A' c && leb c b'Z'
    then c - b'A' + 10
    else 36

unfoldable pub is_digit : ℕ → ℕ → Bool
is_digit base c = ltb (digit_value c) base

-- The digits at the front of a text, as a number without bound.
unfoldable pub scan_digits : ℕ → ℕ → Bytes → ℕ
unfolding digit_value is_digit
scan_digits base acc [] = acc
scan_digits base acc (c ∷ s) =
    let rest = scan_digits base (acc * base + digit_value c) s in
    if is_digit base c then rest else acc

unfoldable pub is_space : ℕ → Bool
is_space c = c == b' ' || (leb 9 c && leb c 13)

unfoldable pub skip_spaces : Bytes → Bytes
skip_spaces [] = []
skip_spaces (c ∷ s) = if is_space c then skip_spaces s else c ∷ s

-- Whether the text goes on with `x` or `X` and a hexadecimal digit.
unfoldable pub has_hex_prefix : Bytes → Bool
has_hex_prefix (x ∷ c ∷ s) = (x == b'x' || x == b'X') && is_digit 16 c
has_hex_prefix _ = false

drop_one : Bytes → Bytes
drop_one [] = []
drop_one (c ∷ s) = s

-- The digits without a sign. Base 0 takes the base from the prefix, base 16 allows the prefix.
unfoldable pub magnitude : ℕ → Bytes → ℕ
unfolding scan_digits has_hex_prefix drop_one
magnitude base [] = 0
magnitude base (c ∷ s) =
    if c == b'0' && has_hex_prefix s && (base == 0 || base == 16)
    then scan_digits 16 0 (drop_one s)
    else if base == 0
    then scan_digits (if c == b'0' then 8 else 10) 0 (c ∷ s)
    else scan_digits base 0 (c ∷ s)

-- LONG_MAX and LONG_MIN where the value does not fit.
unfoldable pub clamp_long : Bool → ℕ → ℕ
clamp_long false n = if ltb n (2 ^ 63) then n else 2 ^ 63 - 1
clamp_long true n = if leb n (2 ^ 63) then (2 ^ 64 - n) % 2 ^ 64 else 2 ^ 63

unfoldable pub signed_text : ℕ → Bytes → ℕ
unfolding clamp_long magnitude
signed_text base [] = 0
signed_text base (c ∷ s) =
    if c == b'-'
    then clamp_long true (magnitude base s)
    else if c == b'+'
    then clamp_long false (magnitude base s)
    else clamp_long false (magnitude base (c ∷ s))

-- strtol(s, NULL, base).
unfoldable pub strtol : ℕ → Bytes → ℕ
unfolding signed_text skip_spaces is_space
strtol base s = signed_text base (skip_spaces s)

-- strtoul(s, NULL, base): a sign negates modulo 2 ^ 64, what does not fit is ULONG_MAX.
clamp_ulong : Bool → ℕ → ℕ
clamp_ulong minus n =
    if leb (2 ^ 64) n then 2 ^ 64 - 1 else if minus then (2 ^ 64 - n) % 2 ^ 64 else n

unsigned_text : ℕ → Bytes → ℕ
unfolding clamp_ulong magnitude
unsigned_text base [] = 0
unsigned_text base (c ∷ s) =
    if c == b'-'
    then clamp_ulong true (magnitude base s)
    else if c == b'+'
    then clamp_ulong false (magnitude base s)
    else clamp_ulong false (magnitude base (c ∷ s))

unfoldable pub strtoul : ℕ → Bytes → ℕ
unfolding unsigned_text skip_spaces is_space
strtoul base s = unsigned_text base (skip_spaces s)

-- atoi(s): the low 32 bits of strtol(s, NULL, 10), as an `int`.
unfoldable pub atoi : Bytes → ℤ
unfolding strtol
atoi s = let w = strtol 10 s % 2 ^ 32 in if ltb w (2 ^ 31) then pos w else negsuc (2 ^ 32 - w - 1)

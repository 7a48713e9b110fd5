-- ===== src/Base/Decimal.antt =====
-- std::to_string: the decimal digits of a number, and that atoi reads them back.
use nycu_advanced_unix_progr.Base.{
  ℕ, zero, suc, ◌+◌, ◌*◌, ◌/◌, ◌%◌, ◌^◌, ◌<◌, ◌≡◌, refl, sym, ◌∙◌, true, false, ◌&&◌, [], ◌∷◌,
  Bytes, ltb, ◌==◌, if◌then◌else◌, arith, Bool-cases, inl, inr, ap,
}
use nycu_advanced_unix_progr.Base.Int.{ℤ, pos, negsuc}
use nycu_advanced_unix_progr.Base.Strtol.{
  digit_value, scan_digits, is_space, skip_spaces, has_hex_prefix, signed_text, magnitude,
  clamp_long, atoi,
}

-- The digits of n in front of a text, with fuel for their number.
unfoldable pub digits : ℕ → ℕ → Bytes → Bytes
digits zero n s = s
digits (suc fuel) n s =
    let all = digits fuel (n / 10) ((b'0' + n % 10) ∷ s) in
    if n / 10 == 0 then (b'0' + n % 10) ∷ s else all

-- 20 digits are enough for 64 bits.
unfoldable pub to_string : ℕ → Bytes
to_string n = digits 20 n []

-- std::to_string(int)
unfoldable pub int_to_string : ℤ → Bytes
int_to_string (pos n) = to_string n
int_to_string (negsuc n) = b'-' ∷ to_string (suc n)

digit_value-digit : (d : ℕ) → d < 10 → digit_value (b'0' + d) ≡ d
unfolding digit_value
digit_value-digit d h = ground arith

scan_digits-digit :
    (acc d : ℕ) (s : Bytes)
    → d < 10
    → scan_digits 10 acc ((b'0' + d) ∷ s) ≡ scan_digits 10 (acc * 10 + d) s
unfolding scan_digits
scan_digits-digit acc d s h =
    let v = digit_value-digit d h in rw (scan_digits, v) (ground (arith, v))

scan_digits-last :
    (n : ℕ) (s : Bytes) → n / 10 ≡ 0 → scan_digits 10 0 ((b'0' + n % 10) ∷ s) ≡ scan_digits 10 n s
scan_digits-last n s h =
    let e : 0 * 10 + n % 10 ≡ n = omega arith in
    scan_digits-digit 0 (n % 10) s (omega arith) ∙ ap (λ m. scan_digits 10 m s) e

scan_digits-digits :
    (fuel n : ℕ) (s : Bytes)
    → n < 10 ^ suc fuel
    → scan_digits 10 0 (digits (suc fuel) n s) ≡ scan_digits 10 n s
unfolding digits
scan_digits-digits zero n s h = ground (arith, scan_digits-last n s)
scan_digits-digits (suc fuel) n s h = elim (Bool-cases (n / 10 == 0)) [
  | inl last ↦ rw (digits, last) (scan_digits-last n s (ground arith))
  | inr more ↦
      let e : n / 10 * 10 + n % 10 ≡ n = omega arith in
      rw (digits, more)
        (scan_digits-digits fuel (n / 10) ((b'0' + n % 10) ∷ s) (omega arith)
          ∙ scan_digits-digit (n / 10) (n % 10) s (omega arith)
          ∙ ap (λ m. scan_digits 10 m s) e)
]

-- The text begins with a digit.
digits-front :
    (fuel n : ℕ) (s : Bytes)
    → (d : ℕ) × (rest : Bytes) × (d < 10) × (digits (suc fuel) n s ≡ (b'0' + d) ∷ rest)
unfolding digits
digits-front zero n s = (n % 10, s, omega arith, ground arith)
digits-front (suc fuel) n s = elim (Bool-cases (n / 10 == 0)) [
  | inl last ↦ (n % 10, s, omega arith, rw (digits, last) refl)
  | inr more ↦
      let (d, rest, small, e) = digits-front fuel (n / 10) ((b'0' + n % 10) ∷ s) in
      (d, rest, small, rw (digits, more) e)
]

magnitude-digit :
    (d : ℕ) (rest : Bytes) → magnitude 10 ((b'0' + d) ∷ rest) ≡ scan_digits 10 0 ((b'0' + d) ∷ rest)
unfolding magnitude
magnitude-digit d rest = elim (Bool-cases (b'0' + d == b'0' && has_hex_prefix rest)) [
  | inl h ↦ rw (magnitude, h) refl
  | inr h ↦ rw (magnitude, h) refl
]

digit-visible : (d : ℕ) → d < 10 → is_space (b'0' + d) ≡ false
unfolding is_space
digit-visible d h = ground arith

strtol-digit :
    (d : ℕ) (rest : Bytes)
    → d < 10
    → signed_text 10 (skip_spaces ((b'0' + d) ∷ rest))
      ≡ clamp_long false (scan_digits 10 0 ((b'0' + d) ∷ rest))
unfolding skip_spaces signed_text
strtol-digit d rest h =
    let visible : is_space (b'0' + d) ≡ false = digit-visible d h in
    let unsigned : ((b'0' + d == b'-') ≡ false) × ((b'0' + d == b'+') ≡ false) = ground arith in
    rw (skip_spaces, visible, signed_text, unsigned.0, unsigned.1, magnitude-digit d rest) refl

clamp_long-small : (n : ℕ) → n < 2 ^ 31 → clamp_long false n ≡ n
unfolding clamp_long
clamp_long-small n h = ground arith

low_bits : (n : ℕ) → n < 2 ^ 31 → n % 2 ^ 32 ≡ n
low_bits n h = omega arith

ltb-small : (n : ℕ) → n < 2 ^ 31 → ltb n (2 ^ 31) ≡ true
ltb-small n h = ground arith

-- atoi reads back what to_string writes for an `int` that is not negative.
pub atoi-to_string : (n : ℕ) → n < 2 ^ 31 → atoi (to_string n) ≡ pos n
unfolding to_string scan_digits atoi
atoi-to_string n h =
    let (d, rest, small, e) = digits-front 19 n [] in
    let value : scan_digits 10 0 (digits 20 n []) ≡ n = scan_digits-digits 19 n [] (omega arith) in
    let text : signed_text 10 (skip_spaces ((b'0' + d) ∷ rest)) ≡ n =
      strtol-digit d rest small
      ∙ ap (λ s. clamp_long false (scan_digits 10 0 s)) (sym e)
      ∙ ap (clamp_long false) value
      ∙ clamp_long-small n h in
    rw (e, text, low_bits n h, ltb-small n h) refl

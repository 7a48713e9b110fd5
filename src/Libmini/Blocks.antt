-- ===== src/Libmini/Blocks.antt =====
-- memset, bzero and strlen of hw3/libmini.c, on a memory of bytes.
use nycu_advanced_unix_progr.Base.{
  ℕ, zero, suc, ◌+◌, ◌-◌, ◌%◌, ◌<◌, ◌≡◌, ◌≢◌, ◌∙◌, ap, ◌&&◌, Option, none, some, ltb, leb, ◌==◌,
  if◌then◌else◌, arith,
}
use nycu_advanced_unix_progr.Base.Int.{ℤ, pos, negsuc}

-- The byte at each address.
abbrev pub Mem : Type 0
Mem = ℕ → ℕ

abbrev pub update : Mem → ℕ → ℕ → Mem
update f a v b = if a == b then v else f b

-- n rounds of `tar[i] = c` or `*ptr++ = c`, from address a on.
unfoldable pub fill : Mem → ℕ → ℕ → ℕ → Mem
fill f a c zero = f
fill f a c (suc n) = fill (update f a c) (a + 1) c n

-- memset(s, c, n), where the loop's variable, which the code does not set, begins with i. From a
-- negative i on it writes in front of s.
unfoldable pub memset : Mem → ℕ → ℕ → ℕ → ℤ → Mem
unfolding fill
memset f s c n (pos i) = fill f (s + i) (c % 256) (n - i)
memset f s c n (negsuc k) = fill f (s - suc k) (c % 256) (n + suc k)

-- bzero(s, size): size_t is a long long here, and a negative size is none.
unfoldable pub bzero : Mem → ℕ → ℤ → Mem
unfolding fill
bzero f s (pos n) = fill f s 0 n
bzero f s (negsuc k) = f

-- strlen(s) with fuel: the bytes before the first 0; `none` means that the fuel ran out.
unfoldable pub strlen : ℕ → Mem → ℕ → Option ℕ
strlen zero f s = none
strlen (suc fuel) f s =
    let rest = strlen fuel f (s + 1) in
    if f s == 0 then some 0 else elim rest [ none ↦ none | some n ↦ some (suc n) ]

fill-eq : (f : Mem) (a c n b : ℕ) → fill f a c n b ≡ (if leb a b && ltb b (a + n) then c else f b)
unfolding fill
fill-eq f a c zero b = ground arith
fill-eq f a c (suc n) b = ground (arith, fill-eq (update f a c) (a + 1) c n b)

-- bzero writes 0 to its size bytes, and to no other.
pub bzero-eq :
    (f : Mem) (s n b : ℕ) → bzero f s (pos n) b ≡ (if leb s b && ltb b (s + n) then 0 else f b)
unfolding bzero
bzero-eq f s n b = fill-eq f s 0 n b

-- memset writes the low byte of c to the bytes from number i on, where i is what its loop variable
-- happens to hold; so all n bytes are written only if that is 0, and none if it is n or more.
pub memset-eq :
    (f : Mem) (s c n i b : ℕ)
    → memset f s c n (pos i) b ≡ (if leb (s + i) b && ltb b (s + n) then c % 256 else f b)
unfolding memset
memset-eq f s c n i b = ground (arith, fill-eq f (s + i) (c % 256) (n - i) b)

-- With fuel for the bytes up to the first 0, strlen counts them.
pub strlen-eq :
    (fuel n : ℕ) (f : Mem) (s : ℕ)
    → n < fuel
    → ((j : ℕ) → j < n → f (s + j) ≢ 0)
    → f (s + n) ≡ 0
    → strlen fuel f s ≡ some n
unfolding strlen
strlen-eq zero n f s h before end = absurd (omega arith)
strlen-eq (suc fuel) zero f s h before end =
    let here : s + 0 ≡ s = omega arith in ground (arith, ap f here)
strlen-eq (suc fuel) (suc n) f s h before end =
    let here : s + 0 ≡ s = omega arith in
    let next : s + 1 + n ≡ s + suc n = omega arith in
    let first : f s ≢ 0 = λ e. before 0 (omega arith) (ap f here ∙ e) in
    let rest : strlen fuel f (s + 1) ≡ some n =
      strlen-eq fuel n f (s + 1) (omega arith)
        (λ j l e.
          let there : s + suc j ≡ s + 1 + j = omega arith in
          before (suc j) (omega arith) (ap f there ∙ e))
        (ap f next ∙ end) in
    ground arith

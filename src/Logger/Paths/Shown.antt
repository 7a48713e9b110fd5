-- ===== src/Logger/Paths/Shown.antt =====
-- What get_buffer shows.
use nycu_advanced_unix_progr.Base.{
  ℕ, zero, suc, ◌+◌, ◌-◌, ◌<◌, ◌≡◌, refl, sym, subst, ap, ◌∙◌, true, false, some, [], ◌∷◌, Bytes,
  length, All, get_elem?, min, leb, arith,
}
use nycu_advanced_unix_progr.Base.Ctype.{is_print}
use nycu_advanced_unix_progr.Logger.Paths.{masked, buffer_loop, get_buffer}

-- The bytes of memory from an address on.
abbrev pub bytes_from : (ℕ → ℕ) → ℕ → ℕ → Bytes
bytes_from mem a zero = []
bytes_from mem a (suc n) = masked (mem a) ∷ bytes_from mem (a + 1) n

masked-print : (c : ℕ) → is_print (masked c) ≡ true
unfolding masked is_print
masked-print c = ground arith

bytes_from-print : (mem : ℕ → ℕ) (a n : ℕ) → All (λ c. is_print c ≡ true) (bytes_from mem a n)
bytes_from-print mem a zero = tt
bytes_from-print mem a (suc n) = (masked-print (mem a), bytes_from-print mem (a + 1) n)

length-bytes_from : (mem : ℕ → ℕ) (a n : ℕ) → length (bytes_from mem a n) ≡ n
length-bytes_from mem a zero = refl
length-bytes_from mem a (suc n) = ap suc (length-bytes_from mem (a + 1) n)

get_elem?-bytes_from :
    (mem : ℕ → ℕ) (a n i : ℕ)
    → i < n
    → get_elem? (bytes_from mem a n) i ≡ some (masked (mem (a + i)))
get_elem?-bytes_from mem a zero i h = elim h [ ]
get_elem?-bytes_from mem a (suc n) zero h =
    let e : a ≡ a + 0 = omega arith in ap (λ b. some (masked (mem b))) e
get_elem?-bytes_from mem a (suc n) (suc i) h =
    let e : a + 1 + i ≡ a + suc i = omega arith in
    get_elem?-bytes_from mem (a + 1) n i (omega arith) ∙ ap (λ b. some (masked (mem b))) e

buffer_loop-eq :
    (mem : ℕ → ℕ) (a len rounds i n : ℕ)
    → n ≡ min rounds (len - i)
    → buffer_loop mem a len rounds i ≡ bytes_from mem (a + i) n
unfolding buffer_loop
buffer_loop-eq mem a len zero i zero h = refl
buffer_loop-eq mem a len zero i (suc n) h = absurd (omega arith)
buffer_loop-eq mem a len (suc rounds) i zero h = ground arith
buffer_loop-eq mem a len (suc rounds) i (suc n) h =
    let more : leb len i ≡ false = ground arith in
    let next : a + (i + 1) ≡ a + i + 1 = omega arith in
    rw more (
      ap (λ msg. masked (mem (a + i)) ∷ msg)
        (buffer_loop-eq mem a len rounds (i + 1) n (omega arith)
          ∙ ap (λ b. bytes_from mem b n) next))

-- get_buffer shows the first 32 bytes of a buffer, or all len bytes if there are fewer: a text of
-- that length, of printable characters only, where number i shows byte i of the buffer.
pub get_buffer-shown :
    (mem : ℕ → ℕ) (bf_ptr len : ℕ)
    → let msg = get_buffer mem bf_ptr len in
      (length msg ≡ min 32 len)
      × All (λ c. is_print c ≡ true) msg
      × ((i : ℕ) → i < min 32 len → get_elem? msg i ≡ some (masked (mem (bf_ptr + i))))
unfolding get_buffer
get_buffer-shown mem bf_ptr len =
    let n = min 32 len in
    let e : get_buffer mem bf_ptr len ≡ bytes_from mem bf_ptr n =
      let first : bf_ptr + 0 ≡ bf_ptr = omega arith in
      buffer_loop-eq mem bf_ptr len 32 0 n (omega arith) ∙ ap (λ a. bytes_from mem a n) first in
    (
      ap length e ∙ length-bytes_from mem bf_ptr n,
      subst (All (λ c. is_print c ≡ true)) (sym e) (bytes_from-print mem bf_ptr n),
      λ i h. ap (λ msg. get_elem? msg i) e ∙ get_elem?-bytes_from mem bf_ptr n i h,
    )

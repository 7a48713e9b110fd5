-- ===== src/Libmini/Testcase.antt =====
-- Two of the programs of hw3/testcase, as libmini runs them: write1.c and jmp1.c.
use nycu_advanced_unix_progr.Base.{
  ℕ, false, true, zero, suc, ◌+◌, ◌<◌, ◌≡◌, ◌≢◌, refl, ◌∙◌, ap, Option, none, some, ltb, ◌==◌,
  if◌then◌else◌, arith,
}
use nycu_advanced_unix_progr.Base.Int.{ℤ, pos}
use nycu_advanced_unix_progr.Base.Options.{◌>>=◌}
use nycu_advanced_unix_progr.Libmini.Wrappers.{Mini, write, Kernel, wrapper}
use nycu_advanced_unix_progr.Libmini.Blocks.{Mem, strlen, strlen-eq}

module _ {S : Type 0} (sys : Kernel S) (fuel : ℕ) (f : Mem) where
  -- `write(1, m, strlen(m))` for the m at an address, with fuel for strlen.
  unfoldable pub write_string : ℕ → Mini S → Option (Mini S)
  write_string m s = do n ← strlen fuel f m; some (wrapper sys (write (pos 1) m (pos n)) s).1

module _ {S : Type 0} (sys : Kernel S) (fuel : ℕ) (f : Mem) (text : ℕ → ℕ) where
  -- The rounds of the loop of write1 from i on, `n` of them, where `text i` is hello_list[i].
  unfoldable pub write1_loop : ℕ → ℕ → Mini S → Option (Mini S)
  write1_loop zero i s = some s
  write1_loop (suc n) i s = do s' ← write_string sys fuel f (text i) s; write1_loop n (i + 1) s'

  unfoldable pub write1 : Mini S → Option (Mini S)
  unfolding write1_loop
  write1 = write1_loop 4 0

  -- FUNBODY for the function number i, whose text is at `text i`: it gives the value that it hands to
  -- longjmp.
  unfoldable pub fun_body : ℕ → Mini S → Option (ℕ × Mini S)
  unfolding write_string
  fun_body i s = do s' ← write_string sys fuel f (text i) s; some (i + 1, s')

  -- `if(i < 10) funs[i](); return 0;`, where `longjmp` goes on behind setjmp, with the value that
  -- setjmp returns there and with i as it is in memory.
  unfoldable pub jmp1_call :
      (ℕ → ℕ → Mini S → Option (ℤ × Mini S)) → ℕ → Mini S → Option (ℤ × Mini S)
  unfolding fun_body
  jmp1_call longjmp i s =
      let called = if ltb i 10 then some (fun_body i s) else none in
      elim called [
        | none ↦ some (pos 0, s)
        | some got ↦ elim got [ none ↦ none | some (from, s') ↦ longjmp from i s' ]
      ]

  -- main of jmp1 from a return of setjmp on, with the value that it returned. `none` means that so many
  -- returns are not enough.
  unfoldable pub jmp1_from : ℕ → ℕ → ℕ → Mini S → Option (ℤ × Mini S)
  unfolding jmp1_call
  jmp1_from zero ret i s = none
  jmp1_from (suc returns) ret i s = jmp1_call (jmp1_from returns) (if ret == 0 then i else i + 1) s

  unfoldable pub jmp1 : ℕ → Mini S → Option (ℤ × Mini S)
  unfolding jmp1_from
  jmp1 returns = jmp1_from returns 0 0

-- A text of n bytes and a 0.
abbrev pub IsText : Mem → ℕ → ℕ → Type 0
IsText f m n = ((j : ℕ) → j < n → f (m + j) ≢ 0) × (f (m + n) ≡ 0)

-- The texts from number k on, n of them, written to descriptor 1.
abbrev pub texts_written : {S : Type 0} → Kernel S → (ℕ → ℕ) → (ℕ → ℕ) → ℕ → ℕ → Mini S → Mini S
texts_written sys text len k zero s = s
texts_written sys text len k (suc n) s =
    texts_written sys text len (k + 1) n (wrapper sys (write (pos 1) (text k) (pos (len k))) s).1

module _ {S : Type 0} (sys : Kernel S) (fuel : ℕ) (f : Mem) (text len : ℕ → ℕ) where
  write_string-eq :
      (k : ℕ) (s : Mini S)
      → len k < fuel
      → IsText f (text k) (len k)
      → write_string sys fuel f (text k) s
        ≡ some (wrapper sys (write (pos 1) (text k) (pos (len k))) s).1
  unfolding write_string
  write_string-eq k s enough (bytes, end) =
      rw (write_string, strlen-eq fuel (len k) f (text k) enough bytes end) refl

  write1_loop-eq :
      (n k : ℕ) (s : Mini S)
      → ((i : ℕ) → i < k + n → (len i < fuel) × IsText f (text i) (len i))
      → write1_loop sys fuel f text n k s ≡ some (texts_written sys text len k n s)
  unfolding write1_loop
  write1_loop-eq zero k s texts = refl
  write1_loop-eq (suc n) k s texts =
      let (enough, is_text) = texts k (omega arith) in
      rw (write1_loop, write_string-eq k s enough is_text)
        (write1_loop-eq n (k + 1) _ (λ i h. texts i (omega arith)))

  jmp1_call-eq :
      (longjmp : ℕ → ℕ → Mini S → Option (ℤ × Mini S)) (k : ℕ) (s : Mini S)
      → k < 10
      → len k < fuel
      → IsText f (text k) (len k)
      → jmp1_call sys fuel f text longjmp k s
        ≡ longjmp (k + 1) k (wrapper sys (write (pos 1) (text k) (pos (len k))) s).1
  unfolding jmp1_call fun_body
  jmp1_call-eq longjmp k s h enough is_text =
      let more : ltb k 10 ≡ true = ground arith in
      rw (jmp1_call, more, write_string-eq k s enough is_text) refl

  jmp1_rest-eq :
      (n k : ℕ) (s : Mini S)
      → k + n ≡ 10
      → ((j : ℕ) → j < 10 → (len j < fuel) × IsText f (text j) (len j))
      → jmp1_call sys fuel f text (jmp1_from sys fuel f text n) k s
        ≡ some (pos 0, texts_written sys text len k n s)
  unfolding jmp1_from
  jmp1_rest-eq zero k s last texts =
      let done : ltb k 10 ≡ false = ground arith in rw (jmp1_call, done) refl
  jmp1_rest-eq (suc n) k s last texts =
      let (enough, is_text) = texts k (omega arith) in
      let next : (if k + 1 == 0 then k else k + 1) ≡ k + 1 = ground arith in
      jmp1_call-eq (jmp1_from sys fuel f text (suc n)) k s (omega arith) enough is_text
      ∙ ap
          (λ (j : ℕ).
            jmp1_call sys fuel f text (jmp1_from sys fuel f text n) j
              (wrapper sys (write (pos 1) (text k) (pos (len k))) s).1)
          next
      ∙ jmp1_rest-eq n (k + 1) _ (omega arith) texts

  -- jmp1 comes to its end, for every kernel and whatever its writes give: with its ten texts in memory,
  -- each with a 0 behind it and shorter than the fuel of strlen, main returns 0 after eleven returns of
  -- setjmp, and has made ten calls of write for descriptor 1, one for each function in the order of the
  -- table, with that function's text and its length.
  pub jmp1-returns :
      (s : Mini S)
      → ((j : ℕ) → j < 10 → (len j < fuel) × IsText f (text j) (len j))
      → jmp1 sys fuel f text 11 s ≡ some (pos 0, texts_written sys text len 0 10 s)
  unfolding jmp1 jmp1_from
  jmp1-returns s texts = jmp1_rest-eq 10 0 s refl texts

-- ===== src/Libmini/Asm/Jumps.antt =====
-- setjmp and longjmp.
use nycu_advanced_unix_progr.Base.{
  ℕ, ◌+◌, ◌%◌, ◌^◌, ◌≤◌, ◌<◌, ◌≡◌, refl, sym, ◌∙◌, ap, List, [], ◌∷◌, ◌++◌, ◌⊎◌, take, some, arith,
}
use nycu_advanced_unix_progr.Base.Word.{add64, sub64}
use nycu_advanced_unix_progr.Libmini.Blocks.{Mem, update}
use nycu_advanced_unix_progr.Libmini.Asm.{
  rax, rbx, rsp, rbp, rsi, rdi, r12, r13, r14, r15, assign, Cpu, Kernel64, put_register, drop_word,
  exec,
}
use nycu_advanced_unix_progr.Libmini.Asm.Code.{setjmp, longjmp}

-- The registers that a function hands back as it got them.
abbrev pub kept : {S : Type 0} → Cpu S → List ℕ
kept c =
    c.regs rbx ∷ c.regs rsp ∷ c.regs rbp ∷ c.regs r12 ∷ c.regs r13 ∷ c.regs r14 ∷ c.regs r15 ∷ []

-- The same, as a caller finds them behind a return.
abbrev pub returned_to : {S : Type 0} → Cpu S → List ℕ
returned_to c =
    c.regs rbx
    ∷ (c.regs rsp + 8)
    ∷ c.regs rbp
    ∷ c.regs r12
    ∷ c.regs r13
    ∷ c.regs r14
    ∷ c.regs r15
    ∷ []

-- The quadwords of a jmp_buf: the eight of `reg`, and `mask`.
abbrev pub env_words : Mem → ℕ → List ℕ
env_words mem env =
    mem env
    ∷ mem (env + 8)
    ∷ mem (env + 16)
    ∷ mem (env + 24)
    ∷ mem (env + 32)
    ∷ mem (env + 40)
    ∷ mem (env + 48)
    ∷ mem (env + 56)
    ∷ mem (env + 64)
    ∷ []

-- What a call of setjmp is to save: the kept registers as they are behind its return, which takes the
-- return address from the stack, and that address.
abbrev pub call_site : {S : Type 0} → Cpu S → List ℕ
call_site c = returned_to c ++ (c.mem (c.regs rsp) ∷ [])

-- A jmp_buf that setjmp has filled for a call, with any signal mask.
abbrev pub IsFilled : {S : Type 0} → Cpu S → Mem → ℕ → Type 0
IsFilled c mem env = take 8 (env_words mem env) ≡ call_site c

-- A jmp_buf and a stack that do not overlap and do not wrap.
abbrev pub AreApart : ℕ → ℕ → Type 0
AreApart env sp = (env + 72 < 2 ^ 64) × (sp + 8 < 2 ^ 64) × ((sp + 8 ≤ env) ⊎ (env + 72 ≤ sp))

add64-small : (a n : ℕ) → a + n < 2 ^ 64 → add64 a n ≡ a + n
unfolding add64
add64-small a n h = omega arith

pop_push : (sp : ℕ) → sp + 8 < 2 ^ 64 → sub64 (add64 sp 8) 8 ≡ sp
unfolding add64 sub64
pop_push sp h = omega arith

-- The stores of setjmp, at the places of a jmp_buf and at the top of the stack.
abbrev saved : {S : Type 0} → Cpu S → (ℕ → ℕ) → ℕ → ℕ → Mem
saved c place top behind =
    let ra = c.mem (c.regs rsp) in
    let first = update (update c.mem (place 0) (c.regs rbx)) (place 8) behind in
    let second =
      update (update (update first top ra) (place 16) (c.regs rbp)) (place 24) (c.regs r12) in
    let third = update (update second (place 32) (c.regs r13)) (place 40) (c.regs r14) in
    update (update third (place 48) (c.regs r15)) (place 56) ra

module _ {S : Type 0} (c : Cpu S) (env sp : ℕ) (apart : AreApart env sp) where
  saved-words :
      env_words (saved c (λ n. env + n) sp (c.regs rsp + 8)) env
      ≡ call_site c ++ (c.mem (env + 64) ∷ [])
  saved-words = ground arith

  saved-top : saved c (λ n. env + n) sp (c.regs rsp + 8) sp ≡ c.mem (c.regs rsp)
  saved-top = ground arith

  -- The processor's address arithmetic does not wrap there.
  saved-add64 :
      c.regs rdi ≡ env
      → c.regs rsp ≡ sp
      → saved c (add64 env) (sub64 (add64 sp 8) 8) (add64 sp 8) ≡ saved c (λ n. env + n) sp (sp + 8)
  saved-add64 e f =
      rw
        (
          add64-small env 0 (omega arith),
          add64-small env 8 (omega arith),
          add64-small env 16 (omega arith),
          add64-small env 24 (omega arith),
          add64-small env 32 (omega arith),
          add64-small env 40 (omega arith),
          add64-small env 48 (omega arith),
          add64-small env 56 (omega arith),
          pop_push sp apart.1,
          add64-small sp 8 apart.1,
        )
        refl

module _ {S : Type 0} (kernel : Kernel64 S) (errno_at : ℕ) where
  -- The processor behind setjmp.
  abbrev after_setjmp : Cpu S → Cpu S
  after_setjmp c =
      let sp = c.regs rsp in
      let popped = assign (assign (assign c.regs rsp (add64 sp 8)) rsi (c.mem sp)) rax 0 in
      let top = sub64 (add64 sp 8) 8 in
      drop_word (record c {
        regs = assign popped rsp top;
        mem = saved c (add64 (c.regs rdi)) top (add64 sp 8);
      })

  setjmp-eq :
      (c : Cpu S)
      → AreApart (c.regs rdi) (c.regs rsp)
      → (setjmp kernel errno_at c ≡ some (c.mem (c.regs rsp), after_setjmp c))
        × ((after_setjmp c).regs rax ≡ 0)
        × (env_words (after_setjmp c).mem (c.regs rdi)
            ≡ call_site c ++ (c.mem (c.regs rdi + 64) ∷ []))
        × (kept (after_setjmp c) ≡ take 7 (call_site c))
  unfolding setjmp exec drop_word
  setjmp-eq c apart =
      let env = c.regs rdi in
      let sp = c.regs rsp in
      let mem = saved-add64 c env sp apart refl refl in
      let top = pop_push sp apart.1 in
      let target =
        ap (λ (f : Mem). f (sub64 (add64 sp 8) 8)) mem
        ∙ ap (λ (a : ℕ). saved c (λ n. env + n) sp (sp + 8) a) top
        ∙ saved-top c env sp apart in
      (
        ap (λ (v : ℕ). some (v, after_setjmp c)) target,
        refl,
        ap (λ (f : Mem). env_words f env) mem ∙ saved-words c env sp apart,
        rw (drop_word, top, add64-small sp 8 apart.1) refl,
      )

  -- The processor behind longjmp.
  abbrev after_longjmp : Cpu S → Cpu S
  after_longjmp d =
      let word = λ (n : ℕ). d.mem (add64 (d.regs rdi) n) in
      let first = put_register rbx (word 0) (put_register rax (d.regs rsi % 2 ^ 32) d) in
      let second =
        put_register r12 (word 24) (put_register rbp (word 16) (put_register rsp (word 8) first)) in
      put_register r15 (word 48) (put_register r14 (word 40) (put_register r13 (word 32) second))

  longjmp-eq :
      (d : Cpu S)
      → d.regs rdi + 72 < 2 ^ 64
      → (longjmp kernel errno_at d ≡ some (d.mem (d.regs rdi + 56), after_longjmp d))
        × (kept (after_longjmp d) ≡ take 7 (env_words d.mem (d.regs rdi)))
  unfolding longjmp exec put_register
  longjmp-eq d fits =
      let env = d.regs rdi in
      let at0 : add64 env 0 ≡ env = add64-small env 0 (omega arith) ∙ omega arith in
      (
        ap (λ (a : ℕ). some (d.mem a, after_longjmp d)) (add64-small env 56 (omega arith)),
        rw
            (
              put_register,
              at0,
              add64-small env 8 (omega arith),
              add64-small env 16 (omega arith),
              add64-small env 24 (omega arith),
              add64-small env 32 (omega arith),
              add64-small env 40 (omega arith),
              add64-small env 48 (omega arith),
            )
            refl,
      )

  -- For a jmp_buf of 72 bytes and a stack that do not wrap, with the top of the stack outside the
  -- jmp_buf: setjmp returns 0 to its caller, with the registers in the jmp_buf, the mask field as it
  -- was, and nothing asked of the kernel, so that the signal mask is not saved. A longjmp on the same
  -- jmp_buf, from wherever, with the registers that setjmp stored still in it and any mask, arrives at
  -- the same place: with rbx, rsp, rbp and r12 to r15 as setjmp left them, with the low 32 bits of its
  -- second argument in rax, and with nothing changed in memory or in the kernel, so that the signal
  -- mask is not restored.
  pub setjmp-longjmp :
      (c d : Cpu S)
      → AreApart (c.regs rdi) (c.regs rsp)
      → d.regs rdi ≡ c.regs rdi
      → IsFilled c d.mem (c.regs rdi)
      → (c' : Cpu S) × (d' : Cpu S) × (setjmp kernel errno_at c ≡ some (c.mem (c.regs rsp), c'))
        × (c'.regs rax ≡ 0)
        × (env_words c'.mem (c.regs rdi) ≡ call_site c ++ (c.mem (c.regs rdi + 64) ∷ []))
        × (c'.os ≡ c.os)
        × (longjmp kernel errno_at d ≡ some (c.mem (c.regs rsp), d'))
        × (kept d' ≡ kept c')
        × (d'.regs rax ≡ d.regs rsi % 2 ^ 32)
        × (d'.mem ≡ d.mem)
        × (d'.os ≡ d.os)
  unfolding put_register drop_word
  setjmp-longjmp c d apart same words =
      let (returns, zero', stored, keeps) = setjmp-eq c apart in
      let fits : d.regs rdi + 72 < 2 ^ 64 = omega (arith, apart.0) in
      let (jumps, restores) = longjmp-eq d fits in
      let words' : IsFilled c d.mem (d.regs rdi) = rw same words in
      let back : d.mem (d.regs rdi + 56) ≡ c.mem (c.regs rsp) = cc words' in
      (
        after_setjmp c,
        after_longjmp d,
        returns,
        zero',
        stored,
        refl,
        jumps ∙ ap (λ (a : ℕ). some (a, after_longjmp d)) back,
        restores ∙ ap (take 7) words' ∙ sym keeps,
        refl,
        refl,
        refl,
      )

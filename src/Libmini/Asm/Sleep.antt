-- ===== src/Libmini/Asm/Sleep.antt =====
-- sleep, and the same function in C, which hw3/libmini.c keeps under `#if 0`.
use nycu_advanced_unix_progr.Base.{
  ℕ, suc, ◌+◌, ◌-◌, ◌%◌, ◌^◌, ◌≤◌, ◌<◌, ◌≡◌, refl, sym, ◌∙◌, ap, Bool, true, false, drop, none,
  some, ◌==◌, if◌then◌else◌, arith,
}
use nycu_advanced_unix_progr.Base.Word.{sub64}
use nycu_advanced_unix_progr.Base.Int.{ℤ, pos, negsuc}
use nycu_advanced_unix_progr.Libmini.Blocks.{Mem, update}
use nycu_advanced_unix_progr.Libmini.Asm.{
  rax, rcx, rdx, rsp, rsi, rdi, r8, r9, r10, assign, Answer, Cpu, Kernel64, put_register, drop_word,
  step, sub_imm, store, store_imm, lea, mov, exec, signed_less,
}
use nycu_advanced_unix_progr.Libmini.Asm.Code.{sleep_code, call_stub, sleep_asm}
use nycu_advanced_unix_progr.Libmini.Asm.Jumps.{kept, returned_to}
use nycu_advanced_unix_progr.Libmini.Asm.Stubs.{down, up, add64-zero}
use nycu_advanced_unix_progr.Libmini.Asm.Open.{signed_long, signed_long-pos, signed_long-negsuc}
use nycu_advanced_unix_progr.Libmini.Asm.Calls.{
  call_answer, called, LeavesFrame, call_stub-answered,
}

-- The three outcomes of sleep in C.
unfoldable pub sleep_result : ℤ → ℕ → ℕ
sleep_result (pos ret) left = ret % 2 ^ 32
sleep_result (negsuc n) left = if suc n == 4 then left % 2 ^ 32 else 0

-- sleep(seconds), with req and rem at their addresses on the stack, and with sys_nanosleep as it is on
-- a memory with req in it.
unfoldable pub sleep_c :
    {S : Type 0} → (ℕ → ℕ → Mem → S → Answer S) → ℕ → ℕ → ℕ → Mem → S → ℕ × Mem × S
unfolding sleep_result
sleep_c sys_nanosleep req rem seconds mem os =
    let a = sys_nanosleep req rem (update (update mem req seconds) (req + 8) 0) os in
    (sleep_result (signed_long a.result) (a.mem rem), a.mem, a.os)

-- sys_nanosleep as sleep calls it in assembly: with the registers that it leaves as they are, and with
-- the return address and r10 on the stack.
abbrev pub nanosleep_from : {S : Type 0} → Kernel64 S → ℕ → Cpu S → ℕ → ℕ → Mem → S → Answer S
nanosleep_from kernel here c req rem mem os =
    let below = update (update mem (req - 8) here) (req - 16) (c.regs r10) in
    kernel 35 (req, rem, c.regs rdx, c.regs rcx, c.regs r8, c.regs r9) below os

error_is_4 :
    (a : ℕ) → a < 2 ^ 64 → signed_less a 0 ≡ true → (suc (2 ^ 64 - a - 1) == 4) ≡ (sub64 0 a == 4)
unfolding sub64
error_is_4 a fits e = ground arith

module _ {S : Type 0} where
  -- The processor at the call, and behind it at the comparison with 0.
  abbrev asking : Cpu S → Cpu S
  asking c =
      let sp = c.regs rsp in
      let req = sp - 32 in
      record c {
        regs = assign (assign (assign c.regs rsp req) rdi req) rsi (req + 16);
        mem = update (update c.mem req (c.regs rdi)) (req + 8) 0;
      }

  abbrev compared0 : Answer S → Cpu S → Cpu S
  compared0 a c = record (called a c) { less = signed_less a.result 0; equal = a.result == 0 }

  -- The processor at sleep_quit, by the branch.
  abbrev slept : Bool → Bool → Cpu S → Cpu S
  slept false interrupted d = d
  slept true true d = record d {
    regs =
        assign (assign (assign d.regs rax (sub64 0 (d.regs rax))) rsi (d.regs rsp + 16)) rax
          (d.mem (d.regs rsp + 16));
    less = signed_less (sub64 0 (d.regs rax)) 4;
    equal = true;
  }
  slept true false d = record d {
    regs = assign (assign d.regs rax (sub64 0 (d.regs rax))) rax 0;
    less = signed_less (sub64 0 (d.regs rax)) 4;
    equal = false;
  }

  slept-mem : (negative interrupted : Bool) (d : Cpu S) → (slept negative interrupted d).mem ≡ d.mem
  slept-mem false interrupted d = refl
  slept-mem true true d = refl
  slept-mem true false d = refl

  slept-os : (negative interrupted : Bool) (d : Cpu S) → (slept negative interrupted d).os ≡ d.os
  slept-os false interrupted d = refl
  slept-os true true d = refl
  slept-os true false d = refl

  slept-kept :
      (negative interrupted : Bool) (d : Cpu S) (sp : ℕ)
      → sp + 8 < 2 ^ 64
      → kept (drop_word (put_register rsp sp (slept negative interrupted d)))
        ≡ returned_to (put_register rsp sp d)
  unfolding drop_word put_register
  slept-kept false interrupted d sp fits = rw (up sp 8 fits) refl
  slept-kept true true d sp fits = rw (up sp 8 fits) refl
  slept-kept true false d sp fits = rw (up sp 8 fits) refl

  slept-result :
      (negative interrupted : Bool) (d : Cpu S)
      → d.regs rax < 2 ^ 64
      → signed_less (d.regs rax) 0 ≡ negative
      → (sub64 0 (d.regs rax) == 4) ≡ interrupted
      → (slept negative interrupted d).regs rax % 2 ^ 32
        ≡ sleep_result (signed_long (d.regs rax)) (d.mem (d.regs rsp + 16))
  unfolding sleep_result
  slept-result false interrupted d word e f = rw (signed_long-pos (d.regs rax) e) refl
  slept-result true true d word e f =
      rw (signed_long-negsuc (d.regs rax) e, error_is_4 (d.regs rax) word e, f) refl
  slept-result true false d word e f =
      rw (signed_long-negsuc (d.regs rax) e, error_is_4 (d.regs rax) word e, f) refl

module _ {S : Type 0} (kernel : Kernel64 S) (errno_at here : ℕ) where
  sleep_branches :
      (negative interrupted : Bool) (d : Cpu S)
      → d.regs rsp + 32 < 2 ^ 64
      → d.less ≡ negative
      → (sub64 0 (d.regs rax) == 4) ≡ interrupted
      → exec kernel errno_at (call_stub kernel errno_at here) (drop 7 sleep_code) none d ≡ (
          let end = slept negative interrupted d in
          some (end.mem (d.regs rsp + 32), drop_word (put_register rsp (d.regs rsp + 32) end)))
  unfolding exec put_register
  sleep_branches true true d fits e f =
      rw
        (
          e,
          exec,
          step,
          f,
          up (d.regs rsp) 16 (omega arith),
          add64-zero (d.regs rsp + 16) (omega arith),
          up (d.regs rsp) 32 fits,
          put_register,
        )
        refl
  sleep_branches true false d fits e f =
      rw (e, exec, step, f, up (d.regs rsp) 32 fits, put_register) refl
  sleep_branches false b d fits e f = rw (e, up (d.regs rsp) 32 fits, put_register) refl

  -- The instructions in front of the call.
  abbrev prologue : Cpu S → Cpu S
  prologue c =
      let framed = step kernel errno_at (sub_imm rsp 32) c in
      let written =
        step kernel errno_at (store_imm rsp 8 0) (step kernel errno_at (store rsp 0 rdi) framed) in
      step kernel errno_at (lea rsi rsp 16) (step kernel errno_at (mov rdi rsp) written)

  prologue-asking : (c : Cpu S) → 32 ≤ c.regs rsp → c.regs rsp < 2 ^ 64 → prologue c ≡ asking c
  unfolding step put_register
  prologue-asking c low high =
      let q = c.regs rsp - 32 in
      rw
        (
          down (c.regs rsp) 32 low high,
          add64-zero q (omega arith),
          up q 8 (omega arith),
          up q 16 (omega arith),
        )
        refl

  sleep_asm-eq :
      (c : Cpu S)
      → let a = call_answer kernel here 35 (asking c) in
        let d = compared0 a (asking c) in
        48 ≤ c.regs rsp
        → c.regs rsp < 2 ^ 64
        → LeavesFrame a here (asking c)
        → sleep_asm kernel errno_at here c ≡ (
            let end = slept (signed_less a.result 0) (sub64 0 a.result == 4) d in
            some (end.mem (d.regs rsp + 32), drop_word (put_register rsp (d.regs rsp + 32) end)))
  unfolding sleep_asm exec put_register
  sleep_asm-eq c low high frame =
      let a = call_answer kernel here 35 (asking c) in
      let asked =
        ap
          (λ (d : Cpu S).
            exec kernel errno_at (call_stub kernel errno_at here) (drop 5 sleep_code) none d)
          (prologue-asking c (omega arith) high) in
      let answered' =
        call_stub-answered kernel errno_at here 35 (asking c) (omega arith) (omega arith) frame in
      asked
      ∙ rw (exec, answered')
          (sleep_branches (signed_less a.result 0) (sub64 0 a.result == 4) (compared0 a (asking c))
            (omega arith) refl refl)

  -- sleep, in assembly, is the function in C: where the argument has no bits above the 32 of an
  -- unsigned int, and sys_nanosleep answers with a quadword and leaves the three quadwords of the stack
  -- alone that are read behind it (r10, the address behind the call, and the one of the caller), it
  -- returns to its caller with the same result, memory and world as the C function has with req and rem
  -- at rsp - 32 and rsp - 16: the seconds that are left after EINTR, and 0 after any other error. rbx,
  -- rbp and r12 to r15 are as they were, with the return address off the stack.
  pub sleep_asm-sleep_c :
      (c : Cpu S)
      → let q = c.regs rsp - 32 in
        let a =
          nanosleep_from kernel here c q
            (q + 16)
            (update (update c.mem q (c.regs rdi)) (q + 8) 0)
            c.os in
        48 ≤ c.regs rsp
        → c.regs rsp + 8 < 2 ^ 64
        → c.regs rdi < 2 ^ 32
        → a.mem (q - 16) ≡ c.regs r10
        → a.mem (q - 8) ≡ here
        → a.mem (c.regs rsp) ≡ c.mem (c.regs rsp)
        → a.result < 2 ^ 64
        → (c' : Cpu S) × (sleep_asm kernel errno_at here c ≡ some (c.mem (c.regs rsp), c'))
          × ((c'.regs rax % 2 ^ 32, c'.mem, c'.os)
              ≡ sleep_c (nanosleep_from kernel here c) q (q + 16) (c.regs rdi % 2 ^ 32) c.mem c.os)
          × (kept c' ≡ returned_to c)
  unfolding sleep_c drop_word put_register
  sleep_asm-sleep_c c low high seconds saved back top word =
      let q = c.regs rsp - 32 in
      let a =
        nanosleep_from kernel here c q (q + 16) (update (update c.mem q (c.regs rdi)) (q + 8) 0)
          c.os in
      let d = compared0 a (asking c) in
      let end = slept (signed_less a.result 0) (sub64 0 a.result == 4) d in
      let c' = drop_word (put_register rsp (d.regs rsp + 32) end) in
      let eq = sleep_asm-eq c low (omega arith) (saved, back) in
      let negative = signed_less a.result 0 in
      let interrupted = sub64 0 a.result == 4 in
      let bottom : q + 32 ≡ c.regs rsp = omega arith in
      let small : c.regs rdi % 2 ^ 32 ≡ c.regs rdi = omega arith in
      let mem = slept-mem negative interrupted d in
      let result = slept-result negative interrupted d word refl refl in
      let os = slept-os negative interrupted d in
      (
        c',
        eq
            ∙ ap (λ (v : ℕ). some (v, c'))
                (ap (λ (f : Mem). f (q + 32)) mem ∙ ap a.mem bottom ∙ top),
        (λ i. (result i, mem i, os i))
            ∙ ap (λ (n : ℕ). sleep_c (nanosleep_from kernel here c) q (q + 16) n c.mem c.os)
                (sym small),
        slept-kept negative interrupted d (q + 32) (omega arith) ∙ rw bottom refl,
      )

-- ===== src/Libmini/Asm/Calls.antt =====
-- A call of a system call stub from another routine, `call sys_...`.
use nycu_advanced_unix_progr.Base.{
  ℕ, ◌+◌, ◌-◌, ◌^◌, ◌≤◌, ◌<◌, ◌≡◌, refl, sym, fun_ext, ◌∙◌, ap, true, some, ◌==◌, arith,
}
use nycu_advanced_unix_progr.Libmini.Blocks.{Mem, update}
use nycu_advanced_unix_progr.Libmini.Asm.{
  Register, rax, rcx, rdx, rbx, rsp, rbp, rsi, rdi, r8, r9, r10, r11, r12, r13, r14, r15, assign,
  Answer, Cpu, Kernel64, push_word,
}
use nycu_advanced_unix_progr.Libmini.Asm.Code.{sys_stub, call_stub}
use nycu_advanced_unix_progr.Libmini.Asm.Stubs.{
  down, arguments, answered, answer, sys_stub-answered,
}

-- What the kernel answers to a stub that is called with the return address `here`.
abbrev pub call_answer : {S : Type 0} → Kernel64 S → ℕ → ℕ → Cpu S → Answer S
call_answer kernel here n c =
    let sp = c.regs rsp in
    kernel n (arguments c) (update (update c.mem (sp - 8) here) (sp - 16) (c.regs r10)) c.os

-- The registers and the processor behind the call.
abbrev pub called_regs : {S : Type 0} → Answer S → (Register → ℕ) → Register → ℕ
called_regs a regs = assign (assign (assign regs rcx a.old_rip) r11 a.old_flags) rax a.result

abbrev pub called : {S : Type 0} → Answer S → Cpu S → Cpu S
called a c = record c { regs = called_regs a c.regs; mem = a.mem; os = a.os }

-- The two quadwords below the top of the stack are as the call and the stub stored them.
abbrev pub LeavesFrame : {S : Type 0} → Answer S → ℕ → Cpu S → Type 0
LeavesFrame a here c = (a.mem (c.regs rsp - 16) ≡ c.regs r10) × (a.mem (c.regs rsp - 8) ≡ here)

popped-eq :
    {S : Type 0} (a : Answer S) (regs : Register → ℕ) (back : ℕ) (r : Register)
    → back ≡ regs rsp
    → assign (called_regs a (assign regs rsp (regs rsp - 8))) rsp back r ≡ called_regs a regs r
popped-eq a regs back rax e = refl
popped-eq a regs back rcx e = refl
popped-eq a regs back rdx e = refl
popped-eq a regs back rbx e = refl
popped-eq a regs back rsp e = e
popped-eq a regs back rbp e = refl
popped-eq a regs back rsi e = refl
popped-eq a regs back rdi e = refl
popped-eq a regs back r8 e = refl
popped-eq a regs back r9 e = refl
popped-eq a regs back r10 e = refl
popped-eq a regs back r11 e = refl
popped-eq a regs back r12 e = refl
popped-eq a regs back r13 e = refl
popped-eq a regs back r14 e = refl
popped-eq a regs back r15 e = refl

-- The processor behind the call instruction.
abbrev calling : {S : Type 0} → ℕ → Cpu S → Cpu S
calling here c =
    let below = c.regs rsp - 8 in
    record c { regs = assign c.regs rsp below; mem = update c.mem below here }

push_word-calling :
    {S : Type 0} (here : ℕ) (c : Cpu S)
    → 8 ≤ c.regs rsp
    → c.regs rsp < 2 ^ 64
    → push_word here c ≡ calling here c
unfolding push_word
push_word-calling here c low high = rw (down (c.regs rsp) 8 low high) refl

answer-calling :
    {S : Type 0} (kernel : Kernel64 S) (here n : ℕ) (c : Cpu S)
    → answer kernel n (calling here c) ≡ call_answer kernel here n c
answer-calling kernel here n c =
    let sp = c.regs rsp in
    let below : sp - 8 - 8 ≡ sp - 16 = omega arith in
    ap (λ (b : ℕ). kernel n (arguments c) (update (update c.mem (sp - 8) here) b (c.regs r10)) c.os)
      below

pub update_same : (f : Mem) (a v : ℕ) → update f a v a ≡ v
update_same f a v = ground arith

module _ {S : Type 0} (kernel : Kernel64 S) (errno_at : ℕ) where
  calling-answered :
      (here n : ℕ) (c : Cpu S)
      → 16 ≤ c.regs rsp
      → c.regs rsp < 2 ^ 64
      → LeavesFrame (call_answer kernel here n c) here c
      → sys_stub kernel errno_at n (calling here c)
        ≡ some (here, answered (call_answer kernel here n c) (calling here c))
  calling-answered here n c low high (saved, kept) =
      let sp = c.regs rsp in
      let e = answer-calling kernel here n c in
      let top = update_same c.mem (sp - 8) here in
      let saved' : (answer kernel n (calling here c)).mem (sp - 8 - 8) ≡ c.regs r10 =
        ap (λ (a : Answer S). a.mem (sp - 8 - 8)) e
        ∙ ap (call_answer kernel here n c).mem (omega arith)
        ∙ saved in
      let kept' : (answer kernel n (calling here c)).mem (sp - 8)
          ≡ update c.mem (sp - 8) here (sp - 8) =
        ap (λ (a : Answer S). a.mem (sp - 8)) e ∙ kept ∙ sym top in
      sys_stub-answered kernel errno_at n (calling here c) (omega arith) (omega arith) saved' kept'
      ∙ ap (λ (t : ℕ). some (t, answered (answer kernel n (calling here c)) (calling here c))) top
      ∙ ap (λ (a : Answer S). some (here, answered a (calling here c))) e

  pub call_stub-answered :
      (here n : ℕ) (c : Cpu S)
      → 16 ≤ c.regs rsp
      → c.regs rsp < 2 ^ 64
      → LeavesFrame (call_answer kernel here n c) here c
      → call_stub kernel errno_at here n c ≡ some (called (call_answer kernel here n c) c)
  unfolding call_stub
  call_stub-answered here n c low high frame =
      let a = call_answer kernel here n c in
      let back : c.regs rsp - 8 + 8 ≡ c.regs rsp = omega arith in
      let same : (here == here) ≡ true = ground arith in
      rw
        (
          call_stub,
          push_word-calling here c (omega arith) high,
          calling-answered here n c low high frame,
          same,
        )
        (ap (λ (f : Register → ℕ). some (record c { regs = f; mem = a.mem; os = a.os }))
          (fun_ext (λ (r : Register). popped-eq a c.regs (c.regs rsp - 8 + 8) r back)))

-- ===== src/Libmini/Asm/Stubs.antt =====
-- The system call stubs (gensys).
use nycu_advanced_unix_progr.Base.{
  ℕ, ◌+◌, ◌-◌, ◌^◌, ◌≤◌, ◌<◌, ◌≡◌, refl, fun_ext, ◌∙◌, ap, some, arith,
}
use nycu_advanced_unix_progr.Base.Word.{add64, sub64}
use nycu_advanced_unix_progr.Libmini.Blocks.{update}
use nycu_advanced_unix_progr.Libmini.Asm.{
  Register, rax, rcx, rdx, rbx, rsp, rbp, rsi, rdi, r8, r9, r10, r11, r12, r13, r14, r15, assign,
  Arguments, Answer, Cpu, Kernel64, put_register, push_word, drop_word, syscall_step, exec,
}
use nycu_advanced_unix_progr.Libmini.Asm.Code.{sys_stub}

pub down : (sp n : ℕ) → n ≤ sp → sp < 2 ^ 64 → sub64 sp n ≡ sp - n
unfolding sub64
down sp n h k = omega arith

pub up : (sp n : ℕ) → sp + n < 2 ^ 64 → add64 sp n ≡ sp + n
unfolding add64
up sp n h = omega arith

pub add64-zero : (a : ℕ) → a < 2 ^ 64 → add64 a 0 ≡ a
unfolding add64
add64-zero a h = omega arith

-- The arguments of a system call, as the caller of a stub passes them.
abbrev pub arguments : {S : Type 0} → Cpu S → Arguments
arguments c = (c.regs rdi, c.regs rsi, c.regs rdx, c.regs rcx, c.regs r8, c.regs r9)

-- The registers behind a stub, step by step, and what they come to.
abbrev through : (Register → ℕ) → ℕ → ℕ → ℕ → ℕ → ℕ → Register → ℕ
through regs n result old_rip old_flags back =
    let sp = regs rsp in
    let entered = assign (assign (assign regs rsp (sp - 8)) r10 (regs rcx)) rax n in
    let answered = assign (assign (assign entered rcx old_rip) r11 old_flags) rax result in
    assign (assign (assign answered rsp sp) r10 back) rsp (sp + 8)

abbrev pub clobbered : (Register → ℕ) → ℕ → ℕ → ℕ → Register → ℕ
clobbered regs result old_rip old_flags =
    assign (assign (assign (assign regs rcx old_rip) r11 old_flags) rax result) rsp (regs rsp + 8)

through-eq :
    (regs : Register → ℕ) (n result old_rip old_flags : ℕ) (r : Register)
    → through regs n result old_rip old_flags (regs r10) r
      ≡ clobbered regs result old_rip old_flags r
through-eq regs n result old_rip old_flags rax = refl
through-eq regs n result old_rip old_flags rcx = refl
through-eq regs n result old_rip old_flags rdx = refl
through-eq regs n result old_rip old_flags rbx = refl
through-eq regs n result old_rip old_flags rsp = refl
through-eq regs n result old_rip old_flags rbp = refl
through-eq regs n result old_rip old_flags rsi = refl
through-eq regs n result old_rip old_flags rdi = refl
through-eq regs n result old_rip old_flags r8 = refl
through-eq regs n result old_rip old_flags r9 = refl
through-eq regs n result old_rip old_flags r10 = refl
through-eq regs n result old_rip old_flags r11 = refl
through-eq regs n result old_rip old_flags r12 = refl
through-eq regs n result old_rip old_flags r13 = refl
through-eq regs n result old_rip old_flags r14 = refl
through-eq regs n result old_rip old_flags r15 = refl

-- The processor behind a stub that was answered.
abbrev pub answered : {S : Type 0} → Answer S → Cpu S → Cpu S
answered a c = record c {
  regs = clobbered c.regs a.result a.old_rip a.old_flags;
  mem = a.mem;
  os = a.os;
}

-- What the kernel answers to a stub: its memory has r10 below the top of the stack.
abbrev pub answer : {S : Type 0} → Kernel64 S → ℕ → Cpu S → Answer S
answer kernel n c = kernel n (arguments c) (update c.mem (c.regs rsp - 8) (c.regs r10)) c.os

module _ {S : Type 0} (kernel : Kernel64 S) (errno_at : ℕ) where
  -- A stub asks the kernel once, with its number and with the caller's arguments, the fourth from rcx.
  -- If the kernel leaves the two quadwords of the stack alone that the stub reads back, it returns to its
  -- caller with the kernel's result, memory and world; of the registers only rax, rcx and r11 are not what they
  -- were, and the return address is off the stack.
  pub sys_stub-answered :
      (n : ℕ) (c : Cpu S)
      → 8 ≤ c.regs rsp
      → c.regs rsp + 8 < 2 ^ 64
      → (answer kernel n c).mem (c.regs rsp - 8) ≡ c.regs r10
      → (answer kernel n c).mem (c.regs rsp) ≡ c.mem (c.regs rsp)
      → sys_stub kernel errno_at n c ≡ some (c.mem (c.regs rsp), answered (answer kernel n c) c)
  unfolding sys_stub exec put_register push_word drop_word syscall_step
  sys_stub-answered n c low high saved kept_top =
      let sp = c.regs rsp in
      let below = down sp 8 low (omega arith) in
      let above : add64 (sp - 8) 8 ≡ sp = up (sp - 8) 8 (omega arith) ∙ omega arith in
      let a = answer kernel n c in
      let regs = fun_ext (through-eq c.regs n a.result a.old_rip a.old_flags) in
      rw (below, above, up sp 8 high, saved, kept_top)
        (ap (λ (f : Register → ℕ). some (c.mem sp, record c { regs = f; mem = a.mem; os = a.os }))
          regs)

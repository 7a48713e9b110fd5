-- ===== src/Debugger/Regs/Handler.antt =====
-- What debugger::reg_handler reads and writes.
use nycu_advanced_unix_progr.Base.{ℕ, ◌≡◌, refl, ◌≢◌, some, Bytes, arith}
use nycu_advanced_unix_progr.Debugger.Regs.{Regs, Reg, find_reg, get_reg, put_reg, reg_handler}

get-put_self : (r : Reg) (v : ℕ) (s : Regs) → get_reg r (put_reg r v s) ≡ v
unfolding get_reg put_reg
get-put_self Reg.r15 v s = refl
get-put_self Reg.r14 v s = refl
get-put_self Reg.r13 v s = refl
get-put_self Reg.r12 v s = refl
get-put_self Reg.r11 v s = refl
get-put_self Reg.r10 v s = refl
get-put_self Reg.r9 v s = refl
get-put_self Reg.r8 v s = refl
get-put_self Reg.rbp v s = refl
get-put_self Reg.rsp v s = refl
get-put_self Reg.rsi v s = refl
get-put_self Reg.rdi v s = refl
get-put_self Reg.rip v s = refl
get-put_self Reg.rax v s = refl
get-put_self Reg.rbx v s = refl
get-put_self Reg.rcx v s = refl
get-put_self Reg.rdx v s = refl
get-put_self Reg.eflags v s = refl

get-put_ne : (r q : Reg) (v : ℕ) (s : Regs) → r ≢ q → get_reg q (put_reg r v s) ≡ get_reg q s
unfolding get_reg put_reg
get-put_ne Reg.r15 Reg.r15 v s h = absurd (h refl)
get-put_ne Reg.r15 _ v s h = refl
get-put_ne Reg.r14 Reg.r14 v s h = absurd (h refl)
get-put_ne Reg.r14 _ v s h = refl
get-put_ne Reg.r13 Reg.r13 v s h = absurd (h refl)
get-put_ne Reg.r13 _ v s h = refl
get-put_ne Reg.r12 Reg.r12 v s h = absurd (h refl)
get-put_ne Reg.r12 _ v s h = refl
get-put_ne Reg.r11 Reg.r11 v s h = absurd (h refl)
get-put_ne Reg.r11 _ v s h = refl
get-put_ne Reg.r10 Reg.r10 v s h = absurd (h refl)
get-put_ne Reg.r10 _ v s h = refl
get-put_ne Reg.r9 Reg.r9 v s h = absurd (h refl)
get-put_ne Reg.r9 _ v s h = refl
get-put_ne Reg.r8 Reg.r8 v s h = absurd (h refl)
get-put_ne Reg.r8 _ v s h = refl
get-put_ne Reg.rbp Reg.rbp v s h = absurd (h refl)
get-put_ne Reg.rbp _ v s h = refl
get-put_ne Reg.rsp Reg.rsp v s h = absurd (h refl)
get-put_ne Reg.rsp _ v s h = refl
get-put_ne Reg.rsi Reg.rsi v s h = absurd (h refl)
get-put_ne Reg.rsi _ v s h = refl
get-put_ne Reg.rdi Reg.rdi v s h = absurd (h refl)
get-put_ne Reg.rdi _ v s h = refl
get-put_ne Reg.rip Reg.rip v s h = absurd (h refl)
get-put_ne Reg.rip _ v s h = refl
get-put_ne Reg.rax Reg.rax v s h = absurd (h refl)
get-put_ne Reg.rax _ v s h = refl
get-put_ne Reg.rbx Reg.rbx v s h = absurd (h refl)
get-put_ne Reg.rbx _ v s h = refl
get-put_ne Reg.rcx Reg.rcx v s h = absurd (h refl)
get-put_ne Reg.rcx _ v s h = refl
get-put_ne Reg.rdx Reg.rdx v s h = absurd (h refl)
get-put_ne Reg.rdx _ v s h = refl
get-put_ne Reg.eflags Reg.eflags v s h = absurd (h refl)
get-put_ne Reg.eflags _ v s h = refl

others-put : (r : Reg) (v : ℕ) (s : Regs) → (put_reg r v s).others ≡ s.others
unfolding put_reg
others-put Reg.r15 v s = refl
others-put Reg.r14 v s = refl
others-put Reg.r13 v s = refl
others-put Reg.r12 v s = refl
others-put Reg.r11 v s = refl
others-put Reg.r10 v s = refl
others-put Reg.r9 v s = refl
others-put Reg.r8 v s = refl
others-put Reg.rbp v s = refl
others-put Reg.rsp v s = refl
others-put Reg.rsi v s = refl
others-put Reg.rdi v s = refl
others-put Reg.rip v s = refl
others-put Reg.rax v s = refl
others-put Reg.rbx v s = refl
others-put Reg.rcx v s = refl
others-put Reg.rdx v s = refl
others-put Reg.eflags v s = refl

-- With a value other than 0, reg_handler returns 0, writes the named register and no other; so the
-- next read returns that value.
reg_handler_write :
    (t : Bytes) (r : Reg) (v : ℕ) (s : Regs)
    → find_reg t ≡ some r
    → v ≢ 0
    → let (result, s') = reg_handler t v s in
      (result ≡ 0)
      × (reg_handler t 0 s' ≡ (v, s'))
      × (s'.others ≡ s.others)
      × ((q : Reg) → r ≢ q → get_reg q s' ≡ get_reg q s)
unfolding reg_handler
reg_handler_write t r v s e h = (
  ground arith,
  ground (arith, get-put_self r v s),
  ground (arith, others-put r v s),
  λ q ne. ground (arith, get-put_ne r q v s ne),
)

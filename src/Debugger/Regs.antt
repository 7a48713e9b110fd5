-- ===== src/Debugger/Regs.antt =====
-- The registers of a tracee, and debugger::reg_handler of hw4/command.hpp.
pub mod Handler
use nycu_advanced_unix_progr.Base.{
  ℕ, Option, none, some, List, Bytes, codes, bytes_eq, ◌==◌, if◌then◌else◌,
}
use nycu_advanced_unix_progr.Base.Word.{minus_one}

-- struct user_regs_struct: the registers that the debugger names, and all others.
pub record Regs : Type 0 where
  pub r15 : ℕ
  pub r14 : ℕ
  pub r13 : ℕ
  pub r12 : ℕ
  pub r11 : ℕ
  pub r10 : ℕ
  pub r9 : ℕ
  pub r8 : ℕ
  pub rbp : ℕ
  pub rsp : ℕ
  pub rsi : ℕ
  pub rdi : ℕ
  pub rip : ℕ
  pub rax : ℕ
  pub rbx : ℕ
  pub rcx : ℕ
  pub rdx : ℕ
  pub eflags : ℕ
  pub others : List ℕ

-- What `tar_reg` may point to.
pub data Reg : Type 0 where
  r15 r14 r13 r12 r11 r10 r9 r8 rbp rsp rsi rdi rip rax rbx rcx rdx eflags : Reg

-- The chain of comparisons that sets `tar_reg`; `none` is its last branch.
unfoldable pub find_reg : Bytes → Option Reg
find_reg t =
    if bytes_eq t (codes "r15")
    then some Reg.r15
    else if bytes_eq t (codes "r14")
    then some Reg.r14
    else if bytes_eq t (codes "r13")
    then some Reg.r13
    else if bytes_eq t (codes "r12")
    then some Reg.r12
    else if bytes_eq t (codes "r11")
    then some Reg.r11
    else if bytes_eq t (codes "r10")
    then some Reg.r10
    else if bytes_eq t (codes "r9")
    then some Reg.r9
    else if bytes_eq t (codes "r8")
    then some Reg.r8
    else if bytes_eq t (codes "rbp")
    then some Reg.rbp
    else if bytes_eq t (codes "rsp")
    then some Reg.rsp
    else if bytes_eq t (codes "rsi")
    then some Reg.rsi
    else if bytes_eq t (codes "rdi")
    then some Reg.rdi
    else if bytes_eq t (codes "rip")
    then some Reg.rip
    else if bytes_eq t (codes "rax")
    then some Reg.rax
    else if bytes_eq t (codes "rbx")
    then some Reg.rbx
    else if bytes_eq t (codes "rcx")
    then some Reg.rcx
    else if bytes_eq t (codes "rdx")
    then some Reg.rdx
    else if bytes_eq t (codes "flags")
    then some Reg.eflags
    else none

-- `*tar_reg`
unfoldable pub get_reg : Reg → Regs → ℕ
get_reg Reg.r15 s = s.r15
get_reg Reg.r14 s = s.r14
get_reg Reg.r13 s = s.r13
get_reg Reg.r12 s = s.r12
get_reg Reg.r11 s = s.r11
get_reg Reg.r10 s = s.r10
get_reg Reg.r9 s = s.r9
get_reg Reg.r8 s = s.r8
get_reg Reg.rbp s = s.rbp
get_reg Reg.rsp s = s.rsp
get_reg Reg.rsi s = s.rsi
get_reg Reg.rdi s = s.rdi
get_reg Reg.rip s = s.rip
get_reg Reg.rax s = s.rax
get_reg Reg.rbx s = s.rbx
get_reg Reg.rcx s = s.rcx
get_reg Reg.rdx s = s.rdx
get_reg Reg.eflags s = s.eflags

-- `*tar_reg = v`
unfoldable pub put_reg : Reg → ℕ → Regs → Regs
put_reg Reg.r15 v s = record s { r15 = v }
put_reg Reg.r14 v s = record s { r14 = v }
put_reg Reg.r13 v s = record s { r13 = v }
put_reg Reg.r12 v s = record s { r12 = v }
put_reg Reg.r11 v s = record s { r11 = v }
put_reg Reg.r10 v s = record s { r10 = v }
put_reg Reg.r9 v s = record s { r9 = v }
put_reg Reg.r8 v s = record s { r8 = v }
put_reg Reg.rbp v s = record s { rbp = v }
put_reg Reg.rsp v s = record s { rsp = v }
put_reg Reg.rsi v s = record s { rsi = v }
put_reg Reg.rdi v s = record s { rdi = v }
put_reg Reg.rip v s = record s { rip = v }
put_reg Reg.rax v s = record s { rax = v }
put_reg Reg.rbx v s = record s { rbx = v }
put_reg Reg.rcx v s = record s { rcx = v }
put_reg Reg.rdx v s = record s { rdx = v }
put_reg Reg.eflags v s = record s { eflags = v }

-- reg_handler: the value that it returns and the registers as it leaves them. The input 0 stands
-- for a read, and -1 for an unknown name.
unfoldable pub reg_handler : Bytes → ℕ → Regs → ℕ × Regs
unfolding find_reg get_reg put_reg
reg_handler t input_val regs = elim (find_reg t) [
  | none ↦ (minus_one, regs)
  | some r ↦ if input_val == 0 then (get_reg r regs, regs) else (0, put_reg r input_val regs)
]

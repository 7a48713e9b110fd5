-- ===== src/Libmini/Asm.antt =====
-- hw3/libmini64.asm: the instructions that it uses, on a processor whose memory is one of quadwords,
-- as all its accesses are to addresses that are multiples of 8.
pub mod Code
pub mod Jumps
pub mod Stubs
pub mod Calls
pub mod Open
pub mod Sleep
mod Examples
use nycu_advanced_unix_progr.Base.{
  ℕ, ◌-◌, ◌%◌, ◌^◌, Bool, true, false, Option, none, some, List, [], ◌∷◌, ltb, ◌==◌, if◌then◌else◌,
}
use nycu_advanced_unix_progr.Base.Word.{add64, sub64}
use nycu_advanced_unix_progr.Libmini.Blocks.{Mem, update}

pub data Register : Type 0 where
  rax rcx rdx rbx rsp rbp rsi rdi r8 r9 r10 r11 r12 r13 r14 r15 : Register

-- The number of a register in the machine code.
abbrev pub encoding : Register → ℕ
encoding rax = 0
encoding rcx = 1
encoding rdx = 2
encoding rbx = 3
encoding rsp = 4
encoding rbp = 5
encoding rsi = 6
encoding rdi = 7
encoding r8 = 8
encoding r9 = 9
encoding r10 = 10
encoding r11 = 11
encoding r12 = 12
encoding r13 = 13
encoding r14 = 14
encoding r15 = 15

abbrev pub assign : (Register → ℕ) → Register → ℕ → Register → ℕ
assign regs r v r' = if encoding r == encoding r' then v else regs r'

-- The processor, the flags of the last cmp, and the world of the kernel.
pub record Cpu (S : Type 0) : Type 0 where
  pub regs : Register → ℕ
  pub mem : Mem
  pub less : Bool
  pub equal : Bool
  pub os : S

pub data Label : Type 0 where
  open_error open_success open_quit sleep_error sleep_interrupted sleep_failed sleep_quit : Label

abbrev pub position : Label → ℕ
position open_error = 0
position open_success = 1
position open_quit = 2
position sleep_error = 3
position sleep_interrupted = 4
position sleep_failed = 5
position sleep_quit = 6

-- `mov a, b`; `mov a, imm`; `mov a, b` and `xor a, a` on the low 32 bits; `mov [a+n], b`; `mov QWORD
-- [a+n], imm`; `mov a, [b+n]`; the address of errno; `lea a, [b+n]`; `add`, `sub` and `cmp` with a
-- number; `jmp [a+n]`; `call` of a system call stub by its number; and the rest as it is written.
pub data Instr : Type 0 where
  mov mov32 : Register → Register → Instr
  mov_imm : Register → ℕ → Instr
  clear32 neg push pop errno_address : Register → Instr
  store : Register → ℕ → Register → Instr
  store_imm : Register → ℕ → ℕ → Instr
  load_word lea : Register → Register → ℕ → Instr
  add_imm sub_imm cmp : Register → ℕ → Instr
  jge jne jmp label : Label → Instr
  jmp_mem : Register → ℕ → Instr
  call : ℕ → Instr
  syscall ret : Instr

-- What a system call leaves in rax, in the registers that the instruction overwrites, and in memory.
pub record Answer (S : Type 0) : Type 0 where
  pub result : ℕ
  pub old_rip : ℕ
  pub old_flags : ℕ
  pub mem : Mem
  pub os : S

-- rdi, rsi, rdx, r10, r8 and r9.
abbrev pub Arguments : Type 0
Arguments = ℕ × ℕ × ℕ × ℕ × ℕ × ℕ

-- The kernel, by the number in rax, the arguments, the memory and its world.
abbrev pub Kernel64 : Type 0 → Type 0
Kernel64 S = ℕ → Arguments → Mem → S → Answer S

-- a < n for a quadword as a signed number and a small n.
abbrev pub signed_less : ℕ → ℕ → Bool
signed_less a n = if ltb a (2 ^ 63) then ltb a n else true

module _ {S : Type 0} where
  unfoldable pub put_register : Register → ℕ → Cpu S → Cpu S
  put_register r v c = record c { regs = assign c.regs r v }

  -- push and pop.
  unfoldable pub push_word : ℕ → Cpu S → Cpu S
  push_word v c =
      let top = sub64 (c.regs rsp) 8 in
      record c { regs = assign c.regs rsp top; mem = update c.mem top v }

  unfoldable pub drop_word : Cpu S → Cpu S
  drop_word c = record c { regs = assign c.regs rsp (add64 (c.regs rsp) 8) }

module _ {S : Type 0} (kernel : Kernel64 S) (errno_at : ℕ) where
  unfoldable pub syscall_step : Cpu S → Cpu S
  syscall_step c =
      let args : Arguments =
        (c.regs rdi, c.regs rsi, c.regs rdx, c.regs r10, c.regs r8, c.regs r9) in
      let a = kernel (c.regs rax) args c.mem c.os in
      record c {
        regs = assign (assign (assign c.regs rcx a.old_rip) r11 a.old_flags) rax a.result;
        mem = a.mem;
        os = a.os;
      }

  -- An instruction behind which the next one follows.
  unfoldable pub step : Instr → Cpu S → Cpu S
  unfolding put_register push_word drop_word syscall_step
  step (mov a b) c = put_register a (c.regs b) c
  step (mov32 a b) c = put_register a (c.regs b % 2 ^ 32) c
  step (mov_imm a n) c = put_register a n c
  step (clear32 a) c = put_register a 0 c
  step (neg a) c = put_register a (sub64 0 (c.regs a)) c
  step (push a) c = push_word (c.regs a) c
  step (pop a) c = put_register a (c.mem (c.regs rsp)) (drop_word c)
  step (errno_address a) c = put_register a errno_at c
  step (store a n b) c = record c { mem = update c.mem (add64 (c.regs a) n) (c.regs b) }
  step (store_imm a n v) c = record c { mem = update c.mem (add64 (c.regs a) n) v }
  step (load_word a b n) c = put_register a (c.mem (add64 (c.regs b) n)) c
  step (lea a b n) c = put_register a (add64 (c.regs b) n) c
  step (add_imm a n) c = put_register a (add64 (c.regs a) n) c
  step (sub_imm a n) c = put_register a (sub64 (c.regs a) n) c
  step (cmp a n) c = record c { less = signed_less (c.regs a) n; equal = c.regs a == n }
  step syscall c = syscall_step c
  step _ c = c

abbrev pub is_at : Label → Instr → Bool
is_at l (label l') = position l == position l'
is_at l _ = false

-- The end of a routine: the address that it goes to, and the processor there. `none` is a run behind
-- the last instruction, or a call that does not come back.
abbrev pub Left : Type 0 → Type 0
Left S = Option (ℕ × Cpu S)

module _ {S : Type 0} (kernel : Kernel64 S) (errno_at : ℕ) (sub : ℕ → Cpu S → Option (Cpu S)) where
  -- The instructions from here on; all jumps are forward, to the next place with their label.
  unfoldable pub exec : List Instr → Option Label → Cpu S → Left S
  unfolding step
  exec [] seek c = none
  exec (i ∷ code) (some l) c = exec code (if is_at l i then none else some l) c
  exec (ret ∷ code) none c = some (c.mem (c.regs rsp), drop_word c)
  exec (jmp_mem a n ∷ code) none c = some (c.mem (add64 (c.regs a) n), c)
  exec (jmp l ∷ code) none c = exec code (some l) c
  exec (jge l ∷ code) none c = exec code (if c.less then none else some l) c
  exec (jne l ∷ code) none c = exec code (if c.equal then none else some l) c
  exec (call n ∷ code) none c = elim (sub n c) [ none ↦ none | some c' ↦ exec code none c' ]
  exec (i ∷ code) none c = exec code none (step kernel errno_at i c)

-- ===== src/Libmini/Asm/Code.antt =====
-- The routines of hw3/libmini64.asm.
use nycu_advanced_unix_progr.Base.{
  ℕ, ◌-◌, ◌^◌, Option, none, some, List, [], ◌∷◌, ◌==◌, if◌then◌else◌,
}
use nycu_advanced_unix_progr.Libmini.Asm.{
  rax, rcx, rbx, rsp, rbp, rsi, rdi, r10, r12, r13, r14, r15, Cpu, open_error, open_success,
  open_quit, sleep_error, sleep_interrupted, sleep_failed, sleep_quit, Instr, mov, mov32, mov_imm,
  clear32, neg, push, pop, errno_address, store, store_imm, load_word, lea, add_imm, sub_imm, cmp,
  jge, jne, jmp, label, jmp_mem, call, syscall, ret, Kernel64, push_word, Left, exec,
}

-- gensys
abbrev pub gensys : ℕ → List Instr
gensys n = push r10 ∷ mov r10 rcx ∷ mov_imm rax n ∷ syscall ∷ pop r10 ∷ ret ∷ []

abbrev pub open_code : List Instr
open_code =
    call 2
    ∷ cmp rax 0
    ∷ jge open_success
    ∷ label open_error
    ∷ neg rax
    ∷ errno_address rdi
    ∷ store rdi 0 rax
    ∷ mov_imm rax (2 ^ 64 - 1)
    ∷ jmp open_quit
    ∷ label open_success
    ∷ errno_address rdi
    ∷ store_imm rdi 0 0
    ∷ label open_quit
    ∷ ret
    ∷ []

abbrev pub sleep_code : List Instr
sleep_code =
    sub_imm rsp 32
    ∷ store rsp 0 rdi
    ∷ store_imm rsp 8 0
    ∷ mov rdi rsp
    ∷ lea rsi rsp 16
    ∷ call 35
    ∷ cmp rax 0
    ∷ jge sleep_quit
    ∷ label sleep_error
    ∷ neg rax
    ∷ cmp rax 4
    ∷ jne sleep_failed
    ∷ label sleep_interrupted
    ∷ lea rsi rsp 16
    ∷ load_word rax rsi 0
    ∷ jmp sleep_quit
    ∷ label sleep_failed
    ∷ mov_imm rax 0
    ∷ label sleep_quit
    ∷ add_imm rsp 32
    ∷ ret
    ∷ []

abbrev pub setjmp_code : List Instr
setjmp_code =
    pop rsi
    ∷ clear32 rax
    ∷ store rdi 0 rbx
    ∷ store rdi 8 rsp
    ∷ push rsi
    ∷ store rdi 16 rbp
    ∷ store rdi 24 r12
    ∷ store rdi 32 r13
    ∷ store rdi 40 r14
    ∷ store rdi 48 r15
    ∷ store rdi 56 rsi
    ∷ ret
    ∷ []

abbrev pub longjmp_code : List Instr
longjmp_code =
    mov32 rax rsi
    ∷ load_word rbx rdi 0
    ∷ load_word rsp rdi 8
    ∷ load_word rbp rdi 16
    ∷ load_word r12 rdi 24
    ∷ load_word r13 rdi 32
    ∷ load_word r14 rdi 40
    ∷ load_word r15 rdi 48
    ∷ jmp_mem rdi 56
    ∷ []

-- A stub calls nothing.
abbrev pub no_calls : {S : Type 0} → ℕ → Cpu S → Option (Cpu S)
no_calls n c = none

module _ {S : Type 0} (kernel : Kernel64 S) (errno_at : ℕ) where
  -- Each routine from its first instruction on.
  unfoldable pub sys_stub : ℕ → Cpu S → Left S
  sys_stub n = exec kernel errno_at no_calls (gensys n) none

  unfoldable pub setjmp : Cpu S → Left S
  setjmp = exec kernel errno_at no_calls setjmp_code none

  unfoldable pub longjmp : Cpu S → Left S
  longjmp = exec kernel errno_at no_calls longjmp_code none

  -- `call sys_...`, with the address behind it; the stub comes back to that address.
  unfoldable pub call_stub : ℕ → ℕ → Cpu S → Option (Cpu S)
  call_stub here n c = elim (sys_stub n (push_word here c)) [
    | none ↦ none
    | some (target, c') ↦ if target == here then some c' else none
  ]

  -- open and sleep, where `here` is the address behind their call.
  unfoldable pub open_asm : ℕ → Cpu S → Left S
  open_asm here = exec kernel errno_at (call_stub here) open_code none

  unfoldable pub sleep_asm : ℕ → Cpu S → Left S
  sleep_asm here = exec kernel errno_at (call_stub here) sleep_code none

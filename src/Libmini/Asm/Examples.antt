-- ===== src/Libmini/Asm/Examples.antt =====
-- Runs of the routines of hw3/libmini64.asm with a small kernel.
use nycu_advanced_unix_progr.Base.{
  ℕ, suc, ◌+◌, ◌-◌, ◌%◌, ◌^◌, ◌≡◌, refl, ◌++◌, [], ◌∷◌, none, some, inl, ◌==◌, if◌then◌else◌, false,
  arith,
}
use nycu_advanced_unix_progr.Base.Word.{add64, sub64}
use nycu_advanced_unix_progr.Base.Int.{pos, negsuc, signed_int}
use nycu_advanced_unix_progr.Libmini.Blocks.{update}
use nycu_advanced_unix_progr.Libmini.Wrappers.{c_int, wrapper_ret}
use nycu_advanced_unix_progr.Libmini.Asm.{exec, rax, encoding, Cpu, Kernel64}
use nycu_advanced_unix_progr.Libmini.Asm.Code.{
  call_stub, sys_stub, setjmp, longjmp, open_asm, sleep_asm,
}
use nycu_advanced_unix_progr.Libmini.Asm.Jumps.{
  kept, returned_to, call_site, env_words, setjmp-longjmp,
}
use nycu_advanced_unix_progr.Libmini.Asm.Stubs.{answer, answered, sys_stub-answered}
use nycu_advanced_unix_progr.Libmini.Asm.Open.{int_result, signed_long, open_asm-wrapper_ret}
use nycu_advanced_unix_progr.Libmini.Asm.Calls.{call_answer}
use nycu_advanced_unix_progr.Libmini.Asm.Sleep.{sleep_c, nanosleep_from, sleep_asm-sleep_c}

-- sys_open finds no file (ENOENT), sys_nanosleep is interrupted (EINTR) with 2 seconds left, and any
-- other call gives its first argument. The world counts the calls.
abbrev small_kernel : Kernel64 ℕ
small_kernel n (first, second, a, b, c, d) mem os = record {
  result = if n == 2 then 2 ^ 64 - 2 else if n == 35 then 2 ^ 64 - 4 else first;
  old_rip = 77;
  old_flags = 514;
  mem = if n == 35 then update mem second 2 else mem;
  os = suc os;
}

abbrev errno_at : ℕ
errno_at = 6000

-- rsp is 8000, rdi 9, and each other register holds 100 and its number; the stack has the return
-- address.
abbrev cpu : Cpu ℕ
cpu = record {
  regs = λ r. if encoding r == 4 then 8000 else if encoding r == 7 then 9 else 100 + encoding r;
  mem = λ a. if a == 8000 then 4194304 else 0;
  less = false;
  equal = false;
  os = 0;
}

-- The same with a jmp_buf at 9000.
abbrev jumper : Cpu ℕ
jumper = record cpu { regs = λ r. if encoding r == 7 then 9000 else cpu.regs r }

-- Deeper in the stack, with the jmp_buf filled.
abbrev later : Cpu ℕ
later = record cpu {
  regs = λ r. if encoding r == 7 then 9000 else if encoding r == 6 then 5 else 0;
  mem = λ a.
      if a == 9000
      then 103
      else if a == 9008
      then 8008
      else if a == 9016
      then 105
      else if a == 9024
      then 112
      else if a == 9032
      then 113
      else if a == 9040
      then 114
      else if a == 9048
      then 115
      else if a == 9056
      then 4194304
      else 1;
}

setjmp-longjmp_example :
    (c' : Cpu ℕ) × (d' : Cpu ℕ) × (setjmp small_kernel errno_at jumper ≡ some (4194304, c'))
    × (c'.regs rax ≡ 0)
    × (env_words c'.mem 9000 ≡ call_site jumper ++ (0 ∷ []))
    × (c'.os ≡ jumper.os)
    × (longjmp small_kernel errno_at later ≡ some (4194304, d'))
    × (kept d' ≡ kept c')
    × (d'.regs rax ≡ 5)
    × (d'.mem ≡ later.mem)
    × (d'.os ≡ later.os)
setjmp-longjmp_example =
    setjmp-longjmp small_kernel errno_at jumper later (omega arith, omega arith, inl (omega arith))
      refl refl

sys_stub-answered_example :
    sys_stub small_kernel errno_at 3 cpu ≡ some (4194304, answered (answer small_kernel 3 cpu) cpu)
sys_stub-answered_example =
    sys_stub-answered small_kernel errno_at 3 cpu (omega arith) (omega arith) refl refl

open_asm-wrapper_ret_example :
    (c' : Cpu ℕ) × (open_asm small_kernel errno_at 500 cpu ≡ some (4194304, c'))
    × (int_result errno_at c' ≡ wrapper_ret c_int (signed_long (2 ^ 64 - 2)) 1)
    × (((b : ℕ) → ¬ b ≡ errno_at → c'.mem b ≡ (call_answer small_kernel 500 2 cpu).mem b))
    × (kept c' ≡ returned_to cpu)
open_asm-wrapper_ret_example =
    open_asm-wrapper_ret small_kernel errno_at 500 cpu (omega arith) (omega arith) (omega arith)
      (λ e. omega arith) (refl, refl) refl (omega arith)

sleep_asm-sleep_c_example :
    (c' : Cpu ℕ) × (sleep_asm small_kernel errno_at 500 cpu ≡ some (4194304, c'))
    × ((c'.regs rax % 2 ^ 32, c'.mem, c'.os)
        ≡ sleep_c (nanosleep_from small_kernel 500 cpu) 7968 7984 9 cpu.mem 0)
    × (kept c' ≡ returned_to cpu)
sleep_asm-sleep_c_example =
    sleep_asm-sleep_c small_kernel errno_at 500 cpu (omega arith) (omega arith) (omega arith) refl
      refl refl (omega arith)

-- open sets errno to 2.
open_runs :
    (elim (open_asm small_kernel errno_at 500 cpu) [
      | none ↦ none
      | some (t, c) ↦ some (int_result errno_at c)
    ])
    ≡ some (negsuc 0, record { errno = pos 2; os = 1 })
unfolding open_asm exec call_stub sys_stub sub64 add64 signed_int signed_long
open_runs = refl

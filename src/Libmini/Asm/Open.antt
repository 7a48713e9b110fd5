-- ===== src/Libmini/Asm/Open.antt =====
-- open.
use nycu_advanced_unix_progr.Base.{
  ℕ, ◌+◌, ◌-◌, ◌%◌, ◌^◌, ◌≤◌, ◌<◌, ◌≡◌, ◌≢◌, refl, sym, ◌∙◌, ap, Bool, true, false, drop, none,
  some, ltb, ◌==◌, if◌then◌else◌, arith,
}
use nycu_advanced_unix_progr.Base.Word.{sub64}
use nycu_advanced_unix_progr.Base.Int.{ℤ, pos, negsuc, signed_int}
use nycu_advanced_unix_progr.Libmini.Blocks.{update}
use nycu_advanced_unix_progr.Libmini.Wrappers.{Mini, c_int, cast, failure, negated, wrapper_ret}
use nycu_advanced_unix_progr.Libmini.Asm.{
  rax, rsp, rdi, assign, Answer, Cpu, Kernel64, put_register, drop_word, exec, signed_less,
}
use nycu_advanced_unix_progr.Libmini.Asm.Code.{open_code, call_stub, open_asm}
use nycu_advanced_unix_progr.Libmini.Asm.Jumps.{kept, returned_to}
use nycu_advanced_unix_progr.Libmini.Asm.Stubs.{up, add64-zero}
use nycu_advanced_unix_progr.Libmini.Asm.Calls.{
  call_answer, called, LeavesFrame, update_same, call_stub-answered,
}

-- The `long` with some 64 bits.
unfoldable pub signed_long : ℕ → ℤ
signed_long w = if ltb w (2 ^ 63) then pos w else negsuc (2 ^ 64 - w - 1)

-- The result of an `int` function and errno, as a caller in C reads them.
abbrev pub int_result : {S : Type 0} → ℕ → Cpu S → ℤ × Mini S
int_result errno_at c =
    (signed_int (c.regs rax % 2 ^ 32), record { errno = signed_long (c.mem errno_at); os = c.os })

-- The processor at the `ret`, by the branch, from the one behind the comparison.
abbrev opened : {S : Type 0} → ℕ → Cpu S → Cpu S
opened errno_at d = record d { regs = assign d.regs rdi errno_at; mem = update d.mem errno_at 0 }

abbrev refused : {S : Type 0} → ℕ → Cpu S → Cpu S
refused errno_at d =
    let error = sub64 0 (d.regs rax) in
    record d {
      regs = assign (assign (assign d.regs rax error) rdi errno_at) rax (2 ^ 64 - 1);
      mem = update d.mem errno_at error;
    }

abbrev open_end : {S : Type 0} → Bool → ℕ → Cpu S → Cpu S
open_end negative errno_at d = if negative then refused errno_at d else opened errno_at d

-- The processor behind the comparison.
abbrev compared : {S : Type 0} → Answer S → Cpu S → Cpu S
compared a c = record (called a c) { less = signed_less a.result 0; equal = a.result == 0 }

module _ {S : Type 0} (kernel : Kernel64 S) (errno_at here : ℕ) where
  open_branches :
      (negative : Bool) (d : Cpu S)
      → errno_at < 2 ^ 64
      → d.less ≡ negative
      → exec kernel errno_at (call_stub kernel errno_at here) (drop 2 open_code) none d
        ≡ some (
          (open_end negative errno_at d).mem (d.regs rsp),
          drop_word (open_end negative errno_at d),
        )
  unfolding exec put_register
  open_branches true d fits e = rw (e, add64-zero errno_at fits) refl
  open_branches false d fits e = rw (e, add64-zero errno_at fits) refl

  open_asm-eq :
      (c : Cpu S)
      → let a = call_answer kernel here 2 c in
        16 ≤ c.regs rsp
        → c.regs rsp < 2 ^ 64
        → errno_at < 2 ^ 64
        → LeavesFrame a here c
        → open_asm kernel errno_at here c ≡ (
            let end = open_end (signed_less a.result 0) errno_at (compared a c) in
            some (end.mem (c.regs rsp), drop_word end))
  unfolding open_asm exec
  open_asm-eq c low high fits frame =
      let a = call_answer kernel here 2 c in
      rw (exec, call_stub-answered kernel errno_at here 2 c low high frame)
        (open_branches (signed_less a.result 0) (compared a c) fits refl)

pub signed_long-pos : (a : ℕ) → signed_less a 0 ≡ false → signed_long a ≡ pos a
unfolding signed_long
signed_long-pos a e = ground arith

pub signed_long-negsuc : (a : ℕ) → signed_less a 0 ≡ true → signed_long a ≡ negsuc (2 ^ 64 - a - 1)
unfolding signed_long
signed_long-negsuc a e = ground arith

signed_long-sub64 :
    (a : ℕ)
    → a < 2 ^ 64
    → signed_less a 0 ≡ true
    → signed_long (sub64 0 a) ≡ negated (2 ^ 64 - a - 1)
unfolding signed_long sub64 negated
signed_long-sub64 a fits e = ground arith

-- The convention of the wrappers, on both branches.
convention :
    {S : Type 0} (errno_at : ℕ) (negative : Bool) (d : Cpu S)
    → d.regs rax < 2 ^ 64
    → signed_less (d.regs rax) 0 ≡ negative
    → int_result errno_at (drop_word (open_end negative errno_at d))
      ≡ wrapper_ret c_int (signed_long (d.regs rax)) d.os
unfolding wrapper_ret cast failure drop_word signed_long
convention errno_at true d fits e =
    let a = d.regs rax in
    let error = sub64 0 a in
    rw (update_same d.mem errno_at error, signed_long-sub64 a fits e, signed_long-negsuc a e) refl
convention errno_at false d fits e =
    rw (update_same d.mem errno_at 0, signed_long-pos (d.regs rax) e, signed_long) refl

open_end-other :
    {S : Type 0} (errno_at : ℕ) (negative : Bool) (d : Cpu S) (b : ℕ)
    → b ≢ errno_at
    → (open_end negative errno_at d).mem b ≡ d.mem b
open_end-other errno_at true d b h = ground arith
open_end-other errno_at false d b h = ground arith

open_end-kept :
    {S : Type 0} (errno_at : ℕ) (negative : Bool) (d : Cpu S)
    → d.regs rsp + 8 < 2 ^ 64
    → kept (drop_word (open_end negative errno_at d)) ≡ returned_to d
unfolding drop_word
open_end-kept errno_at true d h = rw (up (d.regs rsp) 8 h) refl
open_end-kept errno_at false d h = rw (up (d.regs rsp) 8 h) refl

module _ {S : Type 0} (kernel : Kernel64 S) (errno_at here : ℕ) where
  -- open, in assembly, keeps the convention of the wrappers in C: for a system call that answers with a
  -- quadword and leaves the three quadwords at the top of the stack alone, and for an
  -- errno elsewhere, it returns to its caller, with the result and the errno that WRAPPER_RETval gives
  -- for that answer and with the kernel's world. Memory other than errno is as the kernel left it, and
  -- rbx, rbp and r12 to r15 are as they were, with the return address off the stack.
  pub open_asm-wrapper_ret :
      (c : Cpu S)
      → let a = call_answer kernel here 2 c in
        16 ≤ c.regs rsp
        → c.regs rsp + 8 < 2 ^ 64
        → errno_at < 2 ^ 64
        → errno_at ≢ c.regs rsp
        → LeavesFrame a here c
        → a.mem (c.regs rsp) ≡ c.mem (c.regs rsp)
        → a.result < 2 ^ 64
        → (c' : Cpu S) × (open_asm kernel errno_at here c ≡ some (c.mem (c.regs rsp), c'))
          × (int_result errno_at c' ≡ wrapper_ret c_int (signed_long a.result) a.os)
          × (((b : ℕ) → b ≢ errno_at → c'.mem b ≡ a.mem b))
          × (kept c' ≡ returned_to c)
  unfolding drop_word
  open_asm-wrapper_ret c low high fits other frame top word =
      let a = call_answer kernel here 2 c in
      let negative = signed_less a.result 0 in
      let end = open_end negative errno_at (compared a c) in
      let eq = open_asm-eq kernel errno_at here c low (omega arith) fits frame in
      (
        drop_word end,
        eq
            ∙ ap (λ (v : ℕ). some (v, drop_word end))
                (open_end-other errno_at negative (compared a c) (c.regs rsp) (λ e. other (sym e))
                  ∙ top),
        convention errno_at negative (compared a c) word refl,
        open_end-other errno_at negative (compared a c),
        open_end-kept errno_at negative (compared a c) high,
      )

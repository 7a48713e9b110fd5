-- ===== src/Debugger/Machine.antt =====
-- What the debugger calls and does not implement: the kernel (ptrace, waitpid, fork, execvp, files)
-- and the capstone disassembler. S is the state of the world outside the debugger.
use nycu_advanced_unix_progr.Base.{ℕ, ◌≤◌, Bool, Option, Bytes}
use nycu_advanced_unix_progr.Base.Int.{ℤ}
use nycu_advanced_unix_progr.Debugger.Regs.{Regs}

-- What cs_disasm tells of the first instruction: its size, which is at most that of the 7 bytes that it
-- was given, and its mnemonic with its operands.
pub record Insn : Type 0 where
  pub insn_size : ℕ
  pub within : insn_size ≤ 7
  pub text : Bytes

-- `none` is a failed call, which leaves the world as it was. `read_maps` gives the text of
-- /proc/<pid>/maps, `stack_room` the size that an array on the stack may have, `fork` the process in which the caller goes on (0 in the child).
pub record Machine (S : Type 0) : Type 0 where
  pub peek_text : S → ℤ → ℕ → ℕ
  pub poke_text : S → ℤ → ℕ → ℕ → Option S
  pub get_regs : S → ℤ → Option Regs
  pub set_regs : S → ℤ → Regs → Option S
  pub single_step : S → ℤ → Option S
  pub cont_request : S → ℤ → Option S
  pub set_options : S → ℤ → S
  pub wait_pid : S → ℤ → Option (ℕ × S)
  pub fork : S → ℤ × S
  pub trace_me : S → Option S
  pub execvp : S → Bytes → Option S
  pub read_file : S → Bytes → Option Bytes
  pub read_maps : S → ℤ → Option Bytes
  pub stack_room : ℕ
  pub cs_open : Bool
  pub cs_disasm : Bytes → ℕ → Option Insn

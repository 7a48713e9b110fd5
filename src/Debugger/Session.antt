-- ===== src/Debugger/Session.antt =====
-- The state of class debugger (hw4/command.hpp), the messages that it prints, and how a handler
-- ends.
use nycu_advanced_unix_progr.Base.{ℕ, ◌%◌, Bool, true, false, List, [], ◌∷◌, ◌++◌, Bytes, ◌==◌}
use nycu_advanced_unix_progr.Base.Int.{ℤ, negsuc}
use nycu_advanced_unix_progr.Base.Word.{minus_one}
use nycu_advanced_unix_progr.Debugger.Breakpoint.{BreakpointTable}
use nycu_advanced_unix_progr.Debugger.Regs.{Regs}

-- enum state_t
pub data RunState : Type 0 where
  loaded noload running : RunState

-- enum candbp_t
pub data CandBp : Type 0 where
  for_cont for_singlestep for_start : CandBp

-- The system calls whose failure is reported by perror.
pub data Request : Type 0 where
  getregs setregs poketext singlestep continue waitpid fork traceme execvp fopen : Request

-- A line on stdout or stderr, with the values that it shows.
pub data Message : Type 0 where
  need_running need_loaded need_loaded_or_running need_not_loaded : Message
  no_addr no_address no_register not_enough_arguments no_program_path no_breakpoint_id : Message
  no_such_register hit_no_breakpoint breakpoint_at cs_open_error no_instruction : Message
  invalid_elf maps_failed help_text nothing_happened : Message
  request_failed : Request → Message
  child_terminated : ℤ → ℕ → Message
  insn_line : ℕ → Bytes → Bytes → Message
  register_value : Bytes → ℕ → Message
  all_registers : Regs → Message
  dump_line : ℕ → Bytes → Bytes → Message
  out_of_text : ℕ → ℕ → Message
  program_loaded : Bytes → ℕ → Message
  already_running : Bytes → Message
  pid_line : ℤ → Message
  no_such_breakpoint already_exists : ℤ → Message
  breakpoint_deleted : ℤ → ℕ → Message
  breakpoint_line : ℕ → ℕ → Message
  map_line : ℕ → ℕ → Bytes → ℕ → Bytes → Message

-- The fields of class debugger, the world outside, and what has been printed so far.
pub record Session (S : Type 0) : Type 0 where
  pub last_cmd_is_set_rip : Bool
  pub bptab : BreakpointTable
  pub prog_path : Bytes
  pub entry_point : ℕ
  pub text_begin : ℕ
  pub text_end : ℕ
  pub pid : ℤ
  pub state : RunState
  pub os : S
  pub out : List Message

-- Why the debugger does not come back to its prompt: a failed assert, a read outside a vector or a
-- buffer, a file that its parser cannot take (undefined behaviour of the parser included), an image
-- replaced by execvp, or exit.
pub data Stop : Type 0 where
  assert_failed undefined bad_file execed exited : Stop

pub data Outcome (S : Type 0) : Type 0 where
  next : Session S → Outcome S
  stop : Stop → Session S → Outcome S

infixl 5 ◌>>=◌
abbrev pub ◌>>=◌ : {S : Type 0} → Outcome S → (Session S → Outcome S) → Outcome S
next s >>= f = f s
stop why s >>= f = stop why s

-- The session that an outcome leaves.
abbrev pub session : {S : Type 0} → Outcome S → Session S
session (next s) = s
session (stop why s) = s

abbrev pub is_running : RunState → Bool
is_running running = true
is_running loaded = false
is_running noload = false

abbrev pub is_loaded : RunState → Bool
is_loaded loaded = true
is_loaded running = false
is_loaded noload = false

-- debugger::debugger()
abbrev pub init_session : {S : Type 0} → S → Session S
init_session os = record {
  last_cmd_is_set_rip = false;
  bptab = [];
  prog_path = [];
  entry_point = minus_one;
  text_begin = minus_one;
  text_end = minus_one;
  pid = negsuc 0;
  state = noload;
  os = os;
  out = [];
}

-- WIFEXITED: `status & 0x7f` is 0.
abbrev pub wifexited : ℕ → Bool
wifexited status = status % 128 == 0

-- WIFSTOPPED: `status & 0xff` is 0x7f.
abbrev pub wifstopped : ℕ → Bool
wifstopped status = status % 256 == 127

module _ {S : Type 0} where
  abbrev pub say : Message → Session S → Session S
  say t s = record s { out = s.out ++ t ∷ [] }

  -- debugger::release()
  unfoldable pub release : Session S → Session S
  release s = record s { pid = negsuc 0; last_cmd_is_set_rip = false; state = loaded }

-- ===== src/Debugger/Main.antt =====
-- main of hw4/hw4.cpp: the commands of sdb and the loop over its input lines.
pub mod Invariant
pub mod Transitions
pub mod Safety
pub mod Armed
pub mod Rounds
use nycu_advanced_unix_progr.Base.{
  ℕ, Bool, true, false, ◌||◌, Option, none, some, List, [], ◌∷◌, ◌++◌, Bytes, codes, bytes_eq,
  if◌then◌else◌, String,
}
use nycu_advanced_unix_progr.Debugger.Cmdline.{dbgcmd_parser}
use nycu_advanced_unix_progr.Debugger.Machine.{Machine}
use nycu_advanced_unix_progr.Debugger.Session.{
  help_text, nothing_happened, Session, undefined, exited, Outcome, next, stop, ◌>>=◌, say,
  init_session, release,
}
use nycu_advanced_unix_progr.Debugger.Control.{start, cont, step_in, run}
use nycu_advanced_unix_progr.Debugger.Breaks.{
  list, set_break_point, delete_break_point, get_all_regs, get_single_reg, set_reg,
}
use nycu_advanced_unix_progr.Debugger.Inspect.{dump, disasm}
use nycu_advanced_unix_progr.Debugger.Load.{load, vmmap}

-- The commands, by the branches of main.
pub data Command : Type 0 where
  exit_cmd empty_cmd help_cmd load_cmd start_cmd cont_cmd break_cmd list_cmd si_cmd : Command
  delete_cmd get_cmd getregs_cmd set_cmd vmmap_cmd disasm_cmd dump_cmd run_cmd other_cmd : Command

abbrev is_empty : Bytes → Bool
is_empty [] = true
is_empty (c ∷ s) = false

-- The chain of comparisons in main; the empty line is tested second.
unfoldable pub command_of : Bytes → Bytes → Command
command_of line word =
    if bytes_eq word (codes "exit") || bytes_eq word (codes "q")
    then exit_cmd
    else if is_empty line
    then empty_cmd
    else if bytes_eq word (codes "help") || bytes_eq word (codes "h")
    then help_cmd
    else if bytes_eq word (codes "load")
    then load_cmd
    else if bytes_eq word (codes "start")
    then start_cmd
    else if bytes_eq word (codes "cont") || bytes_eq word (codes "c")
    then cont_cmd
    else if bytes_eq word (codes "break") || bytes_eq word (codes "b")
    then break_cmd
    else if bytes_eq word (codes "list") || bytes_eq word (codes "l")
    then list_cmd
    else if bytes_eq word (codes "si")
    then si_cmd
    else if bytes_eq word (codes "delete") || bytes_eq word (codes "del")
    then delete_cmd
    else if bytes_eq word (codes "get") || bytes_eq word (codes "g")
    then get_cmd
    else if bytes_eq word (codes "getregs")
    then getregs_cmd
    else if bytes_eq word (codes "set") || bytes_eq word (codes "s")
    then set_cmd
    else if bytes_eq word (codes "vmmap") || bytes_eq word (codes "m")
    then vmmap_cmd
    else if bytes_eq word (codes "disasm") || bytes_eq word (codes "d")
    then disasm_cmd
    else if bytes_eq word (codes "dump") || bytes_eq word (codes "x")
    then dump_cmd
    else if bytes_eq word (codes "run") || bytes_eq word (codes "r")
    then run_cmd
    else other_cmd

module _ {S : Type 0} (m : Machine S) where
  -- The branch of a command.
  unfoldable pub perform : Command → List Bytes → Session S → Outcome S
  perform exit_cmd cmds s = stop exited (release s)
  perform empty_cmd cmds s = next s
  perform help_cmd cmds s = next (say help_text s)
  perform load_cmd cmds s = load m cmds s
  perform start_cmd cmds s = start m s
  perform cont_cmd cmds s = cont m s
  perform break_cmd cmds s = set_break_point m cmds s
  perform list_cmd cmds s = list s
  perform si_cmd cmds s = step_in m s
  perform delete_cmd cmds s = delete_break_point m cmds s
  perform get_cmd cmds s = get_single_reg m cmds s
  perform getregs_cmd cmds s = get_all_regs m s
  perform set_cmd cmds s = set_reg m cmds s
  perform vmmap_cmd cmds s = vmmap m s
  perform disasm_cmd cmds s = disasm m cmds s
  perform dump_cmd cmds s = dump m cmds s
  perform run_cmd cmds s = run m s
  perform other_cmd cmds s = next (say nothing_happened s)

  -- One round of the loop. No words, or no end of the words, would be an exception of cmds.at(0).
  unfoldable pub handle_line : Bytes → Session S → Outcome S
  handle_line line s = elim (dbgcmd_parser line b' ') [
    | none ↦ stop undefined s
    | some [] ↦ stop undefined s
    | some (word ∷ words) ↦ perform (command_of line word) (word ∷ words) s
  ]

  -- The loop over the lines of the script or of stdin.
  unfoldable pub run_lines : List Bytes → Session S → Outcome S
  run_lines [] s = next s
  run_lines (line ∷ lines) s = handle_line line s >>= run_lines lines

  -- The program named on the command line is loaded first.
  load_program : Bytes → S → Outcome S
  load_program [] os = next (init_session os)
  load_program (c ∷ program) os = elim (dbgcmd_parser (codes "load " ++ c ∷ program) b' ') [
    | none ↦ stop undefined (init_session os)
    | some cmds ↦ load m cmds (init_session os)
  ]

  -- main, for a program argument (or none) and the input lines.
  unfoldable pub run_sdb : Bytes → List Bytes → S → Outcome S
  unfolding run_lines load_program
  run_sdb program lines os = load_program program os >>= run_lines lines

-- ===== src/Debugger/Inspect.antt =====
-- The commands that show the tracee's memory (hw4/command.hpp): dump, disasm.
pub mod Keeps
pub mod Shows
pub mod Genuine
use nycu_advanced_unix_progr.Base.{
  ℕ, zero, suc, Bool, true, false, not, ◌&&◌, ◌||◌, Option, none, some, List, ◌++◌, Bytes, map, ltb,
  leb, if◌then◌else◌, get_elem?,
}
use nycu_advanced_unix_progr.Base.Word.{add64, word_bytes}
use nycu_advanced_unix_progr.Base.Ctype.{is_print}
use nycu_advanced_unix_progr.Base.Strtol.{strtol}
use nycu_advanced_unix_progr.Debugger.Breakpoint.{include, at_addr}
use nycu_advanced_unix_progr.Debugger.Machine.{Machine}
use nycu_advanced_unix_progr.Debugger.Session.{
  need_running, no_addr, dump_line, out_of_text, Session, undefined, Outcome, next, stop,
  is_running, say,
}
use nycu_advanced_unix_progr.Debugger.Stops.{translate}

-- `%c`, or a dot for what is not printable.
unfoldable pub shown : ℕ → ℕ
unfolding is_print
shown c = if not (is_print c) then b'.' else c

module _ {S : Type 0} (m : Machine S) where
  -- The N_DUMP_AMT = 2 words that a line of the dump shows, as bytes.
  unfoldable pub line_bytes : Session S → ℕ → Bytes
  line_bytes s tar_addr =
      word_bytes 8 (m.peek_text s.os s.pid tar_addr)
      ++ word_bytes 8 (m.peek_text s.os s.pid (add64 tar_addr 8))

  -- The loop of dump, with n lines to go.
  unfoldable pub dump_lines : ℕ → ℕ → Session S → Session S
  unfolding line_bytes
  dump_lines zero tar_addr s = s
  dump_lines (suc n) tar_addr s =
      let bytes = line_bytes s tar_addr in
      dump_lines n (add64 tar_addr 16) (say (dump_line tar_addr bytes (map shown bytes)) s)

  -- debugger::dump: N_DUMP_SIZE / 16 = 5 lines.
  unfoldable pub dump : List Bytes → Session S → Outcome S
  unfolding dump_lines
  dump cmds s =
      if not (is_running s.state) then next (say need_running s) else elim (get_elem? cmds 1) [
        | none ↦ next (say no_addr s)
        | some word ↦ next (dump_lines 5 (strtol 0 word) s)
      ]

  -- The word that disasm decodes at an address: the saved one where a breakpoint is set.
  unfoldable pub fetch : Session S → ℕ → Option ℕ
  fetch s tar_addr =
      if include s.bptab tar_addr
      then elim (at_addr s.bptab tar_addr) [ none ↦ none | some e ↦ some e.code ]
      else some (m.peek_text s.os s.pid tar_addr)

  -- The loop of disasm, with n instructions to go.
  unfoldable pub disasm_loop : ℕ → ℕ → Session S → Outcome S
  unfolding fetch
  disasm_loop zero tar_addr s = next s
  disasm_loop (suc n) tar_addr s =
      if leb s.text_begin tar_addr && leb tar_addr s.text_end
      then elim (fetch s tar_addr) [
        | none ↦ stop undefined s
        | some code ↦
            let (count, t) = translate m tar_addr code s in disasm_loop n (add64 tar_addr count) t
      ]
      else next s

  -- debugger::disasm: at most N_DISASM_INS = 10 instructions.
  unfoldable pub disasm : List Bytes → Session S → Outcome S
  unfolding disasm_loop
  disasm cmds s =
      if not (is_running s.state) then next (say need_running s) else elim (get_elem? cmds 1) [
        | none ↦ next (say no_addr s)
        | some word ↦
            let tar_addr = strtol 0 word in
            if ltb tar_addr s.text_begin || ltb s.text_end tar_addr
            then next (say (out_of_text s.text_begin s.text_end) s)
            else disasm_loop 10 tar_addr s
      ]

-- ===== src/Debugger/Stops.antt =====
-- The private helpers of class debugger that every command rests on: waiting for the tracee, the
-- report of a breakpoint, the step over a trap, and disassembler::translate.
pub mod Keeps
pub mod Defined
pub mod Text
pub mod Hit
pub mod Traps
use nycu_advanced_unix_progr.Base.{ℕ, not, none, some, [], ◌∷◌, ltb, if◌then◌else◌, take}
use nycu_advanced_unix_progr.Base.Word.{minus_one, sub64, trap, restore, word_bytes}
use nycu_advanced_unix_progr.Debugger.Breakpoint.{BreakpointTable, include, at_addr}
use nycu_advanced_unix_progr.Debugger.Regs.{Regs}
use nycu_advanced_unix_progr.Debugger.Machine.{Machine}
use nycu_advanced_unix_progr.Debugger.Session.{
  CandBp, for_cont, for_singlestep, for_start, getregs, setregs, poketext, singlestep, waitpid,
  hit_no_breakpoint, breakpoint_at, cs_open_error, no_instruction, request_failed, child_terminated,
  insn_line, Session, assert_failed, undefined, Outcome, next, stop, ◌>>=◌, is_running, say,
  wifexited, wifstopped, release,
}

-- The address that a stop is about.
unfoldable pub stop_addr : CandBp → Regs → ℕ
stop_addr for_cont regs = sub64 regs.rip 1
stop_addr for_singlestep regs = regs.rip
stop_addr for_start regs = regs.rip

module _ {S : Type 0} (m : Machine S) where
  -- debugger::wait_then_check_exit()
  unfoldable pub wait_then_check_exit : Session S → Outcome S
  unfolding release
  wait_then_check_exit s = elim (m.wait_pid s.os s.pid) [
    | none ↦ next (say (request_failed waitpid) s)
    | some (status, os) ↦
        let s' = record s { os = os } in
        if wifexited status
        then next (release (say (child_terminated s.pid status) s'))
        else if wifstopped status
        then next s'
        else stop assert_failed s'
  ]

  -- disassembler::translate: its result, which is -1 on errors, and the line that it prints. It
  -- hands sizeof(code) - 1 = 7 bytes over.
  unfoldable pub translate : ℕ → ℕ → Session S → ℕ × Session S
  translate addr code s =
      if not m.cs_open
      then (minus_one, say cs_open_error s)
      else elim (m.cs_disasm (word_bytes 7 code) addr) [
        | none ↦ (minus_one, say no_instruction s)
        | some insn ↦ (
          insn.insn_size,
          say (insn_line addr (take insn.insn_size (word_bytes 8 code)) insn.text) s,
        )
      ]

  -- The last lines of check_hit_break_point_or_not.
  report_breakpoint : ℕ → Session S → Outcome S
  report_breakpoint addr s = elim (at_addr s.bptab addr) [
    | none ↦ stop undefined s
    | some e ↦ next (translate addr e.code (say breakpoint_at s)).1
  ]

  -- debugger::check_hit_break_point_or_not
  unfoldable pub check_hit_break_point_or_not : CandBp → Session S → Outcome S
  unfolding report_breakpoint
  check_hit_break_point_or_not cbpt s = elim (m.get_regs s.os s.pid) [
    | none ↦ next (say (request_failed getregs) s)
    | some regs ↦
        let addr = stop_addr cbpt regs in
        if not (include s.bptab addr) then next (say hit_no_breakpoint s) else elim cbpt [
          | for_cont ↦ elim (m.set_regs s.os s.pid (record regs { rip = sub64 regs.rip 1 })) [
            | none ↦ next (say (request_failed setregs) s)
            | some os ↦ report_breakpoint addr (record s { os = os })
          ]
          | for_singlestep ↦ report_breakpoint addr s
          | for_start ↦ report_breakpoint addr s
        ]
  ]

  -- The end of check_then_restore_si_reput: the trap is put back.
  reput : ℕ → ℕ → Session S → Outcome S
  reput addr cur_code s =
      if not (is_running s.state) then next s else elim (m.poke_text s.os s.pid addr cur_code) [
        | none ↦ next (say (request_failed poketext) s)
        | some os ↦ next (record s { os = os })
      ]

  -- debugger::check_then_restore_si_reput
  unfoldable pub check_then_restore_si_reput : ℕ → Session S → Outcome S
  unfolding reput
  check_then_restore_si_reput addr s =
      if not (include s.bptab addr) then next s else elim (at_addr s.bptab addr) [
        | none ↦ stop undefined s
        | some e ↦
            let cur_code = m.peek_text s.os s.pid addr in
            elim (m.poke_text s.os s.pid addr (restore cur_code e.code)) [
              | none ↦ next (say (request_failed poketext) s)
              | some os ↦ elim (m.single_step os s.pid) [
                | none ↦ next (say (request_failed singlestep) (record s { os = os }))
                | some os' ↦ wait_then_check_exit (record s { os = os' }) >>= reput addr cur_code
              ]
            ]
      ]

  -- debugger::reput_all_breakpoints_from, over the entries from some index on.
  unfoldable pub reput_entries : BreakpointTable → ℕ → Session S → Session S
  reput_entries [] begin_addr s = s
  reput_entries (e ∷ t) begin_addr s =
      let skip = reput_entries t begin_addr s in
      if ltb e.addr begin_addr
      then skip
      else elim (m.poke_text s.os s.pid e.addr (trap (m.peek_text s.os s.pid e.addr))) [
        | none ↦ say (request_failed poketext) s
        | some os ↦ reput_entries t begin_addr (record s { os = os })
      ]

  unfoldable pub reput_all_breakpoints_from : ℕ → Session S → Session S
  unfolding reput_entries
  reput_all_breakpoints_from begin_addr s = reput_entries s.bptab begin_addr s

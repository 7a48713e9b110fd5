-- ===== src/Debugger/Breaks.antt =====
-- The commands on breakpoints and registers (hw4/command.hpp): break, delete, list, get, set,
-- getregs.
pub mod Cases
pub mod Keeps
pub mod Patched
pub mod Armed
pub mod Twice
pub mod Registers
use nycu_advanced_unix_progr.Base.{
  ℕ, suc, ◌+◌, Bool, true, false, not, ◌||◌, Option, none, some, List, [], ◌∷◌, Bytes, codes,
  bytes_eq, ltb, ◌==◌, if◌then◌else◌, get_elem?,
}
use nycu_advanced_unix_progr.Base.Int.{ℤ}
use nycu_advanced_unix_progr.Base.Word.{minus_one, trap, restore}
use nycu_advanced_unix_progr.Base.Strtol.{strtol, atoi}
use nycu_advanced_unix_progr.Debugger.Breakpoint.{
  BreakpointInfo, BreakpointTable, dict_addr2idx, include, include_idx, at_idx, add, del,
}
use nycu_advanced_unix_progr.Debugger.Regs.{Regs, find_reg, reg_handler}
use nycu_advanced_unix_progr.Debugger.Machine.{Machine}
use nycu_advanced_unix_progr.Debugger.Session.{
  getregs, setregs, poketext, need_running, no_address, no_register, not_enough_arguments,
  no_breakpoint_id, no_such_register, request_failed, register_value, all_registers, out_of_text,
  no_such_breakpoint, already_exists, breakpoint_deleted, breakpoint_line, Message, Session,
  undefined, Outcome, next, stop, is_running, say,
}

-- breakpoint_table::show, from index i on.
unfoldable pub show_from : {S : Type 0} → ℕ → BreakpointTable → Session S → Session S
show_from i [] s = s
show_from i (e ∷ t) s = show_from (i + 1) t (say (breakpoint_line i e.addr) s)

-- debugger::list()
unfoldable pub list : {S : Type 0} → Session S → Outcome S
unfolding show_from
list s = next (show_from 0 s.bptab s)

-- What reg_handler prints: the name is unknown.
reg_message : {S : Type 0} → Bytes → Session S → Session S
reg_message t s = elim (find_reg t) [ none ↦ say no_such_register s | some r ↦ s ]

module _ {S : Type 0} (m : Machine S) where
  -- The part of set_break_point behind its guards. An address that has a breakpoint already is
  -- reported, and set again.
  unfoldable pub put_break_point : ℕ → Session S → Outcome S
  put_break_point tar_addr s =
      let s' =
        if include s.bptab tar_addr
        then say (already_exists (dict_addr2idx s.bptab tar_addr)) s
        else s in
      let code = m.peek_text s.os s.pid tar_addr in
      elim (m.poke_text s.os s.pid tar_addr (trap code)) [
        | none ↦ next (say (request_failed poketext) s')
        | some os ↦ next (record s' { os = os; bptab = add s.bptab tar_addr code })
      ]

  -- debugger::set_break_point
  unfoldable pub set_break_point : List Bytes → Session S → Outcome S
  unfolding put_break_point
  set_break_point cmds s =
      if not (is_running s.state) then next (say need_running s) else elim (get_elem? cmds 1) [
        | none ↦ next (say no_address s)
        | some word ↦
            let tar_addr = strtol 0 word in
            if ltb tar_addr s.text_begin || ltb s.text_end tar_addr
            then next (say (out_of_text s.text_begin s.text_end) s)
            else put_break_point tar_addr s
      ]

  -- The part of delete_break_point behind its guards.
  unfoldable pub remove_break_point : ℤ → Session S → Outcome S
  remove_break_point tar_idx s =
      if not (include_idx s.bptab tar_idx)
      then next (say (no_such_breakpoint tar_idx) s)
      else elim (at_idx s.bptab tar_idx) [
        | none ↦ stop undefined s
        | some e ↦
            let cur_code = m.peek_text s.os s.pid e.addr in
            elim (m.poke_text s.os s.pid e.addr (restore cur_code e.code)) [
              | none ↦ next (say (request_failed poketext) s)
              | some os ↦ next (
                  say (breakpoint_deleted tar_idx e.addr)
                    (record s { os = os; bptab = del s.bptab tar_idx }))
            ]
      ]

  -- debugger::delete_break_point
  unfoldable pub delete_break_point : List Bytes → Session S → Outcome S
  unfolding remove_break_point
  delete_break_point cmds s =
      if not (is_running s.state) then next (say need_running s) else elim (get_elem? cmds 1) [
        | none ↦ next (say no_breakpoint_id s)
        | some word ↦ remove_break_point (atoi word) s
      ]

  -- debugger::get_all_regs()
  unfoldable pub get_all_regs : Session S → Outcome S
  get_all_regs s = elim (m.get_regs s.os s.pid) [
    | none ↦ next (say (request_failed getregs) s)
    | some regs ↦ next (say (all_registers regs) s)
  ]

  -- debugger::get_single_reg
  unfoldable pub get_single_reg : List Bytes → Session S → Outcome S
  unfolding reg_message find_reg
  get_single_reg cmds s =
      if not (is_running s.state) then next (say need_running s) else elim (get_elem? cmds 1) [
        | none ↦ next (say no_register s)
        | some name ↦ elim (m.get_regs s.os s.pid) [
          | none ↦ next (say (request_failed getregs) s)
          | some regs ↦
              let s' = reg_message name s in
              let value = (reg_handler name 0 regs).0 in
              if value == minus_one then next s' else next (say (register_value name value) s')
        ]
      ]

  -- The part of set_reg behind its guards.
  unfoldable pub write_reg : Bytes → ℕ → Session S → Outcome S
  unfolding reg_message find_reg
  write_reg name input_val s = elim (m.get_regs s.os s.pid) [
    | none ↦ next (say (request_failed getregs) s)
    | some regs ↦
        let s' = reg_message name s in
        let (result, regs') = reg_handler name input_val regs in
        if result == minus_one then next s' else elim (m.set_regs s.os s.pid regs') [
          | none ↦ next (say (request_failed setregs) s')
          | some os ↦ next (record s' {
            os = os;
            last_cmd_is_set_rip =
                if bytes_eq name (codes "rip") then true else s.last_cmd_is_set_rip;
          })
        ]
  ]

  -- debugger::set_reg
  unfoldable pub set_reg : List Bytes → Session S → Outcome S
  unfolding write_reg
  set_reg cmds s =
      if not (is_running s.state) then next (say need_running s) else elim (get_elem? cmds 2) [
        | none ↦ next (say not_enough_arguments s)
        | some word ↦ elim (get_elem? cmds 1) [
          | none ↦ stop undefined s
          | some name ↦ write_reg name (strtol 0 word) s
        ]
      ]

-- ===== src/Debugger/Stops/Traps.antt =====
-- What putting the breakpoints back does to the tracee's memory.
use nycu_advanced_unix_progr.Base.{
  ℕ, ◌≡◌, refl, inl, inr, ◌&&◌, [], ◌∷◌, ltb, leb, if◌then◌else◌, arith, Bool-cases,
}
use nycu_advanced_unix_progr.Base.Int.{ℤ}
use nycu_advanced_unix_progr.Base.Word.{trap}
use nycu_advanced_unix_progr.Debugger.Breakpoint.{BreakpointTable}
use nycu_advanced_unix_progr.Debugger.Breakpoint.Lookup.{has_addr}
use nycu_advanced_unix_progr.Debugger.Machine.{Machine}
use nycu_advanced_unix_progr.Debugger.Memory.{Memory, trap_pokes, Writable}
use nycu_advanced_unix_progr.Debugger.Session.{CandBp, Session, session}
use nycu_advanced_unix_progr.Debugger.Stops.{
  check_hit_break_point_or_not, translate, reput_entries, reput_all_breakpoints_from,
}

module _ {S : Type 0} (m : Machine S) (mem : S → ℤ → ℕ → ℕ) (law : Memory m mem) where
  reput_entries-eq :
      (t : BreakpointTable) (begin : ℕ) (s : Session S) (b : ℕ)
      → Writable m
      → mem (reput_entries m t begin s).os s.pid b
        ≡ (if has_addr t b && leb begin b then 0xcc else mem s.os s.pid b)
  unfolding reput_entries
  reput_entries-eq [] begin s b works = refl
  reput_entries-eq (e ∷ t) begin s b works = elim (Bool-cases (ltb e.addr begin)) [
    | inl before ↦ ground (arith, reput_entries-eq t begin s b works)
    | inr there ↦
        let (os, wrote) = works s.os s.pid e.addr (trap (m.peek_text s.os s.pid e.addr)) in
        ground (
          arith,
          reput_entries-eq t begin (record s { os = os }) b works,
          trap_pokes m mem law s.os s.pid e.addr os wrote b,
        )
  ]

  -- Where the kernel refuses no write, reput_all_breakpoints_from writes 0xcc to each address of the
  -- table that is not before the given one, and to no other byte.
  pub reput_all-eq :
      (begin : ℕ) (s : Session S) (b : ℕ)
      → Writable m
      → mem (reput_all_breakpoints_from m begin s).os s.pid b
        ≡ (if has_addr s.bptab b && leb begin b then 0xcc else mem s.os s.pid b)
  unfolding reput_all_breakpoints_from
  reput_all-eq begin s b works = reput_entries-eq s.bptab begin s b works

  -- The report of a stop writes no byte.
  pub check_hit_mem :
      (c : CandBp) (s : Session S) (b : ℕ)
      → mem (session (check_hit_break_point_or_not m c s)).os s.pid b ≡ mem s.os s.pid b
  unfolding check_hit_break_point_or_not translate
  check_hit_mem c s b = grind (arith, law.set_regs_mem)

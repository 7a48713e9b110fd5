-- ===== src/Debugger/Stops/Defined.antt =====
-- The private helpers never read an entry that the breakpoint table does not have.
use nycu_advanced_unix_progr.Base.{
  ℕ, ◌≡◌, sym, ◌∙◌, inl, inr, true, some, arith, Bool-cases, Option-cases,
}
use nycu_advanced_unix_progr.Debugger.Breakpoint.{BreakpointInfo, BreakpointTable, include, at_addr}
use nycu_advanced_unix_progr.Debugger.Breakpoint.Lookup.{include-eq, at_addr-eq, first_at_of_has}
use nycu_advanced_unix_progr.Debugger.Machine.{Machine}
use nycu_advanced_unix_progr.Debugger.Session.{
  CandBp, bad_file, assert_failed, undefined, execed, exited, Session, Outcome, next, stop, ◌>>=◌,
}
use nycu_advanced_unix_progr.Debugger.Stops.{
  stop_addr, wait_then_check_exit, check_hit_break_point_or_not, reput, check_then_restore_si_reput,
}

-- No read outside a vector or buffer, the parsers of files left aside.
abbrev pub IsDefined : {S : Type 0} → Outcome S → Type 0
IsDefined (next s) = Unit
IsDefined (stop undefined s) = ⊥
IsDefined (stop bad_file s) = Unit
IsDefined (stop assert_failed s) = Unit
IsDefined (stop execed s) = Unit
IsDefined (stop exited s) = Unit

pub IsDefined-bind :
    {S : Type 0} (o : Outcome S) (f : Session S → Outcome S)
    → IsDefined o
    → ((s : Session S) → IsDefined (f s))
    → IsDefined (o >>= f)
IsDefined-bind (next s) f h k = k s
IsDefined-bind (stop why s) f h k = h

-- The two look-ups agree: what include finds, operator[] gives, at that address.
pub at_addr_of_include :
    (t : BreakpointTable) (a : ℕ)
    → include t a ≡ true
    → (e : BreakpointInfo) × (at_addr t a ≡ some e) × (e.addr ≡ a)
at_addr_of_include t a h =
    let (e, first, same) = first_at_of_has t a (sym (include-eq t a) ∙ h) in
    (e, at_addr-eq t a ∙ first, same)

module _ {S : Type 0} (m : Machine S) where
  pub wait_then_check_exit-IsDefined : (s : Session S) → IsDefined (wait_then_check_exit m s)
  unfolding wait_then_check_exit
  wait_then_check_exit-IsDefined s = ground arith

  pub check_hit-IsDefined :
      (c : CandBp) (s : Session S) → IsDefined (check_hit_break_point_or_not m c s)
  unfolding check_hit_break_point_or_not
  check_hit-IsDefined c s = elim (Option-cases (m.get_regs s.os s.pid)) [
    | inl fails ↦ ground arith
    | inr (regs, works) ↦ elim (Bool-cases (include s.bptab (stop_addr c regs))) [
      | inl found ↦
          let (e, at, same) = at_addr_of_include s.bptab (stop_addr c regs) found in ground arith
      | inr absent ↦ ground arith
    ]
  ]

  reput-IsDefined : (a w : ℕ) (s : Session S) → IsDefined (reput m a w s)
  unfolding reput
  reput-IsDefined a w s = ground arith

  wait_reput-IsDefined :
      (a w : ℕ) (s : Session S) → IsDefined (wait_then_check_exit m s >>= reput m a w)
  wait_reput-IsDefined a w s =
      IsDefined-bind (wait_then_check_exit m s) (reput m a w) (wait_then_check_exit-IsDefined s)
        (reput-IsDefined a w)

  pub check_then_restore-IsDefined :
      (a : ℕ) (s : Session S) → IsDefined (check_then_restore_si_reput m a s)
  unfolding check_then_restore_si_reput
  check_then_restore-IsDefined a s = elim (Bool-cases (include s.bptab a)) [
    | inl found ↦
        let (e, at, same) = at_addr_of_include s.bptab a found in
        grind (arith, wait_reput-IsDefined)
    | inr absent ↦ ground arith
  ]

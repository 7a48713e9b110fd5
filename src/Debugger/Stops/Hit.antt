-- ===== src/Debugger/Stops/Hit.antt =====
-- What the report of a stop does to the tracee's registers.
use nycu_advanced_unix_progr.Base.{
  ◌≡◌, sym, ◌∙◌, ◌⊎◌, inl, inr, true, false, none, some, arith, Bool-cases, Option-cases,
}
use nycu_advanced_unix_progr.Base.Int.{ℤ}
use nycu_advanced_unix_progr.Base.Word.{sub64}
use nycu_advanced_unix_progr.Debugger.Breakpoint.{include}
use nycu_advanced_unix_progr.Debugger.Breakpoint.Lookup.{has_addr, include-eq}
use nycu_advanced_unix_progr.Debugger.Regs.{Regs}
use nycu_advanced_unix_progr.Debugger.Machine.{Machine}
use nycu_advanced_unix_progr.Debugger.Session.{
  for_cont, setregs, request_failed, hit_no_breakpoint, Session, session, say,
}
use nycu_advanced_unix_progr.Debugger.Stops.{translate, stop_addr, check_hit_break_point_or_not}
use nycu_advanced_unix_progr.Debugger.Stops.Defined.{at_addr_of_include}

-- PTRACE_SETREGS works, and PTRACE_GETREGS gives what it set.
pub record RegFile {S : Type 0} (m : Machine S) : Type 0 where
  pub set_works : (s : S) (p : ℤ) (r : Regs) → (s' : S) × (m.set_regs s p r ≡ some s')
  pub get_set :
      (s : S) (p : ℤ) (r : Regs) (s' : S) → m.set_regs s p r ≡ some s' → m.get_regs s' p ≡ some r

-- What PTRACE_SETREGS sets, where it succeeds, PTRACE_GETREGS reads back.
abbrev pub ReadsBack : {S : Type 0} → Machine S → Type 0
ReadsBack {S} m =
    (s : S) (p : ℤ) (r : Regs) (s' : S) → m.set_regs s p r ≡ some s' → m.get_regs s' p ≡ some r

module _ {S : Type 0} (m : Machine S) where
  -- After a run that stopped at rip, where PTRACE_GETREGS reads back what PTRACE_SETREGS sets: if a
  -- breakpoint stands one byte before, then the tracee's rip is moved back onto it and no other register
  -- changes, or PTRACE_SETREGS fails, and the debugger says so and leaves the tracee as it is; if not,
  -- the tracee is left as it is and the debugger says that no breakpoint was hit.
  pub check_hit_rip :
      (s : Session S) (regs : Regs)
      → ReadsBack m
      → m.get_regs s.os s.pid ≡ some regs
      → let t = session (check_hit_break_point_or_not m for_cont s) in
        ((has_addr s.bptab (sub64 regs.rip 1) ≡ true)
          × ((m.get_regs t.os s.pid ≡ some (record regs { rip = sub64 regs.rip 1 }))
              ⊎ ((m.set_regs s.os s.pid (record regs { rip = sub64 regs.rip 1 }) ≡ none)
                  × (t ≡ say (request_failed setregs) s))))
        ⊎ ((has_addr s.bptab (sub64 regs.rip 1) ≡ false) × (t ≡ say hit_no_breakpoint s))
  unfolding check_hit_break_point_or_not stop_addr translate
  check_hit_rip s regs back e = elim (Bool-cases (include s.bptab (sub64 regs.rip 1))) [
    | inl found ↦
        let (b, at, same) = at_addr_of_include s.bptab (sub64 regs.rip 1) found in
        let there : has_addr s.bptab (sub64 regs.rip 1) ≡ true =
          sym (include-eq s.bptab (sub64 regs.rip 1)) ∙ found in
        inl (
          there,
          elim (Option-cases (m.set_regs s.os s.pid (record regs { rip = sub64 regs.rip 1 }))) [
            | inl fails ↦ inr (fails, ground arith)
            | inr (os, works) ↦
                inl (
                  ground (arith, back s.os s.pid (record regs { rip = sub64 regs.rip 1 }) os works))
          ],
        )
    | inr absent ↦ inr (ground (arith, include-eq s.bptab (sub64 regs.rip 1)))
  ]

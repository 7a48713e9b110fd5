-- ===== src/Debugger/Control/Defined.antt =====
-- start, cont, si and run never read an entry that the breakpoint table does not have.
use nycu_advanced_unix_progr.Base.{ℕ, zero, suc, false, inl, inr, arith, Option-cases}
use nycu_advanced_unix_progr.Base.Int.{ℤ, pos, negsuc}
use nycu_advanced_unix_progr.Debugger.Machine.{Machine}
use nycu_advanced_unix_progr.Debugger.Session.{
  CandBp, for_cont, for_singlestep, for_start, RunState, loaded, noload, running, already_running,
  say, Session, Outcome, next, ◌>>=◌,
}
use nycu_advanced_unix_progr.Debugger.Stops.{
  wait_then_check_exit, check_hit_break_point_or_not, check_then_restore_si_reput,
  reput_all_breakpoints_from,
}
use nycu_advanced_unix_progr.Debugger.Stops.Defined.{
  IsDefined, IsDefined-bind, wait_then_check_exit-IsDefined, check_hit-IsDefined,
  check_then_restore-IsDefined,
}
use nycu_advanced_unix_progr.Debugger.Control.{
  start_child, start_parent, start_as, started, start, continued, resume, cont, stepped, step_in,
  clear_flag, run_as, run,
}

module _ {S : Type 0} (m : Machine S) where
  -- What follows the report of a stop.
  hit-IsDefined :
      (c : CandBp) (s : Session S)
      → IsDefined (
          check_hit_break_point_or_not m c s >>= λ t.
          next (record t { last_cmd_is_set_rip = false }))
  hit-IsDefined c s =
      IsDefined-bind (check_hit_break_point_or_not m c s)
        (λ t. next (record t { last_cmd_is_set_rip = false })) (check_hit-IsDefined m c s) λ t. tt

  stepped-IsDefined : (s : Session S) → IsDefined (stepped m s)
  unfolding stepped
  stepped-IsDefined s = ground (arith, hit-IsDefined for_singlestep s)

  continued-IsDefined : (s : Session S) → IsDefined (continued m s)
  unfolding continued
  continued-IsDefined s = ground (arith, hit-IsDefined for_cont s)

  waited-IsDefined :
      (s : Session S) (f : Session S → Outcome S)
      → ((t : Session S) → IsDefined (f t))
      → IsDefined (wait_then_check_exit m s >>= f)
  waited-IsDefined s f = IsDefined-bind _ f (wait_then_check_exit-IsDefined m s)

  restored-IsDefined :
      (a : ℕ) (s : Session S) (f : Session S → Outcome S)
      → ((t : Session S) → IsDefined (f t))
      → IsDefined (check_then_restore_si_reput m a s >>= f)
  restored-IsDefined a s f = IsDefined-bind _ f (check_then_restore-IsDefined m a s)

  resume-IsDefined : (s : Session S) → IsDefined (resume m s)
  unfolding resume
  resume-IsDefined s = grind (arith, waited-IsDefined, continued-IsDefined)

  pub cont-IsDefined : (s : Session S) → IsDefined (cont m s)
  unfolding cont
  cont-IsDefined s = grind (arith, restored-IsDefined, resume-IsDefined)

  pub step_in-IsDefined : (s : Session S) → IsDefined (step_in m s)
  unfolding step_in
  step_in-IsDefined s = grind (arith, waited-IsDefined, stepped-IsDefined, restored-IsDefined)

  start_parent-IsDefined : (s : Session S) → IsDefined (start_parent m s)
  unfolding start_parent
  start_parent-IsDefined s = elim (Option-cases (m.wait_pid s.os s.pid)) [
    | inl fails ↦ ground arith
    | inr ((status, os), works) ↦
        let t = record s { os = m.set_options os s.pid } in
        let u = reput_all_breakpoints_from m s.text_begin t in
        ground (
          arith,
          IsDefined-bind (check_hit_break_point_or_not m for_start u) (started m)
              (check_hit-IsDefined m for_start u) (unfold started in λ v. tt),
        )
  ]

  start_as-IsDefined : (p : ℤ) (s : Session S) → IsDefined (start_as m p s)
  unfolding start_as start_child
  start_as-IsDefined (negsuc zero) s = tt
  start_as-IsDefined (negsuc (suc n)) s = start_parent-IsDefined s
  start_as-IsDefined (pos zero) s = ground arith
  start_as-IsDefined (pos (suc n)) s = start_parent-IsDefined s

  pub start-IsDefined : (s : Session S) → IsDefined (start m s)
  unfolding start
  start-IsDefined s = grind (arith, start_as-IsDefined)

  run_as-IsDefined : (r : RunState) (s : Session S) → IsDefined (run_as m r s)
  unfolding run_as
  run_as-IsDefined loaded s =
      IsDefined-bind (start m s >>= cont m) (clear_flag m)
        (IsDefined-bind (start m s) (cont m) (start-IsDefined s) cont-IsDefined) λ t. tt
  run_as-IsDefined running s =
      IsDefined-bind (cont m (say (already_running s.prog_path) s)) (clear_flag m)
        (cont-IsDefined _) λ t. tt
  run_as-IsDefined noload s = tt

  pub run-IsDefined : (s : Session S) → IsDefined (run m s)
  unfolding run
  run-IsDefined s = run_as-IsDefined s.state s

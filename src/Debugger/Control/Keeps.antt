-- ===== src/Debugger/Control/Keeps.antt =====
-- What start, cont, si and run leave alone, and how they move the state.
use nycu_advanced_unix_progr.Base.{
  ℕ, zero, suc, false, ◌≡◌, refl, sym, subst, ◌≢◌, ◌∙◌, ◌⊎◌, inl, inr, arith, Option-cases,
}
use nycu_advanced_unix_progr.Base.Int.{ℤ, pos, negsuc}
use nycu_advanced_unix_progr.Debugger.Machine.{Machine}
use nycu_advanced_unix_progr.Debugger.Session.{
  CandBp, for_cont, for_singlestep, for_start, loaded, noload, running, already_running, say,
  Session, Outcome, next, stop, ◌>>=◌, session,
}
use nycu_advanced_unix_progr.Debugger.Stops.{
  wait_then_check_exit, check_hit_break_point_or_not, check_then_restore_si_reput,
  reput_all_breakpoints_from,
}
use nycu_advanced_unix_progr.Debugger.Stops.Keeps.{
  SameTable, Steady, Kept, Steady-trans, Kept-trans, Kept-of_Steady, session_bind,
  wait_then_check_exit-Kept, check_hit-Steady, check_then_restore-Kept, reput_all-Steady,
}
use nycu_advanced_unix_progr.Debugger.Control.{
  start_child, start_parent, start_as, started, start, resume, continued, cont, stepped, step_in,
  clear_flag, run_as, run,
}

-- The outcome of start: nothing moves, or a loaded program runs in a new process.
pub record Started {S : Type 0} (s t : Session S) : Type 0 where
  pub table : SameTable s t
  pub moved :
      ((t.state ≡ s.state) × ((s.state ≡ loaded) ⊎ (t.pid ≡ s.pid)))
      ⊎ ((s.state ≡ loaded) × (t.state ≡ running) × (t.pid ≢ negsuc 0) × (t.pid ≢ pos 0))

module _ {S : Type 0} (m : Machine S) where
  -- A stop that is reported.
  hit-Kept :
      (c : CandBp) (s : Session S)
      → Kept s (
          session (
            check_hit_break_point_or_not m c s >>= λ t.
            next (record t { last_cmd_is_set_rip = false })))
  hit-Kept c s =
      session_bind (Kept s) (check_hit_break_point_or_not m c s)
        (λ t. next (record t { last_cmd_is_set_rip = false }))
        (Kept-of_Steady (check_hit-Steady m c s)) λ t k. ground arith

  stepped-Kept : (s : Session S) → Kept s (session (stepped m s))
  unfolding stepped
  stepped-Kept s = ground (arith, hit-Kept for_singlestep s)

  continued-Kept : (s : Session S) → Kept s (session (continued m s))
  unfolding continued
  continued-Kept s = ground (arith, hit-Kept for_cont s)

  waited-Kept :
      (s : Session S) (f : Session S → Outcome S)
      → ((t : Session S) → Kept t (session (f t)))
      → Kept s (session (wait_then_check_exit m s >>= f))
  waited-Kept s f h =
      session_bind (Kept s) (wait_then_check_exit m s) f (wait_then_check_exit-Kept m s)
        λ t k. Kept-trans k (h t)

  restored-Kept :
      (a : ℕ) (s : Session S) (f : Session S → Outcome S)
      → ((t : Session S) → Kept t (session (f t)))
      → Kept s (session (check_then_restore_si_reput m a s >>= f))
  restored-Kept a s f h =
      session_bind (Kept s) (check_then_restore_si_reput m a s) f (check_then_restore-Kept m a s)
        λ t k. Kept-trans k (h t)

  resume-Kept : (s : Session S) → Kept s (session (resume m s))
  unfolding resume
  resume-Kept s = grind (arith, waited-Kept, continued-Kept)

  pub cont-Kept : (s : Session S) → Kept s (session (cont m s))
  unfolding cont
  cont-Kept s = grind (arith, restored-Kept, resume-Kept)

  pub step_in-Kept : (s : Session S) → Kept s (session (step_in m s))
  unfolding step_in
  step_in-Kept s = grind (arith, waited-Kept, stepped-Kept, restored-Kept)

  -- The last lines of start, behind helpers that leave the state alone.
  started_bind :
      (s : Session S) (o : Outcome S)
      → s.state ≡ loaded
      → s.pid ≢ negsuc 0
      → s.pid ≢ pos 0
      → Steady s (session o)
      → Started s (session (o >>= started m))
  unfolding started
  started_bind s (next t) e h k keep = record {
    table = record {
      bptab = keep.table.bptab;
      text_begin = keep.table.text_begin;
      text_end = keep.table.text_end;
    };
    moved = inr (e, refl, λ q. h (sym keep.pid ∙ q), λ q. k (sym keep.pid ∙ q));
  }
  started_bind s (stop why t) e h k keep = ground arith

  start_parent-Started :
      (s : Session S)
      → s.state ≡ loaded
      → s.pid ≢ negsuc 0
      → s.pid ≢ pos 0
      → Started s (session (start_parent m s))
  unfolding start_parent
  start_parent-Started s e h k = elim (Option-cases (m.wait_pid s.os s.pid)) [
    | inl fails ↦ ground arith
    | inr ((status, os), works) ↦
        let t = record s { os = m.set_options os s.pid } in
        let u = reput_all_breakpoints_from m s.text_begin t in
        ground (
          arith,
          started_bind s (check_hit_break_point_or_not m for_start u) e h k (
              Steady-trans {s = s} {t = t} (ground arith) (
                Steady-trans (reput_all-Steady m s.text_begin t) (check_hit-Steady m for_start u))),
        )
  ]

  start_as-Started :
      (p : ℤ) (s : Session S) → s.state ≡ loaded → s.pid ≡ p → Started s (session (start_as m p s))
  unfolding start_as start_child
  start_as-Started (negsuc zero) s e q = ground arith
  start_as-Started (negsuc (suc n)) s e q = start_parent-Started s e (ground arith) (ground arith)
  start_as-Started (pos zero) s e q = ground arith
  start_as-Started (pos (suc n)) s e q = start_parent-Started s e (ground arith) (ground arith)

  pub start-Started : (s : Session S) → Started s (session (start m s))
  unfolding start
  start-Started s =
      let (p, os) = m.fork s.os in
      let t = record s { pid = p; os = os } in
      ground (arith, λ (e : s.state ≡ loaded). start_as-Started p t e refl)

-- The outcome of run on a loaded program: it runs in a new process, or not at all (any more).
pub record Ran {S : Type 0} (s t : Session S) : Type 0 where
  pub table : SameTable s t
  pub moved : (t.state ≡ loaded) ⊎ ((t.state ≡ running) × (t.pid ≢ negsuc 0) × (t.pid ≢ pos 0))

module _ {S : Type 0} (m : Machine S) where
  Ran-Started : {s t : Session S} → s.state ≡ loaded → Started s t → Ran s t
  Ran-Started e h = ground arith

  Ran-Kept : {s t u : Session S} → Ran s t → Kept t u → Ran s u
  Ran-Kept h k = ground arith

  run_as_loaded : (s : Session S) → s.state ≡ loaded → Ran s (session (run_as m loaded s))
  unfolding run_as
  run_as_loaded s e =
      session_bind (Ran s) (start m s >>= cont m) (clear_flag m)
        (session_bind (Ran s) (start m s) (cont m) (Ran-Started e (start-Started m s))
          λ t h. Ran-Kept h (cont-Kept m t))
        λ t h. ground arith

  pub run_loaded : (s : Session S) → s.state ≡ loaded → Ran s (session (run m s))
  unfolding run
  run_loaded s e = subst (λ r. Ran s (session (run_as m r s))) (sym e) (run_as_loaded s e)

  run_as_running : (s : Session S) → Kept s (session (run_as m running s))
  unfolding run_as
  run_as_running s =
      let t = say (already_running s.prog_path) s in
      session_bind (Kept s) (cont m t) (clear_flag m)
        (Kept-trans {s = s} {t = t} (ground arith) (cont-Kept m t)) λ u h. ground arith

  pub run_running : (s : Session S) → s.state ≡ running → Kept s (session (run m s))
  unfolding run
  run_running s e = subst (λ r. Kept s (session (run_as m r s))) (sym e) (run_as_running s)

  pub run_noload : (s : Session S) → s.state ≡ noload → Steady s (session (run m s))
  unfolding run
  run_noload s e = ground arith

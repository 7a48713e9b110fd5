-- ===== src/Debugger/Control/Text.antt =====
-- The tracee's text over the commands that run it: the traps stand after cont, si and start.
use nycu_advanced_unix_progr.Base.{
  ℕ, ◌≤◌, ◌≡◌, refl, sym, subst, ◌∙◌, inl, inr, true, false, not, ◌&&◌, some, arith, Bool-cases,
  Option-cases,
}
use nycu_advanced_unix_progr.Base.Int.{ℤ}
use nycu_advanced_unix_progr.Debugger.Breakpoint.{include}
use nycu_advanced_unix_progr.Debugger.Machine.{Machine}
use nycu_advanced_unix_progr.Debugger.Memory.{Memory}
use nycu_advanced_unix_progr.Debugger.Session.{
  for_cont, for_singlestep, running, Session, Outcome, next, ◌>>=◌, is_running, already_running,
  say,
}
use nycu_advanced_unix_progr.Debugger.Stops.{check_hit_break_point_or_not}
use nycu_advanced_unix_progr.Debugger.Stops.Text.{
  Obedient, After, After-bind, After-map, After-next, Steps, Steps-trans,
  wait_then_check_exit-Steps, check_hit-Steps, check_then_restore-Steps,
}
use nycu_advanced_unix_progr.Debugger.Control.{
  run, run_as, clear_flag, cont, resume, continued, step_in, stepped,
}

module _ {S : Type 0} (m : Machine S) (mem : S → ℤ → ℕ → ℕ) (law : Memory m mem) (lo hi : ℕ)
    (obeys : Obedient m mem lo hi) where
  -- The rest of a command, on a session that an earlier part leaves.
  Steps-bind :
      (s : Session S) (o : Outcome S) (f : Session S → Outcome S)
      → After (Steps m mem law lo hi obeys s) o
      → ((t : Session S) → After (Steps m mem law lo hi obeys t) (f t))
      → After (Steps m mem law lo hi obeys s) (o >>= f)
  Steps-bind s o f h k =
      After-bind (Steps m mem law lo hi obeys s) (Steps m mem law lo hi obeys s) o f h
        λ t st. After-map _ _ (f t) (k t) λ u tu. Steps-trans m mem law lo hi obeys s t u st tu

  Steps-refl : (s : Session S) → Steps m mem law lo hi obeys s s
  Steps-refl s = inr (refl, refl, λ b l r. refl)

  -- The session with the flag cleared.
  flag-Steps :
      (s : Session S) → Steps m mem law lo hi obeys s (record s { last_cmd_is_set_rip = false })
  flag-Steps s = inr (refl, refl, λ b l r. refl)

  continued-Steps : (s : Session S) → After (Steps m mem law lo hi obeys s) (continued m s)
  unfolding continued
  continued-Steps s = elim (Bool-cases (is_running s.state)) [
    | inl run ↦ rw run (
        Steps-bind s (check_hit_break_point_or_not m for_cont s) _
          (check_hit-Steps m mem law lo hi obeys for_cont s) flag-Steps)
    | inr idle ↦ rw idle (Steps-refl s)
  ]

  stepped-Steps : (s : Session S) → After (Steps m mem law lo hi obeys s) (stepped m s)
  unfolding stepped
  stepped-Steps s = elim (Bool-cases (is_running s.state)) [
    | inl run ↦ rw run (
        Steps-bind s (check_hit_break_point_or_not m for_singlestep s) _
          (check_hit-Steps m mem law lo hi obeys for_singlestep s) flag-Steps)
    | inr idle ↦ rw idle (Steps-refl s)
  ]

  -- A step of the tracee, and what comes after it.
  cont_to :
      (s : Session S) (os : S)
      → m.cont_request s.os s.pid ≡ some os
      → (t : Session S) → Steps m mem law lo hi obeys (record s { os = os }) t
      → Steps m mem law lo hi obeys s t
  cont_to s os works t (inl e) = inl e
  cont_to s os works t (inr (e, p, k)) =
      inr (e, p, λ b l r. k b l r ∙ obeys.cont_text s.os s.pid os b works l r)

  step_to :
      (s : Session S) (os : S)
      → m.single_step s.os s.pid ≡ some os
      → (t : Session S) → Steps m mem law lo hi obeys (record s { os = os }) t
      → Steps m mem law lo hi obeys s t
  step_to s os works t (inl e) = inl e
  step_to s os works t (inr (e, p, k)) =
      inr (e, p, λ b l r. k b l r ∙ obeys.step_text s.os s.pid os b works l r)

  resume-Steps : (s : Session S) → After (Steps m mem law lo hi obeys s) (resume m s)
  unfolding resume
  resume-Steps s = elim (Bool-cases (is_running s.state)) [
    | inl run ↦ elim (Option-cases (m.cont_request s.os s.pid)) [
      | inl fails ↦ rw (run, fails) (inr (refl, refl, λ b l r. refl))
      | inr (os, works) ↦
          rw (run, works)
            (Steps-bind s _ _
              (After-map _ _ _
                (wait_then_check_exit-Steps m mem law lo hi obeys (record s { os = os }))
                (cont_to s os works))
              continued-Steps)
    ]
    | inr idle ↦ rw idle (Steps-refl s)
  ]

  -- All of cont and of si.
  pub cont-Steps :
      (s : Session S) → s.state ≡ running → After (Steps m mem law lo hi obeys s) (cont m s)
  unfolding cont
  cont-Steps s run =
      let on : is_running s.state ≡ true = ground arith in
      elim (Option-cases (m.get_regs s.os s.pid)) [
        | inl fails ↦ ground arith
        | inr (regs, works) ↦
            elim (Bool-cases (not s.last_cmd_is_set_rip && include s.bptab regs.rip)) [
              | inl over ↦
                  rw (on, works, over)
                    (Steps-bind s _ _
                      (check_then_restore-Steps m mem law lo hi obeys regs.rip s run) resume-Steps)
              | inr plain ↦ rw (on, works, plain) (resume-Steps s)
            ]
      ]

  pub step_in-Steps :
      (s : Session S) → s.state ≡ running → After (Steps m mem law lo hi obeys s) (step_in m s)
  unfolding step_in
  step_in-Steps s run =
      let on : is_running s.state ≡ true = ground arith in
      elim (Option-cases (m.get_regs s.os s.pid)) [
        | inl fails ↦ ground arith
        | inr (regs, works) ↦ elim (Bool-cases (include s.bptab regs.rip)) [
          | inl over ↦
              rw (on, works, over)
                (Steps-bind s _ _ (check_then_restore-Steps m mem law lo hi obeys regs.rip s run)
                  stepped-Steps)
          | inr plain ↦
              let (os, stepped') = obeys.steps s.os s.pid in
              rw (on, works, plain, stepped')
                (Steps-bind s _ _
                  (After-map _ _ _
                    (wait_then_check_exit-Steps m mem law lo hi obeys (record s { os = os }))
                    (step_to s os stepped'))
                  stepped-Steps)
        ]
      ]

  run_as-Steps :
      (s : Session S)
      → s.state ≡ running
      → After (Steps m mem law lo hi obeys s) (run_as m running s)
  unfolding run_as clear_flag
  run_as-Steps s on =
      Steps-bind s (cont m (say (already_running s.prog_path) s)) (clear_flag m)
        (cont-Steps (say (already_running s.prog_path) s) on) flag-Steps

  -- run on a running program is cont.
  pub run-Steps :
      (s : Session S) → s.state ≡ running → After (Steps m mem law lo hi obeys s) (run m s)
  unfolding run
  run-Steps s e =
      subst (λ r. After (Steps m mem law lo hi obeys s) (run_as m r s)) (sym e) (run_as-Steps s e)

  running-Steps :
      (s t : Session S) (b : ℕ)
      → Steps m mem law lo hi obeys s t
      → t.state ≡ running
      → lo ≤ b
      → b ≤ hi
      → (t.pid ≡ s.pid) × (mem t.os t.pid b ≡ mem s.os s.pid b)
  running-Steps s t b (inl e) r l h = absurd (cc)
  running-Steps s t b (inr (e, p, k)) r l h = (p, ground (arith, k b l h))

  -- Where no write and no step is refused and the tracee leaves the bytes from lo to hi alone: when
  -- cont comes back and the program still runs, it is the same process, and each of these bytes,
  -- traps included, is what it was before.
  pub cont_keeps_text :
      (s t : Session S) (b : ℕ)
      → s.state ≡ running
      → cont m s ≡ next t
      → t.state ≡ running
      → lo ≤ b
      → b ≤ hi
      → (t.pid ≡ s.pid) × (mem t.os t.pid b ≡ mem s.os s.pid b)
  cont_keeps_text s t b run e =
      running-Steps s t b
        (After-next (Steps m mem law lo hi obeys s) (cont m s) t (cont-Steps s run) e)

  -- Where no write and no step is refused and the tracee leaves the bytes from lo to hi alone: when
  -- si comes back and the program still runs, it is the same process, and each of these bytes, traps
  -- included, is what it was before.
  step_in_keeps_text :
      (s t : Session S) (b : ℕ)
      → s.state ≡ running
      → step_in m s ≡ next t
      → t.state ≡ running
      → lo ≤ b
      → b ≤ hi
      → (t.pid ≡ s.pid) × (mem t.os t.pid b ≡ mem s.os s.pid b)
  step_in_keeps_text s t b run e =
      running-Steps s t b
        (After-next (Steps m mem law lo hi obeys s) (step_in m s) t (step_in-Steps s run) e)

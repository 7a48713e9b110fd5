-- ===== src/Debugger/Stops/Keeps.antt =====
-- What the private helpers leave alone: the breakpoint table, the text range, and, unless the
-- tracee exits, the state and the process.
use nycu_advanced_unix_progr.Base.{ℕ, ◌≡◌, ◌⊎◌, inl, inr, [], ◌∷◌, arith, Option-cases}
use nycu_advanced_unix_progr.Base.Word.{trap}
use nycu_advanced_unix_progr.Debugger.Breakpoint.{BreakpointTable}
use nycu_advanced_unix_progr.Debugger.Machine.{Machine}
use nycu_advanced_unix_progr.Debugger.Session.{
  CandBp, loaded, Session, Outcome, next, stop, ◌>>=◌, session,
}
use nycu_advanced_unix_progr.Debugger.Stops.{
  wait_then_check_exit, translate, report_breakpoint, check_hit_break_point_or_not, reput,
  check_then_restore_si_reput, reput_entries, reput_all_breakpoints_from,
}

-- The table and the text range are the same.
pub record SameTable {S : Type 0} (s t : Session S) : Type 0 where
  pub bptab : t.bptab ≡ s.bptab
  pub text_begin : t.text_begin ≡ s.text_begin
  pub text_end : t.text_end ≡ s.text_end

-- The state and the process are the same too.
pub record Steady {S : Type 0} (s t : Session S) : Type 0 where
  pub table : SameTable s t
  pub state : t.state ≡ s.state
  pub pid : t.pid ≡ s.pid

-- Or the tracee has exited.
pub record Kept {S : Type 0} (s t : Session S) : Type 0 where
  pub table : SameTable s t
  pub moved : ((t.state ≡ s.state) × (t.pid ≡ s.pid)) ⊎ (t.state ≡ loaded)

module _ {S : Type 0} where
  pub Steady-trans : {s t u : Session S} → Steady s t → Steady t u → Steady s u
  Steady-trans h k = ground arith

  pub Kept-trans : {s t u : Session S} → Kept s t → Kept t u → Kept s u
  Kept-trans h k = ground arith

  pub Kept-of_Steady : {s t : Session S} → Steady s t → Kept s t
  Kept-of_Steady h = ground arith

  -- A property of where an outcome leaves off, through a bind.
  pub session_bind :
      (P : Session S → Type 0) (o : Outcome S) (f : Session S → Outcome S)
      → P (session o)
      → ((t : Session S) → P t → P (session (f t)))
      → P (session (o >>= f))
  session_bind P (next s) f h k = k s h
  session_bind P (stop why s) f h k = h

module _ {S : Type 0} (m : Machine S) where
  pub wait_then_check_exit-Kept : (s : Session S) → Kept s (session (wait_then_check_exit m s))
  unfolding wait_then_check_exit
  wait_then_check_exit-Kept s = ground arith

  pub translate-Steady : (a code : ℕ) (s : Session S) → Steady s (translate m a code s).1
  unfolding translate
  translate-Steady a code s = ground arith

  pub translate-os : (a code : ℕ) (s : Session S) → (translate m a code s).1.os ≡ s.os
  unfolding translate
  translate-os a code s = ground arith

  report_breakpoint-Steady : (a : ℕ) (s : Session S) → Steady s (session (report_breakpoint m a s))
  unfolding report_breakpoint translate
  report_breakpoint-Steady a s = ground arith

  pub check_hit-Steady :
      (c : CandBp) (s : Session S) → Steady s (session (check_hit_break_point_or_not m c s))
  unfolding check_hit_break_point_or_not translate
  check_hit-Steady c s = ground arith

  reput-Steady : (a w : ℕ) (s : Session S) → Steady s (session (reput m a w s))
  unfolding reput
  reput-Steady a w s = ground arith

  -- A wait, and the trap put back.
  wait_reput-Kept :
      (a w : ℕ) (s : Session S) → Kept s (session (wait_then_check_exit m s >>= reput m a w))
  wait_reput-Kept a w s =
      session_bind (Kept s) (wait_then_check_exit m s) (reput m a w) (wait_then_check_exit-Kept s)
        λ t k. Kept-trans k (Kept-of_Steady (reput-Steady a w t))

  pub check_then_restore-Kept :
      (a : ℕ) (s : Session S) → Kept s (session (check_then_restore_si_reput m a s))
  unfolding check_then_restore_si_reput
  check_then_restore-Kept a s = grind (arith, wait_reput-Kept)

  reput_entries-Steady :
      (t : BreakpointTable) (b : ℕ) (s : Session S) → Steady s (reput_entries m t b s)
  unfolding reput_entries
  reput_entries-Steady [] b s = ground arith
  reput_entries-Steady (e ∷ t) b s =
      let w = trap (m.peek_text s.os s.pid e.addr) in
      elim (Option-cases (m.poke_text s.os s.pid e.addr w)) [
        | inl fails ↦ ground (arith, reput_entries-Steady t b s)
        | inr (os, works) ↦
            ground
              (arith, reput_entries-Steady t b s, reput_entries-Steady t b (record s { os = os }))
      ]

  pub reput_all-Steady : (b : ℕ) (s : Session S) → Steady s (reput_all_breakpoints_from m b s)
  unfolding reput_all_breakpoints_from
  reput_all-Steady b s = reput_entries-Steady s.bptab b s

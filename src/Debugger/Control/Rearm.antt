-- ===== src/Debugger/Control/Rearm.antt =====
-- start sets the breakpoints of earlier runs again.
use nycu_advanced_unix_progr.Base.{
  ℕ, zero, suc, ◌≤◌, ◌≡◌, ◌∙◌, inl, inr, true, arith, Bool-cases, Option-cases,
}
use nycu_advanced_unix_progr.Base.Int.{ℤ, pos, negsuc}
use nycu_advanced_unix_progr.Debugger.Breakpoint.{BreakpointTable}
use nycu_advanced_unix_progr.Debugger.Breakpoint.Lookup.{has_addr}
use nycu_advanced_unix_progr.Debugger.Machine.{Machine}
use nycu_advanced_unix_progr.Debugger.Memory.{Memory, Writable}
use nycu_advanced_unix_progr.Debugger.Session.{
  for_start, loaded, running, Session, next, wifstopped, is_loaded,
}
use nycu_advanced_unix_progr.Debugger.Stops.{
  check_hit_break_point_or_not, reput_all_breakpoints_from,
}
use nycu_advanced_unix_progr.Debugger.Stops.Keeps.{check_hit-Steady, reput_all-Steady}
use nycu_advanced_unix_progr.Debugger.Stops.Traps.{reput_all-eq, check_hit_mem}
use nycu_advanced_unix_progr.Debugger.Stops.Text.{
  After-map, After, After-bind, After-next, After-session,
}
use nycu_advanced_unix_progr.Debugger.Control.{start, start_as, start_parent, start_child, started}

module _ {S : Type 0} (m : Machine S) (mem : S → ℤ → ℕ → ℕ) (law : Memory m mem)
    (works : Writable m) where
  -- The process p of a session has the traps of a table.
  Rearmed : BreakpointTable → ℕ → ℤ → Session S → Type 0
  Rearmed tab begin p t =
      (t.pid ≡ p) × ((b : ℕ) → has_addr tab b ≡ true → begin ≤ b → mem t.os t.pid b ≡ 0xcc)

  -- The memory that the first stop is reported on.
  rearm :
      (s : Session S)
      → After
          (Rearmed s.bptab s.text_begin s.pid)
          (check_hit_break_point_or_not m for_start (reput_all_breakpoints_from m s.text_begin s))
  unfolding Rearmed
  rearm s =
      let u = reput_all_breakpoints_from m s.text_begin s in
      let k = reput_all-Steady m s.text_begin s in
      let h = check_hit-Steady m for_start u in
      After-session (Rearmed s.bptab s.text_begin s.pid)
        (check_hit_break_point_or_not m for_start u)
        (
          h.pid ∙ k.pid,
          λ b has le. ground (
            arith,
            check_hit_mem m mem law for_start u b,
            reput_all-eq m mem law s.text_begin s b works,
          ),
        )

  start_parent-Rearmed :
      (s : Session S)
      → s.state ≡ loaded
      → After (λ t. t.state ≡ running → Rearmed s.bptab s.text_begin s.pid t) (start_parent m s)
  unfolding start_parent started Rearmed
  start_parent-Rearmed s e = elim (Option-cases (m.wait_pid s.os s.pid)) [
    | inl fails ↦ ground arith
    | inr ((status, os), waited) ↦ elim (Bool-cases (wifstopped status)) [
      | inl stopped ↦
          rw (waited, stopped, start_parent)
            (After-bind (Rearmed s.bptab s.text_begin s.pid) _ _ (started m)
              (rearm (record s { os = m.set_options os s.pid })) λ t h r. h)
      | inr other ↦ rw (waited, other, start_parent) tt
    ]
  ]

  start_as-Rearmed :
      (p : ℤ) (s : Session S)
      → s.state ≡ loaded
      → After
          (λ t.
            t.state ≡ running
            → (b : ℕ) → has_addr s.bptab b ≡ true
            → s.text_begin ≤ b
            → mem t.os t.pid b ≡ 0xcc)
          (start_as m p s)
  unfolding start_as start_child Rearmed
  start_as-Rearmed (negsuc zero) s e = ground arith
  start_as-Rearmed (negsuc (suc n)) s e =
      After-map _ _ (start_parent m s) (start_parent-Rearmed s e) λ t h r. (h r).1
  start_as-Rearmed (pos zero) s e = ground arith
  start_as-Rearmed (pos (suc n)) s e =
      After-map _ _ (start_parent m s) (start_parent-Rearmed s e) λ t h r. (h r).1

  start-Rearmed :
      (s : Session S)
      → s.state ≡ loaded
      → After
          (λ t.
            t.state ≡ running
            → (b : ℕ) → has_addr s.bptab b ≡ true
            → s.text_begin ≤ b
            → mem t.os t.pid b ≡ 0xcc)
          (start m s)
  unfolding start
  start-Rearmed s e =
      let (pid, os) = m.fork s.os in
      let on : is_loaded s.state ≡ true = ground arith in
      rw (start, on) (start_as-Rearmed pid (record s { pid = pid; os = os }) e)

  -- Where the kernel refuses no write: when start comes back from a loaded program with a running
  -- one, the new process has 0xcc at each address of the table that is not before the text.
  pub start_rearms :
      (s t : Session S) (b : ℕ)
      → s.state ≡ loaded
      → start m s ≡ next t
      → t.state ≡ running
      → has_addr s.bptab b ≡ true
      → s.text_begin ≤ b
      → mem t.os t.pid b ≡ 0xcc
  start_rearms s t b e came run = After-next _ (start m s) t (start-Rearmed s e) came run b

-- ===== src/Debugger/Main/Transitions.antt =====
-- Which command moves the debugger's state, and how.
use nycu_advanced_unix_progr.Base.{◌≡◌, ◌≢◌, refl, ◌⊎◌, inl, List, Bytes, arith}
use nycu_advanced_unix_progr.Base.Strtol.{strtol, atoi}
use nycu_advanced_unix_progr.Debugger.Machine.{Machine}
use nycu_advanced_unix_progr.Debugger.Session.{
  RunState, loaded, noload, running, Session, session, release,
}
use nycu_advanced_unix_progr.Debugger.Stops.Keeps.{Kept}
use nycu_advanced_unix_progr.Debugger.Control.{cont, step_in, run}
use nycu_advanced_unix_progr.Debugger.Control.Keeps.{
  start-Started, cont-Kept, step_in-Kept, run_loaded, run_running, run_noload,
}
use nycu_advanced_unix_progr.Debugger.Breaks.{set_break_point, delete_break_point}
use nycu_advanced_unix_progr.Debugger.Breaks.Cases.{
  set_break_point_cases, put_break_point_cases, delete_break_point_cases, remove_break_point_cases,
}
use nycu_advanced_unix_progr.Debugger.Breaks.Keeps.{
  list-Steady, get_all_regs-Steady, get_single_reg-Steady, set_reg-Steady,
}
use nycu_advanced_unix_progr.Debugger.Inspect.Keeps.{dump-Steady, disasm-Steady}
use nycu_advanced_unix_progr.Debugger.Load.Keeps.{load-Loads, vmmap-Steady}
use nycu_advanced_unix_progr.Debugger.Main.{
  Command, exit_cmd, empty_cmd, help_cmd, load_cmd, start_cmd, cont_cmd, break_cmd, list_cmd,
  si_cmd, delete_cmd, get_cmd, getregs_cmd, set_cmd, vmmap_cmd, disasm_cmd, dump_cmd, run_cmd,
  other_cmd, perform,
}

-- The moves that a command may make. Only load leaves "no program", only start and run set a
-- program running, and only cont, si and run see it end; no command goes back to "no program".
abbrev pub Allowed : Command → RunState → RunState → Type 0
Allowed exit_cmd a b = b ≡ loaded
Allowed load_cmd a b = (b ≡ a) ⊎ ((a ≡ noload) × (b ≡ loaded))
Allowed start_cmd a b = (b ≡ a) ⊎ ((a ≡ loaded) × (b ≡ running))
Allowed cont_cmd a b = (b ≡ a) ⊎ ((a ≡ running) × (b ≡ loaded))
Allowed si_cmd a b = (b ≡ a) ⊎ ((a ≡ running) × (b ≡ loaded))
Allowed run_cmd a b = (b ≡ a) ⊎ ((a ≡ running) × (b ≡ loaded)) ⊎ ((a ≡ loaded) × (b ≡ running))
Allowed _ a b = b ≡ a

module _ {S : Type 0} (m : Machine S) where
  -- A command that wants a running program does nothing without one.
  cont_idle : (s : Session S) → s.state ≢ running → (session (cont m s)).state ≡ s.state
  unfolding cont
  cont_idle s h = ground arith

  step_in_idle : (s : Session S) → s.state ≢ running → (session (step_in m s)).state ≡ s.state
  unfolding step_in
  step_in_idle s h = ground arith

  -- A command that keeps the state or sees the tracee end, and that idles without one.
  ends :
      (r : RunState) (s t : Session S)
      → s.state ≡ r
      → Kept s t
      → (s.state ≢ running → t.state ≡ s.state)
      → (t.state ≡ s.state) ⊎ ((s.state ≡ running) × (t.state ≡ loaded))
  ends running s t e k idle = ground arith
  ends loaded s t e k idle = inl (idle (λ q. cc))
  ends noload s t e k idle = inl (idle (λ q. cc))

  cont-Allowed : (s : Session S) → Allowed cont_cmd s.state (session (cont m s)).state
  cont-Allowed s = ends s.state s (session (cont m s)) refl (cont-Kept m s) (cont_idle s)

  step_in-Allowed : (s : Session S) → Allowed si_cmd s.state (session (step_in m s)).state
  step_in-Allowed s =
      ends s.state s (session (step_in m s)) refl (step_in-Kept m s) (step_in_idle s)

  run-Allowed :
      (r : RunState) (s : Session S)
      → s.state ≡ r
      → Allowed run_cmd s.state (session (run m s)).state
  run-Allowed loaded s e = ground (arith, run_loaded m s e)
  run-Allowed running s e = ground (arith, run_running m s e)
  run-Allowed noload s e = ground (arith, run_noload m s e)

  break-Allowed :
      (cmds : List Bytes) (s : Session S) → (session (set_break_point m cmds s)).state ≡ s.state
  break-Allowed cmds s =
      set_break_point_cases m (λ o. (session o).state ≡ s.state) s cmds (λ o. refl)
        λ word _ _ _ _.
          put_break_point_cases m (λ o. (session o).state ≡ s.state) s (strtol 0 word) (λ o. refl)
            λ o os ok. refl

  delete-Allowed :
      (cmds : List Bytes) (s : Session S) → (session (delete_break_point m cmds s)).state ≡ s.state
  delete-Allowed cmds s =
      delete_break_point_cases m (λ o. (session o).state ≡ s.state) s cmds (λ o. refl)
        λ word _ _.
          remove_break_point_cases m (λ o. (session o).state ≡ s.state) s (atoi word) (λ o. refl)
            λ o os k e _ _ _. refl

  -- However the kernel answers, a command leaves the state as it is, but for these moves: exit leaves
  -- "loaded"; load goes from "no program" to "loaded", start from "loaded" to "running", cont and si
  -- from "running" to "loaded", and run both of the last ways.
  pub perform-Allowed :
      (c : Command) (cmds : List Bytes) (s : Session S)
      → Allowed c s.state (session (perform m c cmds s)).state
  unfolding perform release
  perform-Allowed exit_cmd cmds s = refl
  perform-Allowed empty_cmd cmds s = refl
  perform-Allowed help_cmd cmds s = refl
  perform-Allowed load_cmd cmds s = ground (arith, load-Loads m cmds s)
  perform-Allowed start_cmd cmds s = ground (arith, start-Started m s)
  perform-Allowed cont_cmd cmds s = cont-Allowed s
  perform-Allowed break_cmd cmds s = break-Allowed cmds s
  perform-Allowed list_cmd cmds s = (list-Steady s).state
  perform-Allowed si_cmd cmds s = step_in-Allowed s
  perform-Allowed delete_cmd cmds s = delete-Allowed cmds s
  perform-Allowed get_cmd cmds s = (get_single_reg-Steady m cmds s).state
  perform-Allowed getregs_cmd cmds s = (get_all_regs-Steady m s).state
  perform-Allowed set_cmd cmds s = (set_reg-Steady m cmds s).state
  perform-Allowed vmmap_cmd cmds s = (vmmap-Steady m s).state
  perform-Allowed disasm_cmd cmds s = (disasm-Steady m cmds s).state
  perform-Allowed dump_cmd cmds s = (dump-Steady m cmds s).state
  perform-Allowed run_cmd cmds s = run-Allowed s.state s refl
  perform-Allowed other_cmd cmds s = refl

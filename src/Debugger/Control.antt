-- ===== src/Debugger/Control.antt =====
-- The commands that run the tracee (hw4/command.hpp): start, cont, si, run.
pub mod Keeps
pub mod Defined
pub mod Text
pub mod Rearm
use nycu_advanced_unix_progr.Base.{
  ℕ, zero, suc, Bool, true, false, not, ◌&&◌, Option, none, some, ◌==◌, if◌then◌else◌,
}
use nycu_advanced_unix_progr.Base.Int.{ℤ, pos, negsuc}
use nycu_advanced_unix_progr.Debugger.Breakpoint.{include}
use nycu_advanced_unix_progr.Debugger.Regs.{Regs}
use nycu_advanced_unix_progr.Debugger.Machine.{Machine}
use nycu_advanced_unix_progr.Debugger.Session.{
  for_cont, for_singlestep, for_start, getregs, singlestep, continue, waitpid, fork, traceme,
  execvp, need_running, need_loaded, need_loaded_or_running, request_failed, already_running,
  pid_line, loaded, noload, running, RunState, Session, assert_failed, execed, Outcome, next, stop,
  ◌>>=◌, is_running, is_loaded, say, wifstopped,
}
use nycu_advanced_unix_progr.Debugger.Stops.{
  wait_then_check_exit, check_hit_break_point_or_not, check_then_restore_si_reput,
  reput_all_breakpoints_from,
}

module _ {S : Type 0} (m : Machine S) where
  -- The child of start, which goes on as a debugger where execvp fails.
  start_child : Session S → Outcome S
  start_child s = elim (m.trace_me s.os) [
    | none ↦ next (say (request_failed traceme) s)
    | some os ↦ elim (m.execvp os s.prog_path) [
      | none ↦ next (say (request_failed execvp) (record s { os = os }))
      | some os' ↦ stop execed (record s { os = os' })
    ]
  ]

  -- The last lines of the parent's branch of start.
  started : Session S → Outcome S
  started s =
      next (record (say (pid_line s.pid) s) { state = running; last_cmd_is_set_rip = false })

  -- The parent of start.
  start_parent : Session S → Outcome S
  unfolding started
  start_parent s = elim (m.wait_pid s.os s.pid) [
    | none ↦ next (say (request_failed waitpid) s)
    | some (status, os) ↦
        if not (wifstopped status)
        then stop assert_failed (record s { os = os })
        else check_hit_break_point_or_not m for_start
            (reput_all_breakpoints_from m s.text_begin (record s { os = m.set_options os s.pid }))
          >>= started
  ]

  -- The three ways out of fork.
  start_as : ℤ → Session S → Outcome S
  unfolding start_child start_parent
  start_as (negsuc zero) s = next (say (request_failed fork) s)
  start_as (negsuc (suc n)) s = start_parent s
  start_as (pos zero) s = start_child s
  start_as (pos (suc n)) s = start_parent s

  -- debugger::start()
  unfoldable pub start : Session S → Outcome S
  unfolding start_as
  start s =
      if not (is_loaded s.state)
      then next (say need_loaded s)
      else let (pid, os) = m.fork s.os in start_as pid (record s { pid = pid; os = os })

  -- The last two lines of cont.
  continued : Session S → Outcome S
  continued s =
      if not (is_running s.state)
      then next s
      else check_hit_break_point_or_not m for_cont s >>= λ t.
          next (record t { last_cmd_is_set_rip = false })

  -- cont, from the comment "cont" on.
  resume : Session S → Outcome S
  unfolding continued
  resume s = if not (is_running s.state) then next s else elim (m.cont_request s.os s.pid) [
    | none ↦ next (say (request_failed continue) s)
    | some os ↦ wait_then_check_exit m (record s { os = os }) >>= continued
  ]

  -- debugger::cont()
  unfoldable pub cont : Session S → Outcome S
  unfolding resume
  cont s =
      if not (is_running s.state) then next (say need_running s) else elim (m.get_regs s.os s.pid) [
        | none ↦ next (say (request_failed getregs) s)
        | some regs ↦
            if not s.last_cmd_is_set_rip && include s.bptab regs.rip
            then check_then_restore_si_reput m regs.rip s >>= resume
            else resume s
      ]

  -- The last lines of step_in.
  stepped : Session S → Outcome S
  stepped s =
      if not (is_running s.state)
      then next s
      else check_hit_break_point_or_not m for_singlestep s >>= λ t.
          next (record t { last_cmd_is_set_rip = false })

  -- debugger::step_in()
  unfoldable pub step_in : Session S → Outcome S
  unfolding stepped
  step_in s =
      if not (is_running s.state) then next (say need_running s) else elim (m.get_regs s.os s.pid) [
        | none ↦ next (say (request_failed getregs) s)
        | some regs ↦
            if include s.bptab regs.rip
            then check_then_restore_si_reput m regs.rip s >>= stepped
            else elim (m.single_step s.os s.pid) [
              | none ↦ next (say (request_failed singlestep) s)
              | some os ↦ wait_then_check_exit m (record s { os = os }) >>= stepped
            ]
      ]

  -- The last line of run.
  clear_flag : Session S → Outcome S
  clear_flag s = next (record s { last_cmd_is_set_rip = false })

  -- The branches of run.
  run_as : RunState → Session S → Outcome S
  unfolding clear_flag
  run_as loaded s = start s >>= cont >>= clear_flag
  run_as running s = cont (say (already_running s.prog_path) s) >>= clear_flag
  run_as noload s = next (say need_loaded_or_running s)

  -- debugger::run()
  unfoldable pub run : Session S → Outcome S
  unfolding run_as
  run s = run_as s.state s

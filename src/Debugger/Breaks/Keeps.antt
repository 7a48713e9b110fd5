-- ===== src/Debugger/Breaks/Keeps.antt =====
-- What the commands on breakpoints and registers leave alone.
use nycu_advanced_unix_progr.Base.{ℕ, ◌+◌, ◌≡◌, refl, List, [], ◌∷◌, Bytes, arith}
use nycu_advanced_unix_progr.Debugger.Breakpoint.{BreakpointTable}
use nycu_advanced_unix_progr.Base.Int.{ℤ}
use nycu_advanced_unix_progr.Debugger.Machine.{Machine}
use nycu_advanced_unix_progr.Debugger.Memory.{Memory}
use nycu_advanced_unix_progr.Debugger.Session.{breakpoint_line, say, Session, session}
use nycu_advanced_unix_progr.Debugger.Stops.Keeps.{Steady}
use nycu_advanced_unix_progr.Debugger.Breaks.{
  show_from, list, get_all_regs, reg_message, get_single_reg, write_reg, set_reg,
}

show_from-Steady :
    {S : Type 0} (i : ℕ) (t : BreakpointTable) (s : Session S) → Steady s (show_from i t s)
unfolding show_from
show_from-Steady i [] s = ground arith
show_from-Steady i (e ∷ t) s =
    ground (arith, show_from-Steady (i + 1) t (say (breakpoint_line i e.addr) s))

pub list-Steady : {S : Type 0} (s : Session S) → Steady s (session (list s))
unfolding list
list-Steady s = show_from-Steady 0 s.bptab s

module _ {S : Type 0} (m : Machine S) where
  pub get_all_regs-Steady : (s : Session S) → Steady s (session (get_all_regs m s))
  unfolding get_all_regs
  get_all_regs-Steady s = ground arith

  reg_message-Steady : (name : Bytes) (s : Session S) → Steady s (reg_message name s)
  unfolding reg_message
  reg_message-Steady name s = ground arith

  pub get_single_reg-Steady :
      (cmds : List Bytes) (s : Session S) → Steady s (session (get_single_reg m cmds s))
  unfolding get_single_reg
  get_single_reg-Steady cmds s = grind (arith, reg_message-Steady)

  write_reg-Steady :
      (name : Bytes) (v : ℕ) (s : Session S) → Steady s (session (write_reg m name v s))
  unfolding write_reg
  write_reg-Steady name v s = grind (arith, reg_message-Steady)

  pub set_reg-Steady : (cmds : List Bytes) (s : Session S) → Steady s (session (set_reg m cmds s))
  unfolding set_reg
  set_reg-Steady cmds s = grind (arith, write_reg-Steady)

show_from-os :
    {S : Type 0} (i : ℕ) (t : BreakpointTable) (s : Session S) → (show_from i t s).os ≡ s.os
unfolding show_from
show_from-os i [] s = refl
show_from-os i (e ∷ t) s = show_from-os (i + 1) t (say (breakpoint_line i e.addr) s)

-- The commands that only print leave the world alone.
pub list-os : {S : Type 0} (s : Session S) → (session (list s)).os ≡ s.os
unfolding list
list-os s = show_from-os 0 s.bptab s

module _ {S : Type 0} (m : Machine S) where
  pub get_all_regs-os : (s : Session S) → (session (get_all_regs m s)).os ≡ s.os
  unfolding get_all_regs
  get_all_regs-os s = ground arith

  reg_message-os : (name : Bytes) (s : Session S) → (reg_message name s).os ≡ s.os
  unfolding reg_message
  reg_message-os name s = ground arith

  pub get_single_reg-os :
      (cmds : List Bytes) (s : Session S) → (session (get_single_reg m cmds s)).os ≡ s.os
  unfolding get_single_reg
  get_single_reg-os cmds s = grind (arith, reg_message-os)

  module _ (mem : S → ℤ → ℕ → ℕ) (law : Memory m mem) where
    write_reg-mem :
        (name : Bytes) (v : ℕ) (s : Session S) (b : ℕ)
        → mem (session (write_reg m name v s)).os s.pid b ≡ mem s.os s.pid b
    unfolding write_reg
    write_reg-mem name v s b = grind (arith, reg_message-os, law.set_regs_mem)

    -- set writes registers only.
    pub set_reg-mem :
        (cmds : List Bytes) (s : Session S) (b : ℕ)
        → mem (session (set_reg m cmds s)).os s.pid b ≡ mem s.os s.pid b
    unfolding set_reg
    set_reg-mem cmds s b = grind (arith, write_reg-mem)

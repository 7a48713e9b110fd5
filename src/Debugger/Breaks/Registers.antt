-- ===== src/Debugger/Breaks/Registers.antt =====
-- What `set` does to the tracee's registers.
use nycu_advanced_unix_progr.Base.{ℕ, ◌≡◌, some, List, Bytes, ◌==◌, if◌then◌else◌, get_elem?, arith}
use nycu_advanced_unix_progr.Base.Strtol.{strtol}
use nycu_advanced_unix_progr.Debugger.Regs.{Regs, Reg, find_reg, put_reg, reg_handler}
use nycu_advanced_unix_progr.Debugger.Machine.{Machine}
use nycu_advanced_unix_progr.Debugger.Session.{running, Session, session}
use nycu_advanced_unix_progr.Debugger.Stops.Hit.{RegFile}
use nycu_advanced_unix_progr.Debugger.Breaks.{write_reg, set_reg}

module _ {S : Type 0} (m : Machine S) (file : RegFile m) where
  write_reg-eq :
      (s : Session S) (name : Bytes) (v : ℕ) (r : Reg) (regs : Regs)
      → find_reg name ≡ some r
      → m.get_regs s.os s.pid ≡ some regs
      → m.get_regs (session (write_reg m name v s)).os s.pid
        ≡ some (if v == 0 then regs else put_reg r v regs)
  unfolding write_reg reg_handler
  write_reg-eq s name v r regs known e =
      let (os, works) = file.set_works s.os s.pid (reg_handler name v regs).1 in
      ground (arith, file.get_set s.os s.pid (reg_handler name v regs).1 os works)

  -- On a running program whose registers can be read and written, `set` of a known register writes
  -- the value, unless it is 0, which leaves every register as it is.
  pub set_reg-eq :
      (s : Session S) (cmds : List Bytes) (name word : Bytes) (r : Reg) (regs : Regs)
      → s.state ≡ running
      → get_elem? cmds 1 ≡ some name
      → get_elem? cmds 2 ≡ some word
      → find_reg name ≡ some r
      → m.get_regs s.os s.pid ≡ some regs
      → m.get_regs (session (set_reg m cmds s)).os s.pid
        ≡ some (if strtol 0 word == 0 then regs else put_reg r (strtol 0 word) regs)
  unfolding set_reg
  set_reg-eq s cmds name word r regs run one two known e =
      ground (arith, write_reg-eq s name (strtol 0 word) r regs known e)

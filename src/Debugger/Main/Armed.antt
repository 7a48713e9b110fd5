-- ===== src/Debugger/Main/Armed.antt =====
-- The tracee's text over each command: the traps stand at the breakpoints.
use nycu_advanced_unix_progr.Base.{
  ℕ, ◌≤◌, ◌≡◌, refl, sym, ap, ◌∙◌, inl, inr, false, some, List, Bytes, get_elem?, arith,
}
use nycu_advanced_unix_progr.Base.Int.{ℤ}
use nycu_advanced_unix_progr.Base.Strtol.{strtol}
use nycu_advanced_unix_progr.Debugger.Breakpoint.{include}
use nycu_advanced_unix_progr.Debugger.Breakpoint.Lookup.{include-eq}
use nycu_advanced_unix_progr.Debugger.Machine.{Machine}
use nycu_advanced_unix_progr.Debugger.Memory.{Memory}
use nycu_advanced_unix_progr.Debugger.Session.{
  running, Session, Outcome, session, next, stop, is_loaded,
}
use nycu_advanced_unix_progr.Debugger.Stops.Keeps.{SameTable, Steady, Kept}
use nycu_advanced_unix_progr.Debugger.Stops.Text.{Obedient, After, After-session, Steps}
use nycu_advanced_unix_progr.Debugger.Control.{start, cont, step_in, run}
use nycu_advanced_unix_progr.Debugger.Control.Keeps.{cont-Kept, step_in-Kept, run_running}
use nycu_advanced_unix_progr.Debugger.Control.Text.{cont-Steps, step_in-Steps, run-Steps}
use nycu_advanced_unix_progr.Debugger.Breaks.Armed.{
  clip-same, Patched-same, IsArmed, set_break_point-IsArmed, delete_break_point-IsArmed,
  set_break_point-pid, delete_break_point-pid,
}
use nycu_advanced_unix_progr.Debugger.Breaks.Keeps.{
  list-Steady, get_all_regs-Steady, get_single_reg-Steady, set_reg-Steady, list-os, get_all_regs-os,
  get_single_reg-os, set_reg-mem,
}
use nycu_advanced_unix_progr.Debugger.Inspect.Keeps.{dump-Steady, disasm-Steady, dump-os, disasm-os}
use nycu_advanced_unix_progr.Debugger.Load.Keeps.{vmmap-Steady, vmmap-os}
use nycu_advanced_unix_progr.Debugger.Load.{is_noload, load, vmmap}
use nycu_advanced_unix_progr.Debugger.Inspect.{dump, disasm}
use nycu_advanced_unix_progr.Debugger.Breaks.{
  set_break_point, delete_break_point, list, get_single_reg, get_all_regs, set_reg,
}
use nycu_advanced_unix_progr.Debugger.Main.{
  Command, exit_cmd, empty_cmd, help_cmd, load_cmd, start_cmd, cont_cmd, break_cmd, list_cmd,
  si_cmd, delete_cmd, get_cmd, getregs_cmd, set_cmd, vmmap_cmd, disasm_cmd, dump_cmd, run_cmd,
  other_cmd, perform,
}

-- `break` gets an address that has no breakpoint yet.
abbrev pub NewBreak : {S : Type 0} → Command → List Bytes → Session S → Type 0
NewBreak c cmds s =
    (word : Bytes)
    → c ≡ break_cmd
    → get_elem? cmds 1 ≡ some word
    → include s.bptab (strtol 0 word) ≡ false

module _ {S : Type 0} (m : Machine S) (mem : S → ℤ → ℕ → ℕ) (law : Memory m mem) (orig : ℕ → ℕ)
    (lo hi : ℕ) (obeys : Obedient m mem lo hi) where
  -- The next prompt, if the program still runs: the same process, with the traps.
  abbrev pub Still : Session S → Session S → Type 0
  Still s t = t.state ≡ running → (t.pid ≡ s.pid) × IsArmed m mem law orig lo hi t

  -- A command that keeps the table and the text.
  IsArmed-same :
      (s t : Session S)
      → SameTable s t
      → t.pid ≡ s.pid
      → ((b : ℕ) → lo ≤ b → b ≤ hi → mem t.os t.pid b ≡ mem s.os s.pid b)
      → IsArmed m mem law orig lo hi s
      → IsArmed m mem law orig lo hi t
  IsArmed-same s t k p same (begin, end, armed) = (
    k.text_begin ∙ begin,
    k.text_end ∙ end,
    rw k.bptab (Patched-same _ _ _ s.bptab (clip-same lo hi _ _ same) armed),
  )

  Steady-Still :
      (s t : Session S)
      → Steady s t
      → ((b : ℕ) → mem t.os s.pid b ≡ mem s.os s.pid b)
      → IsArmed m mem law orig lo hi s
      → Still s t
  Steady-Still s t k same armed on = (
    k.pid,
    IsArmed-same s t k.table k.pid (λ b l h. ap (λ (p : ℤ). mem t.os p b) k.pid ∙ same b) armed,
  )

  Steps-Still :
      (s t : Session S)
      → Kept s t
      → Steps m mem law lo hi obeys s t
      → IsArmed m mem law orig lo hi s
      → Still s t
  Steps-Still s t k (inl ended) armed on = absurd (cc)
  Steps-Still s t k (inr (e, p, same)) armed on =
      (p, IsArmed-same s t k.table p (λ b l h. ap (λ (q : ℤ). mem t.os q b) p ∙ same b l h) armed)

  -- The parts of After and of what cont and si keep.
  After-both :
      (P Q R : Session S → Type 0) (o : Outcome S)
      → P (session o)
      → After Q o
      → ((t : Session S) → P t → Q t → R t)
      → After R o
  After-both P Q R (next t) p q f = f t p q
  After-both P Q R (stop why t) p q f = tt

  start-Still :
      (s : Session S)
      → s.state ≡ running
      → IsArmed m mem law orig lo hi s
      → After (Still s) (start m s)
  unfolding start
  start-Still s e armed =
      let off : is_loaded s.state ≡ false = ground arith in rw (start, off) (λ on. (refl, armed))

  load-Still :
      (cmds : List Bytes) (s : Session S)
      → s.state ≡ running
      → IsArmed m mem law orig lo hi s
      → After (Still s) (load m cmds s)
  unfolding load
  load-Still cmds s e armed =
      let off : is_noload s.state ≡ false = ground arith in rw (load, off) (λ on. (refl, armed))

  same_memory :
      (o : Outcome S) (s : Session S)
      → Steady s (session o)
      → ((b : ℕ) → mem (session o).os s.pid b ≡ mem s.os s.pid b)
      → IsArmed m mem law orig lo hi s
      → After (Still s) o
  same_memory o s k same armed = After-session (Still s) o (Steady-Still s (session o) k same armed)

  same_world :
      (o : Outcome S) (s : Session S)
      → Steady s (session o)
      → (session o).os ≡ s.os
      → IsArmed m mem law orig lo hi s
      → After (Still s) o
  same_world o s k same = same_memory o s k (λ b. ap (λ (os : S). mem os s.pid b) same)

  ran :
      (o : Outcome S) (s : Session S)
      → Kept s (session o)
      → After (Steps m mem law lo hi obeys s) o
      → IsArmed m mem law orig lo hi s
      → After (Still s) o
  ran o s k steps armed =
      After-both (Kept s) (Steps m mem law lo hi obeys s) (Still s) o k steps
        (λ t kept kept_text. Steps-Still s t kept kept_text armed)

  pub perform-Still :
      (c : Command) (cmds : List Bytes) (s : Session S)
      → s.state ≡ running
      → NewBreak c cmds s
      → IsArmed m mem law orig lo hi s
      → After (Still s) (perform m c cmds s)
  unfolding perform
  perform-Still exit_cmd cmds s e new armed = tt
  perform-Still empty_cmd cmds s e new armed = λ on. (refl, armed)
  perform-Still help_cmd cmds s e new armed = λ on. (refl, armed)
  perform-Still load_cmd cmds s e new armed = load-Still cmds s e armed
  perform-Still start_cmd cmds s e new armed = start-Still s e armed
  perform-Still cont_cmd cmds s e new armed =
      ran (cont m s) s (cont-Kept m s) (cont-Steps m mem law lo hi obeys s e) armed
  perform-Still break_cmd cmds s e new armed =
      After-session (Still s) (set_break_point m cmds s) (λ on. (
        set_break_point-pid m cmds s,
        set_break_point-IsArmed m mem law orig lo hi cmds s
            (λ word at. sym (include-eq s.bptab (strtol 0 word)) ∙ new word refl at) armed,
      ))
  perform-Still list_cmd cmds s e new armed =
      same_world (list s) s (list-Steady s) (list-os s) armed
  perform-Still si_cmd cmds s e new armed =
      ran (step_in m s) s (step_in-Kept m s) (step_in-Steps m mem law lo hi obeys s e) armed
  perform-Still delete_cmd cmds s e new armed =
      After-session (Still s) (delete_break_point m cmds s) (λ on. (
        delete_break_point-pid m cmds s,
        delete_break_point-IsArmed m mem law orig lo hi cmds s armed,
      ))
  perform-Still get_cmd cmds s e new armed =
      same_world (get_single_reg m cmds s) s (get_single_reg-Steady m cmds s)
        (get_single_reg-os m cmds s) armed
  perform-Still getregs_cmd cmds s e new armed =
      same_world (get_all_regs m s) s (get_all_regs-Steady m s) (get_all_regs-os m s) armed
  perform-Still set_cmd cmds s e new armed =
      same_memory (set_reg m cmds s) s (set_reg-Steady m cmds s) (set_reg-mem m mem law cmds s)
        armed
  perform-Still vmmap_cmd cmds s e new armed =
      same_world (vmmap m s) s (vmmap-Steady m s) (vmmap-os m s) armed
  perform-Still disasm_cmd cmds s e new armed =
      same_world (disasm m cmds s) s (disasm-Steady m cmds s) (disasm-os m cmds s) armed
  perform-Still dump_cmd cmds s e new armed =
      same_world (dump m cmds s) s (dump-Steady m cmds s) (dump-os m cmds s) armed
  perform-Still run_cmd cmds s e new armed =
      ran (run m s) s (run_running m s e) (run-Steps m mem law lo hi obeys s e) armed
  perform-Still other_cmd cmds s e new armed = λ on. (refl, armed)

-- ===== src/Debugger/Main/Invariant.antt =====
-- What holds of the debugger after any input: a running program has a process, and every breakpoint
-- lies in the program's text.
use nycu_advanced_unix_progr.Base.{
  ℕ, ◌≤◌, ◌≡◌, refl, ◌≢◌, ◌∙◌, inl, inr, List, [], ◌∷◌, ◌++◌, Bytes, codes, All, All-append,
  All-erase_at, arith, Option-cases,
}
use nycu_advanced_unix_progr.Base.Int.{ℤ, pos, negsuc}
use nycu_advanced_unix_progr.Base.Strtol.{strtol, atoi}
use nycu_advanced_unix_progr.Debugger.Breakpoint.{BreakpointInfo, add}
use nycu_advanced_unix_progr.Debugger.Machine.{Machine}
use nycu_advanced_unix_progr.Debugger.Cmdline.{dbgcmd_parser}
use nycu_advanced_unix_progr.Debugger.Session.{
  loaded, noload, running, RunState, Session, session, init_session, release,
}
use nycu_advanced_unix_progr.Debugger.Stops.Keeps.{
  SameTable, Steady, Kept, Kept-of_Steady, session_bind,
}
use nycu_advanced_unix_progr.Debugger.Control.{run}
use nycu_advanced_unix_progr.Debugger.Control.Keeps.{
  Started, Ran, start-Started, cont-Kept, step_in-Kept, run_loaded, run_running, run_noload,
}
use nycu_advanced_unix_progr.Debugger.Breaks.{
  set_break_point, put_break_point, delete_break_point, remove_break_point,
}
use nycu_advanced_unix_progr.Debugger.Breaks.Cases.{
  set_break_point_cases, put_break_point_cases, delete_break_point_cases, remove_break_point_cases,
}
use nycu_advanced_unix_progr.Debugger.Breaks.Keeps.{
  list-Steady, get_all_regs-Steady, get_single_reg-Steady, set_reg-Steady,
}
use nycu_advanced_unix_progr.Debugger.Inspect.Keeps.{dump-Steady, disasm-Steady}
use nycu_advanced_unix_progr.Debugger.Load.Keeps.{Loads, load-Loads, vmmap-Steady}
use nycu_advanced_unix_progr.Debugger.Main.{
  Command, exit_cmd, empty_cmd, help_cmd, load_cmd, start_cmd, cont_cmd, break_cmd, list_cmd,
  si_cmd, delete_cmd, get_cmd, getregs_cmd, set_cmd, vmmap_cmd, disasm_cmd, dump_cmd, run_cmd,
  other_cmd, perform, handle_line, run_lines, load_program, run_sdb,
}

-- The address of an entry lies in the text range.
abbrev pub InText : ℕ → ℕ → BreakpointInfo → Type 0
InText begin end' e = (begin ≤ e.addr) × (e.addr ≤ end')

-- A running program has a process, no breakpoint is set before a program is loaded, and each
-- breakpoint lies in the text.
pub record Inv {S : Type 0} (s : Session S) : Type 0 where
  pub process : s.state ≡ running → (s.pid ≢ negsuc 0) × (s.pid ≢ pos 0)
  pub fresh : s.state ≡ noload → s.bptab ≡ []
  pub in_text : All (InText s.text_begin s.text_end) s.bptab

module _ {S : Type 0} where
  -- The last part of the invariant reads three fields.
  InText-same :
      {s t : Session S}
      → SameTable s t
      → All (InText s.text_begin s.text_end) s.bptab
      → All (InText t.text_begin t.text_end) t.bptab
  InText-same {s} {t} k h = rw (k.bptab, k.text_begin, k.text_end) h

  Inv-Kept : {s t : Session S} → Kept s t → Inv s → Inv t
  Inv-Kept {s} {t} k v = record {
    process = λ e. ground (arith, v.process);
    fresh = λ e. ground (arith, v.fresh);
    in_text = InText-same k.table v.in_text;
  }

  Inv-Steady : {s t : Session S} → Steady s t → Inv s → Inv t
  Inv-Steady k v = Inv-Kept (Kept-of_Steady k) v

  Inv-Started : {s t : Session S} → Started s t → Inv s → Inv t
  Inv-Started {s} {t} k v = record {
    process = λ e. ground (arith, v.process);
    fresh = λ e. ground (arith, v.fresh);
    in_text = InText-same k.table v.in_text;
  }

  Inv-Ran : {s t : Session S} → Ran s t → Inv s → Inv t
  Inv-Ran {s} {t} k v = record {
    process = λ e. ground arith;
    fresh = λ e. ground arith;
    in_text = InText-same k.table v.in_text;
  }

  Inv-Loads : {s t : Session S} → Loads s t → Inv s → Inv t
  Inv-Loads {s} {t} k v = elim k.moved [
    | inl (same, begin, end') ↦ Inv-Steady (ground arith) v
    | inr (before, after) ↦
        let empty : t.bptab ≡ [] = k.bptab ∙ v.fresh before in
        record { process = λ e. ground arith; fresh = λ e. empty; in_text = rw empty tt }
  ]

module _ {S : Type 0} (m : Machine S) where
  put_break_point-Inv :
      (a : ℕ) (s : Session S)
      → s.state ≡ running
      → s.text_begin ≤ a
      → a ≤ s.text_end
      → Inv s
      → Inv (session (put_break_point m a s))
  unfolding add
  put_break_point-Inv a s e lo hi v =
      put_break_point_cases m (λ o. Inv (session o)) s a
        (λ o. record { process = v.process; fresh = v.fresh; in_text = v.in_text })
        λ o os ok. record {
          process = v.process;
          fresh = λ e'. ground arith;
          in_text = All-append _ s.bptab _ v.in_text ((lo, hi), tt);
        }

  break-Inv : (cmds : List Bytes) (s : Session S) → Inv s → Inv (session (set_break_point m cmds s))
  break-Inv cmds s v =
      set_break_point_cases m (λ o. Inv (session o)) s cmds
        (λ o. record { process = v.process; fresh = v.fresh; in_text = v.in_text })
        λ word _ e lo hi. put_break_point-Inv (strtol 0 word) s e lo hi v

  remove_break_point-Inv :
      (i : ℤ) (s : Session S) → s.state ≡ running → Inv s → Inv (session (remove_break_point m i s))
  remove_break_point-Inv i s e v =
      remove_break_point_cases m (λ o. Inv (session o)) s i
        (λ o. record { process = v.process; fresh = v.fresh; in_text = v.in_text })
        λ o os k b _ _ ok. record {
          process = v.process;
          fresh = λ e'. ground arith;
          in_text = All-erase_at _ s.bptab k v.in_text;
        }

  delete-Inv :
      (cmds : List Bytes) (s : Session S) → Inv s → Inv (session (delete_break_point m cmds s))
  delete-Inv cmds s v =
      delete_break_point_cases m (λ o. Inv (session o)) s cmds
        (λ o. record { process = v.process; fresh = v.fresh; in_text = v.in_text })
        λ word _ e. remove_break_point-Inv (atoi word) s e v

  run-Inv : (r : RunState) (s : Session S) → s.state ≡ r → Inv s → Inv (session (run m s))
  run-Inv loaded s e = Inv-Ran (run_loaded m s e)
  run-Inv running s e = Inv-Kept (run_running m s e)
  run-Inv noload s e = Inv-Steady (run_noload m s e)

  perform-Inv :
      (c : Command) (cmds : List Bytes) (s : Session S) → Inv s → Inv (session (perform m c cmds s))
  unfolding perform release
  perform-Inv exit_cmd cmds s v = record {
    process = λ e. ground arith;
    fresh = λ e. ground arith;
    in_text = v.in_text;
  }
  perform-Inv empty_cmd cmds s v = v
  perform-Inv help_cmd cmds s v = record {
    process = v.process;
    fresh = v.fresh;
    in_text = v.in_text;
  }
  perform-Inv load_cmd cmds s v = Inv-Loads (load-Loads m cmds s) v
  perform-Inv start_cmd cmds s v = Inv-Started (start-Started m s) v
  perform-Inv cont_cmd cmds s v = Inv-Kept (cont-Kept m s) v
  perform-Inv break_cmd cmds s v = break-Inv cmds s v
  perform-Inv list_cmd cmds s v = Inv-Steady (list-Steady s) v
  perform-Inv si_cmd cmds s v = Inv-Kept (step_in-Kept m s) v
  perform-Inv delete_cmd cmds s v = delete-Inv cmds s v
  perform-Inv get_cmd cmds s v = Inv-Steady (get_single_reg-Steady m cmds s) v
  perform-Inv getregs_cmd cmds s v = Inv-Steady (get_all_regs-Steady m s) v
  perform-Inv set_cmd cmds s v = Inv-Steady (set_reg-Steady m cmds s) v
  perform-Inv vmmap_cmd cmds s v = Inv-Steady (vmmap-Steady m s) v
  perform-Inv disasm_cmd cmds s v = Inv-Steady (disasm-Steady m cmds s) v
  perform-Inv dump_cmd cmds s v = Inv-Steady (dump-Steady m cmds s) v
  perform-Inv run_cmd cmds s v = run-Inv s.state s refl v
  perform-Inv other_cmd cmds s v = record {
    process = v.process;
    fresh = v.fresh;
    in_text = v.in_text;
  }

  handle_line-Inv : (line : Bytes) (s : Session S) → Inv s → Inv (session (handle_line m line s))
  unfolding handle_line
  handle_line-Inv line s v = grind (arith, perform-Inv)

  run_lines-Inv : (lines : List Bytes) (s : Session S) → Inv s → Inv (session (run_lines m lines s))
  unfolding run_lines
  run_lines-Inv [] s v = v
  run_lines-Inv (line ∷ lines) s v =
      session_bind Inv (handle_line m line s) (run_lines m lines) (handle_line-Inv line s v)
        (run_lines-Inv lines)

  init-Inv : (os : S) → Inv (init_session os)
  init-Inv os = record { process = λ e. ground arith; fresh = λ e. refl; in_text = tt }

  load_program-Inv : (program : Bytes) (os : S) → Inv (session (load_program m program os))
  unfolding load_program
  load_program-Inv [] os = init-Inv os
  load_program-Inv (c ∷ program) os =
      elim (Option-cases (dbgcmd_parser (codes "load " ++ c ∷ program) b' ')) [
        | inl e ↦ rw (e, load_program) (init-Inv os)
        | inr (cmds, e) ↦
            rw (e, load_program) (Inv-Loads (load-Loads m cmds (init_session os)) (init-Inv os))
      ]

  -- Whatever the program argument, the input lines and the kernel's answers: where the debugger
  -- stands at the end, a running program has a process other than -1 and 0, no breakpoint is set
  -- before a program is loaded, and every breakpoint lies in the loaded program's text range.
  pub run_sdb-Inv :
      (program : Bytes) (lines : List Bytes) (os : S) → Inv (session (run_sdb m program lines os))
  unfolding run_sdb
  run_sdb-Inv program lines os =
      session_bind Inv (load_program m program os) (run_lines m lines) (load_program-Inv program os)
        (run_lines-Inv lines)

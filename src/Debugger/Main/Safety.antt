-- ===== src/Debugger/Main/Safety.antt =====
-- No input makes the debugger read a breakpoint that its table does not have, or throw at cmds.at.
use nycu_advanced_unix_progr.Base.{
  ℕ, zero, suc, ◌≢◌, refl, inl, inr, List, [], ◌∷◌, ◌++◌, Bytes, codes, get_elem?, arith,
  Bool-cases, Option-cases,
}
use nycu_advanced_unix_progr.Base.Word.{add64}
use nycu_advanced_unix_progr.Base.Strtol.{strtol, atoi}
use nycu_advanced_unix_progr.Debugger.Cmdline.Words.{split_words, dbgcmd_parser-eq}
use nycu_advanced_unix_progr.Debugger.Breakpoint.{include}
use nycu_advanced_unix_progr.Debugger.Elf.{ElfResult, invalid, undefined_read, parsed}
use nycu_advanced_unix_progr.Debugger.Maps.{MapsResult, out_of_fuel, bad_line, maps}
use nycu_advanced_unix_progr.Debugger.Maps.Total.{maps_parser-total}
use nycu_advanced_unix_progr.Debugger.Machine.{Machine}
use nycu_advanced_unix_progr.Debugger.Session.{Session, init_session}
use nycu_advanced_unix_progr.Debugger.Stops.{translate}
use nycu_advanced_unix_progr.Debugger.Stops.Defined.{IsDefined, IsDefined-bind, at_addr_of_include}
use nycu_advanced_unix_progr.Debugger.Control.Defined.{
  start-IsDefined, cont-IsDefined, step_in-IsDefined, run-IsDefined,
}
use nycu_advanced_unix_progr.Debugger.Breaks.{
  list, set_break_point, delete_break_point, get_all_regs, get_single_reg, write_reg, set_reg,
}
use nycu_advanced_unix_progr.Debugger.Breaks.Cases.{
  set_break_point_cases, put_break_point_cases, delete_break_point_cases, remove_break_point_cases,
}
use nycu_advanced_unix_progr.Debugger.Inspect.{dump, disasm_loop, disasm}
use nycu_advanced_unix_progr.Debugger.Load.{load, finish_load, vmmap, finish_vmmap}
use nycu_advanced_unix_progr.Debugger.Main.{
  Command, exit_cmd, empty_cmd, help_cmd, load_cmd, start_cmd, cont_cmd, break_cmd, list_cmd,
  si_cmd, delete_cmd, get_cmd, getregs_cmd, set_cmd, vmmap_cmd, disasm_cmd, dump_cmd, run_cmd,
  other_cmd, perform, handle_line, run_lines, load_program, run_sdb,
}

-- Parsing a line always gives a first word.
split-ne-nil : (d : ℕ) (word s : Bytes) → split_words d word s ≢ []
unfolding split_words
split-ne-nil d word [] h = cc
split-ne-nil d [] (c ∷ s) h = ground (arith, split-ne-nil d [] s, split-ne-nil d (c ∷ []) s)
split-ne-nil d (w ∷ word) (c ∷ s) h = ground (arith, split-ne-nil d (w ∷ word ++ c ∷ []) s)

finish_load-IsDefined : {S : Type 0} (r : ElfResult) (s : Session S) → IsDefined (finish_load r s)
unfolding finish_load
finish_load-IsDefined invalid s = tt
finish_load-IsDefined undefined_read s = tt
finish_load-IsDefined (parsed e r) s = tt

finish_vmmap-IsDefined :
    {S : Type 0} (r : MapsResult) (s : Session S) → r ≢ out_of_fuel → IsDefined (finish_vmmap r s)
unfolding finish_vmmap
finish_vmmap-IsDefined out_of_fuel s k = absurd (k refl)
finish_vmmap-IsDefined bad_line s k = tt
finish_vmmap-IsDefined (maps l) s k = tt

module _ {S : Type 0} (m : Machine S) where
  disasm_loop-IsDefined : (n a : ℕ) (s : Session S) → IsDefined (disasm_loop m n a s)
  unfolding disasm_loop
  disasm_loop-IsDefined zero a s = tt
  disasm_loop-IsDefined (suc n) a s = elim (Bool-cases (include s.bptab a)) [
    | inl found ↦
        let (e, at, same) = at_addr_of_include s.bptab a found in
        let (count, t) = translate m a e.code s in
        ground (arith, disasm_loop-IsDefined n (add64 a count) t)
    | inr absent ↦
        let (count, t) = translate m a (m.peek_text s.os s.pid a) s in
        ground (arith, disasm_loop-IsDefined n (add64 a count) t)
  ]

  disasm-IsDefined : (cmds : List Bytes) (s : Session S) → IsDefined (disasm m cmds s)
  unfolding disasm
  disasm-IsDefined cmds s = elim (Option-cases (get_elem? cmds 1)) [
    | inl e ↦ ground arith
    | inr (word, e) ↦ ground (arith, disasm_loop-IsDefined 10 (strtol 0 word) s)
  ]

  dump-IsDefined : (cmds : List Bytes) (s : Session S) → IsDefined (dump m cmds s)
  unfolding dump
  dump-IsDefined cmds s = ground arith

  write_reg-IsDefined : (name : Bytes) (v : ℕ) (s : Session S) → IsDefined (write_reg m name v s)
  unfolding write_reg
  write_reg-IsDefined name v s = ground arith

  set_reg-IsDefined : (cmds : List Bytes) (s : Session S) → IsDefined (set_reg m cmds s)
  unfolding set_reg
  set_reg-IsDefined [] s = ground arith
  set_reg-IsDefined (a ∷ []) s = ground arith
  set_reg-IsDefined (a ∷ b ∷ cmds) s = elim (Option-cases (get_elem? cmds 0)) [
    | inl e ↦ ground arith
    | inr (word, e) ↦ ground (arith, write_reg-IsDefined b (strtol 0 word) s)
  ]

  get_single_reg-IsDefined :
      (cmds : List Bytes) (s : Session S) → IsDefined (get_single_reg m cmds s)
  unfolding get_single_reg
  get_single_reg-IsDefined cmds s = ground arith

  get_all_regs-IsDefined : (s : Session S) → IsDefined (get_all_regs m s)
  unfolding get_all_regs
  get_all_regs-IsDefined s = ground arith

  break-IsDefined : (cmds : List Bytes) (s : Session S) → IsDefined (set_break_point m cmds s)
  break-IsDefined cmds s =
      set_break_point_cases m IsDefined s cmds (λ o. tt)
        λ word _ _ _ _. put_break_point_cases m IsDefined s (strtol 0 word) (λ o. tt) λ o os ok. tt

  delete-IsDefined : (cmds : List Bytes) (s : Session S) → IsDefined (delete_break_point m cmds s)
  delete-IsDefined cmds s =
      delete_break_point_cases m IsDefined s cmds (λ o. tt)
        λ word _ _.
          remove_break_point_cases m IsDefined s (atoi word) (λ o. tt) λ o os k e _ _ _. tt

module _ {S : Type 0} (m : Machine S) where
  load-IsDefined : (cmds : List Bytes) (s : Session S) → IsDefined (load m cmds s)
  unfolding load
  load-IsDefined cmds s = grind (arith, finish_load-IsDefined)

  vmmap-IsDefined : (s : Session S) → IsDefined (vmmap m s)
  unfolding vmmap
  vmmap-IsDefined s = grind (arith, finish_vmmap-IsDefined, maps_parser-total)

  perform-IsDefined :
      (c : Command) (cmds : List Bytes) (s : Session S) → IsDefined (perform m c cmds s)
  unfolding perform list
  perform-IsDefined exit_cmd cmds s = tt
  perform-IsDefined empty_cmd cmds s = tt
  perform-IsDefined help_cmd cmds s = tt
  perform-IsDefined load_cmd cmds s = load-IsDefined cmds s
  perform-IsDefined start_cmd cmds s = start-IsDefined m s
  perform-IsDefined cont_cmd cmds s = cont-IsDefined m s
  perform-IsDefined break_cmd cmds s = break-IsDefined m cmds s
  perform-IsDefined list_cmd cmds s = tt
  perform-IsDefined si_cmd cmds s = step_in-IsDefined m s
  perform-IsDefined delete_cmd cmds s = delete-IsDefined m cmds s
  perform-IsDefined get_cmd cmds s = get_single_reg-IsDefined m cmds s
  perform-IsDefined getregs_cmd cmds s = get_all_regs-IsDefined m s
  perform-IsDefined set_cmd cmds s = set_reg-IsDefined m cmds s
  perform-IsDefined vmmap_cmd cmds s = vmmap-IsDefined s
  perform-IsDefined disasm_cmd cmds s = disasm-IsDefined m cmds s
  perform-IsDefined dump_cmd cmds s = dump-IsDefined m cmds s
  perform-IsDefined run_cmd cmds s = run-IsDefined m s
  perform-IsDefined other_cmd cmds s = tt

  handle_line-IsDefined : (line : Bytes) (s : Session S) → IsDefined (handle_line m line s)
  unfolding handle_line
  handle_line-IsDefined line s =
      grind (arith, dbgcmd_parser-eq line b' ', split-ne-nil b' ' [] line, perform-IsDefined)

  run_lines-IsDefined : (lines : List Bytes) (s : Session S) → IsDefined (run_lines m lines s)
  unfolding run_lines
  run_lines-IsDefined [] s = tt
  run_lines-IsDefined (line ∷ lines) s =
      IsDefined-bind (handle_line m line s) (run_lines m lines) (handle_line-IsDefined line s)
        (run_lines-IsDefined lines)

  load_program-IsDefined : (program : Bytes) (os : S) → IsDefined (load_program m program os)
  unfolding load_program
  load_program-IsDefined [] os = tt
  load_program-IsDefined (c ∷ program) os =
      rw (dbgcmd_parser-eq (codes "load " ++ c ∷ program) b' ', load_program)
        (load-IsDefined _ (init_session os))

  -- For every program argument, every input and every answer of the kernel: the debugger makes no
  -- access outside its breakpoint table and the words of a line. What elf64_parser and maps_parser do
  -- with a file that is not as they expect, undefined behaviour included, is an end of its own here.
  pub run_sdb-IsDefined :
      (program : Bytes) (lines : List Bytes) (os : S) → IsDefined (run_sdb m program lines os)
  unfolding run_sdb
  run_sdb-IsDefined program lines os =
      IsDefined-bind (load_program m program os) (run_lines m lines)
        (load_program-IsDefined program os) (run_lines-IsDefined lines)

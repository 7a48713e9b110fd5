-- ===== src/Debugger/Examples/Sessions.antt =====
-- Runs of hw4 on a small kernel, and the theorems on sessions applied to them.
use mathlib.Core.Option.{some-injective}
use nycu_advanced_unix_progr.Base.{
  ℕ, ◌%◌, ◌⊎◌, ◌<◌, ◌≡◌, refl, subst, true, false, none, some, List, [], ◌∷◌, Bytes, codes, take,
  ◌^◌, arith,
}
use nycu_advanced_unix_progr.Base.Int.{ℤ, pos, negsuc}
use nycu_advanced_unix_progr.Base.Word.{trap, restore, add64, sub64, get_byte}
use nycu_advanced_unix_progr.Base.Strtol.{strtol, atoi}
use nycu_advanced_unix_progr.Debugger.Cmdline.{dbgcmd_parser}
use nycu_advanced_unix_progr.Debugger.Breakpoint.{include, at_addr}
use nycu_advanced_unix_progr.Debugger.Breakpoint.Lookup.{has_addr}
use nycu_advanced_unix_progr.Debugger.Regs.{Reg, put_reg, reg_handler}
use nycu_advanced_unix_progr.Debugger.Elf.{elf64_parser, parsed}
use nycu_advanced_unix_progr.Debugger.Maps.{maps_parser}
use nycu_advanced_unix_progr.Debugger.Session.{
  setregs, request_failed, loaded, running, for_cont, hit_no_breakpoint, say, Session, session,
  ◌>>=◌, init_session,
}
use nycu_advanced_unix_progr.Debugger.Stops.Defined.{IsDefined}
use nycu_advanced_unix_progr.Debugger.Breaks.{
  put_break_point, remove_break_point, set_break_point, delete_break_point,
}
use nycu_advanced_unix_progr.Debugger.Breaks.Patched.{
  IsPatched, set_break_point-IsPatched, delete_break_point-IsPatched,
}
use nycu_advanced_unix_progr.Debugger.Breaks.Twice.{break_delete, break_twice_leaves_trap}
use nycu_advanced_unix_progr.Debugger.Main.{break_cmd, perform, run_sdb}
use nycu_advanced_unix_progr.Debugger.Breaks.Armed.{IsArmed}
use nycu_advanced_unix_progr.Debugger.Main.Rounds.{Rounds, at_prompt, round, Rounds-IsArmed}
use nycu_advanced_unix_progr.Debugger.Main.Invariant.{Inv, run_sdb-Inv}
use nycu_advanced_unix_progr.Debugger.Main.Transitions.{perform-Allowed}
use nycu_advanced_unix_progr.Debugger.Main.Safety.{run_sdb-IsDefined}
use nycu_advanced_unix_progr.Debugger.Breakpoint.{add, del, include_idx, at_idx}
use nycu_advanced_unix_progr.Debugger.Stops.{
  stop_addr, check_hit_break_point_or_not, reput_all_breakpoints_from, wait_then_check_exit,
  translate, check_then_restore_si_reput,
}
use nycu_advanced_unix_progr.Debugger.Control.{start, cont}
use nycu_advanced_unix_progr.Debugger.Load.{load, vmmap}
use nycu_advanced_unix_progr.Debugger.Inspect.{dump, disasm}
use nycu_advanced_unix_progr.Debugger.Breaks.{list, get_single_reg, set_reg}
use nycu_advanced_unix_progr.Debugger.Main.{handle_line, command_of}
use nycu_advanced_unix_progr.Debugger.Stops.Hit.{check_hit_rip}
use nycu_advanced_unix_progr.Debugger.Control.Text.{cont_keeps_text}
use nycu_advanced_unix_progr.Debugger.Control.Rearm.{start_rearms}
use nycu_advanced_unix_progr.Debugger.Control.{step_in}
use nycu_advanced_unix_progr.Debugger.Inspect.{fetch}
use nycu_advanced_unix_progr.Debugger.Inspect.Shows.{mem_lines, dump-eq}
use nycu_advanced_unix_progr.Debugger.Inspect.Genuine.{fetch-Patched}
use nycu_advanced_unix_progr.Debugger.Breaks.Registers.{set_reg-eq}
use nycu_advanced_unix_progr.Debugger.Examples.Toy.{
  World, zero_regs, mem, toy, toy_memory, toy_obeys, toy_file, toy-IsReadable, world, elf_file,
}
use nycu_advanced_unix_progr.Debugger.Elf.{read_at, ehdr, shdr}
use nycu_advanced_unix_progr.Debugger.Elf.Section.{
  PlainOffsets, FirstText, name_table, elf64_parser-FirstText,
}
use nycu_advanced_unix_progr.Debugger.Examples.Parts.{find_rax}

toy_writable : (s : World) (p : ℤ) (a w : ℕ) → (s' : World) × (toy.poke_text s p a w ≡ some s')
unfolding toy
toy_writable s p a w = (_, refl)

toy_elf : elf64_parser 1000 elf_file ≡ parsed 0x1000 (some (0x1000, 0x100f))
unfolding elf64_parser elf_file add64 sub64
toy_elf = refl

plain_elf : PlainOffsets elf_file (ehdr (take 64 elf_file))
unfolding elf_file ehdr read_at shdr
plain_elf = record {
  headers = λ i l. omega (arith, l);
  table = omega arith;
  names = λ bytes e. subst (λ b. (shdr b).sh_offset < 2 ^ 63) (some-injective _ _ e) (omega arith);
}

elf64_parser-FirstText_example :
    (names : Bytes) × (k : ℕ) × (read_at elf_file 0 64 ≡ some (take 64 elf_file))
    × (name_table elf_file (ehdr (take 64 elf_file)) ≡ some names)
    × (0x1000 ≡ (ehdr (take 64 elf_file)).e_entry)
    × (k < (ehdr (take 64 elf_file)).e_shnum)
    × FirstText elf_file (ehdr (take 64 elf_file)) names 0 k 0x1000 0x100f
elf64_parser-FirstText_example =
    elf64_parser-FirstText 1000 elf_file 0x1000 0x1000 0x100f plain_elf toy_elf

abbrev program : Bytes
program = codes "/bin/toy"

abbrev lines : List Bytes
lines =
    codes "start"
    ∷ codes "break 0x1004"
    ∷ codes "cont"
    ∷ codes "list"
    ∷ codes "break 0x1008"
    ∷ codes "vmmap"
    ∷ codes "delete 0"
    ∷ codes "get rax"
    ∷ codes "set rax 0x10"
    ∷ codes "disasm 0x1000"
    ∷ codes "dump 0x1000"
    ∷ []

-- The run's end: the second breakpoint is left.
run_breakpoints :
    (session (run_sdb toy program lines world)).bptab
    ≡ record { code = 0x9f9e9d9c9b9a9998; addr = 0x1008 } ∷ []
unfolding run_sdb toy elf_file dbgcmd_parser load elf64_parser handle_line perform command_of start
    check_hit_break_point_or_not include reput_all_breakpoints_from set_break_point strtol sub64
    add64 cont add wait_then_check_exit translate check_then_restore_si_reput list vmmap maps_parser
    delete_break_point atoi include_idx del at_idx at_addr get_single_reg set_reg disasm dump trap
    restore reg_handler stop_addr get_byte
run_breakpoints = refl

-- A session with a running program and a breakpoint at 0x1004.
abbrev running_session : Session World
running_session = record (init_session world) {
  state = running;
  pid = pos 7;
  text_begin = 0x1000;
  text_end = 0x100f;
}

run_sdb-Inv_example : Inv (session (run_sdb toy program lines world))
run_sdb-Inv_example = run_sdb-Inv toy program lines world

run_sdb-IsDefined_example : IsDefined (run_sdb toy program lines world)
run_sdb-IsDefined_example = run_sdb-IsDefined toy program lines world

perform-Allowed_example :
    (session (perform toy break_cmd (codes "b" ∷ codes "0x1004" ∷ []) running_session)).state
    ≡ running
perform-Allowed_example =
    perform-Allowed toy break_cmd (codes "b" ∷ codes "0x1004" ∷ []) running_session

-- Without breakpoints the memory is the program's own.
plain : IsPatched toy mem toy_memory (mem world (pos 7)) running_session
plain = record { shows = λ b. refl; saved = tt; distinct = tt }

abbrev break_words : List Bytes
break_words = codes "b" ∷ codes "0x1004" ∷ []

set_break_point-IsPatched_example :
    IsPatched toy mem toy_memory
      (mem world (pos 7))
      (session (set_break_point toy break_words running_session))
unfolding include
set_break_point-IsPatched_example =
    set_break_point-IsPatched toy mem toy_memory (mem world (pos 7)) break_words running_session
      (λ word e. refl) plain

delete_break_point-IsPatched_example : IsPatched toy mem toy_memory (mem world (pos 7)) (
    session (
      delete_break_point toy
        (codes "del" ∷ codes "0" ∷ [])
        (session (set_break_point toy break_words running_session))))
delete_break_point-IsPatched_example =
    delete_break_point-IsPatched toy mem toy_memory (mem world (pos 7))
      (codes "del" ∷ codes "0" ∷ []) (session (set_break_point toy break_words running_session))
      set_break_point-IsPatched_example

break_delete_example :
    let t =
      session (put_break_point toy 0x1004 running_session >>= remove_break_point toy (pos 0)) in
    (t.bptab ≡ []) × ((b : ℕ) → mem t.os t.pid b ≡ mem world (pos 7) b)
break_delete_example = break_delete toy mem toy_memory 0x1004 running_session toy_writable

break_twice_leaves_trap_example :
    let t = session (
      put_break_point toy 0x1004 running_session
      >>= put_break_point toy 0x1004
      >>= remove_break_point toy (pos 0)
      >>= remove_break_point toy (pos 0)) in
    (t.bptab ≡ []) × (mem t.os t.pid 0x1004 ≡ 0xcc)
break_twice_leaves_trap_example =
    break_twice_leaves_trap toy mem toy_memory 0x1004 running_session toy_writable

abbrev stopped_session : Session World
stopped_session = record running_session { bptab = record { code = 0x94; addr = 0x1000 } ∷ [] }

cont_keeps_text_example :
    let t = session (cont toy stopped_session) in
    (t.pid ≡ pos 7) × (mem t.os t.pid 0x1000 ≡ mem world (pos 7) 0x1000)
unfolding toy cont step_in include wait_then_check_exit check_then_restore_si_reput
    check_hit_break_point_or_not stop_addr sub64 at_addr trap restore translate get_byte
cont_keeps_text_example =
    cont_keeps_text toy mem toy_memory 0x1000 0x100f toy_obeys stopped_session
      (session (cont toy stopped_session)) 0x1000 refl refl refl (omega arith) (omega arith)

abbrev loaded_session : Session World
loaded_session = record stopped_session { state = loaded; pid = negsuc 0 }

start_rearms_example : let t = session (start toy loaded_session) in mem t.os t.pid 0x1000 ≡ 0xcc
unfolding toy start include wait_then_check_exit reput_all_breakpoints_from
    check_hit_break_point_or_not stop_addr at_addr trap translate get_byte
start_rearms_example =
    start_rearms toy mem toy_memory toy_writable loaded_session (session (start toy loaded_session))
      0x1000 refl refl refl refl (omega arith)

-- The tracee has run into a trap at 0x1004.
abbrev hit_session : Session World
hit_session = record running_session {
  bptab = record { code = 0x94; addr = 0x1004 } ∷ [];
  os = record world { regs = record zero_regs { rip = 0x1005 } };
}

check_hit_rip_example :
    let t = session (check_hit_break_point_or_not toy for_cont hit_session) in
    ((has_addr hit_session.bptab (sub64 0x1005 1) ≡ true)
      × ((toy.get_regs t.os (pos 7) ≡ some (record zero_regs { rip = sub64 0x1005 1 }))
          ⊎ ((toy.set_regs hit_session.os (pos 7) (record zero_regs { rip = sub64 0x1005 1 })
                ≡ none)
              × (t ≡ say (request_failed setregs) hit_session))))
    ⊎ ((has_addr hit_session.bptab (sub64 0x1005 1) ≡ false)
        × (t ≡ say hit_no_breakpoint hit_session))
unfolding toy
check_hit_rip_example =
    check_hit_rip toy hit_session (record zero_regs { rip = 0x1005 }) toy_file.get_set refl

dump-eq_example :
    (session (dump toy (codes "x" ∷ codes "0x1000" ∷ []) running_session)).out
    ≡ mem_lines 5 (mem world (pos 7)) (strtol 0 (codes "0x1000"))
unfolding strtol
dump-eq_example =
    dump-eq toy mem toy-IsReadable (codes "x" ∷ codes "0x1000" ∷ []) running_session
      (codes "0x1000") refl refl (omega arith)

set_reg-eq_example :
    toy.get_regs
      (session (set_reg toy (codes "set" ∷ codes "rax" ∷ codes "16" ∷ []) running_session)).os
      (pos 7)
    ≡ some (record zero_regs { rax = 16 })
unfolding toy strtol put_reg
set_reg-eq_example =
    set_reg-eq toy toy_file running_session (codes "set" ∷ codes "rax" ∷ codes "16" ∷ [])
      (codes "rax") (codes "16") Reg.rax zero_regs refl refl refl find_rax refl

fetch-Patched_example :
    (code : ℕ) × (fetch toy running_session 0x1004 ≡ some code) × (code % 256 ≡ 0x94)
fetch-Patched_example =
    fetch-Patched toy mem toy_memory (mem world (pos 7)) running_session 0x1004
      (toy-IsReadable world (pos 7) 0x1004).1 plain

armed : IsArmed toy mem toy_memory (mem world (pos 7)) 0x1000 0x100f running_session
armed = (refl, refl, record { shows = λ b. refl; saved = tt; distinct = tt })

abbrev after_cont : Session World
after_cont = session (handle_line toy (codes "cont") running_session)

abbrev with_break : Session World
with_break = session (handle_line toy (codes "break 0x1004") after_cont)

cont_then_break : Rounds toy running_session with_break
unfolding toy dbgcmd_parser handle_line perform command_of include set_break_point strtol sub64
    add64 cont add wait_then_check_exit check_hit_break_point_or_not stop_addr trap get_byte
cont_then_break =
    round (codes "break 0x1004")
      (round (codes "cont") at_prompt (λ word words q w c e. refl) refl refl)
      (λ word words q w c e. refl) refl refl

Rounds-IsArmed_example :
    (with_break.state ≡ running)
    × (with_break.pid ≡ pos 7)
    × IsArmed toy mem toy_memory (mem world (pos 7)) 0x1000 0x100f with_break
Rounds-IsArmed_example =
    Rounds-IsArmed toy mem toy_memory (mem world (pos 7)) 0x1000 0x100f toy_obeys running_session
      with_break refl armed cont_then_break

-- ===== src/Debugger/Load.antt =====
-- The commands load and vmmap (hw4/command.hpp), which read a file.
pub mod Keeps
use nycu_advanced_unix_progr.Base.{
  ℕ, suc, not, Option, none, some, List, [], ◌∷◌, Bytes, if◌then◌else◌, get_elem?, Bool, true,
  false,
}
use nycu_advanced_unix_progr.Debugger.Elf.{ElfResult, invalid, undefined_read, parsed, elf64_parser}
use nycu_advanced_unix_progr.Debugger.Maps.{
  MapEntry, MapsResult, out_of_fuel, bad_line, maps, maps_parser,
}
use nycu_advanced_unix_progr.Debugger.Machine.{Machine}
use nycu_advanced_unix_progr.Debugger.Session.{
  RunState, loaded, noload, running, fopen, need_running, need_not_loaded, no_program_path,
  invalid_elf, maps_failed, request_failed, program_loaded, map_line, Session, undefined, bad_file,
  Outcome, next, stop, is_running, say,
}

-- The text range that a parse leaves behind.
set_range : {S : Type 0} → Option (ℕ × ℕ) → Session S → Session S
set_range none s = s
set_range (some (begin, end')) s = record s { text_begin = begin; text_end = end' }

-- What load does with the result of elf64_parser.
unfoldable pub finish_load : {S : Type 0} → ElfResult → Session S → Outcome S
unfolding set_range
finish_load invalid s = next (say invalid_elf s)
finish_load undefined_read s = stop bad_file s
finish_load (parsed entry range) s = next (
    say (program_loaded s.prog_path entry) (
      set_range range
        (record s { entry_point = entry; state = loaded; last_cmd_is_set_rip = false })))

abbrev pub is_noload : RunState → Bool
is_noload noload = true
is_noload loaded = false
is_noload running = false

-- The lines that maps_parser prints.
show_maps : {S : Type 0} → List MapEntry → Session S → Session S
show_maps [] s = s
show_maps (e ∷ l) s =
    show_maps l (say (map_line e.range.begin e.range.end' e.perm e.offset e.name) s)

unfoldable pub finish_vmmap : {S : Type 0} → MapsResult → Session S → Outcome S
unfolding show_maps
finish_vmmap out_of_fuel s = stop undefined s
finish_vmmap bad_line s = stop bad_file s
finish_vmmap (maps l) s = next (show_maps l s)

module _ {S : Type 0} (m : Machine S) where
  -- debugger::load
  unfoldable pub load : List Bytes → Session S → Outcome S
  unfolding finish_load
  load cmds s =
      if not (is_noload s.state) then next (say need_not_loaded s) else elim (get_elem? cmds 1) [
        | none ↦ next (say no_program_path s)
        | some path ↦
            let s' = record s { prog_path = path } in
            elim (m.read_file s.os path) [
              | none ↦ next (say (request_failed fopen) s')
              | some file ↦ finish_load (elf64_parser m.stack_room file) s'
            ]
      ]

  -- debugger::vmmap()
  unfoldable pub vmmap : Session S → Outcome S
  unfolding finish_vmmap
  vmmap s =
      if not (is_running s.state)
      then next (say need_running s)
      else elim (m.read_maps s.os s.pid) [
        | none ↦ next (say maps_failed s)
        | some text ↦ finish_vmmap (maps_parser text) s
      ]

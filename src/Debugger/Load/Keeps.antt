-- ===== src/Debugger/Load/Keeps.antt =====
-- What load changes; vmmap only prints.
use nycu_advanced_unix_progr.Base.{◌≡◌, refl, ◌⊎◌, List, [], ◌∷◌, Bytes, none, some, arith}
use nycu_advanced_unix_progr.Debugger.Elf.{ElfResult, invalid, undefined_read, parsed}
use nycu_advanced_unix_progr.Debugger.Maps.{MapEntry, MapsResult, out_of_fuel, bad_line, maps}
use nycu_advanced_unix_progr.Debugger.Machine.{Machine}
use nycu_advanced_unix_progr.Debugger.Session.{loaded, noload, map_line, say, Session, session}
use nycu_advanced_unix_progr.Debugger.Stops.Keeps.{Steady}
use nycu_advanced_unix_progr.Debugger.Load.{finish_load, show_maps, finish_vmmap, load, vmmap}

-- load leaves the debugger as it was, or takes it from no program to a loaded one.
pub record Loads {S : Type 0} (s t : Session S) : Type 0 where
  pub bptab : t.bptab ≡ s.bptab
  pub pid : t.pid ≡ s.pid
  pub moved :
      ((t.state ≡ s.state) × (t.text_begin ≡ s.text_begin) × (t.text_end ≡ s.text_end))
      ⊎ ((s.state ≡ noload) × (t.state ≡ loaded))

show_maps-Steady : {S : Type 0} (l : List MapEntry) (s : Session S) → Steady s (show_maps l s)
unfolding show_maps
show_maps-Steady [] s = ground arith
show_maps-Steady (e ∷ l) s =
    let t = say (map_line e.range.begin e.range.end' e.perm e.offset e.name) s in
    ground (arith, show_maps-Steady l t)

finish_vmmap-Steady :
    {S : Type 0} (r : MapsResult) (s : Session S) → Steady s (session (finish_vmmap r s))
unfolding finish_vmmap
finish_vmmap-Steady out_of_fuel s = ground arith
finish_vmmap-Steady bad_line s = ground arith
finish_vmmap-Steady (maps l) s = show_maps-Steady l s

show_maps-os : {S : Type 0} (l : List MapEntry) (s : Session S) → (show_maps l s).os ≡ s.os
unfolding show_maps
show_maps-os [] s = refl
show_maps-os (e ∷ l) s =
    show_maps-os l (say (map_line e.range.begin e.range.end' e.perm e.offset e.name) s)

finish_vmmap-os :
    {S : Type 0} (r : MapsResult) (s : Session S) → (session (finish_vmmap r s)).os ≡ s.os
unfolding finish_vmmap
finish_vmmap-os out_of_fuel s = refl
finish_vmmap-os bad_line s = refl
finish_vmmap-os (maps l) s = show_maps-os l s

finish_load-Loads :
    {S : Type 0} (r : ElfResult) (s : Session S)
    → s.state ≡ noload
    → Loads s (session (finish_load r s))
unfolding finish_load
finish_load-Loads invalid s e = ground arith
finish_load-Loads undefined_read s e = ground arith
finish_load-Loads (parsed entry none) s e = ground arith
finish_load-Loads (parsed entry (some r)) s e = ground arith

module _ {S : Type 0} (m : Machine S) where
  pub load-Loads : (cmds : List Bytes) (s : Session S) → Loads s (session (load m cmds s))
  unfolding load
  load-Loads cmds s = grind (arith, finish_load-Loads)

  pub vmmap-Steady : (s : Session S) → Steady s (session (vmmap m s))
  unfolding vmmap
  vmmap-Steady s = grind (arith, finish_vmmap-Steady)

  pub vmmap-os : (s : Session S) → (session (vmmap m s)).os ≡ s.os
  unfolding vmmap
  vmmap-os s = grind (arith, finish_vmmap-os)

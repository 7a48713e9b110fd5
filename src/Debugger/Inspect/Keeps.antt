-- ===== src/Debugger/Inspect/Keeps.antt =====
-- dump and disasm only print.
use nycu_advanced_unix_progr.Base.{
  get_elem?, ◌≡◌, refl, ℕ, zero, suc, inl, inr, map, List, Bytes, arith, Option-cases,
}
use nycu_advanced_unix_progr.Base.Word.{add64}
use nycu_advanced_unix_progr.Base.Strtol.{strtol}
use nycu_advanced_unix_progr.Debugger.Machine.{Machine}
use nycu_advanced_unix_progr.Debugger.Session.{dump_line, say, Session, session}
use nycu_advanced_unix_progr.Debugger.Stops.{translate}
use nycu_advanced_unix_progr.Debugger.Stops.Keeps.{
  Steady, Steady-trans, translate-Steady, translate-os,
}
use nycu_advanced_unix_progr.Debugger.Inspect.{
  line_bytes, shown, dump_lines, dump, fetch, disasm_loop, disasm,
}

module _ {S : Type 0} (m : Machine S) where
  dump_lines-Steady : (n a : ℕ) (s : Session S) → Steady s (dump_lines m n a s)
  unfolding dump_lines
  dump_lines-Steady zero a s = ground arith
  dump_lines-Steady (suc n) a s =
      let bytes = line_bytes m s a in
      ground (arith, dump_lines-Steady n (add64 a 16) (say (dump_line a bytes (map shown bytes)) s))

  pub dump-Steady : (cmds : List Bytes) (s : Session S) → Steady s (session (dump m cmds s))
  unfolding dump
  dump-Steady cmds s = grind (arith, dump_lines-Steady)

  disasm_loop-Steady : (n a : ℕ) (s : Session S) → Steady s (session (disasm_loop m n a s))
  unfolding disasm_loop
  disasm_loop-Steady zero a s = ground arith
  disasm_loop-Steady (suc n) a s = elim (Option-cases (fetch m s a)) [
    | inl e ↦ ground arith
    | inr (code, e) ↦
        let (count, t) = translate m a code s in
        ground (
          arith,
          Steady-trans (translate-Steady m a code s) (disasm_loop-Steady n (add64 a count) t),
        )
  ]

  pub disasm-Steady : (cmds : List Bytes) (s : Session S) → Steady s (session (disasm m cmds s))
  unfolding disasm
  disasm-Steady cmds s = elim (Option-cases (get_elem? cmds 1)) [
    | inl e ↦ ground arith
    | inr (word, e) ↦ ground (arith, disasm_loop-Steady 10 (strtol 0 word) s)
  ]

  dump_lines-os : (n a : ℕ) (s : Session S) → (dump_lines m n a s).os ≡ s.os
  unfolding dump_lines
  dump_lines-os zero a s = refl
  dump_lines-os (suc n) a s =
      let bytes = line_bytes m s a in
      dump_lines-os n (add64 a 16) (say (dump_line a bytes (map shown bytes)) s)

  -- dump and disasm leave the world alone.
  pub dump-os : (cmds : List Bytes) (s : Session S) → (session (dump m cmds s)).os ≡ s.os
  unfolding dump
  dump-os cmds s = grind (arith, dump_lines-os)

  disasm_loop-os : (n a : ℕ) (s : Session S) → (session (disasm_loop m n a s)).os ≡ s.os
  unfolding disasm_loop
  disasm_loop-os zero a s = refl
  disasm_loop-os (suc n) a s = elim (Option-cases (fetch m s a)) [
    | inl e ↦ ground arith
    | inr (code, e) ↦
        let (count, t) = translate m a code s in
        ground (arith, translate-os m a code s, disasm_loop-os n (add64 a count) t)
  ]

  pub disasm-os : (cmds : List Bytes) (s : Session S) → (session (disasm m cmds s)).os ≡ s.os
  unfolding disasm
  disasm-os cmds s = elim (Option-cases (get_elem? cmds 1)) [
    | inl e ↦ ground arith
    | inr (word, e) ↦ ground (arith, disasm_loop-os 10 (strtol 0 word) s)
  ]

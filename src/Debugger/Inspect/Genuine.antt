-- ===== src/Debugger/Inspect/Genuine.antt =====
-- The first byte that disasm decodes at an address is the program's own.
use mathlib.Core.Option.{some-injective}
use nycu_advanced_unix_progr.Base.{
  ℕ, ◌%◌, ◌≡◌, ap, ◌∙◌, inl, inr, subst, some, [], ◌∷◌, ◌==◌, arith, All, Bool-cases,
}
use nycu_advanced_unix_progr.Base.Int.{ℤ}
use nycu_advanced_unix_progr.Base.Word.{word_at}
use nycu_advanced_unix_progr.Debugger.Breakpoint.{BreakpointInfo, BreakpointTable}
use nycu_advanced_unix_progr.Debugger.Breakpoint.Lookup.{
  first_at, has_addr, include-eq, at_addr-eq, first_at_of_has,
}
use nycu_advanced_unix_progr.Debugger.Machine.{Machine}
use nycu_advanced_unix_progr.Debugger.Memory.{Memory}
use nycu_advanced_unix_progr.Debugger.Session.{Session}
use nycu_advanced_unix_progr.Debugger.Breaks.Patched.{IsPatched}
use nycu_advanced_unix_progr.Debugger.Inspect.{fetch}

All-first_at :
    (P : BreakpointInfo → Type 0) (t : BreakpointTable) (a : ℕ) (e : BreakpointInfo)
    → All P t
    → first_at t a ≡ some e
    → P e
All-first_at P [] a e h k = absurd (cc)
All-first_at P (f ∷ t) a e h k = elim (Bool-cases (f.addr == a)) [
  | inl hit ↦ subst P (some-injective f e (ground arith)) h.0
  | inr miss ↦ All-first_at P t a e h.1 (ground arith)
]

module _ {S : Type 0} (m : Machine S) (mem : S → ℤ → ℕ → ℕ) (law : Memory m mem) where
  -- Where the tracee's memory is the program's own, `orig`, with the traps of the table, and
  -- PTRACE_PEEKTEXT at an address reads the word there: disasm has a word to decode at that address,
  -- and its first byte is the program's own, with or without a breakpoint there.
  pub fetch-Patched :
      (orig : ℕ → ℕ) (s : Session S) (a : ℕ)
      → m.peek_text s.os s.pid a ≡ word_at 8 (mem s.os s.pid) a
      → IsPatched m mem law orig s
      → (code : ℕ) × (fetch m s a ≡ some code) × (code % 256 ≡ orig a)
  unfolding fetch word_at
  fetch-Patched orig s a read p = elim (Bool-cases (has_addr s.bptab a)) [
    | inl found ↦
        let (e, first, same) = first_at_of_has s.bptab a found in
        (
          e.code,
          ground (arith, include-eq s.bptab a, at_addr-eq s.bptab a),
          All-first_at (λ e. e.code % 256 ≡ orig e.addr) s.bptab a e p.saved first ∙ ap orig same,
        )
    | inr absent ↦ (
      m.peek_text s.os s.pid a,
      ground (arith, include-eq s.bptab a),
      ground (arith, read, law.mem_byte s.os s.pid a, p.shows a),
    )
  ]

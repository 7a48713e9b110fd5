-- ===== src/Debugger/Breaks/Patched.antt =====
-- The breakpoints in the tracee's memory: it is the program's own memory with 0xcc at the addresses
-- of the table, and break and delete keep it so.
use nycu_advanced_unix_progr.Base.{
  ℕ, ◌%◌, ◌≡◌, refl, sym, ap, ◌∙◌, inl, inr, false, some, List, Bytes, ◌==◌, if◌then◌else◌,
  get_elem?, erase_at, arith, All, All-append, All-erase_at, All-get_elem?, Bool-cases, ==_iff,
}
use nycu_advanced_unix_progr.Base.Int.{ℤ}
use nycu_advanced_unix_progr.Debugger.Breakpoint.{BreakpointInfo, BreakpointTable, include, add}
use nycu_advanced_unix_progr.Debugger.Breakpoint.Lookup.{has_addr, include-eq}
use nycu_advanced_unix_progr.Debugger.Breakpoint.Sets.{
  Distinct, has_addr-add, add-Distinct, has_addr-erase, erase-Distinct,
}
use nycu_advanced_unix_progr.Debugger.Machine.{Machine}
use nycu_advanced_unix_progr.Debugger.Memory.{Memory, IsPatch, peek_low, trap_pokes, restore_pokes}
use nycu_advanced_unix_progr.Debugger.Session.{Session, session}
use nycu_advanced_unix_progr.Base.Strtol.{strtol, atoi}
use nycu_advanced_unix_progr.Debugger.Breaks.{
  put_break_point, remove_break_point, set_break_point, delete_break_point,
}
use nycu_advanced_unix_progr.Debugger.Breaks.Cases.{
  set_break_point_cases, put_break_point_cases, delete_break_point_cases, remove_break_point_cases,
}

-- `f` is the memory `orig` with a trap at each address of the table, whose entries save the bytes
-- that the traps stand on; no address has two entries.
pub record Patched (orig f : ℕ → ℕ) (t : BreakpointTable) : Type 0 where
  pub shows : (b : ℕ) → f b ≡ (if has_addr t b then 0xcc else orig b)
  pub saved : All (λ e. e.code % 256 ≡ orig e.addr) t
  pub distinct : Distinct t

module _ (orig : ℕ → ℕ) where
  -- A trap at a new address, whose entry saves the byte that stood there.
  pub Patched-add :
      (f g : ℕ → ℕ) (t : BreakpointTable) (a code : ℕ)
      → has_addr t a ≡ false
      → code % 256 ≡ f a
      → IsPatch f a 0xcc g
      → Patched orig f t
      → Patched orig g (add t a code)
  unfolding add
  Patched-add f g t a code new low patch p = record {
    shows = λ b. ground (arith, patch b, p.shows b, has_addr-add t a code b);
    saved = All-append _ t _ p.saved (low ∙ p.shows a ∙ rw new refl, tt);
    distinct = add-Distinct t a code new p.distinct;
  }

  -- The saved byte back at an entry's address, without the entry.
  pub Patched-erase :
      (f g : ℕ → ℕ) (t : BreakpointTable) (i : ℕ) (e : BreakpointInfo)
      → get_elem? t i ≡ some e
      → IsPatch f e.addr (e.code % 256) g
      → Patched orig f t
      → Patched orig g (erase_at t i)
  Patched-erase f g t i e at patch p = record {
    shows = λ b. elim (Bool-cases (e.addr == b)) [
      | inl hit ↦ ground (
        arith,
        patch b,
        has_addr-erase t i b {e = e} p.distinct at,
        All-get_elem? (λ x. x.code % 256 ≡ orig x.addr) t i p.saved at,
        ap orig ((==_iff e.addr b).0 hit),
      )
      | inr miss ↦ ground (arith, patch b, p.shows b, has_addr-erase t i b {e = e} p.distinct at)
    ];
    saved = All-erase_at _ t i p.saved;
    distinct = erase-Distinct t i p.distinct;
  }

module _ {S : Type 0} (m : Machine S) (mem : S → ℤ → ℕ → ℕ) (law : Memory m mem) where
  -- What the table and the tracee's memory are to each other.
  abbrev pub IsPatched : (ℕ → ℕ) → Session S → Type 0
  IsPatched orig s = Patched orig (mem s.os s.pid) s.bptab

  put_break_point-IsPatched :
      (orig : ℕ → ℕ) (a : ℕ) (s : Session S)
      → has_addr s.bptab a ≡ false
      → IsPatched orig s
      → IsPatched orig (session (put_break_point m a s))
  put_break_point-IsPatched orig a s new p =
      put_break_point_cases m (λ o. IsPatched orig (session o)) s a (λ o. p)
        λ o os e.
          Patched-add orig _ _ s.bptab a _ new (peek_low m mem law _ _ a _ os e)
            (trap_pokes m mem law _ _ a os e) p

  remove_break_point-IsPatched :
      (orig : ℕ → ℕ) (i : ℤ) (s : Session S)
      → IsPatched orig s
      → IsPatched orig (session (remove_break_point m i s))
  remove_break_point-IsPatched orig i s p =
      remove_break_point_cases m (λ o. IsPatched orig (session o)) s i (λ o. p)
        λ o os k e _ at ok.
          Patched-erase orig _ _ s.bptab k e at (restore_pokes m mem law _ _ e.addr e.code os ok) p

  -- Where the tracee's memory is the program's own with 0xcc at the addresses of the table, which
  -- saves the bytes there, `break` with no address, or one that has no breakpoint yet, keeps it so,
  -- whichever way it ends.
  pub set_break_point-IsPatched :
      (orig : ℕ → ℕ) (cmds : List Bytes) (s : Session S)
      → ((word : Bytes) → get_elem? cmds 1 ≡ some word → include s.bptab (strtol 0 word) ≡ false)
      → IsPatched orig s
      → IsPatched orig (session (set_break_point m cmds s))
  set_break_point-IsPatched orig cmds s new p =
      set_break_point_cases m (λ o. IsPatched orig (session o)) s cmds (λ o. p)
        λ word e _ _ _.
          put_break_point-IsPatched orig (strtol 0 word) s
            (sym (include-eq s.bptab (strtol 0 word)) ∙ new word e) p

  -- Where the tracee's memory is the program's own with 0xcc at the addresses of the table, which
  -- saves the bytes there, `delete` keeps it so, for any argument and whichever way it ends: where an
  -- entry goes, its saved byte is back in the memory.
  pub delete_break_point-IsPatched :
      (orig : ℕ → ℕ) (cmds : List Bytes) (s : Session S)
      → IsPatched orig s
      → IsPatched orig (session (delete_break_point m cmds s))
  delete_break_point-IsPatched orig cmds s p =
      delete_break_point_cases m (λ o. IsPatched orig (session o)) s cmds (λ o. p)
        λ word _ _. remove_break_point-IsPatched orig (atoi word) s p

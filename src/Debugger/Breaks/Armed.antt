-- ===== src/Debugger/Breaks/Armed.antt =====
-- The breakpoints in the tracee's text, the bytes from lo to hi: its data may change.
use nycu_advanced_unix_progr.Base.{
  ℕ, ◌%◌, ◌≤◌, ◌≡◌, refl, sym, ◌∙◌, true, false, ◌&&◌, some, List, Bytes, leb, if◌then◌else◌,
  get_elem?, arith,
}
use nycu_advanced_unix_progr.Base.Int.{ℤ}
use nycu_advanced_unix_progr.Base.Strtol.{strtol, atoi}
use nycu_advanced_unix_progr.Debugger.Breakpoint.{BreakpointTable}
use nycu_advanced_unix_progr.Debugger.Breakpoint.Lookup.{has_addr}
use nycu_advanced_unix_progr.Debugger.Breakpoint.Sets.{has_addr-get}
use nycu_advanced_unix_progr.Debugger.Machine.{Machine}
use nycu_advanced_unix_progr.Debugger.Memory.{Memory, IsPatch, peek_low, trap_pokes, restore_pokes}
use nycu_advanced_unix_progr.Debugger.Session.{Session, session}
use nycu_advanced_unix_progr.Debugger.Breaks.{set_break_point, delete_break_point}
use nycu_advanced_unix_progr.Debugger.Breaks.Cases.{
  set_break_point_cases, put_break_point_cases, delete_break_point_cases, remove_break_point_cases,
}
use nycu_advanced_unix_progr.Debugger.Breaks.Patched.{Patched, Patched-add, Patched-erase}

-- A memory with 0 outside the bytes from lo to hi.
abbrev pub clip : ℕ → ℕ → (ℕ → ℕ) → ℕ → ℕ
clip lo hi f b = if leb lo b && leb b hi then f b else 0

pub Patched-same :
    (orig f g : ℕ → ℕ) (t : BreakpointTable)
    → ((b : ℕ) → g b ≡ f b)
    → Patched orig f t
    → Patched orig g t
Patched-same orig f g t same p = record {
  shows = λ b. same b ∙ p.shows b;
  saved = p.saved;
  distinct = p.distinct;
}

clip-IsPatch :
    (lo hi : ℕ) (f : ℕ → ℕ) (a x : ℕ) (g : ℕ → ℕ)
    → lo ≤ a
    → a ≤ hi
    → IsPatch f a x g
    → IsPatch (clip lo hi f) a x (clip lo hi g)
clip-IsPatch lo hi f a x g l h patch b = ground (arith, patch b)

pub clip-inside_eq : (lo hi : ℕ) (f : ℕ → ℕ) (a : ℕ) → lo ≤ a → a ≤ hi → clip lo hi f a ≡ f a
clip-inside_eq lo hi f a l h = ground arith

pub clip-same :
    (lo hi : ℕ) (f g : ℕ → ℕ)
    → ((b : ℕ) → lo ≤ b → b ≤ hi → g b ≡ f b)
    → (b : ℕ) → clip lo hi g b ≡ clip lo hi f b
clip-same lo hi f g same b = ground (arith, same b)

-- The entries' addresses lie from lo to hi.
clip-inside :
    (orig f : ℕ → ℕ) (lo hi : ℕ) (t : BreakpointTable) (b : ℕ)
    → Patched orig (clip lo hi f) t
    → has_addr t b ≡ true
    → (lo ≤ b) × (b ≤ hi)
clip-inside orig f lo hi t b p h = (ground (arith, p.shows b), ground (arith, p.shows b))

module _ {S : Type 0} (m : Machine S) where
  pub set_break_point-pid :
      (cmds : List Bytes) (s : Session S) → (session (set_break_point m cmds s)).pid ≡ s.pid
  set_break_point-pid cmds s =
      set_break_point_cases m (λ o. (session o).pid ≡ s.pid) s cmds (λ o. refl)
        λ word _ _ _ _.
          put_break_point_cases m (λ o. (session o).pid ≡ s.pid) s (strtol 0 word) (λ o. refl)
            λ o os ok. refl

  pub delete_break_point-pid :
      (cmds : List Bytes) (s : Session S) → (session (delete_break_point m cmds s)).pid ≡ s.pid
  delete_break_point-pid cmds s =
      delete_break_point_cases m (λ o. (session o).pid ≡ s.pid) s cmds (λ o. refl)
        λ word _ _.
          remove_break_point_cases m (λ o. (session o).pid ≡ s.pid) s (atoi word) (λ o. refl)
            λ o os k e _ _ _. refl

module _ {S : Type 0} (m : Machine S) (mem : S → ℤ → ℕ → ℕ) (law : Memory m mem) (orig : ℕ → ℕ)
    (lo hi : ℕ) where
  -- The tracee's text is from lo to hi, and it is the one of `orig` with a trap at each address of the
  -- table, which saves the bytes there; all breakpoints are in the text.
  abbrev pub IsArmed : Session S → Type 0
  IsArmed s =
      (s.text_begin ≡ lo)
      × (s.text_end ≡ hi)
      × Patched (clip lo hi orig) (clip lo hi (mem s.os s.pid)) s.bptab

  pub set_break_point-IsArmed :
      (cmds : List Bytes) (s : Session S)
      → ((word : Bytes) → get_elem? cmds 1 ≡ some word → has_addr s.bptab (strtol 0 word) ≡ false)
      → IsArmed s
      → IsArmed (session (set_break_point m cmds s))
  set_break_point-IsArmed cmds s new (begin, end, p) =
      set_break_point_cases m (λ o. IsArmed (session o)) s cmds (λ o. (begin, end, p))
        λ word e _ above below.
          let a = strtol 0 word in
          put_break_point_cases m (λ o. IsArmed (session o)) s a (λ o. (begin, end, p))
            λ o os ok. (
              begin,
              end,
              Patched-add (clip lo hi orig) _ _ s.bptab a _ (new word e)
                  (peek_low m mem law _ _ a _ os ok
                    ∙ sym (
                        clip-inside_eq lo hi (mem s.os s.pid) a (omega (arith, begin))
                          (omega (arith, end))))
                  (clip-IsPatch lo hi _ a 0xcc _ (omega (arith, begin)) (omega (arith, end))
                    (trap_pokes m mem law _ _ a os ok))
                  p,
            )

  pub delete_break_point-IsArmed :
      (cmds : List Bytes) (s : Session S)
      → IsArmed s
      → IsArmed (session (delete_break_point m cmds s))
  delete_break_point-IsArmed cmds s (begin, end, p) =
      delete_break_point_cases m (λ o. IsArmed (session o)) s cmds (λ o. (begin, end, p))
        λ word _ _.
          remove_break_point_cases m (λ o. IsArmed (session o)) s (atoi word) (λ o. (begin, end, p))
            λ o os k e _ at ok.
              let (above, below) =
                clip-inside (clip lo hi orig) _ lo hi s.bptab e.addr p
                  (has_addr-get s.bptab k at) in
              (
                begin,
                end,
                Patched-erase (clip lo hi orig) _ _ s.bptab k e at
                    (clip-IsPatch lo hi _ e.addr (e.code % 256) _ above below
                      (restore_pokes m mem law _ _ e.addr e.code os ok))
                    p,
              )

-- ===== src/Debugger/Breaks/Cases.antt =====
-- How break, delete and set end: a message, or the part behind the guards. A property of both holds
-- of the command.
use nycu_advanced_unix_progr.Base.{
  ℕ, zero, suc, ◌≤◌, ◌<◌, ◌≡◌, refl, inl, inr, some, List, [], ◌∷◌, ◌++◌, Bytes, ltb, get_elem?,
  erase_at, length, arith, Bool-cases, Option-cases,
}
use nycu_advanced_unix_progr.Base.Int.{ℤ, pos, negsuc}
use nycu_advanced_unix_progr.Base.Word.{trap, restore}
use nycu_advanced_unix_progr.Debugger.Breakpoint.{
  BreakpointInfo, include_idx, at_idx, add, del, size,
}
use nycu_advanced_unix_progr.Base.Strtol.{strtol, atoi}
use nycu_advanced_unix_progr.Debugger.Machine.{Machine}
use nycu_advanced_unix_progr.Debugger.Session.{
  running, poketext, need_running, no_address, out_of_text, no_such_breakpoint, request_failed,
  breakpoint_deleted, Message, Session, Outcome, next,
}
use nycu_advanced_unix_progr.Debugger.Breaks.{
  set_break_point, put_break_point, delete_break_point, remove_break_point,
}

pub get_elem?_of_lt {ℓ} :
    {A : Type ℓ} (xs : List A) (i : ℕ) → i < length xs → (a : A) × (get_elem? xs i ≡ some a)
get_elem?_of_lt [] i h = elim h [ ]
get_elem?_of_lt (x ∷ xs) zero h = (x, refl)
get_elem?_of_lt (x ∷ xs) (suc i) h = get_elem?_of_lt xs i (omega arith)

module _ {S : Type 0} (m : Machine S) (P : Outcome S → Type 0) (s : Session S) where
  pub set_break_point_cases :
      (cmds : List Bytes)
      → ((o : List Message) → P (next (record s { out = o })))
      → ((word : Bytes)
          → get_elem? cmds 1 ≡ some word
          → s.state ≡ running
          → s.text_begin ≤ strtol 0 word
          → strtol 0 word ≤ s.text_end
          → P (put_break_point m (strtol 0 word) s))
      → P (set_break_point m cmds s)
  unfolding set_break_point
  set_break_point_cases cmds refused put = elim (Option-cases (get_elem? cmds 1)) [
    | inl e ↦
        ground (arith, refused (s.out ++ need_running ∷ []), refused (s.out ++ no_address ∷ []))
    | inr (word, e) ↦ ground (
      arith,
      refused (s.out ++ need_running ∷ []),
      refused (s.out ++ out_of_text s.text_begin s.text_end ∷ []),
      put word e,
    )
  ]

  pub put_break_point_cases :
      (a : ℕ)
      → ((o : List Message) → P (next (record s { out = o })))
      → ((o : List Message) (os : S)
          → m.poke_text s.os s.pid a (trap (m.peek_text s.os s.pid a)) ≡ some os
          → P (
              next
                (record s { out = o; os = os; bptab = add s.bptab a (m.peek_text s.os s.pid a) })))
      → P (put_break_point m a s)
  unfolding put_break_point
  put_break_point_cases a refused put = grind arith

  pub delete_break_point_cases :
      (cmds : List Bytes)
      → ((o : List Message) → P (next (record s { out = o })))
      → ((word : Bytes)
          → get_elem? cmds 1 ≡ some word
          → s.state ≡ running
          → P (remove_break_point m (atoi word) s))
      → P (delete_break_point m cmds s)
  unfolding delete_break_point
  delete_break_point_cases cmds refused remove = grind arith

  pub remove_break_point_cases :
      (idx : ℤ)
      → ((o : List Message) → P (next (record s { out = o })))
      → ((o : List Message) (os : S) (i : ℕ) (e : BreakpointInfo)
          → idx ≡ pos i
          → get_elem? s.bptab i ≡ some e
          → m.poke_text s.os s.pid e.addr (restore (m.peek_text s.os s.pid e.addr) e.code) ≡ some os
          → P (next (record s { out = o; os = os; bptab = erase_at s.bptab i })))
      → P (remove_break_point m idx s)
  unfolding remove_break_point include_idx at_idx del size
  remove_break_point_cases (negsuc n) refused remove =
      refused (s.out ++ no_such_breakpoint (negsuc n) ∷ [])
  remove_break_point_cases (pos i) refused remove = elim (Bool-cases (ltb i (length s.bptab))) [
    | inl inside ↦
        let (e, at) = get_elem?_of_lt s.bptab i (ground arith) in
        let restored = restore (m.peek_text s.os s.pid e.addr) e.code in
        elim (Option-cases (m.poke_text s.os s.pid e.addr restored)) [
          | inl fails ↦ ground (arith, refused (s.out ++ request_failed poketext ∷ []))
          | inr (os, works) ↦
              ground (
                arith,
                remove (s.out ++ breakpoint_deleted (pos i) e.addr ∷ []) os i e refl at works,
              )
        ]
    | inr outside ↦ ground (arith, refused (s.out ++ no_such_breakpoint (pos i) ∷ []))
  ]

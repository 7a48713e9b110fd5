-- ===== src/Debugger/Breaks/Twice.antt =====
-- `break` at an address that has a breakpoint already.
use nycu_advanced_unix_progr.Base.{
  ℕ, zero, suc, ◌%◌, ◌≡◌, refl, ap, ◌∙◌, true, some, List, [], ◌∷◌, ◌++◌, get_elem?, erase_at,
  length, arith, ltb, append-nil, append_assoc,
}
use nycu_advanced_unix_progr.Base.Int.{ℤ, pos}
use nycu_advanced_unix_progr.Base.Word.{trap, restore}
use nycu_advanced_unix_progr.Debugger.Breakpoint.{
  BreakpointInfo, BreakpointTable, size, include_idx, at_idx, add, del,
}
use nycu_advanced_unix_progr.Debugger.Machine.{Machine}
use nycu_advanced_unix_progr.Debugger.Memory.{
  Memory, IsPatch, peek_low, trap_pokes, restore_pokes, Writable,
}
use nycu_advanced_unix_progr.Debugger.Session.{Session, next, session, ◌>>=◌}
use nycu_advanced_unix_progr.Debugger.Breaks.{put_break_point, remove_break_point}

ltb_of_get :
    {A : Type 0} (xs : List A) (i : ℕ) {x : A} → get_elem? xs i ≡ some x → ltb i (length xs) ≡ true
ltb_of_get [] i h = absurd (cc)
ltb_of_get (y ∷ xs) zero h = ground arith
ltb_of_get (y ∷ xs) (suc i) h = ground (arith, ltb_of_get xs i h)

-- The entry behind a table, and the table without it.
get-append : {A : Type 0} (xs ys : List A) (x : A) → get_elem? (xs ++ x ∷ ys) (length xs) ≡ some x
get-append [] ys x = refl
get-append (y ∷ xs) ys x = get-append xs ys x

erase-append :
    {A : Type 0} (xs ys : List A) (x : A) → erase_at (xs ++ x ∷ ys) (length xs) ≡ xs ++ ys
erase-append [] ys x = refl
erase-append (y ∷ xs) ys x = ap (λ (l : List _). y ∷ l) (erase-append xs ys x)

module _ {S : Type 0} (m : Machine S) (mem : S → ℤ → ℕ → ℕ) (law : Memory m mem) where
  -- A put that succeeds: what it adds, and what it writes.
  put_works :
      (a : ℕ) (s : Session S)
      → Writable m
      → let t = session (put_break_point m a s) in
        (put_break_point m a s ≡ next t)
        × (t.bptab ≡ add s.bptab a (m.peek_text s.os s.pid a))
        × (m.peek_text s.os s.pid a % 256 ≡ mem s.os s.pid a)
        × IsPatch (mem s.os s.pid) a 0xcc (mem t.os s.pid)
        × (t.pid ≡ s.pid)
  unfolding put_break_point
  put_works a s works =
      let (os, e) = works s.os s.pid a (trap (m.peek_text s.os s.pid a)) in
      (
        ground arith,
        ground arith,
        peek_low m mem law s.os s.pid a _ os e,
        λ b. ground (arith, trap_pokes m mem law s.os s.pid a os e b),
        ground arith,
      )

  -- A removal that succeeds: what it takes away, and what it writes.
  remove_works :
      (i : ℕ) (e : BreakpointInfo) (s : Session S)
      → get_elem? s.bptab i ≡ some e
      → Writable m
      → let t = session (remove_break_point m (pos i) s) in
        (remove_break_point m (pos i) s ≡ next t)
        × (t.bptab ≡ erase_at s.bptab i)
        × IsPatch (mem s.os s.pid) e.addr (e.code % 256) (mem t.os s.pid)
        × (t.pid ≡ s.pid)
  unfolding remove_break_point include_idx at_idx del size
  remove_works i e s at works =
      let (os, w) = works s.os s.pid e.addr (restore (m.peek_text s.os s.pid e.addr) e.code) in
      let inside : ltb i (length s.bptab) ≡ true = ltb_of_get s.bptab i at in
      (
        ground arith,
        ground arith,
        λ b. ground (arith, restore_pokes m mem law s.os s.pid e.addr e.code os w b),
        ground arith,
      )

  -- Where the kernel refuses no write, a breakpoint that is set and then deleted leaves the table
  -- and every byte of the tracee as they were.
  pub break_delete :
      (a : ℕ) (s : Session S)
      → Writable m
      → let t = session (put_break_point m a s >>= remove_break_point m (pos (length s.bptab))) in
        (t.bptab ≡ s.bptab) × ((b : ℕ) → mem t.os t.pid b ≡ mem s.os s.pid b)
  unfolding add
  break_delete a s works =
      let (e, tab, low, wrote, same) = put_works a s works in
      let t = session (put_break_point m a s) in
      let bp : BreakpointInfo = record { code = m.peek_text s.os s.pid a; addr = a } in
      let (e', tab', wrote', same') =
        remove_works (length s.bptab) bp t
          (ap (λ (l : BreakpointTable). get_elem? l (length s.bptab)) tab
            ∙ get-append s.bptab [] bp)
          works in
      rw e (
        tab'
            ∙ ap (λ (l : BreakpointTable). erase_at l (length s.bptab)) tab
            ∙ erase-append s.bptab [] bp
            ∙ append-nil s.bptab,
        λ b. ground (arith, wrote b, wrote' b),
      )

  -- Where the kernel refuses no write: after two `break`s at one address and the deletion of the
  -- first of the two breakpoints and then of the second, the table is what it was, and the tracee holds
  -- 0xcc at the address.
  pub break_twice_leaves_trap :
      (a : ℕ) (s : Session S)
      → Writable m
      → let n = pos (length s.bptab) in
        let t = session (
          put_break_point m a s
          >>= put_break_point m a
          >>= remove_break_point m n
          >>= remove_break_point m n) in
        (t.bptab ≡ s.bptab) × (mem t.os t.pid a ≡ 0xcc)
  unfolding add
  break_twice_leaves_trap a s works =
      let n = length s.bptab in
      let (e_1, tab_1, low_1, wrote_1, same_1) = put_works a s works in
      let t_1 = session (put_break_point m a s) in
      let (e_2, tab_2, low_2, wrote_2, same_2) = put_works a t_1 works in
      let t_2 = session (put_break_point m a t_1) in
      let bp : BreakpointInfo = record { code = m.peek_text s.os s.pid a; addr = a } in
      let bp' : BreakpointInfo = record { code = m.peek_text t_1.os t_1.pid a; addr = a } in
      let whole : t_2.bptab ≡ s.bptab ++ bp ∷ bp' ∷ [] =
        tab_2
        ∙ ap (λ (l : BreakpointTable). l ++ bp' ∷ []) tab_1
        ∙ append_assoc s.bptab (bp ∷ []) (bp' ∷ []) in
      let (e_3, tab_3, wrote_3, same_3) =
        remove_works n bp t_2
          (ap (λ (l : BreakpointTable). get_elem? l n) whole ∙ get-append s.bptab (bp' ∷ []) bp)
          works in
      let t_3 = session (remove_break_point m (pos n) t_2) in
      let left : t_3.bptab ≡ s.bptab ++ bp' ∷ [] =
        tab_3
        ∙ ap (λ (l : BreakpointTable). erase_at l n) whole
        ∙ erase-append s.bptab (bp' ∷ []) bp in
      let (e_4, tab_4, wrote_4, same_4) =
        remove_works n bp' t_3
          (ap (λ (l : BreakpointTable). get_elem? l n) left ∙ get-append s.bptab [] bp') works in
      rw (e_1, e_2, e_3)
        (
          tab_4
              ∙ ap (λ (l : BreakpointTable). erase_at l n) left
              ∙ erase-append s.bptab [] bp'
              ∙ append-nil s.bptab,
          ground (arith, wrote_1 a, wrote_4 a),
        )

-- ===== src/Debugger/Stops/Text.antt =====
-- What stepping over a breakpoint and running do to the tracee's text: while it runs, nothing.
use nycu_advanced_unix_progr.Base.{
  ℕ, ◌+◌, ◌-◌, ◌≤◌, ◌≡◌, refl, ◌∙◌, ◌⊎◌, inl, inr, false, ◌&&◌, some, subst, ltb, leb, ◌==◌, arith,
  Bool-cases, Option-cases,
}
use nycu_advanced_unix_progr.Base.Int.{ℤ}
use nycu_advanced_unix_progr.Base.Word.{word_at, get_byte-word_at, restore}
use nycu_advanced_unix_progr.Debugger.Breakpoint.{include}
use nycu_advanced_unix_progr.Debugger.Machine.{Machine}
use nycu_advanced_unix_progr.Debugger.Memory.{Writable, Memory, restore_pokes}
use nycu_advanced_unix_progr.Debugger.Session.{
  CandBp, loaded, running, Session, Outcome, next, stop, ◌>>=◌, session,
}
use nycu_advanced_unix_progr.Debugger.Stops.{
  wait_then_check_exit, check_hit_break_point_or_not, reput, check_then_restore_si_reput,
}
use nycu_advanced_unix_progr.Debugger.Stops.Traps.{check_hit_mem}
use nycu_advanced_unix_progr.Debugger.Stops.Keeps.{check_hit-Steady}
use nycu_advanced_unix_progr.Debugger.Stops.Defined.{at_addr_of_include}

-- The kernel refuses no write and no step, and the tracee does not write to the bytes from lo to hi
-- itself.
pub record Obedient {S : Type 0} (m : Machine S) (mem : S → ℤ → ℕ → ℕ) (lo hi : ℕ) : Type 0 where
  pub writes : Writable m
  pub steps : (s : S) (p : ℤ) → (s' : S) × (m.single_step s p ≡ some s')
  pub step_text :
      (s : S) (p : ℤ) (s' : S) (b : ℕ)
      → m.single_step s p ≡ some s'
      → lo ≤ b
      → b ≤ hi
      → mem s' p b ≡ mem s p b
  pub cont_text :
      (s : S) (p : ℤ) (s' : S) (b : ℕ)
      → m.cont_request s p ≡ some s'
      → lo ≤ b
      → b ≤ hi
      → mem s' p b ≡ mem s p b
  pub wait_text :
      (s : S) (p : ℤ) (status : ℕ) (s' : S) (b : ℕ)
      → m.wait_pid s p ≡ some (status, s')
      → lo ≤ b
      → b ≤ hi
      → mem s' p b ≡ mem s p b

-- A property of the session in which the debugger comes back.
abbrev pub After : {S : Type 0} → (Session S → Type 0) → Outcome S → Type 0
After P (next s) = P s
After P (stop why s) = Unit

pub After-bind :
    {S : Type 0} (P Q : Session S → Type 0) (o : Outcome S) (f : Session S → Outcome S)
    → After P o
    → ((t : Session S) → P t → After Q (f t))
    → After Q (o >>= f)
After-bind P Q (next s) f h k = k s h
After-bind P Q (stop why s) f h k = tt

pub After-map :
    {S : Type 0} (P Q : Session S → Type 0) (o : Outcome S)
    → After P o
    → ((t : Session S) → P t → Q t)
    → After Q o
After-map P Q (next s) h k = k s h
After-map P Q (stop why s) h k = tt

-- Where the debugger does come back.
pub After-next :
    {S : Type 0} (P : Session S → Type 0) (o : Outcome S) (t : Session S)
    → After P o
    → o ≡ next t
    → P t
After-next P o t h e = subst (After P) e h

pub After-session :
    {S : Type 0} (P : Session S → Type 0) (o : Outcome S) → P (session o) → After P o
After-session P (next s) h = h
After-session P (stop why s) h = tt

module _ {S : Type 0} (m : Machine S) (mem : S → ℤ → ℕ → ℕ) (law : Memory m mem) (lo hi : ℕ)
    (obeys : Obedient m mem lo hi) where
  -- The bytes from lo to hi are those of an earlier session.
  abbrev pub IsSame : Session S → Session S → Type 0
  IsSame s t = (b : ℕ) → lo ≤ b → b ≤ hi → mem t.os s.pid b ≡ mem s.os s.pid b

  -- The tracee has exited, or it is where it was, with the same text.
  abbrev pub Steps : Session S → Session S → Type 0
  Steps s t = (t.state ≡ loaded) ⊎ ((t.state ≡ s.state) × (t.pid ≡ s.pid) × IsSame s t)

  pub Steps-trans : (s t u : Session S) → Steps s t → Steps t u → Steps s u
  Steps-trans s t u (inl e) (inl e') = inl e'
  Steps-trans s t u (inl e) (inr (e', p, k)) = inl (e' ∙ e)
  Steps-trans s t u (inr h) (inl e) = inl e
  Steps-trans s t u (inr (e, p, k)) (inr (e', p', k')) =
      inr (e' ∙ e, p' ∙ p, λ b l r. ground (arith, k b l r, k' b l r))

  pub wait_then_check_exit-Steps : (s : Session S) → After (Steps s) (wait_then_check_exit m s)
  unfolding wait_then_check_exit
  wait_then_check_exit-Steps s = elim (Option-cases (m.wait_pid s.os s.pid)) [
    | inl fails ↦ ground arith
    | inr ((status, os), works) ↦ ground (arith, obeys.wait_text s.os s.pid status os)
  ]

  pub check_hit-Steps :
      (c : CandBp) (s : Session S) → After (Steps s) (check_hit_break_point_or_not m c s)
  check_hit-Steps c s =
      let k = check_hit-Steady m c s in
      After-session (Steps s) (check_hit_break_point_or_not m c s)
        (inr (k.state, k.pid, λ b l r. check_hit_mem m mem law c s b))

  -- The eight bytes of the peeked word, written back over a memory that agrees elsewhere.
  reput_bytes :
      (os os' : S) (u : S) (p : ℤ) (a b : ℕ)
      → m.poke_text os' p a (m.peek_text os p a) ≡ some u
      → m.peek_text os p a ≡ word_at 8 (mem os p) a
      → (leb a b && ltb b (a + 8) ≡ false → mem os' p b ≡ mem os p b)
      → mem u p b ≡ mem os p b
  reput_bytes os os' u p a b e w k =
      law.poke_bytes os' p a _ u b e ∙ elim (Bool-cases (leb a b && ltb b (a + 8))) [
        | inl inside ↦
            let there : a + (b - a) ≡ b = ground arith in
            rw (inside, w)
              (get_byte-word_at 8 (mem os p) a (b - a) (law.mem_byte os p) (ground arith)
                ∙ rw there refl)
        | inr outside ↦ rw outside (k outside)
      ]

  -- The tracee has exited, or it is where it was, with the same text but for one byte.
  StepsBut : ℕ → Session S → Session S → Type 0
  StepsBut a s t =
      (t.state ≡ loaded)
      ⊎ ((t.state ≡ s.state)
          × (t.pid ≡ s.pid)
          × ((b : ℕ) → lo ≤ b → b ≤ hi → (a == b) ≡ false → mem t.os s.pid b ≡ mem s.os s.pid b))

  -- The trap is put back, after a step and a wait.
  reput-Steps :
      (s t : Session S) (a : ℕ)
      → m.peek_text s.os s.pid a ≡ word_at 8 (mem s.os s.pid) a
      → s.state ≡ running
      → StepsBut a s t
      → After (Steps s) (reput m a (m.peek_text s.os s.pid a) t)
  unfolding reput StepsBut
  reput-Steps s t a w run (inl e) = ground arith
  reput-Steps s t a w run (inr (e, p, k)) =
      let (u, works) = obeys.writes t.os s.pid a (m.peek_text s.os s.pid a) in
      let same : IsSame s (record t { os = u }) =
        λ b l r. reput_bytes s.os t.os u s.pid a b works w (λ out. k b l r (ground arith)) in
      ground arith

  wait-StepsBut :
      (s : Session S) (a : ℕ) (os : S)
      → ((b : ℕ) → lo ≤ b → b ≤ hi → (a == b) ≡ false → mem os s.pid b ≡ mem s.os s.pid b)
      → After (StepsBut a s) (wait_then_check_exit m (record s { os = os }))
  unfolding StepsBut
  wait-StepsBut s a os k =
      After-map (Steps (record s { os = os })) (StepsBut a s) _
        (wait_then_check_exit-Steps (record s { os = os }))
        λ t h. elim h [
          | inl e ↦ inl e
          | inr (e, p, same) ↦ inr (e, p, λ b l r ne. same b l r ∙ k b l r ne)
        ]

  pub check_then_restore-Steps :
      (a : ℕ) (s : Session S)
      → s.state ≡ running
      → After (Steps s) (check_then_restore_si_reput m a s)
  unfolding check_then_restore_si_reput
  check_then_restore-Steps a s run = elim (Bool-cases (include s.bptab a)) [
    | inl found ↦
        let (e, at, same) = at_addr_of_include s.bptab a found in
        let (os, wrote) = obeys.writes s.os s.pid a (restore (m.peek_text s.os s.pid a) e.code) in
        let (os', stepped) = obeys.steps os s.pid in
        let over =
          After-bind (StepsBut a s) (Steps s) (wait_then_check_exit m (record s { os = os' }))
            (reput m a (m.peek_text s.os s.pid a))
            (wait-StepsBut s a os' λ b l r ne. ground (
              arith,
              obeys.step_text os s.pid os' b stepped l r,
              restore_pokes m mem law s.os s.pid a e.code os wrote b,
            ))
            (λ t. reput-Steps s t a (law.peek_word s.os s.pid a _ os wrote) run) in
        rw (found, at, wrote, stepped) over
    | inr absent ↦ ground arith
  ]

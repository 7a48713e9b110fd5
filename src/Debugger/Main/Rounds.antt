-- ===== src/Debugger/Main/Rounds.antt =====
-- The tracee's text over the rounds of the main loop: at each prompt the traps stand at the breakpoints.
use nycu_advanced_unix_progr.Base.{ℕ, ◌≡◌, refl, ◌∙◌, Option, none, some, List, [], ◌∷◌, Bytes}
use nycu_advanced_unix_progr.Base.Int.{ℤ}
use nycu_advanced_unix_progr.Debugger.Cmdline.{dbgcmd_parser}
use nycu_advanced_unix_progr.Debugger.Machine.{Machine}
use nycu_advanced_unix_progr.Debugger.Memory.{Memory}
use nycu_advanced_unix_progr.Debugger.Session.{running, Session, next}
use nycu_advanced_unix_progr.Debugger.Stops.Text.{Obedient, After, After-next}
use nycu_advanced_unix_progr.Debugger.Breaks.Armed.{IsArmed}
use nycu_advanced_unix_progr.Debugger.Main.Armed.{NewBreak, Still, perform-Still}
use nycu_advanced_unix_progr.Debugger.Main.{command_of, handle_line}

-- A line that is `break` gives it an address that has no breakpoint yet.
abbrev pub NewBreaks : {S : Type 0} → Bytes → Session S → Type 0
NewBreaks line s =
    (word : Bytes) (words : List Bytes)
    → dbgcmd_parser line b' ' ≡ some (word ∷ words)
    → NewBreak (command_of line word) (word ∷ words) s

-- Rounds of the loop, after each of which the debugger is at its prompt and the program still runs.
pub data Rounds {S : Type 0} (m : Machine S) (s : Session S) : Session S → Type 0 where
  at_prompt : Rounds m s s
  round :
      {t u : Session S} (line : Bytes)
      → Rounds m s t
      → NewBreaks line t
      → handle_line m line t ≡ next u
      → u.state ≡ running
      → Rounds m s u

module _ {S : Type 0} (m : Machine S) (mem : S → ℤ → ℕ → ℕ) (law : Memory m mem) (orig : ℕ → ℕ)
    (lo hi : ℕ) (obeys : Obedient m mem lo hi) where
  parsed-Still :
      (line : Bytes) (got : Option (List Bytes)) (s : Session S)
      → s.state ≡ running
      → dbgcmd_parser line b' ' ≡ got
      → NewBreaks line s
      → IsArmed m mem law orig lo hi s
      → After (Still m mem law orig lo hi obeys s) (handle_line m line s)
  unfolding handle_line
  parsed-Still line none s e q new armed = rw (handle_line, q) tt
  parsed-Still line (some []) s e q new armed = rw (handle_line, q) tt
  parsed-Still line (some (word ∷ words)) s e q new armed =
      rw (handle_line, q)
        (perform-Still m mem law orig lo hi obeys (command_of line word) (word ∷ words) s e
          (new word words q) armed)

  -- At a prompt where the program runs, let its text be its own with 0xcc at the addresses of the
  -- breakpoints, which save the bytes there. Then it is so at the prompt after any number of rounds, with
  -- any commands, as long as the program runs at each prompt and each `break` gets an address that has no
  -- breakpoint; and it is the same process. It is supposed that no write and no step is refused and that
  -- the program does not write to its text, the bytes from lo to hi.
  pub Rounds-IsArmed :
      (s t : Session S)
      → s.state ≡ running
      → IsArmed m mem law orig lo hi s
      → Rounds m s t
      → (t.state ≡ running) × (t.pid ≡ s.pid) × IsArmed m mem law orig lo hi t
  Rounds-IsArmed s t e armed at_prompt = (e, refl, armed)
  Rounds-IsArmed s t e armed (round {t = u} line before new came on) =
      let (e', p, armed') = Rounds-IsArmed s u e armed before in
      let still = parsed-Still line (dbgcmd_parser line b' ') u e' refl new armed' in
      let (p', armed'') = After-next _ (handle_line m line u) t still came on in
      (on, p' ∙ p, armed'')

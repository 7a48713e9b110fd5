-- ===== src/Libmini/Signal/Install.antt =====
-- What signal asks of the kernel.
use nycu_advanced_unix_progr.Base.{
  ℕ, zero, suc, ◌+◌, ◌-◌, ◌^◌, ◌<◌, ◌≡◌, refl, ap, ◌∙◌, ◌⊎◌, inl, inr, ◌≢◌, ◌&&◌, some, bit_or, ltb,
  leb, ◌==◌, if◌then◌else◌, arith, Bool-cases,
}
use nycu_advanced_unix_progr.Base.Int.{pos, negsuc}
use nycu_advanced_unix_progr.Base.Word.{word_at}
use nycu_advanced_unix_progr.Libmini.Wrappers.{Mini, cast, failure, negated}
use nycu_advanced_unix_progr.Libmini.Blocks.{Mem, memset, memset-eq}
use nycu_advanced_unix_progr.Libmini.Sigset.Members.{IsSignal, sigaddset-eq}
use nycu_advanced_unix_progr.Base.Bits.Digits.{none_or}
use nycu_advanced_unix_progr.Libmini.Signal.{
  SigAction, sig_err, sigint, sa_restart, sa_restorer_flag, sigemptyset, sigfillset, SigKernel,
  signal, signal_mask, flags_of,
}

-- sigemptyset and sigfillset succeed on every set. They write the eight bytes of the set from number i
-- on, where i is what the loop variable of memset holds at first, and no other byte: all eight if it
-- is 0, none if it is 8 or more.
set_all-eq :
    {S : Type 0} (f : Mem) (p i b : ℕ) (s : Mini S)
    → let empty = sigemptyset f (some p) (pos i) s in
      let full = sigfillset f (some p) (pos i) s in
      (empty.0 ≡ pos 0)
      × (empty.1 b ≡ (if leb (p + i) b && ltb b (p + 8) then 0 else f b))
      × (full.0 ≡ pos 0)
      × (full.1 b ≡ (if leb (p + i) b && ltb b (p + 8) then 0xff else f b))
unfolding sigemptyset sigfillset cast
set_all-eq f p i b s = (refl, memset-eq f p 0 8 i b, refl, memset-eq f p 0xff 8 i b)

word_at-zero : (n : ℕ) (g : Mem) (a : ℕ) → ((j : ℕ) → j < n → g (a + j) ≡ 0) → word_at n g a ≡ 0
unfolding word_at
word_at-zero zero g a h = refl
word_at-zero (suc n) g a h =
    let here : a + 0 ≡ a = omega arith in
    let rest : word_at n g (a + 1) ≡ 0 = word_at-zero n g (a + 1) (λ j l.
      let there : a + 1 + j ≡ a + suc j = omega arith in ap g there ∙ h (suc j) (omega arith)) in
    omega (arith, rest, ap g here, h 0 (omega arith))

empty_word : (f : Mem) (p : ℕ) → word_at 8 (memset f p 0 8 (pos 0)) p ≡ 0
empty_word f p = word_at-zero 8 _ p λ j l. ground (arith, memset-eq f p 0 8 0 (p + j))

sigemptyset-eq :
    {S : Type 0} (f : Mem) (p : ℕ) (s : Mini S)
    → sigemptyset f (some p) (pos 0) s ≡ (pos 0, memset f p 0 8 (pos 0), record s { errno = pos 0 })
unfolding sigemptyset cast
sigemptyset-eq f p s = refl

signal_mask-eq :
    {S : Type 0} (f : Mem) (p sig : ℕ) (s : Mini S)
    → IsSignal sig
    → signal_mask f p (pos 0) (pos sig) s ≡ (some (2 ^ (sig - 1)), record s { errno = pos 0 })
unfolding signal_mask
signal_mask-eq f p sig s h =
    rw
      (
        sigemptyset-eq f p s,
        empty_word f p,
        sigaddset-eq 0 (record s { errno = pos 0 }) sig h,
        none_or (2 ^ (sig - 1)),
      )
      refl

flags-eq :
    (sig : ℕ)
    → bit_or (flags_of (pos sig)) sa_restorer_flag
      ≡ (if sig == sigint then sa_restorer_flag else sa_restart + sa_restorer_flag)
unfolding flags_of
flags-eq sig = elim (Bool-cases (sig == sigint)) [
  | inl int ↦ rw int refl
  | inr other ↦ rw other refl
]

module _ {S : Type 0} (sys : SigKernel S) (restorer : ℕ) (garbage : SigAction) where
  -- The action that signal wants: the handler, the flags, and the signal itself as the mask.
  abbrev pub wanted : ℕ → ℕ → SigAction
  wanted sig handler = record {
    sa_handler = handler;
    sa_flags = if sig == sigint then sa_restorer_flag else sa_restart + sa_restorer_flag;
    sa_restorer = restorer;
    sa_mask = 2 ^ (sig - 1);
  }

  -- Where the loop variable of memset begins with 0 and the kernel answers 0 or an error: for a signal
  -- from 1 to 31 and a handler other than SIG_ERR, signal asks the kernel once, for that handler with
  -- the signal alone in the mask and SA_RESTART but for SIGINT. It returns the old handler with errno
  -- 0, or SIG_ERR with the kernel's error, negated as a `long`, in errno.
  pub signal_installs :
      (f : Mem) (p sig handler : ℕ) (s : Mini S)
      → IsSignal sig
      → handler ≢ sig_err
      → let (ret, kold, os) = sys (pos sig) (wanted sig handler) s.os in
        (ret ≡ pos 0) ⊎ ((n : ℕ) × (ret ≡ negsuc n))
        → let (ret, kold, os) = sys (pos sig) (wanted sig handler) s.os in
          let result = signal sys restorer garbage f p (pos 0) (pos sig) handler s in
          ((ret ≡ pos 0) × (result ≡ (kold.sa_handler, record { errno = pos 0; os = os })))
          ⊎ ((n : ℕ) × (ret ≡ negsuc n)
              × (result ≡ (sig_err, record { errno = negated n; os = os })))
  unfolding signal cast failure
  signal_installs f p sig handler s h ne (inl e) =
      let m = signal_mask-eq f p sig s h in inl (e, rw (signal, m, flags-eq sig) (ground arith))
  signal_installs f p sig handler s h ne (inr (n, e)) =
      let m = signal_mask-eq f p sig s h in inr (n, e, rw (signal, m, flags-eq sig) (ground arith))

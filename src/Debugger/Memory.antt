-- ===== src/Debugger/Memory.antt =====
-- What the debugger relies on of the tracee's memory, byte by byte, and what its two kinds of write
-- (the trap 0xcc and the restored byte) do to it.
use nycu_advanced_unix_progr.Base.{
  ℕ, zero, suc, ◌+◌, ◌-◌, ◌*◌, ◌/◌, ◌%◌, ◌^◌, ◌<◌, ◌≡◌, inl, inr, ◌&&◌, some, ltb, leb, ◌==◌,
  if◌then◌else◌, arith, Bool-cases, ap, ◌∙◌,
}
use nycu_advanced_unix_progr.Base.Int.{ℤ}
use nycu_advanced_unix_progr.Base.Word.{
  get_byte, word_at, trap, restore, trap-eq, restore-eq, get_byte-word_at, word_at-lt, get_byte-low,
  get_byte-low_zero,
}
use nycu_advanced_unix_progr.Debugger.Regs.{Regs}
use nycu_advanced_unix_progr.Debugger.Machine.{Machine}

-- `mem s p a` is the byte at address a of process p. PTRACE_POKETEXT writes the eight bytes of a
-- word, and where it succeeds PTRACE_PEEKTEXT reads eight bytes; the other requests that stop no
-- process leave the memory alone.
pub record Memory {S : Type 0} (m : Machine S) (mem : S → ℤ → ℕ → ℕ) : Type 0 where
  pub mem_byte : (s : S) (p : ℤ) (a : ℕ) → mem s p a < 256
  pub peek_word :
      (s : S) (p : ℤ) (a w : ℕ) (s' : S)
      → m.poke_text s p a w ≡ some s'
      → m.peek_text s p a ≡ word_at 8 (mem s p) a
  pub poke_bytes :
      (s : S) (p : ℤ) (a w : ℕ) (s' : S) (b : ℕ)
      → m.poke_text s p a w ≡ some s'
      → mem s' p b ≡ (if leb a b && ltb b (a + 8) then get_byte (b - a) w else mem s p b)
  pub set_regs_mem :
      (s : S) (p : ℤ) (r : Regs) (s' : S) (b : ℕ)
      → m.set_regs s p r ≡ some s'
      → mem s' p b ≡ mem s p b
  pub set_options_mem : (s : S) (p : ℤ) (b : ℕ) → mem (m.set_options s p) p b ≡ mem s p b

-- The kernel refuses no write.
abbrev pub Writable : {S : Type 0} → Machine S → Type 0
Writable {S} m = (s : S) (p : ℤ) (a w : ℕ) → (s' : S) × (m.poke_text s p a w ≡ some s')

-- Byte j of a memory's word whose lowest byte is replaced by x.
patched_byte :
    (f : ℕ → ℕ) (a x b j : ℕ)
    → ((c : ℕ) → f c < 256)
    → x < 256
    → b ≡ a + j
    → j < 8
    → get_byte j (word_at 8 f a / 256 * 256 + x) ≡ (if a == b then x else f b)
patched_byte f a x b zero byte small e l = ground (arith, get_byte-low_zero (word_at 8 f a) x small)
patched_byte f a x b (suc j) byte small e l =
    ground
      (arith, get_byte-low j (word_at 8 f a) x small, get_byte-word_at 8 f a (suc j) byte l, ap f e)

-- A memory whose byte at a is x, and which is else as before.
abbrev pub IsPatch : (ℕ → ℕ) → ℕ → ℕ → (ℕ → ℕ) → Type 0
IsPatch f a x g = (b : ℕ) → g b ≡ (if a == b then x else f b)

module _ {S : Type 0} (m : Machine S) (mem : S → ℤ → ℕ → ℕ) (law : Memory m mem) where
  -- A poke of the word that stands there, with another lowest byte, changes that byte alone.
  poke_low :
      (s : S) (p : ℤ) (a x w : ℕ) (s' : S)
      → x < 256
      → m.poke_text s p a w ≡ some s'
      → w ≡ word_at 8 (mem s p) a / 256 * 256 + x
      → IsPatch (mem s p) a x (mem s' p)
  poke_low s p a x w s' small e v b =
      law.poke_bytes s p a w s' b e ∙ elim (Bool-cases (leb a b && ltb b (a + 8))) [
        | inl inside ↦
            rw (inside, v)
              (patched_byte (mem s p) a x b (b - a) (law.mem_byte s p) small (ground arith)
                (ground arith))
        | inr outside ↦ rw outside (ground arith)
      ]

  peek_small :
      (s : S) (p : ℤ) (a w : ℕ) (s' : S)
      → m.poke_text s p a w ≡ some s'
      → m.peek_text s p a < 2 ^ 64
  peek_small s p a w s' e =
      rw (law.peek_word s p a w s' e) (word_at-lt (mem s p) a (law.mem_byte s p))

  -- The low byte of a word that is peeked where a poke succeeds.
  pub peek_low :
      (s : S) (p : ℤ) (a w : ℕ) (s' : S)
      → m.poke_text s p a w ≡ some s'
      → m.peek_text s p a % 256 ≡ mem s p a
  unfolding word_at
  peek_low s p a w s' e = rw (law.peek_word s p a w s' e) (omega (arith, law.mem_byte s p a))

  -- Setting the trap writes 0xcc at the address, and nothing else.
  pub trap_pokes :
      (s : S) (p : ℤ) (a : ℕ) (s' : S)
      → m.poke_text s p a (trap (m.peek_text s p a)) ≡ some s'
      → IsPatch (mem s p) a 0xcc (mem s' p)
  trap_pokes s p a s' e = poke_low s p a 0xcc _ s' (omega arith) e (
      trap-eq _ (peek_small s p a _ s' e)
      ∙ ap (λ (w : ℕ). w / 256 * 256 + 0xcc) (law.peek_word s p a _ s' e))

  -- Restoring writes the low byte of the saved word, and nothing else.
  pub restore_pokes :
      (s : S) (p : ℤ) (a code : ℕ) (s' : S)
      → m.poke_text s p a (restore (m.peek_text s p a) code) ≡ some s'
      → IsPatch (mem s p) a (code % 256) (mem s' p)
  restore_pokes s p a code s' e = poke_low s p a (code % 256) _ s' (omega arith) e (
      restore-eq _ code (peek_small s p a _ s' e)
      ∙ ap (λ (w : ℕ). w / 256 * 256 + code % 256) (law.peek_word s p a _ s' e))

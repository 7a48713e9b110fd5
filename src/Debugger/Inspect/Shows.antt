-- ===== src/Debugger/Inspect/Shows.antt =====
-- dump against the tracee's memory, byte by byte.
use nycu_advanced_unix_progr.Base.{
  ℕ, zero, suc, ◌+◌, ◌*◌, ◌/◌, ◌%◌, ◌^◌, ◌≤◌, ◌<◌, ◌≡◌, refl, ◌∙◌, some, List, [], ◌∷◌, ◌++◌, Bytes,
  map, append_assoc, append-nil, get_elem?, arith,
}
use nycu_advanced_unix_progr.Base.Int.{ℤ}
use nycu_advanced_unix_progr.Base.Word.{add64, word_bytes, word_at}
use nycu_advanced_unix_progr.Base.Strtol.{strtol}
use nycu_advanced_unix_progr.Debugger.Machine.{Machine}
use nycu_advanced_unix_progr.Debugger.Session.{running, Message, dump_line, Session, session, say}
use nycu_advanced_unix_progr.Debugger.Inspect.{shown, line_bytes, dump_lines, dump}

-- The n bytes of a memory from an address on.
abbrev pub mem_bytes : ℕ → (ℕ → ℕ) → ℕ → Bytes
mem_bytes zero f a = []
mem_bytes (suc n) f a = f a ∷ mem_bytes n f (a + 1)

-- Lines of 16 bytes, each with its address and its characters.
abbrev pub mem_lines : ℕ → (ℕ → ℕ) → ℕ → List Message
mem_lines zero f a = []
mem_lines (suc n) f a =
    dump_line a (mem_bytes 16 f a) (map shown (mem_bytes 16 f a)) ∷ mem_lines n f (a + 16)

word_bytes-word_at :
    (n : ℕ) (f : ℕ → ℕ) (a : ℕ)
    → ((b : ℕ) → f b < 256)
    → word_bytes n (word_at n f a) ≡ mem_bytes n f a
unfolding word_bytes word_at
word_bytes-word_at zero f a byte = refl
word_bytes-word_at (suc n) f a byte =
    let low : (f a + 256 * word_at n f (a + 1)) % 256 ≡ f a = omega (arith, byte a) in
    let high : (f a + 256 * word_at n f (a + 1)) / 256 ≡ word_at n f (a + 1) =
      omega (arith, byte a) in
    rw (low, high, word_bytes-word_at n f (a + 1) byte) refl

mem_bytes-add :
    (n k : ℕ) (f : ℕ → ℕ) (a : ℕ) → mem_bytes n f a ++ mem_bytes k f (a + n) ≡ mem_bytes (n + k) f a
mem_bytes-add zero k f a =
    let here : a + 0 ≡ a = omega arith in
    let none' : 0 + k ≡ k = omega arith in rw (here, none') refl
mem_bytes-add (suc n) k f a =
    let there : a + suc n ≡ a + 1 + n = omega arith in
    let more : suc n + k ≡ suc (n + k) = omega arith in
    rw (there, more, mem_bytes-add n k f (a + 1)) refl

-- The memory of the tracee can be read at every address.
abbrev pub IsReadable : {S : Type 0} → Machine S → (S → ℤ → ℕ → ℕ) → Type 0
IsReadable {S} m mem =
    (s : S) (p : ℤ) (a : ℕ) → (mem s p a < 256) × (m.peek_text s p a ≡ word_at 8 (mem s p) a)

module _ {S : Type 0} (m : Machine S) (mem : S → ℤ → ℕ → ℕ) (read : IsReadable m mem) where
  line_bytes-eq :
      (s : Session S) (a : ℕ) → a + 16 ≤ 2 ^ 64 → line_bytes m s a ≡ mem_bytes 16 (mem s.os s.pid) a
  unfolding line_bytes add64
  line_bytes-eq s a h =
      let there : (a + 8) % 2 ^ 64 ≡ a + 8 = omega arith in
      rw (there, (read s.os s.pid a).1, (read s.os s.pid (a + 8)).1)
        (rw
          (
            word_bytes-word_at 8 (mem s.os s.pid) a (λ b. (read s.os s.pid b).0),
            word_bytes-word_at 8 (mem s.os s.pid) (a + 8) (λ b. (read s.os s.pid b).0),
          )
          (mem_bytes-add 8 8 (mem s.os s.pid) a))

  dump_lines-eq :
      (n a : ℕ) (s : Session S)
      → a + 16 * n < 2 ^ 64
      → (dump_lines m n a s).out ≡ s.out ++ mem_lines n (mem s.os s.pid) a
  unfolding dump_lines add64
  dump_lines-eq zero a s h = rw append-nil refl
  dump_lines-eq (suc n) a s h =
      let there : (a + 16) % 2 ^ 64 ≡ a + 16 = omega arith in
      let bytes = mem_bytes 16 (mem s.os s.pid) a in
      rw (dump_lines, there, line_bytes-eq s a (omega arith))
        (dump_lines-eq n (a + 16) (say (dump_line a bytes (map shown bytes)) s) (omega arith)
          ∙ append_assoc s.out (dump_line a bytes (map shown bytes) ∷ [])
              (mem_lines n (mem s.os s.pid) (a + 16)))

  -- On a running program, where the memory can be read and the address is not at the very end of the
  -- address space: dump shows the 80 bytes of the tracee's memory from the address on, in five lines
  -- of 16 with their addresses, in memory order.
  pub dump-eq :
      (cmds : List Bytes) (s : Session S) (word : Bytes)
      → s.state ≡ running
      → get_elem? cmds 1 ≡ some word
      → strtol 0 word + 80 < 2 ^ 64
      → (session (dump m cmds s)).out ≡ s.out ++ mem_lines 5 (mem s.os s.pid) (strtol 0 word)
  unfolding dump
  dump-eq cmds s word run at h = ground (arith, dump_lines-eq 5 (strtol 0 word) s (omega arith))

-- ===== src/Debugger/Examples/Toy.antt =====
-- A small kernel for the examples: one tracee of a few bytes, whose memory is always readable and
-- writable, and a program file and a maps file of its own.
use mathlib.Core.Option.{some-injective}
use nycu_advanced_unix_progr.Base.{
  ℕ, zero, suc, ◌+◌, ◌-◌, ◌/◌, ◌%◌, ◌<◌, ◌≡◌, refl, subst, true, ◌&&◌, Option, none, some, List, [],
  ◌∷◌, ◌++◌, Bytes, codes, ltb, leb, if◌then◌else◌, arith,
}
use nycu_advanced_unix_progr.Base.Int.{ℤ, pos}
use nycu_advanced_unix_progr.Base.Word.{get_byte, word_bytes, word_at}
use nycu_advanced_unix_progr.Debugger.Regs.{Regs}
use nycu_advanced_unix_progr.Debugger.Machine.{Machine}
use nycu_advanced_unix_progr.Debugger.Memory.{Memory}
use nycu_advanced_unix_progr.Debugger.Stops.Text.{Obedient}
use nycu_advanced_unix_progr.Debugger.Stops.Hit.{RegFile}
use nycu_advanced_unix_progr.Debugger.Inspect.Shows.{IsReadable}

-- The tracee's bytes and registers, and the statuses that waitpid will give.
pub record World : Type 0 where
  pub bytes : ℕ → ℕ
  pub regs : Regs
  pub statuses : List ℕ

abbrev pub zero_regs : Regs
zero_regs = record {
  r15 = 0;
  r14 = 0;
  r13 = 0;
  r12 = 0;
  r11 = 0;
  r10 = 0;
  r9 = 0;
  r8 = 0;
  rbp = 0;
  rsp = 0;
  rsi = 0;
  rdi = 0;
  rip = 0x1000;
  rax = 5;
  rbx = 0;
  rcx = 0;
  rdx = 0;
  eflags = 0;
  others = [];
}

abbrev pub mem : World → ℤ → ℕ → ℕ
mem w p a = w.bytes a % 256

abbrev poke : (ℕ → ℕ) → ℕ → ℕ → ℕ → ℕ
poke f a v b = if leb a b && ltb b (a + 8) then get_byte (b - a) v else f b

abbrev set_rip : World → ℕ → World
set_rip w a = record w { regs = record w.regs { rip = a } }

abbrev next_status : World → List ℕ → Option (ℕ × World)
next_status w [] = none
next_status w (status ∷ l) = some (status, record w { statuses = l })

-- A file of one section, .text, whose header also describes the section names.
unfoldable pub elf_file : Bytes
unfolding word_bytes
elf_file =
    0x7f ∷ codes "ELF"
    ++ word_bytes 8 0
    ++ word_bytes 8 0
    ++ word_bytes 4 0
    ++ word_bytes 8 0x1000
    ++ word_bytes 8 0
    ++ word_bytes 8 80
    ++ word_bytes 8 0
    ++ word_bytes 2 0
    ++ word_bytes 2 64
    ++ word_bytes 2 1
    ++ word_bytes 2 0
    ++ codes ".text"
    ++ word_bytes 8 0
    ++ word_bytes 3 0
    ++ word_bytes 8 0
    ++ word_bytes 8 0
    ++ word_bytes 8 0x1000
    ++ word_bytes 8 64
    ++ word_bytes 8 16
    ++ word_bytes 8 0
    ++ word_bytes 8 0
    ++ word_bytes 8 0

abbrev pub maps_file : Bytes
maps_file = codes "1000-2000 r-xp 00000000 08:01 42 /bin/toy\n7000-8000 rw-p 00000000 00:00 0\n"

unfoldable pub toy : Machine World
unfolding word_at
toy = record {
  peek_text = λ w p a. word_at 8 (mem w p) a;
  poke_text = λ w p a v. some (record w { bytes = poke w.bytes a v });
  get_regs = λ w p. some w.regs;
  set_regs = λ w p r. some (record w { regs = r });
  single_step = λ w p. some (set_rip w (w.regs.rip + 1));
  cont_request = λ w p. some (set_rip w 0x1005);
  set_options = λ w p. w;
  wait_pid = λ w p. next_status w w.statuses;
  fork = λ w. (pos 7, w);
  trace_me = λ w. none;
  execvp = λ w path. none;
  read_file = λ w path. some elf_file;
  read_maps = λ w p. some maps_file;
  cs_open = true;
  stack_room = 1000;
  cs_disasm = λ code a. some (record { insn_size = 1; within = omega arith; text = codes "nop" });
}

get_byte-lt : (j w : ℕ) → get_byte j w < 256
unfolding get_byte
get_byte-lt zero w = omega arith
get_byte-lt (suc j) w = get_byte-lt j (w / 256)

poke_mod :
    (f : ℕ → ℕ) (a v b : ℕ)
    → poke f a v b % 256 ≡ (if leb a b && ltb b (a + 8) then get_byte (b - a) v else f b % 256)
poke_mod f a v b = ground (arith, get_byte-lt (b - a) v)

pub toy_memory : Memory toy mem
unfolding word_at toy
toy_memory = record {
  mem_byte = λ s p a. omega arith;
  peek_word = λ s p a w s' e. refl;
  poke_bytes = λ s p a w s' b e.
      subst
        (λ (t : World).
          mem t p b ≡ (if leb a b && ltb b (a + 8) then get_byte (b - a) w else mem s p b))
        (some-injective (record s { bytes = poke s.bytes a w }) s' e) (poke_mod s.bytes a w b);
  set_regs_mem = λ s p r s' b e.
      subst (λ (t : World). mem t p b ≡ mem s p b) (some-injective (record s { regs = r }) s' e)
        refl;
  set_options_mem = λ s p b. refl;
}

-- The tracee stops after start and after each run, and at last ends.
abbrev pub world : World
world = record {
  bytes = λ a. 0x90 + a % 16;
  regs = zero_regs;
  statuses = 0x57f ∷ 0x57f ∷ 0x57f ∷ 0 ∷ [];
}

next_status-mem :
    (w : World) (l : List ℕ) (status : ℕ) (w' : World) (p : ℤ) (b : ℕ)
    → next_status w l ≡ some (status, w')
    → mem w' p b ≡ mem w p b
next_status-mem w [] status w' p b e = absurd (cc)
next_status-mem w (x ∷ l) status w' p b e =
    subst (λ (t : ℕ × World). mem t.1 p b ≡ mem w p b)
      (some-injective (x, record w { statuses = l }) (status, w') e) refl

-- The tracee never writes to its own memory.
pub toy_obeys : Obedient toy mem 0x1000 0x100f
unfolding toy
toy_obeys = record {
  writes = λ s p a w. (_, refl);
  steps = λ s p. (_, refl);
  step_text = λ s p s' b e l r.
      subst (λ (t : World). mem t p b ≡ mem s p b)
        (some-injective (set_rip s (s.regs.rip + 1)) s' e) refl;
  cont_text = λ s p s' b e l r.
      subst (λ (t : World). mem t p b ≡ mem s p b) (some-injective (set_rip s 0x1005) s' e) refl;
  wait_text = λ s p status s' b e l r. next_status-mem s s.statuses status s' p b e;
}

pub toy_file : RegFile toy
unfolding toy
toy_file = record {
  set_works = λ s p r. (_, refl);
  get_set = λ s p r s' e.
      subst (λ (t : World). toy.get_regs t p ≡ some r) (some-injective (record s { regs = r }) s' e)
        refl;
}

pub toy-IsReadable : IsReadable toy mem
unfolding toy
toy-IsReadable s p a = (omega arith, refl)

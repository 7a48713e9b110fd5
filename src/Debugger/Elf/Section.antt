-- ===== src/Debugger/Elf/Section.antt =====
-- The text range that elf64_parser finds is that of the first section with the name .text.

use nycu_advanced_unix_progr.Base.{
  ℕ, zero, suc, ◌+◌, ◌*◌, ◌<◌, ◌≤◌, ◌≡◌, refl, sym, ◌∙◌, ap, ◌^◌, if◌then◌else◌, length, leb, inl,
  inr, Bool, true, false, ◌||◌, Option, none, some, ◌∷◌, Bytes, codes, ltb, drop, take, arith,
  Bool-cases, Option-cases, subst, ==_iff, ◌==◌, bytes_eq,
}
use nycu_advanced_unix_progr.Base.Word.{add64, sub64}
use nycu_advanced_unix_progr.Debugger.Elf.{
  seek, read_at, Ehdr, ehdr, Shdr, shdr, cstr_eq, ElfResult, undefined_read, parsed, find_text,
  with_names, elf64_parser,
}

-- The section that e_shstrndx numbers.
abbrev pub name_table : Bytes → Ehdr → Option Bytes
name_table file h = elim (read_at file (h.e_shoff + h.e_shstrndx * h.e_shentsize) 64) [
  | none ↦ none
  | some bytes ↦ some (take (shdr bytes).sh_size (drop (shdr bytes).sh_offset file))
]

-- Section header number i of a file.
abbrev pub section_at : Bytes → Ehdr → ℕ → Option Shdr
section_at file h i = elim (read_at file (h.e_shoff + i * h.e_shentsize) h.e_shentsize) [
  | none ↦ none
  | some bytes ↦ some (shdr bytes)
]

-- Whether a section's name, in the table of names, is .text.
abbrev pub is_text : Bytes → Shdr → Option Bool
is_text names cur = cstr_eq (drop cur.sh_name names) (codes ".text")

-- Header number i is readable, and its name is another.
abbrev pub IsOther : Bytes → Ehdr → Bytes → ℕ → Type 0
IsOther file h names i =
    (cur : Shdr) × (section_at file h i ≡ some cur) × (is_text names cur ≡ some false)

-- Header number k is the first one with that name, and its range is lo to hi.
pub record FirstText (file : Bytes) (h : Ehdr) (names : Bytes) (i k lo hi : ℕ) : Type 0 where
  pub cur : Shdr
  pub readable : section_at file h k ≡ some cur
  pub name : is_text names cur ≡ some true
  pub begin : lo ≡ cur.sh_addr
  pub end' : hi ≡ sub64 (add64 cur.sh_addr cur.sh_size) 1
  pub others : (j : ℕ) → i ≤ j → j < k → IsOther file h names j

-- The offsets of the section headers, and of the table of names, are offsets that fseek takes.
pub record PlainOffsets (file : Bytes) (h : Ehdr) : Type 0 where
  pub headers : (i : ℕ) → i < h.e_shnum → h.e_shoff + i * h.e_shentsize < 2 ^ 63
  pub table : h.e_shoff + h.e_shstrndx * h.e_shentsize < 2 ^ 63
  pub names :
      (bytes : Bytes)
      → read_at file (h.e_shoff + h.e_shstrndx * h.e_shentsize) 64 ≡ some bytes
      → (shdr bytes).sh_offset < 2 ^ 63

seek-plain : (pos off n : ℕ) → off + n < 2 ^ 63 → seek pos (add64 off n) ≡ off + n
unfolding add64
seek-plain pos off n h = ground arith

-- A round of the loop, with the position that fseek has found.
abbrev round : ℕ → ℕ → Bytes → ℕ → Ehdr → Bytes → ElfResult
round n i file there h names =
    let rest = find_text n (i + 1) file (there + h.e_shentsize) h names in
    if ltb 64 h.e_shentsize || ltb h.e_shentsize 40
    then undefined_read
    else elim (read_at file there h.e_shentsize) [
      | none ↦ undefined_read
      | some bytes ↦
          let cur = shdr bytes in
          elim (is_text names cur) [
            | none ↦ undefined_read
            | some true ↦
                parsed h.e_entry (some (cur.sh_addr, sub64 (add64 cur.sh_addr cur.sh_size) 1))
            | some false ↦ rest
          ]
    ]

find_text-round :
    (n i : ℕ) (file : Bytes) (pos : ℕ) (h : Ehdr) (names : Bytes)
    → h.e_shoff + i * h.e_shentsize < 2 ^ 63
    → find_text (suc n) i file pos h names ≡ round n i file (h.e_shoff + i * h.e_shentsize) h names
unfolding find_text
find_text-round n i file pos h names small =
    ap (λ (there : ℕ). round n i file there h names)
      (seek-plain pos h.e_shoff (i * h.e_shentsize) small)

find_text-FirstText :
    (n i : ℕ) (file : Bytes) (pos : ℕ) (h : Ehdr) (names : Bytes) (entry lo hi : ℕ)
    → ((j : ℕ) → j < i + n → h.e_shoff + j * h.e_shentsize < 2 ^ 63)
    → find_text n i file pos h names ≡ parsed entry (some (lo, hi))
    → (entry ≡ h.e_entry) × (k : ℕ) × (i ≤ k) × (k < i + n) × FirstText file h names i k lo hi
unfolding find_text
find_text-FirstText zero i file pos h names entry lo hi small e = absurd (cc)
find_text-FirstText (suc n) i file pos h names entry lo hi small whole =
    let e : round n i file (h.e_shoff + i * h.e_shentsize) h names ≡ parsed entry (some (lo, hi)) =
      sym (find_text-round n i file pos h names (small i (omega arith))) ∙ whole in
    elim (Bool-cases (ltb 64 h.e_shentsize || ltb h.e_shentsize 40)) [
      | inl bad ↦ absurd (ground arith)
      | inr good ↦
          elim (Option-cases (read_at file (h.e_shoff + i * h.e_shentsize) h.e_shentsize)) [
            | inl fails ↦ absurd (ground arith)
            | inr (bytes, there) ↦ elim (Option-cases (is_text names (shdr bytes))) [
              | inl outside ↦ absurd (ground arith)
              | inr (true, named) ↦ (
                ground arith,
                i,
                omega arith,
                omega arith,
                record {
                  cur = shdr bytes;
                  readable = ground arith;
                  name = named;
                  begin = ground arith;
                  end' = ground arith;
                  others = λ j l r. absurd (omega arith);
                },
              )
              | inr (false, named) ↦
                  let (same, k, le, lt, first) =
                    find_text-FirstText n (i + 1) file
                      (h.e_shoff + i * h.e_shentsize + h.e_shentsize) h names entry lo hi
                      (λ j l. small j (omega arith)) (ground arith) in
                  (
                    same,
                    k,
                    omega arith,
                    omega arith,
                    record {
                      cur = first.cur;
                      readable = first.readable;
                      name = first.name;
                      begin = first.begin;
                      end' = first.end';
                      others = λ j l r. elim (Bool-cases (j == i)) [
                        | inl here ↦
                            subst (IsOther file h names) (sym ((==_iff j i).0 here))
                              (shdr bytes, ground arith, named)
                        | inr later ↦ first.others j (ground arith) r
                      ];
                    },
                  )
            ]
          ]
    ]

with_names-loop :
    (room : ℕ) (file : Bytes) (pos : ℕ) (h : Ehdr) (shstr : Shdr) (entry lo hi : ℕ)
    → shstr.sh_offset < 2 ^ 63
    → with_names room file pos h shstr ≡ parsed entry (some (lo, hi))
    → (pos' : ℕ) × (find_text h.e_shnum 0 file pos' h
          (take shstr.sh_size (drop shstr.sh_offset file))
        ≡ parsed entry (some (lo, hi)))
unfolding with_names
with_names-loop room file pos h shstr entry lo hi small e =
    let there = seek-plain pos shstr.sh_offset 0 (omega arith) in
    elim (Bool-cases (shstr.sh_size == 0 || ltb room shstr.sh_size)) [
      | inl bad ↦ absurd (ground arith)
      | inr good ↦
          let at : seek pos shstr.sh_offset ≡ shstr.sh_offset = ground arith in
          (
            shstr.sh_offset + length (take shstr.sh_size (drop shstr.sh_offset file)),
            ap
                  (λ (p : ℕ).
                    find_text h.e_shnum 0 file (p + length (take shstr.sh_size (drop p file))) h
                      (take shstr.sh_size (drop p file)))
                  (sym at)
                ∙ ground arith,
          )
    ]

-- The end of elf64_parser, with the position that fseek has found.
abbrev table_at : ℕ → Bytes → Ehdr → ℕ → ElfResult
table_at room file h there = elim (read_at file there 64) [
  | none ↦ undefined_read
  | some bytes ↦ with_names room file (there + 64) h (shdr bytes)
]

table_at-FirstText :
    (room : ℕ) (file : Bytes) (h : Ehdr) (entry lo hi : ℕ)
    → PlainOffsets file h
    → table_at room file h (h.e_shoff + h.e_shstrndx * h.e_shentsize) ≡ parsed entry (some (lo, hi))
    → (names : Bytes) × (k : ℕ) × (name_table file h ≡ some names)
      × (entry ≡ h.e_entry)
      × (k < h.e_shnum)
      × FirstText file h names 0 k lo hi
table_at-FirstText room file h entry lo hi plain e =
    let off = h.e_shoff + h.e_shstrndx * h.e_shentsize in
    elim (Option-cases (read_at file off 64)) [
      | inl fails ↦ absurd (ground arith)
      | inr (bytes, found) ↦
          let names = take (shdr bytes).sh_size (drop (shdr bytes).sh_offset file) in
          let (pos, loop) =
            with_names-loop room file (off + 64) h (shdr bytes) entry lo hi
              (plain.names bytes found) (ground arith) in
          let (same, k, le, lt, first) =
            find_text-FirstText h.e_shnum 0 file pos h names entry lo hi
              (λ j l. plain.headers j (omega arith)) loop in
          (names, k, ground arith, same, omega arith, first)
    ]

-- For a file whose header gives no offsets that wrap around or that fseek refuses: where elf64_parser
-- gives a text range, the header of the file and its table of section names are readable, the entry
-- point is the header's, and the range is that of the first section whose name is .text: it begins at
-- the section's address and ends at its last byte.
pub elf64_parser-FirstText :
    (room : ℕ) (file : Bytes) (entry lo hi : ℕ)
    → let h = ehdr (take 64 file) in
      PlainOffsets file h
      → elf64_parser room file ≡ parsed entry (some (lo, hi))
      → (names : Bytes) × (k : ℕ) × (read_at file 0 64 ≡ some (take 64 file))
        × (name_table file h ≡ some names)
        × (entry ≡ h.e_entry)
        × (k < h.e_shnum)
        × FirstText file h names 0 k lo hi
unfolding elf64_parser read_at
elf64_parser-FirstText room file entry lo hi plain e = elim (Bool-cases (leb 64 (length file))) [
  | inr fails ↦ absurd (ground arith)
  | inl long ↦
      let h = ehdr (take 64 file) in
      let off = h.e_shoff + h.e_shstrndx * h.e_shentsize in
      let first = seek 64 h.e_shoff in
      let behind = first + length (take 64 (drop first file)) in
      let at = seek-plain behind h.e_shoff (h.e_shstrndx * h.e_shentsize) plain.table in
      elim (Bool-cases (bytes_eq (take 4 (take 64 file)) (0x7f ∷ codes "ELF"))) [
        | inr other ↦ absurd (ground arith)
        | inl magic ↦ elim (Bool-cases (leb (2 ^ 31) (h.e_shstrndx * h.e_shentsize))) [
          | inl large ↦ absurd (ground arith)
          | inr small ↦
              let there = seek behind (add64 h.e_shoff (h.e_shstrndx * h.e_shentsize)) in
              let tail : elf64_parser room file ≡ table_at room file h there =
                rw (elf64_parser, read_at, long, magic, small) refl in
              let whole = sym (ap (table_at room file h) at) ∙ (sym tail ∙ e) in
              let (names, k, table, same, lt, found) =
                table_at-FirstText room file h entry lo hi plain whole in
              (names, k, rw (read_at, long) refl, table, same, lt, found)
        ]
      ]
]

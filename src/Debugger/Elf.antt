-- ===== src/Debugger/Elf.antt =====
-- elf64_parser of hw4/parser.hpp: the entry point and the range of the .text section of an ELF file,
-- whose bytes are given. Header fields lie where <elf.h> puts them, in little-endian order.
pub mod Section
use nycu_advanced_unix_progr.Base.{
  ℕ, zero, suc, ◌+◌, ◌*◌, ◌^◌, Bool, true, false, not, ◌||◌, Option, none, some, [], ◌∷◌, Bytes,
  codes, bytes_eq, ltb, leb, ◌==◌, if◌then◌else◌, length, take, drop,
}
use nycu_advanced_unix_progr.Base.Word.{add64, sub64}

-- The number of some bytes in little-endian order.
unfoldable pub le_value : Bytes → ℕ
le_value [] = 0
le_value (b ∷ s) = b + 256 * le_value s

-- fread of n bytes from a position on; `none` where the file ends before.
unfoldable pub read_at : Bytes → ℕ → ℕ → Option Bytes
read_at file off n = if leb (off + n) (length file) then some (take n (drop off file)) else none

-- The position behind fseek(fptr, off, SEEK_SET): an offset that is negative as a `long` is refused.
abbrev pub seek : ℕ → ℕ → ℕ
seek pos off = if ltb off (2 ^ 63) then off else pos

-- The field of n bytes at an offset of a header.
unfoldable pub field : Bytes → ℕ → ℕ → ℕ
unfolding le_value
field header off n = le_value (take n (drop off header))

-- Elf64_Ehdr, as far as it is used.
pub record Ehdr : Type 0 where
  pub e_entry : ℕ
  pub e_shoff : ℕ
  pub e_shentsize : ℕ
  pub e_shnum : ℕ
  pub e_shstrndx : ℕ

unfoldable pub ehdr : Bytes → Ehdr
unfolding field
ehdr h = record {
  e_entry = field h 24 8;
  e_shoff = field h 40 8;
  e_shentsize = field h 58 2;
  e_shnum = field h 60 2;
  e_shstrndx = field h 62 2;
}

-- Elf64_Shdr, as far as it is used.
pub record Shdr : Type 0 where
  pub sh_name : ℕ
  pub sh_addr : ℕ
  pub sh_offset : ℕ
  pub sh_size : ℕ

unfoldable pub shdr : Bytes → Shdr
unfolding field
shdr h = record {
  sh_name = field h 0 4;
  sh_addr = field h 16 8;
  sh_offset = field h 24 8;
  sh_size = field h 32 8;
}

-- strcmp(buffer, text) == 0; `none` where the comparison runs past the end of the buffer.
unfoldable pub cstr_eq : Bytes → Bytes → Option Bool
cstr_eq [] text = none
cstr_eq (c ∷ s) [] = some (c == 0)
cstr_eq (c ∷ s) (t ∷ text) = let rest = cstr_eq s text in if c == t then rest else some false

-- How elf64_parser ends. `undefined` is a read of memory that no fread has filled, or one outside
-- the buffer; a text range of `none` leaves the caller's variables alone.
pub data ElfResult : Type 0 where
  invalid undefined_read : ElfResult
  parsed : ℕ → Option (ℕ × ℕ) → ElfResult

-- The loop over the section headers, with n to go from number i on and the file at a position. Each
-- fread fills a buffer of 64 bytes, of which the first 40 are looked at.
unfoldable pub find_text : ℕ → ℕ → Bytes → ℕ → Ehdr → Bytes → ElfResult
unfolding read_at shdr cstr_eq
find_text zero i file pos h names = parsed h.e_entry none
find_text (suc n) i file pos h names =
    let there = seek pos (add64 h.e_shoff (i * h.e_shentsize)) in
    let rest = find_text n (i + 1) file (there + h.e_shentsize) h names in
    if ltb 64 h.e_shentsize || ltb h.e_shentsize 40
    then undefined_read
    else elim (read_at file there h.e_shentsize) [
      | none ↦ undefined_read
      | some bytes ↦
          let cur = shdr bytes in
          elim (cstr_eq (drop cur.sh_name names) (codes ".text")) [
            | none ↦ undefined_read
            | some true ↦
                parsed h.e_entry (some (cur.sh_addr, sub64 (add64 cur.sh_addr cur.sh_size) 1))
            | some false ↦ rest
          ]
    ]

-- The table of section names, from the section header of it, and the loop: an array of no bytes, or of
-- more than the stack has room for, is undefined.
unfoldable pub with_names : ℕ → Bytes → ℕ → Ehdr → Shdr → ElfResult
unfolding find_text
with_names room file pos h shstr =
    if shstr.sh_size == 0 || ltb room shstr.sh_size
    then undefined_read
    else let there = seek pos shstr.sh_offset in
      let names = take shstr.sh_size (drop there file) in
      find_text h.e_shnum 0 file (there + length names) h names

-- The header at the front of the file and its magic number; the first section header, which is not
-- used; the one of the table of names. The product of two 16-bit fields is an int.
unfoldable pub elf64_parser : ℕ → Bytes → ElfResult
unfolding read_at ehdr shdr with_names
elf64_parser room file = elim (read_at file 0 64) [
  | none ↦ undefined_read
  | some header ↦
      if not (bytes_eq (take 4 header) (0x7f ∷ codes "ELF"))
      then invalid
      else let h = ehdr header in
        let first = seek 64 h.e_shoff in
        let behind = first + length (take 64 (drop first file)) in
        let there = seek behind (add64 h.e_shoff (h.e_shstrndx * h.e_shentsize)) in
        if leb (2 ^ 31) (h.e_shstrndx * h.e_shentsize)
        then undefined_read
        else elim (read_at file there 64) [
          | none ↦ undefined_read
          | some bytes ↦ with_names room file (there + 64) h (shdr bytes)
        ]
]

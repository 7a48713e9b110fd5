-- ===== src/Lsof/File.antt =====
-- hw1/file.hpp: one line of the list, and how its columns come from a mode.
use nycu_advanced_unix_progr.Base.{
  ℕ, Bool, true, false, not, ◌&&◌, Option, none, some, [], ◌∷◌, ◌++◌, bit_and, Bytes, codes, leb,
  ◌==◌, if◌then◌else◌,
}
use nycu_advanced_unix_progr.Base.Decimal.{to_string}

-- class file
pub record OpenFile : Type 0 where
  pub fd : Bytes
  pub type : Bytes
  pub inode : Bytes
  pub name : Bytes

-- What the code takes from struct stat.
pub record Stat : Type 0 where
  pub st_mode : ℕ
  pub st_ino : ℕ
  pub st_uid : ℕ

abbrev pub is_digit_char : ℕ → Bool
is_digit_char c = leb b'0' c && leb c b'9'

abbrev pub all_digits : Bytes → Bool
all_digits [] = true
all_digits (c ∷ s) = is_digit_char c && all_digits s

-- regex_match(s, "\\d+")
abbrev pub is_number : Bytes → Bool
is_number [] = false
is_number (c ∷ s) = all_digits (c ∷ s)

-- S_IRUSR and S_IWUSR
abbrev pub owner_reads : ℕ → Bool
owner_reads mode = not (bit_and mode 0x100 == 0)

abbrev pub owner_writes : ℕ → Bool
owner_writes mode = not (bit_and mode 0x80 == 0)

-- set_fd_field: the fd column, which stays empty for a descriptor without permissions.
unfoldable pub set_fd_field : Bytes → ℕ → Bytes
set_fd_field fd_field mode =
    if not (is_number fd_field)
    then fd_field
    else if owner_reads mode && owner_writes mode
    then fd_field ++ codes "u"
    else if owner_reads mode
    then fd_field ++ codes "r"
    else if owner_writes mode
    then fd_field ++ codes "w"
    else []

-- set_type_field: the cases of mode & S_IFMT.
unfoldable pub set_type_field : ℕ → Bytes
set_type_field mode =
    let kind = bit_and mode 0xf000 in
    if kind == 0x4000
    then codes "DIR"
    else if kind == 0x8000
    then codes "REG"
    else if kind == 0x2000
    then codes "CHR"
    else if kind == 0x1000
    then codes "FIFO"
    else if kind == 0xc000
    then codes "SOCK"
    else codes "unknown"

-- file(fd_field, path, file_name), with the answers of stat and lstat; `none` is the exception.
unfoldable pub new_file : Bytes → Option Stat → Option Stat → Bytes → Option OpenFile
unfolding set_fd_field set_type_field
new_file fd_field none lstatbuf file_name = none
new_file fd_field (some statbuf) none file_name = none
new_file fd_field (some statbuf) (some lstatbuf) file_name = some (record {
  fd = set_fd_field fd_field lstatbuf.st_mode;
  type = set_type_field statbuf.st_mode;
  inode = to_string statbuf.st_ino;
  name = file_name;
})

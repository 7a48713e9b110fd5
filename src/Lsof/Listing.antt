-- ===== src/Lsof/Listing.antt =====
-- hw1/hw1.cpp and hw1/argument_parser.hpp: the options, the users, and the list of all processes.
pub mod Filtered
pub mod Gone
use nycu_advanced_unix_progr.Base.{
  ℕ, suc, ◌+◌, ◌-◌, ◌%◌, ◌^◌, Bool, true, false, not, ◌&&◌, Option, none, some, List, [], ◌∷◌, ◌++◌,
  Bytes, codes, length, get_elem?, ◌==◌, if◌then◌else◌,
}
use nycu_advanced_unix_progr.Base.Int.{ℤ, pos, negsuc}
use nycu_advanced_unix_progr.Base.Options.{◌>>=◌}
use nycu_advanced_unix_progr.Base.Strtol.{atoi}
use nycu_advanced_unix_progr.Lsof.File.{OpenFile, is_number}
use nycu_advanced_unix_progr.Lsof.Process.{Proc, Process, strtok_all, read_lines}
use nycu_advanced_unix_progr.Lsof.Examine.{examine}

-- A compiled std::regex.
pub record Regex : Type 0 where
  pub search : Bytes → Bool
  pub matches : Bytes → Bool

-- The three filters of the options.
pub record Filters : Type 0 where
  pub filter_command : Regex
  pub filter_type : Regex
  pub filter_file_name : Regex

-- A line of the list.
pub record Row : Type 0 where
  pub command : Bytes
  pub pid : Bytes
  pub user_name : Bytes
  pub file : OpenFile

abbrev pub row : Process → OpenFile → Row
row p f = record { command = p.command; pid = p.pid; user_name = p.user_name; file = f }

-- The loop of print_opening_files.
unfoldable pub print_files : Filters → Process → List OpenFile → List Row
print_files filters p [] = []
print_files filters p (f ∷ files) =
    let rest = print_files filters p files in
    if filters.filter_type.search f.type && filters.filter_file_name.search f.name
    then row p f ∷ rest
    else rest

unfoldable pub print_opening_files : Filters → Process → List Row
unfolding print_files
print_opening_files filters p =
    if p.alive && filters.filter_command.search p.command
    then print_files filters p p.file_list
    else []

-- An answer of getopt(argc, argv, "c:t:f:"), with its optarg.
pub data LsofOption : Type 0 where
  option_c option_t option_f : Bytes → LsofOption
  option_bad : LsofOption

-- `argument_parser`, where `compile` makes a regex or throws; `none` is the exception, and
-- `invalid_type` the message for a -t that the type filter so far does not match.
pub data Parsed : Type 0 where
  invalid_type : Parsed
  filtered : Filters → Parsed

unfoldable pub argument_parser : (Bytes → Option Regex) → List LsofOption → Filters → Option Parsed
argument_parser compile [] filters = some (filtered filters)
argument_parser compile (option_c optarg ∷ options) filters = do
  re ← compile optarg
  argument_parser compile options (record filters { filter_command = re })
argument_parser compile (option_t optarg ∷ options) filters =
    if filters.filter_type.matches optarg
    then (do
      re ← compile optarg
      argument_parser compile options (record filters { filter_type = re }))
    else some invalid_type
argument_parser compile (option_f optarg ∷ options) filters = do
  re ← compile optarg
  argument_parser compile options (record filters { filter_file_name = re })
argument_parser compile (option_bad ∷ options) filters = argument_parser compile options filters

-- The filters that main begins with.
unfoldable pub default_filters : (Bytes → Option Regex) → Option Filters
default_filters compile = do
  any_command ← compile (codes ".*")
  types ← compile (codes "REG|CHR|DIR|FIFO|SOCK|unknown|")
  any_name ← compile (codes ".*")
  some (record { filter_command = any_command; filter_type = types; filter_file_name = any_name })

-- `user_table[uid]`, which is empty for an unknown user.
abbrev pub user_of : List (ℕ × Bytes) → ℕ → Bytes
user_of [] uid = []
user_of ((known, name) ∷ table) uid = if known == uid then name else user_of table uid

-- A uid_t made of an int.
abbrev pub uid_of : ℤ → ℕ
uid_of (pos n) = n % 2 ^ 32
uid_of (negsuc n) = 2 ^ 32 - 1 - n

abbrev pub is_colon : ℕ → Bool
is_colon c = c == b':'

-- The loop of set_user_table; a later line replaces an earlier one. `none` is a missing field.
unfoldable pub user_lines : List Bytes → List (ℕ × Bytes) → Option (List (ℕ × Bytes))
user_lines [] table = some table
user_lines (line ∷ lines) table =
    let tokens = strtok_all is_colon [] line in
    elim (get_elem? tokens 0) [
      | none ↦ none
      | some user_name ↦ elim (get_elem? tokens 2) [
        | none ↦ none
        | some token ↦ user_lines lines ((uid_of (atoi token), user_name) ∷ table)
      ]
    ]

-- set_user_table, on the text of /etc/passwd; `none` if it cannot be opened, as fgets then gets a
-- null pointer.
unfoldable pub set_user_table : Option Bytes → Option (List (ℕ × Bytes))
unfolding user_lines
set_user_table none = none
set_user_table (some passwd) = user_lines (read_lines (length passwd + 1) passwd) []

module _ (proc : Proc) where
  -- The loop of main over the names in /proc.
  unfoldable pub list_processes : (ℕ → Bytes) → Filters → List Bytes → Option (List Row)
  list_processes users filters [] = some []
  list_processes users filters (d_name ∷ names) =
      if not (is_number d_name) then list_processes users filters names else do
        p ← examine proc users d_name
        rest ← list_processes users filters names
        some (print_opening_files filters p ++ rest)

  -- main: the rows behind the heading, or the exit for an invalid type.
  unfoldable pub lsof :
      (Bytes → Option Regex)
      → List LsofOption
      → Option Bytes
      → List Bytes
      → Option (Option (List Row))
  lsof compile options passwd names = do
    defaults ← default_filters compile
    parsed ← argument_parser compile options defaults
    elim parsed [
      | invalid_type ↦ some none
      | filtered filters ↦ do
        table ← set_user_table passwd
        rows ← list_processes (user_of table) filters names
        some (some rows)
    ]

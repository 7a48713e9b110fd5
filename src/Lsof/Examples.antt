-- ===== src/Lsof/Examples.antt =====
-- A small /proc of two processes, the list that lsof makes of it, and the theorems applied to it.
use nycu_advanced_unix_progr.Base.{
  ℕ, suc, ◌+◌, ◌||◌, ◌≡◌, refl, ◌⊎◌, inl, inr, true, false, Option, none, some, List, [], ◌∷◌, ◌++◌,
  Bytes, codes, bytes_eq, length, All, arith, if◌then◌else◌, ◌==◌,
}
use nycu_advanced_unix_progr.Base.Ctype.{c_str}
use nycu_advanced_unix_progr.Base.Decimal.{to_string, digits}
use nycu_advanced_unix_progr.Base.Stdio.{fgets}
use nycu_advanced_unix_progr.Base.Strtol.{atoi}
use nycu_advanced_unix_progr.Lsof.File.{Stat, set_fd_field, set_type_field, new_file}
use nycu_advanced_unix_progr.Lsof.Process.{
  answered, Proc, Process, chop, strtok_all, read_lines, link_name, erase_first, contains,
}
use nycu_advanced_unix_progr.Lsof.Examine.{
  memory_map_line, maps_lines, set_command, set_user_name, linked_file, special_loop,
  handle_special_files, handle_memory_maps, fd_loop, handle_file_descriptors, set_pid, examine,
}
use nycu_advanced_unix_progr.Lsof.Listing.{
  Regex, Filters, Row, print_files, print_opening_files, option_t, argument_parser, invalid_type,
  user_lines, set_user_table, list_processes,
}
use nycu_advanced_unix_progr.Lsof.Listing.Filtered.{
  no_filters, passes, select_rows, list_processes-select,
}
use nycu_advanced_unix_progr.Lsof.Listing.Gone.{gone_prints_nothing}

-- Lines of two mappings of one file and of one that is deleted, and of the heap.
abbrev maps_text : Bytes
maps_text =
    codes
      "0-1 r-xp 0 08:01 7 /bin/sh\n1-2 rw-p 0 08:01 7 /bin/sh\n2-3 rw-p 0 0:0 0\n3-4 r--p 0 08:01 9 /lib/a (deleted)\n"

abbrev a_file : Stat
a_file = record { st_mode = 0x8180; st_ino = 42; st_uid = 1000 }

-- Process 7 has a shell open, process 8 is gone.
abbrev toy_proc : Proc
toy_proc = record {
  read_comm = λ path. if bytes_eq path (codes "/proc/7/comm") then some (codes "sh\n") else none;
  readlink = λ path.
      if bytes_eq path (codes "/proc/7/fd/0")
      then answered (codes "/dev/x (deleted)")
      else answered (codes "/");
  open_maps = λ path. answered maps_text;
  read_dir = λ path. answered (codes "." ∷ codes ".." ∷ codes "0" ∷ []);
  stat = λ path. some a_file;
  lstat = λ path. some a_file;
}

abbrev users : ℕ → Bytes
users uid = if uid == 1000 then codes "me" else []

-- Only names with a given text.
abbrev named : Bytes → Filters
named text = record no_filters {
  filter_file_name = record { search = λ s. contains text s; matches = λ s. bytes_eq text s };
}

abbrev found : List Row
found =
    record {
      command = codes "sh";
      pid = codes "7";
      user_name = codes "me";
      file = record {
        fd = codes "0u";
        type = codes "REG";
        inode = codes "42";
        name = codes "/dev/x";
      };
    }
    ∷ []

device_listed :
    list_processes toy_proc users (named (codes "/dev")) (codes "7" ∷ codes "self" ∷ codes "8" ∷ [])
    ≡ some found
unfolding list_processes examine set_command chop c_str set_pid set_user_name handle_special_files
    special_loop linked_file link_name erase_first new_file set_fd_field set_type_field to_string
    digits handle_memory_maps read_lines fgets maps_lines memory_map_line strtok_all contains
    handle_file_descriptors fd_loop print_opening_files print_files
device_listed = refl

list_processes-select_example :
    list_processes toy_proc users (named (codes "/dev")) (codes "7" ∷ [])
    ≡ select_rows
        (passes (named (codes "/dev")))
        (list_processes toy_proc users no_filters (codes "7" ∷ []))
list_processes-select_example =
    list_processes-select toy_proc users (named (codes "/dev")) (codes "7" ∷ [])

gone_prints_nothing_example :
    (p : Process) × (examine toy_proc users (codes "8") ≡ some p)
    × ((filters : Filters) → print_opening_files filters p ≡ [])
gone_prints_nothing_example = gone_prints_nothing toy_proc users (codes "8") (inl refl)

-- A regex that matches one text; the types of main are two here.
abbrev only : Bytes → Option Regex
only text = some (record { search = λ s. bytes_eq text s; matches = λ s. bytes_eq text s })

abbrev reg_or_dir : Filters
reg_or_dir = record no_filters {
  filter_type = record {
    search = λ s. true;
    matches = λ s. bytes_eq s (codes "REG") || bytes_eq s (codes "DIR");
  };
}

-- A second -t is held against the first one.
second_type :
    argument_parser only (option_t (codes "REG") ∷ option_t (codes "DIR") ∷ []) reg_or_dir
    ≡ some invalid_type
unfolding argument_parser
second_type = refl

last_user :
    set_user_table (some (codes "root:x:0:0\nme:x:1000:1\n"))
    ≡ some ((1000, codes "me") ∷ (0, codes "root") ∷ [])
unfolding set_user_table read_lines fgets user_lines strtok_all atoi
    nycu_advanced_unix_progr.Base.Strtol.skip_spaces nycu_advanced_unix_progr.Base.Strtol.is_space
    nycu_advanced_unix_progr.Base.Strtol.signed_text nycu_advanced_unix_progr.Base.Strtol.clamp_long
    nycu_advanced_unix_progr.Base.Strtol.magnitude nycu_advanced_unix_progr.Base.Strtol.scan_digits
last_user = refl

-- ===== src/Lsof/Examine.antt =====
-- hw1/process.hpp: the steps by which class process examines a process.
use nycu_advanced_unix_progr.Base.{
  ℕ, ◌+◌, true, ◌||◌, Option, none, some, List, [], ◌∷◌, ◌++◌, Bytes, codes, bytes_eq, length,
  get_elem?, ◌==◌, if◌then◌else◌,
}
use nycu_advanced_unix_progr.Base.Options.{◌>>=◌}
use nycu_advanced_unix_progr.Base.Ctype.{c_str}
use nycu_advanced_unix_progr.Base.Decimal.{to_string}
use nycu_advanced_unix_progr.Lsof.File.{OpenFile, new_file}
use nycu_advanced_unix_progr.Lsof.Process.{
  failed, answered, Proc, Process, eacces, count, dead, push_back, insert, contains, link_name,
  chop, is_deli, strtok_all, read_lines,
}

-- file(fd_field, path, inode_field, type_field)
abbrev pub plain_file : Bytes → Bytes → Bytes → Bytes → OpenFile
plain_file fd_field path inode_field type_field = record {
  fd = fd_field;
  type = type_field;
  inode = inode_field;
  name = path;
}

abbrev pub denied : Bytes → Bytes
denied path = path ++ codes " (Permission denied)"

-- `if(!alive) return;` in front of a step.
abbrev pub if_alive : (Process → Option Process) → Process → Option Process
if_alive step p = if p.alive then step p else some p

-- The entries that a file gives, if it could be examined.
abbrev pub found_file : OpenFile → Process → Process
found_file f p = insert f.name (push_back f p)

-- One line of maps: an entry for a file that has none yet.
unfoldable pub memory_map_line : List Bytes → Process → Option Process
memory_map_line tokens p = elim (get_elem? tokens 4) [
  | none ↦ none
  | some inode ↦ if bytes_eq inode (codes "0") then some p else elim (get_elem? tokens 5) [
    | none ↦ none
    | some file_name ↦
        if count p.hash file_name
        then some p
        else let fd_field =
            if contains (codes "deleted") file_name then codes "DEL" else codes "mem" in
          some (push_back (plain_file fd_field file_name inode (codes "REG")) (insert file_name p))
  ]
]

unfoldable pub maps_lines : List Bytes → Process → Option Process
unfolding memory_map_line
maps_lines [] p = some p
maps_lines (line ∷ lines) p = memory_map_line (strtok_all is_deli [] line) p >>= maps_lines lines

-- A process that is about to be examined.
abbrev pub new_process : Bytes → Process
new_process dir_name = record {
  alive = true;
  path = codes "/proc/" ++ dir_name;
  command = [];
  pid = [];
  uid = [];
  user_name = [];
  hash = [];
  file_list = [];
}

-- set_pid
unfoldable pub set_pid : Bytes → Process → Option Process
set_pid dir_name p = some (record p { pid = dir_name })

module _ (proc : Proc) where
  unfoldable pub set_command : Process → Option Process
  set_command p = elim (proc.read_comm (p.path ++ codes "/comm")) [
    | none ↦ some (dead p)
    | some buffer ↦ do command ← chop buffer; some (record p { command = c_str command })
  ]

  unfoldable pub set_user_name : (ℕ → Bytes) → Process → Option Process
  set_user_name user_table p = elim (proc.stat p.path) [
    | none ↦ some (dead p)
    | some statbuf ↦
        some (record p { uid = to_string statbuf.st_uid; user_name = user_table statbuf.st_uid })
  ]

  -- file(tag, link, file_name) behind a readlink; `none` is the exception.
  unfoldable pub linked_file : Bytes → Bytes → Bytes → Option OpenFile
  linked_file tag link file_name = new_file tag (proc.stat link) (proc.lstat link) file_name

  -- The loop of handle_special_files.
  unfoldable pub special_loop : List (Bytes × Bytes) → Process → Option Process
  special_loop [] p = some p
  special_loop ((tag, link) ∷ target) p = elim (proc.readlink link) [
    | failed errsv ↦
        if errsv == eacces
        then special_loop target (push_back (plain_file tag (denied link) [] (codes "unknown")) p)
        else some (dead p)
    | answered buffer ↦ do
      file_name ← link_name buffer
      elim (linked_file tag link file_name) [
        | none ↦ some (dead p)
        | some f ↦ special_loop target (found_file f p)
      ]
  ]

  unfoldable pub handle_special_files : Process → Option Process
  unfolding special_loop
  handle_special_files p =
      special_loop
        ((codes "cwd", p.path ++ codes "/cwd")
          ∷ (codes "rtd", p.path ++ codes "/root")
          ∷ (codes "txt", p.path ++ codes "/exe")
          ∷ [])
        p

  unfoldable pub handle_memory_maps : Process → Option Process
  unfolding maps_lines
  handle_memory_maps p = elim (proc.open_maps (p.path ++ codes "/maps")) [
    | failed errsv ↦ some (if errsv == eacces then p else dead p)
    | answered text ↦ maps_lines (read_lines (length text + 1) text) p
  ]

  -- The loop of handle_file_descriptors.
  unfoldable pub fd_loop : Bytes → List Bytes → Process → Option Process
  fd_loop dir [] p = some p
  fd_loop dir (file_descriptor ∷ names) p =
      let link = dir ++ (codes "/" ++ file_descriptor) in
      if bytes_eq file_descriptor (codes ".") || bytes_eq file_descriptor (codes "..")
      then fd_loop dir names p
      else elim (proc.readlink link) [
        | failed errsv ↦ fd_loop dir names p
        | answered buffer ↦ do
          file_name ← link_name buffer
          elim (linked_file file_descriptor link file_name) [
            | none ↦ fd_loop dir names p
            | some f ↦ fd_loop dir names (found_file f p)
          ]
      ]

  unfoldable pub handle_file_descriptors : Process → Option Process
  unfolding fd_loop
  handle_file_descriptors p =
      let dir = p.path ++ codes "/fd" in
      elim (proc.read_dir dir) [
        | failed errsv ↦ some (
            if errsv == eacces
            then push_back (plain_file (codes "NOFD") (denied dir) [] []) p
            else dead p)
        | answered names ↦ fd_loop dir names p
      ]

  -- The constructor process(dir_name, ...) up to the printing.
  unfoldable pub examine : (ℕ → Bytes) → Bytes → Option Process
  examine user_table dir_name =
      if_alive set_command (new_process dir_name)
      >>= if_alive (set_pid dir_name)
      >>= if_alive (set_user_name user_table)
      >>= if_alive handle_special_files
      >>= if_alive handle_memory_maps
      >>= if_alive handle_file_descriptors

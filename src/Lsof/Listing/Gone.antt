-- ===== src/Lsof/Listing/Gone.antt =====
-- Processes that vanish while lsof looks at them.
use nycu_advanced_unix_progr.Base.{
  ℕ, ◌≡◌, refl, ◌⊎◌, inl, inr, false, none, some, [], ◌++◌, Bytes, codes, ◌==◌,
}
use nycu_advanced_unix_progr.Base.Ctype.{c_str}
use nycu_advanced_unix_progr.Base.Decimal.{to_string}
use nycu_advanced_unix_progr.Lsof.File.{Stat}
use nycu_advanced_unix_progr.Lsof.Process.{failed, Proc, Process, eacces, dead, chop}
use nycu_advanced_unix_progr.Lsof.Examine.{
  new_process, set_command, set_user_name, special_loop, handle_special_files, set_pid, examine,
}
use nycu_advanced_unix_progr.Lsof.Listing.{Filters, print_opening_files}

module _ (proc : Proc) (users : ℕ → Bytes) (dir_name : Bytes) where
  -- The path of the process.
  abbrev proc_path : Bytes
  proc_path = codes "/proc/" ++ dir_name

  -- The process is gone when its comm, its directory or its cwd is looked up. What is read before
  -- is in order.
  abbrev pub IsGone : Type 0
  IsGone =
      (proc.read_comm (proc_path ++ codes "/comm") ≡ none)
      ⊎ ((buffer : Bytes) × (command : Bytes) × (proc.read_comm (proc_path ++ codes "/comm")
            ≡ some buffer)
          × (chop buffer ≡ some command)
          × ((proc.stat proc_path ≡ none)
              ⊎ ((statbuf : Stat) × (errsv : ℕ) × (proc.stat proc_path ≡ some statbuf)
                  × (proc.readlink (proc_path ++ codes "/cwd") ≡ failed errsv)
                  × ((errsv == eacces) ≡ false))))

  -- A process that is gone when its comm, its directory or its cwd (but for a lack of permission) is
  -- looked up is examined without an undefined read, and whatever the filters nothing is printed of it.
  pub gone_prints_nothing :
      IsGone
      → (p : Process) × (examine proc users dir_name ≡ some p)
        × ((filters : Filters) → print_opening_files filters p ≡ [])
  unfolding examine set_command set_user_name set_pid handle_special_files special_loop
      print_opening_files
  gone_prints_nothing (inl e) =
      (dead (new_process dir_name), rw (examine, set_command, e) refl, λ filters. refl)
  gone_prints_nothing (inr (buffer, command, e, e', inl f)) =
      let named = record (new_process dir_name) { command = c_str command; pid = dir_name } in
      (dead named, rw (examine, set_command, e, e', set_user_name, f) refl, λ filters. refl)
  gone_prints_nothing (inr (buffer, command, e, e', inr (statbuf, errsv, f, g, h))) =
      let owned : Process = record (new_process dir_name) {
        command = c_str command;
        pid = dir_name;
        uid = to_string statbuf.st_uid;
        user_name = users statbuf.st_uid;
      } in
      (
        dead owned,
        rw (examine, set_command, e, e', set_user_name, f, handle_special_files, special_loop, g, h)
            refl,
        λ filters. refl,
      )

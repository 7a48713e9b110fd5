-- ===== src/Libmini/Perror.antt =====
-- perror of hw3/libmini.c and its table of messages. What sys_write does with the bytes that it gets
-- for descriptor 2 is a parameter.
pub mod Printed
use nycu_advanced_unix_progr.Base.{
  ℕ, Bool, true, false, Option, none, some, List, [], ◌∷◌, Bytes, codes, get_elem?, ltb,
  if◌then◌else◌,
}
use nycu_advanced_unix_progr.Base.Int.{ℤ, pos, negsuc}
use nycu_advanced_unix_progr.Libmini.Wrappers.{Mini, c_long, wrapper_ret}

unfoldable pub errmsg : List Bytes
errmsg =
    codes "Success"
    ∷ codes "Operation not permitted"
    ∷ codes "No such file or directory"
    ∷ codes "No such process"
    ∷ codes "Interrupted system call"
    ∷ codes "I/O error"
    ∷ codes "No such device or address"
    ∷ codes "Argument list too long"
    ∷ codes "Exec format error"
    ∷ codes "Bad file number"
    ∷ codes "No child processes"
    ∷ codes "Try again"
    ∷ codes "Out of memory"
    ∷ codes "Permission denied"
    ∷ codes "Bad address"
    ∷ codes "Block device required"
    ∷ codes "Device or resource busy"
    ∷ codes "File exists"
    ∷ codes "Cross-device link"
    ∷ codes "No such device"
    ∷ codes "Not a directory"
    ∷ codes "Is a directory"
    ∷ codes "Invalid argument"
    ∷ codes "File table overflow"
    ∷ codes "Too many open files"
    ∷ codes "Not a typewriter"
    ∷ codes "Text file busy"
    ∷ codes "File too large"
    ∷ codes "No space left on device"
    ∷ codes "Illegal seek"
    ∷ codes "Read-only file system"
    ∷ codes "Too many links"
    ∷ codes "Broken pipe"
    ∷ codes "Math argument out of domain of func"
    ∷ codes "Math result not representable"
    ∷ []

-- PERRMSG_MAX; PERRMSG_MIN is 0.
abbrev pub perrmsg_max : ℕ
perrmsg_max = 34

-- `errno < PERRMSG_MIN || errno > PERRMSG_MAX`
abbrev pub is_unknown : ℤ → Bool
is_unknown (pos n) = ltb perrmsg_max n
is_unknown (negsuc n) = true

-- `errmsg[i]`; `none` is a read outside the table.
unfoldable pub message : ℤ → Option Bytes
message (pos n) = get_elem? errmsg n
message (negsuc n) = none

-- sys_write(2, ...): the number of bytes written or an error.
abbrev pub Writer : Type 0 → Type 0
Writer S = Bytes → S → ℤ × S

module _ {S : Type 0} (sys : Writer S) where
  -- `write(2, text, strlen(text))`, whose result is dropped; errno is not.
  unfoldable pub put : Bytes → Mini S → Mini S
  unfolding wrapper_ret
  put text s = let (ret, os) = sys text s.os in let (value, s') = wrapper_ret c_long ret os in s'

  -- perror(prefix), where a null pointer and a read outside errmsg are `none`.
  unfoldable pub perror : Option Bytes → Mini S → Option (Mini S)
  perror prefix s =
      let backup = s.errno in
      let s' : Mini S = elim prefix [ none ↦ s | some text ↦ put (codes ": ") (put text s) ] in
      if is_unknown s'.errno
      then some (put (codes "\n") (put (codes "Unknown") s'))
      else elim (message backup) [ none ↦ none | some text ↦ some (put (codes "\n") (put text s')) ]

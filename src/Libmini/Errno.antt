-- ===== src/Libmini/Errno.antt =====
-- The error numbers of hw3/libmini.h, with the comments beside them.
pub mod Described
use nycu_advanced_unix_progr.Base.{ℕ, Bytes, codes}

pub data Errno : Type 0 where
  e_perm e_noent e_srch e_intr e_io e_nxio e_2big e_noexec e_badf e_child : Errno
  e_again e_nomem e_acces e_fault e_notblk e_busy e_exist e_xdev e_nodev e_notdir : Errno
  e_isdir e_inval e_nfile e_mfile e_notty e_txtbsy e_fbig e_nospc e_spipe e_rofs : Errno
  e_mlink e_pipe e_dom e_range : Errno

-- The number.
unfoldable pub number_of : Errno → ℕ
number_of e_perm = 1
number_of e_noent = 2
number_of e_srch = 3
number_of e_intr = 4
number_of e_io = 5
number_of e_nxio = 6
number_of e_2big = 7
number_of e_noexec = 8
number_of e_badf = 9
number_of e_child = 10
number_of e_again = 11
number_of e_nomem = 12
number_of e_acces = 13
number_of e_fault = 14
number_of e_notblk = 15
number_of e_busy = 16
number_of e_exist = 17
number_of e_xdev = 18
number_of e_nodev = 19
number_of e_notdir = 20
number_of e_isdir = 21
number_of e_inval = 22
number_of e_nfile = 23
number_of e_mfile = 24
number_of e_notty = 25
number_of e_txtbsy = 26
number_of e_fbig = 27
number_of e_nospc = 28
number_of e_spipe = 29
number_of e_rofs = 30
number_of e_mlink = 31
number_of e_pipe = 32
number_of e_dom = 33
number_of e_range = 34

-- The comment.
unfoldable pub comment : Errno → Bytes
comment e_perm = codes "Operation not permitted"
comment e_noent = codes "No such file or directory"
comment e_srch = codes "No such process"
comment e_intr = codes "Interrupted system call"
comment e_io = codes "I/O error"
comment e_nxio = codes "No such device or address"
comment e_2big = codes "Argument list too long"
comment e_noexec = codes "Exec format error"
comment e_badf = codes "Bad file number"
comment e_child = codes "No child processes"
comment e_again = codes "Try again"
comment e_nomem = codes "Out of memory"
comment e_acces = codes "Permission denied"
comment e_fault = codes "Bad address"
comment e_notblk = codes "Block device required"
comment e_busy = codes "Device or resource busy"
comment e_exist = codes "File exists"
comment e_xdev = codes "Cross-device link"
comment e_nodev = codes "No such device"
comment e_notdir = codes "Not a directory"
comment e_isdir = codes "Is a directory"
comment e_inval = codes "Invalid argument"
comment e_nfile = codes "File table overflow"
comment e_mfile = codes "Too many open files"
comment e_notty = codes "Not a typewriter"
comment e_txtbsy = codes "Text file busy"
comment e_fbig = codes "File too large"
comment e_nospc = codes "No space left on device"
comment e_spipe = codes "Illegal seek"
comment e_rofs = codes "Read-only file system"
comment e_mlink = codes "Too many links"
comment e_pipe = codes "Broken pipe"
comment e_dom = codes "Math argument out of domain of func"
comment e_range = codes "Math result not representable"

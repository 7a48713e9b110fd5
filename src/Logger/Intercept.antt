-- ===== src/Logger/Intercept.antt =====
-- hw2/inject_glibc.cpp: the wrappers that the dynamic linker puts in front of libc. `none` is
-- undefined behaviour: a call of a function that was not found, a missing OUT_FD, a missing third
-- argument of open, or a write behind a buffer.
pub mod Transparent
use nycu_advanced_unix_progr.Base.{
  ℕ, ◌*◌, ◌%◌, ◌^◌, Bool, not, ◌||◌, Option, none, some, List, [], ◌∷◌, bit_and, Bytes, codes, ◌==◌,
  if◌then◌else◌,
}
use nycu_advanced_unix_progr.Base.Int.{ℤ, pos, signed_int}
use nycu_advanced_unix_progr.Base.Options.{◌>>=◌}
use nycu_advanced_unix_progr.Base.Strtol.{atoi}
use nycu_advanced_unix_progr.Logger.Libc.{
  GlibcCall, call_chmod, call_chown, call_close, call_creat, call_fclose, call_fopen, call_fread,
  call_fwrite, call_open, call_read, call_write, call_remove, call_rename, call_tmpfile, Field,
  quoted, octal, decimal, Line, Libc,
}
use nycu_advanced_unix_progr.Logger.Paths.{
  get_buffer, size_of, get_origin_func, get_abs_path, get_abs_path_fd, get_abs_path_stream,
}

-- __OPEN_NEEDS_MODE of <fcntl.h>: O_CREAT, or all bits of __O_TMPFILE.
unfoldable pub open_needs_mode : ℕ → Bool
open_needs_mode oflag = not (bit_and oflag 0x40 == 0) || bit_and oflag 0x410000 == 0x410000

-- `mode` of open: 0 where the flags need none.
unfoldable pub open_mode : ℕ → Option ℕ → Option ℕ
open_mode flags arg = if open_needs_mode flags then arg else some 0

module _ {S : Type 0} (libc : Libc S) where
  -- atoi(getenv("OUT_FD"))
  unfoldable pub out_fd : S → Option ℤ
  out_fd s = elim (libc.getenv (codes "OUT_FD") s) [ none ↦ none | some text ↦ some (atoi text) ]

  -- The dprintf and the return at the end of each wrapper.
  unfoldable pub report : Bytes → List Field → ℤ → S → Option (ℤ × S)
  report func fields ret_val s = do
    fd ← out_fd s
    let line : Line = record { func = func; fields = fields; result = ret_val }
    some (ret_val, libc.dprintf fd line s)

  unfoldable pub logged_chmod : Bytes → ℕ → S → Option (ℤ × S)
  logged_chmod path mode s = do
    found ← get_origin_func libc (codes "chmod") s
    let (origin_chmod, s1) = found
    let (ret_val, s2) = origin_chmod (call_chmod path mode) s1
    subject ← get_abs_path libc path s2
    let (abs_path, s3) = subject
    report (codes "chmod") (quoted abs_path ∷ octal mode ∷ []) ret_val s3

  unfoldable pub logged_chown : Bytes → ℕ → ℕ → S → Option (ℤ × S)
  logged_chown path owner group s = do
    found ← get_origin_func libc (codes "chown") s
    let (origin_chown, s1) = found
    let (ret_val, s2) = origin_chown (call_chown path owner group) s1
    subject ← get_abs_path libc path s2
    let (abs_path, s3) = subject
    report (codes "chown")
        (quoted abs_path ∷ decimal (signed_int owner) ∷ decimal (signed_int group) ∷ []) ret_val s3

  unfoldable pub logged_close : ℤ → S → Option (ℤ × S)
  logged_close fd s = do
    found ← get_origin_func libc (codes "close") s
    let (origin_close, s1) = found
    subject ← get_abs_path_fd libc fd s1
    let (abs_path, s2) = subject
    let (ret_val, s3) = origin_close (call_close fd) s2
    report (codes "close") (quoted abs_path ∷ []) ret_val s3

  unfoldable pub logged_creat : Bytes → ℕ → S → Option (ℤ × S)
  logged_creat path mode s = do
    found ← get_origin_func libc (codes "creat") s
    let (origin_creat, s1) = found
    let (ret_val, s2) = origin_creat (call_creat path mode) s1
    subject ← get_abs_path libc path s2
    let (abs_path, s3) = subject
    report (codes "creat") (quoted abs_path ∷ octal mode ∷ []) ret_val s3

  unfoldable pub logged_fclose : ℕ → S → Option (ℤ × S)
  logged_fclose stream s = do
    found ← get_origin_func libc (codes "fclose") s
    let (origin_fclose, s1) = found
    subject ← get_abs_path_stream libc stream s1
    let (abs_path, s2) = subject
    let (ret_val, s3) = origin_fclose (call_fclose stream) s2
    report (codes "fclose") (quoted abs_path ∷ []) ret_val s3

  unfoldable pub logged_fopen : Bytes → Bytes → S → Option (ℤ × S)
  logged_fopen pathname mode s = do
    found ← get_origin_func libc (codes "fopen") s
    let (origin_fopen, s1) = found
    let (ret_val, s2) = origin_fopen (call_fopen pathname mode) s1
    subject ← get_abs_path libc pathname s2
    let (abs_path, s3) = subject
    report (codes "fopen") (quoted abs_path ∷ quoted mode ∷ []) ret_val s3

  unfoldable pub logged_fread : ℕ → ℕ → ℕ → ℕ → S → Option (ℤ × S)
  logged_fread ptr size nmemb stream s = do
    found ← get_origin_func libc (codes "fread") s
    let (origin_fread, s1) = found
    let (ret_val, s2) = origin_fread (call_fread ptr size nmemb stream) s1
    subject ← get_abs_path_stream libc stream s2
    let (abs_path, s3) = subject
    let msg = get_buffer (libc.bytes_at s3) ptr (size * size_of ret_val % 2 ^ 64)
    report (codes "fread")
        (quoted msg ∷ decimal (pos size) ∷ decimal (pos nmemb) ∷ quoted abs_path ∷ []) ret_val s3

  unfoldable pub logged_fwrite : ℕ → ℕ → ℕ → ℕ → S → Option (ℤ × S)
  logged_fwrite ptr size nmemb stream s = do
    found ← get_origin_func libc (codes "fwrite") s
    let (origin_fwrite, s1) = found
    let (ret_val, s2) = origin_fwrite (call_fwrite ptr size nmemb stream) s1
    subject ← get_abs_path_stream libc stream s2
    let (abs_path, s3) = subject
    let msg = get_buffer (libc.bytes_at s3) ptr (size * size_of ret_val % 2 ^ 64)
    report (codes "fwrite")
        (quoted msg ∷ decimal (pos size) ∷ decimal (pos nmemb) ∷ quoted abs_path ∷ []) ret_val s3

  -- origin_open gets the path and the flags, and not the mode.
  unfoldable pub logged_open : Bytes → ℕ → Option ℕ → S → Option (ℤ × S)
  logged_open pathname flags arg s = do
    mode ← open_mode flags arg
    found ← get_origin_func libc (codes "open") s
    let (origin_open, s1) = found
    let (ret_val, s2) = origin_open (call_open pathname flags none) s1
    subject ← get_abs_path libc pathname s2
    let (abs_path, s3) = subject
    report (codes "open") (quoted abs_path ∷ octal flags ∷ octal mode ∷ []) ret_val s3

  unfoldable pub logged_read : ℤ → ℕ → ℕ → S → Option (ℤ × S)
  logged_read fd buf nbyte s = do
    found ← get_origin_func libc (codes "read") s
    let (origin_read, s1) = found
    let (ret_val, s2) = origin_read (call_read fd buf nbyte) s1
    subject ← get_abs_path_fd libc fd s2
    let (abs_path, s3) = subject
    let msg = get_buffer (libc.bytes_at s3) buf (size_of ret_val)
    report (codes "read") (quoted abs_path ∷ quoted msg ∷ decimal (pos nbyte) ∷ []) ret_val s3

  unfoldable pub logged_write : ℤ → ℕ → ℕ → S → Option (ℤ × S)
  logged_write fd buf nbyte s = do
    found ← get_origin_func libc (codes "write") s
    let (origin_write, s1) = found
    let (ret_val, s2) = origin_write (call_write fd buf nbyte) s1
    subject ← get_abs_path_fd libc fd s2
    let (abs_path, s3) = subject
    let msg = get_buffer (libc.bytes_at s3) buf (size_of ret_val)
    report (codes "write") (quoted abs_path ∷ quoted msg ∷ decimal (pos nbyte) ∷ []) ret_val s3

  unfoldable pub logged_remove : Bytes → S → Option (ℤ × S)
  logged_remove pathname s = do
    found ← get_origin_func libc (codes "remove") s
    let (origin_remove, s1) = found
    subject ← get_abs_path libc pathname s1
    let (abs_path, s2) = subject
    let (ret_val, s3) = origin_remove (call_remove pathname) s2
    report (codes "remove") (quoted abs_path ∷ []) ret_val s3

  unfoldable pub logged_rename : Bytes → Bytes → S → Option (ℤ × S)
  logged_rename oldp newp s = do
    found ← get_origin_func libc (codes "rename") s
    let (origin_rename, s1) = found
    subject ← get_abs_path libc oldp s1
    let (abs_oldp, s2) = subject
    let (ret_val, s3) = origin_rename (call_rename oldp newp) s2
    subject' ← get_abs_path libc newp s3
    let (abs_newp, s4) = subject'
    report (codes "rename") (quoted abs_oldp ∷ quoted abs_newp ∷ []) ret_val s4

  unfoldable pub logged_tmpfile : S → Option (ℤ × S)
  logged_tmpfile s = do
    found ← get_origin_func libc (codes "tmpfile") s
    let (origin_tmpfile, s1) = found
    let (ret_ptr, s2) = origin_tmpfile call_tmpfile s1
    report (codes "tmpfile") [] ret_ptr s2

  -- A call of the program that runs with the logger in LD_PRELOAD.
  unfoldable pub intercept : GlibcCall → S → Option (ℤ × S)
  intercept (call_chmod path mode) = logged_chmod path mode
  intercept (call_chown path owner group) = logged_chown path owner group
  intercept (call_close fd) = logged_close fd
  intercept (call_creat path mode) = logged_creat path mode
  intercept (call_fclose stream) = logged_fclose stream
  intercept (call_fopen pathname mode) = logged_fopen pathname mode
  intercept (call_fread ptr size nmemb stream) = logged_fread ptr size nmemb stream
  intercept (call_fwrite ptr size nmemb stream) = logged_fwrite ptr size nmemb stream
  intercept (call_open pathname flags arg) = logged_open pathname flags arg
  intercept (call_read fd buf nbyte) = logged_read fd buf nbyte
  intercept (call_write fd buf nbyte) = logged_write fd buf nbyte
  intercept (call_remove pathname) = logged_remove pathname
  intercept (call_rename oldp newp) = logged_rename oldp newp
  intercept call_tmpfile = logged_tmpfile

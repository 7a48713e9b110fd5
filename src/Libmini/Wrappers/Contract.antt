-- ===== src/Libmini/Wrappers/Contract.antt =====
-- What a caller of a wrapper can tell from its result and errno.
use nycu_advanced_unix_progr.Base.{ℕ, suc, ◌+◌, ◌-◌, ◌^◌, ◌<◌, ◌≡◌, refl, sym, ◌∙◌, ◌≢◌, arith}
use nycu_advanced_unix_progr.Base.Int.{ℤ, pos, negsuc}
use nycu_advanced_unix_progr.Libmini.Wrappers.{
  Mini, CType, c_int, c_uint, c_long, c_ptr, cast, failure, negated, wrapper_ret, Kernel, Call,
  sigpending, sigprocmask, alarm, read, write, close, mmap, mprotect, munmap, pipe, dup, dup2,
  pause, nanosleep, fork, getcwd, chdir, rename, mkdir, rmdir, creat, link, unlink, readlink, chmod,
  chown, umask, gettimeofday, getuid, getgid, setuid, setgid, geteuid, getegid, SysCall,
  sys_rt_sigpending, sys_rt_sigprocmask, sys_alarm, sys_read, sys_write, sys_close, sys_mmap,
  sys_mprotect, sys_munmap, sys_pipe, sys_dup, sys_dup2, sys_pause, sys_nanosleep, sys_fork,
  sys_getcwd, sys_chdir, sys_rename, sys_mkdir, sys_rmdir, sys_creat, sys_link, sys_unlink,
  sys_readlink, sys_chmod, sys_chown, sys_umask, sys_gettimeofday, sys_getuid, sys_getgid,
  sys_setuid, sys_setgid, sys_geteuid, sys_getegid, wrapper,
}

-- The values that a result type can hold without being taken for its failure.
abbrev pub Fits : CType → ℤ → Type 0
Fits c_int (pos n) = n < 2 ^ 31
Fits c_uint (pos n) = n < 2 ^ 32 - 1
Fits c_long (pos n) = n < 2 ^ 63
Fits c_ptr (pos n) = (0 < n) × (n < 2 ^ 64)
Fits t (negsuc n) = n + 1 < 2 ^ 63

-- The result, as an integer, tells success.
cast-Fits : (t : CType) (n : ℕ) → Fits t (pos n) → (cast t (pos n) ≡ pos n) × (pos n ≢ failure t)
unfolding cast failure
cast-Fits c_int n h = (ground arith, λ e. ground arith)
cast-Fits c_uint n h = (ground arith, λ e. ground arith)
cast-Fits c_long n h = (refl, λ e. cc)
cast-Fits c_ptr n h = (refl, λ e. ground arith)

-- The two outcomes of a wrapper, by what the system call gave.
abbrev pub Outcome : CType → ℤ → ℤ → ℤ → Type 0
Outcome t (pos n) value errno = (value ≡ pos n) × (value ≢ failure t) × (errno ≡ pos 0)
Outcome t (negsuc n) value errno = (value ≡ failure t) × (errno ≡ pos (suc n))

wrapper_ret-Outcome :
    {S : Type 0} (t : CType) (ret : ℤ) (os : S)
    → Fits t ret
    → let (value, s') = wrapper_ret t ret os in Outcome t ret value s'.errno × (s'.os ≡ os)
unfolding wrapper_ret negated
wrapper_ret-Outcome t (pos n) os h =
    let (e, ne) = cast-Fits t n h in ((e, (λ q. ne (sym e ∙ q)), refl), refl)
wrapper_ret-Outcome t (negsuc n) os h = ((refl, ground arith), refl)

outcome :
    {S : Type 0} (t : CType) (answer : ℤ × S)
    → Fits t answer.0
    → let (value, s') = wrapper_ret t answer.0 answer.1 in
      Outcome t answer.0 value s'.errno × (s'.os ≡ answer.1)
outcome t answer h = wrapper_ret-Outcome t answer.0 answer.1 h

-- The prototypes of hw3/libmini.h: int, pid_t, uid_t and gid_t where no other type is listed.
unfoldable pub declared : Call → CType
declared (alarm sec) = c_uint
declared (read fd buf count) = c_long
declared (write fd buf count) = c_long
declared (mmap addr len prot flags fd off) = c_ptr
declared (getcwd buf size) = c_ptr
declared (readlink path buf bufsz) = c_long
declared _ = c_int

-- The system call that is asked for: the one of the same name with the same arguments, where the two on
-- a signal mask have rt_ in their name and take the size of the mask besides.
unfoldable pub request : Call → SysCall
request (sigpending set) = sys_rt_sigpending set 8
request (sigprocmask how set oldset) = sys_rt_sigprocmask how set oldset 8
request (alarm sec) = sys_alarm sec
request (read fd buf count) = sys_read fd buf count
request (write fd buf count) = sys_write fd buf count
request (close fd) = sys_close fd
request (mmap addr len prot flags fd off) = sys_mmap addr len prot flags fd off
request (mprotect addr len prot) = sys_mprotect addr len prot
request (munmap addr len) = sys_munmap addr len
request (pipe filedes) = sys_pipe filedes
request (dup filedes) = sys_dup filedes
request (dup2 oldfd newfd) = sys_dup2 oldfd newfd
request pause = sys_pause
request (nanosleep rqtp rmtp) = sys_nanosleep rqtp rmtp
request fork = sys_fork
request (getcwd buf size) = sys_getcwd buf size
request (chdir path) = sys_chdir path
request (rename oldname newname) = sys_rename oldname newname
request (mkdir path mode) = sys_mkdir path mode
request (rmdir path) = sys_rmdir path
request (creat path mode) = sys_creat path mode
request (link oldname newname) = sys_link oldname newname
request (unlink path) = sys_unlink path
request (readlink path buf bufsz) = sys_readlink path buf bufsz
request (chmod path mode) = sys_chmod path mode
request (chown path user group) = sys_chown path user group
request (umask mask) = sys_umask mask
request (gettimeofday tv tz) = sys_gettimeofday tv tz
request getuid = sys_getuid
request getgid = sys_getgid
request (setuid uid) = sys_setuid uid
request (setgid gid) = sys_setgid gid
request geteuid = sys_geteuid
request getegid = sys_getegid

-- Each of the 34 wrappers, for any kernel: with the type of its prototype in hw3/libmini.h, and the
-- answer of the system call of its name (`request`) with its own arguments, where that answer is a value
-- that the type can hold, the wrapper returns it, it is not the failure value, and errno is 0. Where the answer
-- is -n, with n below 2^63, the wrapper returns -1 (NULL for a pointer) and errno is n. The world is
-- the one behind that single call.
pub wrapper-Outcome :
    {S : Type 0} (sys : Kernel S) (c : Call) (s : Mini S)
    → Fits (declared c) (sys (request c) s.os).0
    → let (ret, os) = sys (request c) s.os in
      let (value, s') = wrapper sys c s in Outcome (declared c) ret value s'.errno × (s'.os ≡ os)
unfolding wrapper declared request
wrapper-Outcome sys (sigpending set) s h = outcome c_int (sys (sys_rt_sigpending set 8) s.os) h
wrapper-Outcome sys (sigprocmask how set oldset) s h =
    outcome c_int (sys (sys_rt_sigprocmask how set oldset 8) s.os) h
wrapper-Outcome sys (alarm sec) s h = outcome c_uint (sys (sys_alarm sec) s.os) h
wrapper-Outcome sys (read fd buf count) s h = outcome c_long (sys (sys_read fd buf count) s.os) h
wrapper-Outcome sys (write fd buf count) s h = outcome c_long (sys (sys_write fd buf count) s.os) h
wrapper-Outcome sys (close fd) s h = outcome c_int (sys (sys_close fd) s.os) h
wrapper-Outcome sys (mmap addr len prot flags fd off) s h =
    outcome c_ptr (sys (sys_mmap addr len prot flags fd off) s.os) h
wrapper-Outcome sys (mprotect addr len prot) s h =
    outcome c_int (sys (sys_mprotect addr len prot) s.os) h
wrapper-Outcome sys (munmap addr len) s h = outcome c_int (sys (sys_munmap addr len) s.os) h
wrapper-Outcome sys (pipe filedes) s h = outcome c_int (sys (sys_pipe filedes) s.os) h
wrapper-Outcome sys (dup filedes) s h = outcome c_int (sys (sys_dup filedes) s.os) h
wrapper-Outcome sys (dup2 oldfd newfd) s h = outcome c_int (sys (sys_dup2 oldfd newfd) s.os) h
wrapper-Outcome sys pause s h = outcome c_int (sys sys_pause s.os) h
wrapper-Outcome sys (nanosleep rqtp rmtp) s h = outcome c_int (sys (sys_nanosleep rqtp rmtp) s.os) h
wrapper-Outcome sys fork s h = outcome c_int (sys sys_fork s.os) h
wrapper-Outcome sys (getcwd buf size) s h = outcome c_ptr (sys (sys_getcwd buf size) s.os) h
wrapper-Outcome sys (chdir path) s h = outcome c_int (sys (sys_chdir path) s.os) h
wrapper-Outcome sys (rename oldname newname) s h =
    outcome c_int (sys (sys_rename oldname newname) s.os) h
wrapper-Outcome sys (mkdir path mode) s h = outcome c_int (sys (sys_mkdir path mode) s.os) h
wrapper-Outcome sys (rmdir path) s h = outcome c_int (sys (sys_rmdir path) s.os) h
wrapper-Outcome sys (creat path mode) s h = outcome c_int (sys (sys_creat path mode) s.os) h
wrapper-Outcome sys (link oldname newname) s h =
    outcome c_int (sys (sys_link oldname newname) s.os) h
wrapper-Outcome sys (unlink path) s h = outcome c_int (sys (sys_unlink path) s.os) h
wrapper-Outcome sys (readlink path buf bufsz) s h =
    outcome c_long (sys (sys_readlink path buf bufsz) s.os) h
wrapper-Outcome sys (chmod path mode) s h = outcome c_int (sys (sys_chmod path mode) s.os) h
wrapper-Outcome sys (chown path user group) s h =
    outcome c_int (sys (sys_chown path user group) s.os) h
wrapper-Outcome sys (umask mask) s h = outcome c_int (sys (sys_umask mask) s.os) h
wrapper-Outcome sys (gettimeofday tv tz) s h = outcome c_int (sys (sys_gettimeofday tv tz) s.os) h
wrapper-Outcome sys getuid s h = outcome c_int (sys sys_getuid s.os) h
wrapper-Outcome sys getgid s h = outcome c_int (sys sys_getgid s.os) h
wrapper-Outcome sys (setuid uid) s h = outcome c_int (sys (sys_setuid uid) s.os) h
wrapper-Outcome sys (setgid gid) s h = outcome c_int (sys (sys_setgid gid) s.os) h
wrapper-Outcome sys geteuid s h = outcome c_int (sys sys_geteuid s.os) h
wrapper-Outcome sys getegid s h = outcome c_int (sys sys_getegid s.os) h

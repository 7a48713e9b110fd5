-- ===== src/Libmini/Wrappers.antt =====
-- The system call wrappers of hw3/libmini.c and their errno convention (WRAPPER_RETval and
-- WRAPPER_RETptr). The sys_ functions themselves, in assembly, are a parameter.
pub mod Contract
use nycu_advanced_unix_progr.Base.{ℕ, suc, ◌+◌, ◌-◌, ◌%◌, ◌^◌, ◌==◌, if◌then◌else◌}
use nycu_advanced_unix_progr.Base.Int.{ℤ, pos, negsuc, signed_int}

-- A value of libmini: `long errno`, and the world that the kernel acts on.
pub record Mini (S : Type 0) : Type 0 where
  pub errno : ℤ
  pub os : S

-- The result types of the wrappers: int (and pid_t, uid_t, gid_t, mode_t), unsigned int, ssize_t
-- (a long long), and pointers.
pub data CType : Type 0 where
  c_int c_uint c_long c_ptr : CType

-- The conversion of a `long` to a result type.
unfoldable pub cast : CType → ℤ → ℤ
unfolding signed_int
cast c_int (pos n) = signed_int (n % 2 ^ 32)
cast c_int (negsuc n) = signed_int (2 ^ 32 - 1 - n % 2 ^ 32)
cast c_uint (pos n) = pos (n % 2 ^ 32)
cast c_uint (negsuc n) = pos (2 ^ 32 - 1 - n % 2 ^ 32)
cast c_long z = z
cast c_ptr (pos n) = pos n
cast c_ptr (negsuc n) = pos (2 ^ 64 - 1 - n % 2 ^ 64)

-- What a wrapper returns on an error: -1 or NULL, as a value of its result type.
unfoldable pub failure : CType → ℤ
unfolding cast
failure c_ptr = pos 0
failure t = cast t (negsuc 0)

-- `-ret` of the `long` -(n + 1): the least one is its own negation.
unfoldable pub negated : ℕ → ℤ
negated n = if n == 2 ^ 63 - 1 then negsuc n else pos (suc n)

-- WRAPPER_RETval and WRAPPER_RETptr.
unfoldable pub wrapper_ret : {S : Type 0} → CType → ℤ → S → ℤ × Mini S
unfolding negated
wrapper_ret t (negsuc n) os = (failure t, record { errno = negated n; os = os })
wrapper_ret t (pos n) os = (cast t (pos n), record { errno = pos 0; os = os })

-- The wrappers with their arguments; a pointer is an address.
pub data Call : Type 0 where
  sigpending : ℕ → Call
  sigprocmask : ℤ → ℕ → ℕ → Call
  alarm : ℕ → Call
  read : ℤ → ℕ → ℤ → Call
  write : ℤ → ℕ → ℤ → Call
  close : ℕ → Call
  mmap : ℕ → ℤ → ℤ → ℤ → ℤ → ℤ → Call
  mprotect : ℕ → ℤ → ℤ → Call
  munmap : ℕ → ℤ → Call
  pipe : ℕ → Call
  dup : ℤ → Call
  dup2 : ℤ → ℤ → Call
  pause : Call
  nanosleep : ℕ → ℕ → Call
  fork : Call
  getcwd : ℕ → ℤ → Call
  chdir : ℕ → Call
  rename : ℕ → ℕ → Call
  mkdir : ℕ → ℤ → Call
  rmdir : ℕ → Call
  creat : ℕ → ℤ → Call
  link : ℕ → ℕ → Call
  unlink : ℕ → Call
  readlink : ℕ → ℕ → ℤ → Call
  chmod : ℕ → ℤ → Call
  chown : ℕ → ℤ → ℤ → Call
  umask : ℤ → Call
  gettimeofday : ℕ → ℕ → Call
  getuid : Call
  getgid : Call
  setuid : ℤ → Call
  setgid : ℤ → Call
  geteuid : Call
  getegid : Call

-- The functions sys_read and so on of hw3/libmini64.asm with their arguments.
pub data SysCall : Type 0 where
  sys_rt_sigpending : ℕ → ℕ → SysCall
  sys_rt_sigprocmask : ℤ → ℕ → ℕ → ℕ → SysCall
  sys_alarm : ℕ → SysCall
  sys_read : ℤ → ℕ → ℤ → SysCall
  sys_write : ℤ → ℕ → ℤ → SysCall
  sys_close : ℕ → SysCall
  sys_mmap : ℕ → ℤ → ℤ → ℤ → ℤ → ℤ → SysCall
  sys_mprotect : ℕ → ℤ → ℤ → SysCall
  sys_munmap : ℕ → ℤ → SysCall
  sys_pipe : ℕ → SysCall
  sys_dup : ℤ → SysCall
  sys_dup2 : ℤ → ℤ → SysCall
  sys_pause : SysCall
  sys_nanosleep : ℕ → ℕ → SysCall
  sys_fork : SysCall
  sys_getcwd : ℕ → ℤ → SysCall
  sys_chdir : ℕ → SysCall
  sys_rename : ℕ → ℕ → SysCall
  sys_mkdir : ℕ → ℤ → SysCall
  sys_rmdir : ℕ → SysCall
  sys_creat : ℕ → ℤ → SysCall
  sys_link : ℕ → ℕ → SysCall
  sys_unlink : ℕ → SysCall
  sys_readlink : ℕ → ℕ → ℤ → SysCall
  sys_chmod : ℕ → ℤ → SysCall
  sys_chown : ℕ → ℤ → ℤ → SysCall
  sys_umask : ℤ → SysCall
  sys_gettimeofday : ℕ → ℕ → SysCall
  sys_getuid : SysCall
  sys_getgid : SysCall
  sys_setuid : ℤ → SysCall
  sys_setgid : ℤ → SysCall
  sys_geteuid : SysCall
  sys_getegid : SysCall

-- What `syscall` leaves in rax for them, and the world behind it.
abbrev pub Kernel : Type 0 → Type 0
Kernel S = SysCall → S → ℤ × S

-- `long ret = ...` and the convention on it.
abbrev pub converted : {S : Type 0} → CType → ℤ × S → ℤ × Mini S
converted t answer = wrapper_ret t answer.0 answer.1

-- sizeof(sigset_t)
abbrev sizeof_sigset : ℕ
sizeof_sigset = 8

-- The wrappers.
unfoldable pub wrapper : {S : Type 0} → Kernel S → Call → Mini S → ℤ × Mini S
unfolding wrapper_ret
wrapper sys (sigpending set) s = converted c_int (sys (sys_rt_sigpending set sizeof_sigset) s.os)
wrapper sys (sigprocmask how set oldset) s =
    converted c_int (sys (sys_rt_sigprocmask how set oldset sizeof_sigset) s.os)
wrapper sys (alarm sec) s = converted c_uint (sys (sys_alarm sec) s.os)
wrapper sys (read fd buf count) s = converted c_long (sys (sys_read fd buf count) s.os)
wrapper sys (write fd buf count) s = converted c_long (sys (sys_write fd buf count) s.os)
wrapper sys (close fd) s = converted c_int (sys (sys_close fd) s.os)
wrapper sys (mmap addr len prot flags fd off) s =
    converted c_ptr (sys (sys_mmap addr len prot flags fd off) s.os)
wrapper sys (mprotect addr len prot) s = converted c_int (sys (sys_mprotect addr len prot) s.os)
wrapper sys (munmap addr len) s = converted c_int (sys (sys_munmap addr len) s.os)
wrapper sys (pipe filedes) s = converted c_int (sys (sys_pipe filedes) s.os)
wrapper sys (dup filedes) s = converted c_int (sys (sys_dup filedes) s.os)
wrapper sys (dup2 oldfd newfd) s = converted c_int (sys (sys_dup2 oldfd newfd) s.os)
wrapper sys pause s = converted c_int (sys sys_pause s.os)
wrapper sys (nanosleep rqtp rmtp) s = converted c_int (sys (sys_nanosleep rqtp rmtp) s.os)
wrapper sys fork s = converted c_int (sys sys_fork s.os)
wrapper sys (getcwd buf size) s = converted c_ptr (sys (sys_getcwd buf size) s.os)
wrapper sys (chdir path) s = converted c_int (sys (sys_chdir path) s.os)
wrapper sys (rename oldname newname) s = converted c_int (sys (sys_rename oldname newname) s.os)
wrapper sys (mkdir path mode) s = converted c_int (sys (sys_mkdir path mode) s.os)
wrapper sys (rmdir path) s = converted c_int (sys (sys_rmdir path) s.os)
wrapper sys (creat path mode) s = converted c_int (sys (sys_creat path mode) s.os)
wrapper sys (link oldname newname) s = converted c_int (sys (sys_link oldname newname) s.os)
wrapper sys (unlink path) s = converted c_int (sys (sys_unlink path) s.os)
wrapper sys (readlink path buf bufsz) s = converted c_long (sys (sys_readlink path buf bufsz) s.os)
wrapper sys (chmod path mode) s = converted c_int (sys (sys_chmod path mode) s.os)
wrapper sys (chown path user group) s = converted c_int (sys (sys_chown path user group) s.os)
wrapper sys (umask mask) s = converted c_int (sys (sys_umask mask) s.os)
wrapper sys (gettimeofday tv tz) s = converted c_int (sys (sys_gettimeofday tv tz) s.os)
wrapper sys getuid s = converted c_int (sys sys_getuid s.os)
wrapper sys getgid s = converted c_int (sys sys_getgid s.os)
wrapper sys (setuid uid) s = converted c_int (sys (sys_setuid uid) s.os)
wrapper sys (setgid gid) s = converted c_int (sys (sys_setgid gid) s.os)
wrapper sys geteuid s = converted c_int (sys sys_geteuid s.os)
wrapper sys getegid s = converted c_int (sys sys_getegid s.os)

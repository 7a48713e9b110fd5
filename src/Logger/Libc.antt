-- ===== src/Logger/Libc.antt =====
-- What hw2 calls and does not implement: the dynamic linker, the functions of libc behind it, paths,
-- environment variables, and the log's descriptor.
use nycu_advanced_unix_progr.Base.{ℕ, Option, List, Bytes}
use nycu_advanced_unix_progr.Base.Int.{ℤ}

-- The functions that hw2/inject_glibc.cpp takes over, with their arguments: a `char*` that is a path
-- or a mode is its text, another pointer is an address. open has its third argument or not.
pub data GlibcCall : Type 0 where
  call_chmod : Bytes → ℕ → GlibcCall
  call_chown : Bytes → ℕ → ℕ → GlibcCall
  call_close : ℤ → GlibcCall
  call_creat : Bytes → ℕ → GlibcCall
  call_fclose : ℕ → GlibcCall
  call_fopen : Bytes → Bytes → GlibcCall
  call_fread call_fwrite : ℕ → ℕ → ℕ → ℕ → GlibcCall
  call_open : Bytes → ℕ → Option ℕ → GlibcCall
  call_read call_write : ℤ → ℕ → ℕ → GlibcCall
  call_remove : Bytes → GlibcCall
  call_rename : Bytes → Bytes → GlibcCall
  call_tmpfile : GlibcCall

-- A value in a line of the log: `"%s"`, `%o`, `%d` or `%ld`.
pub data Field : Type 0 where
  quoted : Bytes → Field
  octal : ℕ → Field
  decimal : ℤ → Field

-- `[logger] func(fields) = result`
pub record Line : Type 0 where
  pub func : Bytes
  pub fields : List Field
  pub result : ℤ

-- The functions of libc: a result (a pointer is its address) and the world behind the call.
abbrev pub Origin : Type 0 → Type 0
Origin S = GlibcCall → S → ℤ × S

-- On a world S, errno included. dlopen(LIBM_SO) and dlsym give NULL as `none`, as do realpath, readlink
-- with the size of its buffer, stat (the mode), fileno and getenv where they fail; all but getenv and
-- getpid may change the world, if only by errno. `bytes_at` is the memory.
pub record Libc (S : Type 0) : Type 0 where
  pub dlopen : S → Option ℕ × S
  pub dlsym : ℕ → Bytes → S → Option (Origin S) × S
  pub realpath : Bytes → S → Option Bytes × S
  pub readlink : Bytes → ℕ → S → Option Bytes × S
  pub stat_mode : Bytes → S → Option ℕ × S
  pub getpid : S → ℕ
  pub fileno : ℕ → S → Option ℤ × S
  pub bytes_at : S → ℕ → ℕ
  pub getenv : Bytes → S → Option Bytes
  pub dprintf : ℤ → Line → S → S

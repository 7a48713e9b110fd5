-- ===== src/Logger/Examples.antt =====
-- The theorems on the logger at concrete inputs: one file, a libc that always answers 3, and an
-- environment as a function.
use nycu_advanced_unix_progr.Base.{
  ℕ, ◌+◌, ◌<◌, ◌≡◌, refl, true, Option, none, some, List, [], ◌∷◌, Bytes, codes, bytes_eq,
  bytes_eq_refl, length, All, get_elem?, ◌==◌, if◌then◌else◌, arith,
}
use nycu_advanced_unix_progr.Base.Int.{ℤ, pos}
use nycu_advanced_unix_progr.Base.Ctype.{is_print}
use nycu_advanced_unix_progr.Logger.Libc.{Line, Origin, Libc}
use nycu_advanced_unix_progr.Logger.Paths.{masked, get_buffer, get_abs_path}
use nycu_advanced_unix_progr.Logger.Paths.Shown.{get_buffer-shown}
use nycu_advanced_unix_progr.Logger.Intercept.{out_fd, intercept}
use nycu_advanced_unix_progr.Logger.Launch.{option_o, execvp, Launcher, open_log, launch}
use nycu_advanced_unix_progr.Logger.Launch.Environment.{Environment, launch-environment}

-- "hi" and two bytes that are no characters, at address 16.
abbrev memory : ℕ → ℕ
memory a = if a == 16 then 104 else if a == 17 then 105 else 7

get_buffer-shown_example :
    let msg = get_buffer memory 16 4 in
    (length msg ≡ 4)
    × All (λ c. is_print c ≡ true) msg
    × ((i : ℕ) → i < 4 → get_elem? msg i ≡ some (masked (memory (16 + i))))
get_buffer-shown_example = get_buffer-shown memory 16 4

buffer_text : get_buffer memory 16 4 ≡ codes "hi.."
unfolding get_buffer nycu_advanced_unix_progr.Logger.Paths.buffer_loop masked is_print
buffer_text = refl

record World : Type 0 where
  env : Bytes → Option Bytes
  log : List (ℤ × Line)

abbrev getenv : Bytes → World → Option Bytes
getenv name w = w.env name

abbrev setenv : Bytes → Bytes → World → World
setenv name value w = record w {
  env = λ other. if bytes_eq name other then some value else w.env other;
}

abbrev answer : Origin World
answer c w = (pos 3, w)

abbrev the_path : Bytes
the_path = codes "/tmp/a"

abbrev toy_libc : Libc World
toy_libc = record {
  dlopen = λ w. (some 1, w);
  dlsym = λ handle name w. (some answer, w);
  realpath = λ path w. (some the_path, w);
  readlink = λ link size w. (some the_path, w);
  stat_mode = λ path w. (some 0x81a4, w);
  getpid = λ w. 100;
  fileno = λ fp w. (some (pos 3), w);
  bytes_at = λ w. memory;
  getenv = getenv;
  dprintf = λ fd line w. record w { log = (fd, line) ∷ w.log };
}

-- An environment with OUT_FD = 5.
abbrev with_log : World
with_log = record { env = λ name. some (codes "5"); log = [] }

abbrev toy_sys : Launcher World
toy_sys = record {
  dup = λ fd w. (pos 4, w);
  open_out = λ path flags mode w. (pos 5, w);
  setenv = setenv;
}

toy-Environment : Environment toy_libc toy_sys
toy-Environment = record {
  set_get = λ name value s. rw (bytes_eq_refl name) refl;
  set_other = λ value s. refl;
}

abbrev bare : World
bare = record { env = λ name. none; log = [] }

opened : (open_log toy_sys (codes "log") bare).0 ≡ pos 5
unfolding open_log
opened = refl

launch-environment_example :
    (s' : World) × (launch toy_sys (option_o (codes "log") ∷ []) (codes "ls" ∷ codes "-l" ∷ []) bare
      ≡ execvp (codes "ls") (codes "ls" ∷ codes "-l" ∷ []) s')
    × (out_fd toy_libc s' ≡ some (pos 5))
    × (toy_libc.getenv (codes "LD_PRELOAD") s' ≡ some (codes "./logger.so"))
launch-environment_example =
    launch-environment toy_libc toy_sys toy-Environment (option_o (codes "log") ∷ []) (codes "ls")
      (codes "-l" ∷ []) bare 5 tt (omega arith) opened

-- ===== src/Logger/Launch.antt =====
-- hw2/hw2.cpp: the launcher, which sets the environment of the program and starts it.
pub mod Environment
use nycu_advanced_unix_progr.Base.{
  ℕ, Bool, Option, none, some, List, [], ◌∷◌, Bytes, codes, bytes_eq, if◌then◌else◌,
}
use nycu_advanced_unix_progr.Base.Int.{ℤ}
use nycu_advanced_unix_progr.Base.Decimal.{int_to_string}

-- An answer of getopt(argc, argv, "o:p:"), with its optarg.
pub data LoggerOption : Type 0 where
  option_o option_p : Bytes → LoggerOption
  option_other : LoggerOption

-- How main ends: with a message and -1, or in execvp(argv[0], argv) on a world; a failed execvp
-- returns and main ends with -1.
pub data Launched (S : Type 0) : Type 0 where
  usage no_command : Launched S
  execvp : Bytes → List Bytes → S → Launched S

-- The calls of main: dup, open, and setenv with overwriting.
pub record Launcher (S : Type 0) : Type 0 where
  pub dup : ℤ → S → ℤ × S
  pub open_out : Bytes → ℕ → ℕ → S → ℤ × S
  pub setenv : Bytes → Bytes → S → S

-- STDERR_FILENO
abbrev pub stderr_fileno : ℤ
stderr_fileno = ℤ.pos 2

-- O_WRONLY|O_CREAT|O_TRUNC
abbrev pub out_flags : ℕ
out_flags = 0x241

-- The loop over getopt: path_libc and path_out behind it, `none` for the usage.
unfoldable pub parse_options : List LoggerOption → Bytes → Bytes → Option (Bytes × Bytes)
parse_options [] path_libc path_out = some (path_libc, path_out)
parse_options (option_o optarg ∷ options) path_libc path_out =
    parse_options options path_libc optarg
parse_options (option_p optarg ∷ options) path_libc path_out = parse_options options optarg path_out
parse_options (option_other ∷ options) path_libc path_out = none

module _ {S : Type 0} (sys : Launcher S) where
  -- The descriptor of the log.
  unfoldable pub open_log : Bytes → S → ℤ × S
  open_log path_out s =
      if bytes_eq path_out (codes "stderr")
      then sys.dup stderr_fileno s
      else sys.open_out path_out out_flags 0x1a4 s

  -- The two variables that the wrappers and the linker read.
  unfoldable pub set_environment : Bytes → Bytes → S → S
  unfolding open_log
  set_environment path_libc path_out s =
      let (out_fd, s') = open_log path_out s in
      sys.setenv (codes "LD_PRELOAD") path_libc
        (sys.setenv (codes "OUT_FD") (int_to_string out_fd) s')

  -- main, with the answers of getopt and the arguments behind them.
  unfoldable pub launch : List LoggerOption → List Bytes → S → Launched S
  unfolding set_environment
  launch options argv s = elim (parse_options options (codes "./logger.so") (codes "stderr")) [
    | none ↦ usage
    | some (path_libc, path_out) ↦ elim argv [
      | [] ↦ no_command
      | cmd ∷ args ↦ execvp cmd (cmd ∷ args) (set_environment path_libc path_out s)
    ]
  ]

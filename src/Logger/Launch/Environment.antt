-- ===== src/Logger/Launch/Environment.antt =====
-- The environment that the launcher leaves, as the wrappers and the linker read it.
use nycu_advanced_unix_progr.Base.{
  ℕ, ◌^◌, ◌<◌, ◌≡◌, refl, ◌∙◌, ap, some, List, [], ◌∷◌, Bytes, codes,
}
use nycu_advanced_unix_progr.Base.Int.{pos}
use nycu_advanced_unix_progr.Base.Decimal.{to_string, int_to_string, atoi-to_string}
use nycu_advanced_unix_progr.Logger.Libc.{Libc}
use nycu_advanced_unix_progr.Logger.Intercept.{out_fd}
use nycu_advanced_unix_progr.Logger.Launch.{
  LoggerOption, option_o, option_p, option_other, execvp, Launcher, parse_options, open_log,
  set_environment, launch,
}

-- The last -o, or the name before it.
abbrev pub last_o : Bytes → List LoggerOption → Bytes
last_o path [] = path
last_o path (option_o optarg ∷ options) = last_o optarg options
last_o path (_ ∷ options) = last_o path options

abbrev pub last_p : Bytes → List LoggerOption → Bytes
last_p path [] = path
last_p path (option_p optarg ∷ options) = last_p optarg options
last_p path (_ ∷ options) = last_p path options

-- No option but -o and -p.
abbrev pub AreKnown : List LoggerOption → Type 0
AreKnown [] = Unit
AreKnown (option_other ∷ options) = ⊥
AreKnown (_ ∷ options) = AreKnown options

parse_options-last :
    (options : List LoggerOption) (path_libc path_out : Bytes)
    → AreKnown options
    → parse_options options path_libc path_out
      ≡ some (last_p path_libc options, last_o path_out options)
unfolding parse_options
parse_options-last [] path_libc path_out h = refl
parse_options-last (option_o optarg ∷ options) path_libc path_out h =
    parse_options-last options path_libc optarg h
parse_options-last (option_p optarg ∷ options) path_libc path_out h =
    parse_options-last options optarg path_out h
parse_options-last (option_other ∷ options) path_libc path_out h = elim h [ ]

-- setenv as getenv sees it.
pub record Environment {S : Type 0} (libc : Libc S) (sys : Launcher S) : Type 0 where
  pub set_get :
      (name value : Bytes) (s : S) → libc.getenv name (sys.setenv name value s) ≡ some value
  pub set_other :
      (value : Bytes) (s : S)
      → libc.getenv (codes "OUT_FD") (sys.setenv (codes "LD_PRELOAD") value s)
        ≡ libc.getenv (codes "OUT_FD") s

module _ {S : Type 0} (libc : Libc S) (sys : Launcher S) (environment : Environment libc sys) where
  out_fd-set :
      (path_libc path_out : Bytes) (s : S) (n : ℕ)
      → n < 2 ^ 31
      → (open_log sys path_out s).0 ≡ pos n
      → out_fd libc (set_environment sys path_libc path_out s) ≡ some (pos n)
  unfolding set_environment out_fd int_to_string
  out_fd-set path_libc path_out s n h e =
      let (fd, s') = open_log sys path_out s in
      let before = sys.setenv (codes "OUT_FD") (int_to_string fd) s' in
      let text : libc.getenv (codes "OUT_FD") (sys.setenv (codes "LD_PRELOAD") path_libc before)
          ≡ some (int_to_string fd) =
        environment.set_other path_libc before
        ∙ environment.set_get (codes "OUT_FD") (int_to_string fd) s' in
      let number : int_to_string fd ≡ to_string n = ap int_to_string e in
      rw (out_fd, text, number, atoi-to_string n h) refl

  -- With no option but -o and -p and with a command, the launcher starts the command with its
  -- arguments. If the file of the last -o (or a copy of stderr) opens as descriptor n, the wrappers in
  -- the command read n from OUT_FD, and LD_PRELOAD is the path of the last -p (or ./logger.so).
  pub launch-environment :
      (options : List LoggerOption) (cmd : Bytes) (args : List Bytes) (s : S) (n : ℕ)
      → AreKnown options
      → n < 2 ^ 31
      → (open_log sys (last_o (codes "stderr") options) s).0 ≡ pos n
      → (s' : S) × (launch sys options (cmd ∷ args) s ≡ execvp cmd (cmd ∷ args) s')
        × (out_fd libc s' ≡ some (pos n))
        × (libc.getenv (codes "LD_PRELOAD") s' ≡ some (last_p (codes "./logger.so") options))
  unfolding launch
  launch-environment options cmd args s n known h e =
      let path_libc = last_p (codes "./logger.so") options in
      let path_out = last_o (codes "stderr") options in
      (
        set_environment sys path_libc path_out s,
        rw (launch, parse_options-last options (codes "./logger.so") (codes "stderr") known) refl,
        out_fd-set path_libc path_out s n h e,
        environment.set_get (codes "LD_PRELOAD") path_libc _,
      )

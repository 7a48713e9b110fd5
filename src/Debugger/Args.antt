-- ===== src/Debugger/Args.antt =====
-- arg_parser of hw4/parser.hpp and the choice of the input in hw4/hw4.cpp.
use nycu_advanced_unix_progr.Base.{List, [], ◌∷◌, Bytes, bytes_eq, if◌then◌else◌}
use nycu_advanced_unix_progr.Debugger.Machine.{Machine}
use nycu_advanced_unix_progr.Debugger.Session.{Outcome}
use nycu_advanced_unix_progr.Debugger.Main.{run_sdb}

-- An answer of getopt(argc, argv, "s:"), with its optarg.
pub data SdbOption : Type 0 where
  option_s : Bytes → SdbOption
  option_unknown : SdbOption

-- The loop of arg_parser: the script.
unfoldable pub script_of : List SdbOption → Bytes → Bytes
script_of [] script = script
script_of (option_s optarg ∷ options) script = script_of options optarg
script_of (option_unknown ∷ options) script = script_of options script

-- The first argument behind the options, or no program.
unfoldable pub program_of : List Bytes → Bytes
program_of [] = []
program_of (arg ∷ args) = arg

-- arg_parser: the script and the program, each empty where there is none.
unfoldable pub arg_parser : List SdbOption → List Bytes → Bytes × Bytes
unfolding script_of program_of
arg_parser options args = (script_of options [], program_of args)

module _ {S : Type 0} (m : Machine S) where
  -- main, with the lines of the scripts (none where a file cannot be opened) and those of the terminal.
  unfoldable pub sdb :
      (Bytes → List Bytes) → List Bytes → List SdbOption → List Bytes → S → Outcome S
  unfolding arg_parser
  sdb script_lines input options args os =
      let (script, program) = arg_parser options args in
      run_sdb m program (if bytes_eq script [] then input else script_lines script) os

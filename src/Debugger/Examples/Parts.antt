-- ===== src/Debugger/Examples/Parts.antt =====
-- The theorems on the parts of hw4 that no kernel stands behind, applied to small inputs.

use nycu_advanced_unix_progr.Base.{◌≡◌, refl, none, some, List, [], ◌∷◌, ◌++◌, Bytes, codes, arith}
use nycu_advanced_unix_progr.Base.Int.{pos}
use nycu_advanced_unix_progr.Debugger.Args.{option_s, option_unknown, arg_parser}
use nycu_advanced_unix_progr.Debugger.Cmdline.{dbgcmd_parser}
use nycu_advanced_unix_progr.Debugger.Cmdline.Words.{split_words, dbgcmd_parser-eq}
use nycu_advanced_unix_progr.Debugger.Cmdline.RoundTrip.{dbgcmd_parser-join}
use nycu_advanced_unix_progr.Debugger.Breakpoint.{BreakpointTable, at_addr}
use nycu_advanced_unix_progr.Debugger.Regs.{Reg, find_reg}
use nycu_advanced_unix_progr.Debugger.Breakpoint.{add, del, at_idx}
use nycu_advanced_unix_progr.Debugger.Breakpoint.Dict.{at_addr-add, at_addr-del}

abbrev words : List Bytes
words = codes "set" ∷ codes "rax" ∷ []

dbgcmd_parser-join_example :
    dbgcmd_parser (codes "set rax 0x10") b' ' ≡ some (words ++ codes "0x10" ∷ [])
dbgcmd_parser-join_example =
    dbgcmd_parser-join b' ' words (codes "0x10")
      (
        ((λ e. cc), ((λ e. omega arith), ((λ e. omega arith), ((λ e. omega arith), tt)))),
        (((λ e. cc), ((λ e. omega arith), ((λ e. omega arith), ((λ e. omega arith), tt)))), tt),
      )
      ((λ e. omega arith), ((λ e. omega arith), ((λ e. omega arith), ((λ e. omega arith), tt))))

dbgcmd_parser-eq_example :
    dbgcmd_parser (codes "set  rax ") b' ' ≡ some (split_words b' ' [] (codes "set  rax "))
dbgcmd_parser-eq_example = dbgcmd_parser-eq (codes "set  rax ") b' '

abbrev table : BreakpointTable
table = record { code = 0x90; addr = 0x1004 } ∷ record { code = 0x91; addr = 0x1008 } ∷ []

pub find_rax : find_reg (codes "rax") ≡ some Reg.rax
unfolding find_reg
find_rax = refl

at_addr-add_example :
    at_addr (add table 0x100c 0x92) 0x100c ≡ some (record { code = 0x92; addr = 0x100c })
unfolding at_addr
at_addr-add_example = at_addr-add table 0x100c 0x92 0x100c

at_addr-del_example : at_addr (del table (pos 0)) 0x1004 ≡ none
unfolding at_idx
at_addr-del_example =
    at_addr-del table 0 0x1004 (record { code = 0x90; addr = 0x1004 }) (refl, (refl, tt)) refl

last_script :
    arg_parser
      (option_s (codes "a") ∷ option_unknown ∷ option_s (codes "b") ∷ [])
      (codes "prog" ∷ codes "x" ∷ [])
    ≡ (codes "b", codes "prog")
unfolding arg_parser
last_script = refl

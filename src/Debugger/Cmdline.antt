-- ===== src/Debugger/Cmdline.antt =====
-- dbgcmd_parser of hw4/parser.hpp: how a command line is cut into words.
pub mod Words
pub mod RoundTrip
use nycu_advanced_unix_progr.Base.{
  ℕ, zero, suc, ◌+◌, ◌-◌, Option, none, some, List, [], ◌∷◌, ◌++◌, Bytes, ◌==◌, if◌then◌else◌,
  length, take, drop,
}

-- The position of the first delimiter in a text, counted from p.
find_in : ℕ → Bytes → ℕ → Option ℕ
find_in d [] p = none
find_in d (c ∷ s) p = if c == d then some p else find_in d s (p + 1)

-- line.find(delimiter, pos)
unfoldable pub find : Bytes → ℕ → ℕ → Option ℕ
unfolding find_in
find line d pos = find_in d (drop pos line) pos

-- line.substr(pos, n), for a position of the line or its end.
unfoldable pub substr : Bytes → ℕ → ℕ → Bytes
substr line pos n = take n (drop pos line)

-- One round of the loop: where it goes on and the words so far. An empty word is no result.
add_word : Bytes → ℕ → ℕ → List Bytes → ℕ × List Bytes
add_word [] pos1 pos2 result = (pos1 + 1, result)
add_word word pos1 pos2 result = (pos2 + 1, result ++ word ∷ [])

-- The while loop with fuel; `none` means that the fuel ran out.
unfoldable pub words_loop : ℕ → Bytes → ℕ → ℕ → List Bytes → Option (List Bytes)
unfolding find substr add_word
words_loop zero line d pos1 result = none
words_loop (suc fuel) line d pos1 result = elim (find line d pos1) [
  | none ↦ some (result ++ drop pos1 line ∷ [])
  | some pos2 ↦
      let (next, result') = add_word (substr line pos1 (pos2 - pos1)) pos1 pos2 result in
      words_loop fuel line d next result'
]

unfoldable pub dbgcmd_parser : Bytes → ℕ → Option (List Bytes)
unfolding words_loop
dbgcmd_parser line d = words_loop (suc (length line)) line d 0 []

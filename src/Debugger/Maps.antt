-- ===== src/Debugger/Maps.antt =====
-- maps_parser of hw4/parser.hpp: the lines of /proc/<pid>/maps, cut by fgets and strtok_r.
pub mod Total
use nycu_advanced_unix_progr.Base.{
  ℕ, zero, suc, ◌+◌, Bool, true, false, not, ◌&&◌, ◌||◌, Option, none, some, List, [], ◌∷◌, ◌++◌,
  Bytes, ltb, leb, ◌==◌, if◌then◌else◌, length, take, get_elem?,
}
use nycu_advanced_unix_progr.Base.Stdio.{fgets}
use nycu_advanced_unix_progr.Base.Strtol.{strtol, strtoul}

-- range_s
pub record Range : Type 0 where
  pub begin : ℕ
  pub end' : ℕ

-- map_entry_s
pub record MapEntry : Type 0 where
  pub range : Range
  pub perm : Bytes
  pub offset : ℕ
  pub name : Bytes

-- operator<(range_t, range_t)
unfoldable pub range_lt : Range → Range → Bool
range_lt a b = ltb a.begin b.begin && ltb a.end' b.end'

-- The delimiters " \t\n\r".
is_delim : ℕ → Bool
is_delim c = c == b' ' || c == b'\t' || c == b'\n' || c == b'\r'

-- A finished word, unless it is empty.
flush : Bytes → List Bytes → List Bytes
flush [] words = words
flush (c ∷ w) words = (c ∷ w) ∷ words

-- The words that the calls of strtok_r find, with the word begun so far.
unfoldable pub tokens : Bytes → Bytes → List Bytes
unfolding is_delim flush
tokens word [] = flush word []
tokens word (c ∷ s) =
    let ended = flush word (tokens [] s) in
    let longer = tokens (word ++ c ∷ []) s in if is_delim c then ended else longer

-- The text before the first `-` and the text behind it.
unfoldable pub split_dash : Bytes → Option (Bytes × Bytes)
split_dash [] = none
split_dash (c ∷ s) =
    if c == b'-'
    then some ([], s)
    else elim (split_dash s) [ none ↦ none | some (a, b) ↦ some (c ∷ a, b) ]

-- What a line says. `malformed`: no `-` in the range, so that `m.range` is never set, or a second
-- word of fewer than three characters, behind which `args[1][3] = 0` would write.
pub data LineResult : Type 0 where
  skipped malformed : LineResult
  entry : MapEntry → LineResult

entry_of : List Bytes → LineResult
unfolding split_dash
entry_of (range ∷ perm ∷ offset ∷ dev ∷ inode ∷ name ∷ more) = elim (split_dash range) [
  | none ↦ malformed
  | some (begin, end') ↦
      if ltb (length perm) 3
      then malformed
      else entry (record {
        range = record { begin = strtoul 16 begin; end' = strtoul 16 end' };
        perm = take 3 perm;
        offset = strtol 16 offset;
        name = name;
      })
]
entry_of _ = skipped

-- One round of the loop; at most eight words are looked at.
unfoldable pub parse_line : Bytes → LineResult
unfolding tokens entry_of
parse_line line = entry_of (take 8 (tokens [] line))

pub data MapsResult : Type 0 where
  out_of_fuel bad_line : MapsResult
  maps : List MapEntry → MapsResult

-- The entry of a line in front of those of the later lines.
unfoldable pub add_line : LineResult → MapsResult → MapsResult
add_line skipped r = r
add_line malformed r = bad_line
add_line (entry e) out_of_fuel = out_of_fuel
add_line (entry e) bad_line = bad_line
add_line (entry e) (maps l) = maps (e ∷ l)

-- The loop over the file, with a buffer of 256 bytes. The entries are those printed; the std::map
-- that collects them is a local of the only caller, which never reads it.
unfoldable pub maps_loop : ℕ → Bytes → MapsResult
unfolding fgets parse_line add_line
maps_loop zero text = out_of_fuel
maps_loop (suc fuel) [] = maps []
maps_loop (suc fuel) (c ∷ text) =
    let (line, rest) = fgets 255 (c ∷ text) in add_line (parse_line line) (maps_loop fuel rest)

unfoldable pub maps_parser : Bytes → MapsResult
unfolding maps_loop
maps_parser text = maps_loop (suc (length text)) text

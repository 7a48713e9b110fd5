-- ===== src/Lsof/Process.antt =====
-- hw1/process.hpp: what lsof finds out about one process. `none` is undefined behaviour: a write
-- outside a buffer, or a std::string made from a null pointer.
use nycu_advanced_unix_progr.Base.{
  ℕ, zero, suc, ◌≡◌, refl, ◌⊎◌, inl, inr, Bool, true, false, ◌&&◌, ◌||◌, Option, none, some, List,
  [], ◌∷◌, ◌++◌, Bytes, codes, bytes_eq, length, drop, leb, ◌==◌, if◌then◌else◌,
}
use nycu_advanced_unix_progr.Base.Ctype.{c_str}
use nycu_advanced_unix_progr.Base.Stdio.{fgets}
use nycu_advanced_unix_progr.Lsof.File.{OpenFile, Stat}

-- A call that may fail with an errno.
pub data Answer {ℓ} (A : Type ℓ) : Type ℓ where
  failed : ℕ → Answer A
  answered : A → Answer A

pub Answer-cases {ℓ} :
    {A : Type ℓ} (a : Answer A) → ((errsv : ℕ) × (a ≡ failed errsv)) ⊎ ((x : A) × (a ≡ answered x))
Answer-cases (failed errsv) = inl (errsv, refl)
Answer-cases (answered x) = inr (x, refl)

-- The answers of the system about /proc: read of a whole comm, readlink, the text of maps, the names
-- in fd, stat and lstat. No call is made twice with the same arguments for a process, so the files may
-- change in between.
pub record Proc : Type 0 where
  pub read_comm : Bytes → Option Bytes
  pub readlink : Bytes → Answer Bytes
  pub open_maps : Bytes → Answer Bytes
  pub read_dir : Bytes → Answer (List Bytes)
  pub stat : Bytes → Option Stat
  pub lstat : Bytes → Option Stat

-- class process
pub record Process : Type 0 where
  pub alive : Bool
  pub path : Bytes
  pub command : Bytes
  pub pid : Bytes
  pub uid : Bytes
  pub user_name : Bytes
  pub hash : List Bytes
  pub file_list : List OpenFile

-- EACCES
abbrev pub eacces : ℕ
eacces = 13

-- sizeof(buffer)
abbrev pub buffer_bytes : ℕ
buffer_bytes = 1024

-- `hash.count(name)`
abbrev pub count : List Bytes → Bytes → Bool
count [] name = false
count (x ∷ hash) name = bytes_eq x name || count hash name

abbrev pub dead : Process → Process
dead p = record p { alive = false }

abbrev pub push_back : OpenFile → Process → Process
push_back f p = record p { file_list = p.file_list ++ (f ∷ []) }

abbrev pub insert : Bytes → Process → Process
insert name p = record p { hash = name ∷ p.hash }

abbrev pub is_prefix : Bytes → Bytes → Bool
is_prefix [] s = true
is_prefix (c ∷ t) [] = false
is_prefix (c ∷ t) (d ∷ s) = c == d && is_prefix t s

-- `s.find(text) != npos`
unfoldable pub contains : Bytes → Bytes → Bool
contains text [] = is_prefix text []
contains text (c ∷ s) = is_prefix text (c ∷ s) || contains text s

-- `s.erase(s.find(text), length of text)` where it is found.
unfoldable pub erase_first : Bytes → Bytes → Bytes
erase_first text [] = []
erase_first text (c ∷ s) =
    let rest = erase_first text s in
    if is_prefix text (c ∷ s) then drop (length text) (c ∷ s) else c ∷ rest

-- The name in a link, without " (deleted)"; `none` where the name fills the buffer.
unfoldable pub link_name : Bytes → Option Bytes
unfolding erase_first
link_name buffer =
    if leb buffer_bytes (length buffer)
    then none
    else some (erase_first (codes " (deleted)") (c_str buffer))

-- All but the last byte, `buffer[len-1] = 0`.
unfoldable pub chop : Bytes → Option Bytes
chop [] = none
chop (c ∷ []) = some []
chop (c ∷ d ∷ s) = elim (chop (d ∷ s)) [ none ↦ none | some rest ↦ some (c ∷ rest) ]

-- The delimiters " \t\n".
abbrev pub is_deli : ℕ → Bool
is_deli c = c == b' ' || c == b'\t' || c == b'\n'

abbrev pub end_token : Bytes → List Bytes → List Bytes
end_token [] tokens = tokens
end_token (c ∷ token) tokens = (c ∷ token) ∷ tokens

-- The tokens that the calls of strtok find, with the token begun so far.
unfoldable pub strtok_all : (ℕ → Bool) → Bytes → Bytes → List Bytes
strtok_all deli token [] = end_token token []
strtok_all deli token (c ∷ s) =
    let ended = end_token token (strtok_all deli [] s) in
    let longer = strtok_all deli (token ++ (c ∷ [])) s in if deli c then ended else longer

-- The lines that fgets(buffer, 1024, fp) reads, with fuel; length + 1 is enough.
unfoldable pub read_lines : ℕ → Bytes → List Bytes
read_lines zero text = []
read_lines (suc fuel) [] = []
read_lines (suc fuel) (c ∷ text) =
    let (line, rest) = fgets 1023 (c ∷ text) in line ∷ read_lines fuel rest

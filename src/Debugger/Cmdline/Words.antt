-- ===== src/Debugger/Cmdline/Words.antt =====
-- dbgcmd_parser against a plain recursion over the line, and its round trip.
use nycu_advanced_unix_progr.Base.{
  ℕ, zero, suc, ◌+◌, ◌-◌, ◌≤◌, ◌<◌, ◌≡◌, refl, ap, inl, inr, none, some, List, [], ◌∷◌, ◌++◌, Bytes,
  ◌==◌, if◌then◌else◌, length, take, drop, append_assoc, append-nil, arith, Bool-cases,
  Option-cases,
}
use nycu_advanced_unix_progr.Debugger.Cmdline.{find_in, find, add_word, words_loop, dbgcmd_parser}

-- A word in front of others, unless it is empty.
abbrev pub cons_word : Bytes → List Bytes → List Bytes
cons_word [] ws = ws
cons_word (c ∷ w) ws = (c ∷ w) ∷ ws

-- The words of a line: what stands between delimiters, without the empty words, and at last what
-- stands behind the last delimiter, even if that is empty.
unfoldable pub split_words : ℕ → Bytes → Bytes → List Bytes
split_words d word [] = word ∷ []
split_words d word (c ∷ s) =
    let ended = cons_word word (split_words d [] s) in
    let longer = split_words d (word ++ c ∷ []) s in if c == d then ended else longer

find_none :
    (d : ℕ) (s : Bytes) (p : ℕ) (word : Bytes)
    → find_in d s p ≡ none
    → split_words d word s ≡ (word ++ s) ∷ []
unfolding find_in split_words
find_none d [] p word h = rw append-nil
find_none d (c ∷ s) p word h =
    ground (arith, find_none d s (p + 1) (word ++ c ∷ []), append_assoc word (c ∷ []) s)

find_some :
    (d : ℕ) (s : Bytes) (p q : ℕ) (word : Bytes)
    → find_in d s p ≡ some q
    → (k : ℕ) × (q ≡ p + k)
      × (k < length s)
      × (split_words d word s ≡ cons_word (word ++ take k s) (split_words d [] (drop (suc k) s)))
unfolding find_in split_words
find_some d [] p q word h = absurd (cc)
find_some d (c ∷ s) p q word h = elim (Bool-cases (c == d)) [
  | inl hit ↦ (0, ground arith, omega arith, ground (arith, append-nil word))
  | inr miss ↦
      let (k, e, l, rest) = find_some d s (p + 1) q (word ++ c ∷ []) (ground arith) in
      (suc k, omega arith, omega arith, ground (arith, append_assoc word (c ∷ []) (take k s)))
]

drop-drop {ℓ} : {A : Type ℓ} (n k : ℕ) (s : List A) → drop k (drop n s) ≡ drop (n + k) s
drop-drop zero k s = let e : 0 + k ≡ k = omega arith in rw e refl
drop-drop (suc n) zero [] = let e : suc n + 0 ≡ suc n = omega arith in rw e refl
drop-drop (suc n) (suc k) [] = let e : suc n + suc k ≡ suc (n + suc k) = omega arith in rw e refl
drop-drop (suc n) k (c ∷ s) =
    let e : suc n + k ≡ suc (n + k) = omega arith in rw e (drop-drop n k s)

length-drop {ℓ} : {A : Type ℓ} (n : ℕ) (s : List A) → length (drop n s) ≡ length s - n
length-drop zero s = omega arith
length-drop (suc n) [] = omega arith
length-drop (suc n) (c ∷ s) = omega (arith, length-drop n s)

-- A round goes on behind the delimiter that it found, and keeps the word before it.
add_word-eq :
    (s : Bytes) (k p q : ℕ) (result rest : List Bytes)
    → k < length s
    → q ≡ p + k
    → let (next, result') = add_word (take k s) p q result in
      (next ≡ p + suc k) × (result' ++ rest ≡ result ++ cons_word (take k s) rest)
unfolding add_word
add_word-eq s zero p q result rest l e = (omega arith, refl)
add_word-eq [] (suc k) p q result rest l e = absurd (omega arith)
add_word-eq (c ∷ s) (suc k) p q result rest l e =
    (omega arith, append_assoc result ((c ∷ take k s) ∷ []) rest)

-- The round that finds no delimiter.
words_loop_end :
    (fuel : ℕ) (line : Bytes) (d pos : ℕ) (result : List Bytes)
    → find line d pos ≡ none
    → words_loop (suc fuel) line d pos result ≡ some (result ++ split_words d [] (drop pos line))
unfolding words_loop
words_loop_end fuel line d pos result e =
    rw (e, words_loop) (rw (find_none d (drop pos line) pos [] (unfold find in e)) refl)

-- One round that finds a delimiter k bytes on.
words_loop_round :
    (fuel : ℕ) (line : Bytes) (d pos q k : ℕ) (result : List Bytes)
    → find line d pos ≡ some q
    → q - pos ≡ k
    → let r = add_word (take k (drop pos line)) pos q result in
      words_loop (suc fuel) line d pos result ≡ words_loop fuel line d r.0 r.1
unfolding words_loop
words_loop_round fuel line d pos q k result e there = rw (e, words_loop, there) refl

-- The loop ends within the fuel, with the words of what is left of the line.
words_loop-eq :
    (fuel : ℕ) (line : Bytes) (d pos : ℕ) (result : List Bytes)
    → pos ≤ length line
    → length line - pos < fuel
    → words_loop fuel line d pos result ≡ some (result ++ split_words d [] (drop pos line))
unfolding find
words_loop-eq zero line d pos result h l = absurd (omega arith)
words_loop-eq (suc fuel) line d pos result h l = elim (Option-cases (find line d pos)) [
  | inl e ↦ words_loop_end fuel line d pos result e
  | inr (q, e) ↦
      let (k, at, short, rest) = find_some d (drop pos line) pos q [] e in
      let r = add_word (take k (drop pos line)) pos q result in
      let (goes_on, keeps) =
        add_word-eq (drop pos line) k pos q result (split_words d [] (drop r.0 line)) short at in
      let ih =
        words_loop-eq fuel line d r.0 r.1 (omega (arith, length-drop {0} pos line))
          (omega (arith, length-drop {0} pos line)) in
      cc (
        words_loop_round fuel line d pos q k result e (omega arith),
        ih,
        keeps,
        rest,
        ap (λ (n : ℕ). drop n line) goes_on,
        drop-drop pos (suc k) line,
      )
]

-- The loop of dbgcmd_parser ends within its fuel on every line, and its result is that of a plain
-- recursion over the line: the non-empty words in front of delimiters, and the text behind the last.
pub dbgcmd_parser-eq : (line : Bytes) (d : ℕ) → dbgcmd_parser line d ≡ some (split_words d [] line)
unfolding dbgcmd_parser
dbgcmd_parser-eq line d = words_loop-eq (suc (length line)) line d 0 [] (omega arith) (omega arith)

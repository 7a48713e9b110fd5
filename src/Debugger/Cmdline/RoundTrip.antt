-- ===== src/Debugger/Cmdline/RoundTrip.antt =====
-- Words that are joined by delimiters are read back by dbgcmd_parser.
use nycu_advanced_unix_progr.Base.{
  ℕ, ◌≡◌, refl, ap, ◌≢◌, ◌∙◌, some, List, [], ◌∷◌, ◌++◌, Bytes, All, append_assoc, append-nil,
  arith,
}
use nycu_advanced_unix_progr.Debugger.Cmdline.{dbgcmd_parser}
use nycu_advanced_unix_progr.Debugger.Cmdline.Words.{cons_word, split_words, dbgcmd_parser-eq}

-- A text without a delimiter.
abbrev pub IsFree : ℕ → Bytes → Type 0
IsFree d = All (λ c. c ≢ d)

-- A word that the parser keeps.
abbrev pub IsWord : ℕ → Bytes → Type 0
IsWord d w = (w ≢ []) × IsFree d w

-- Words with one delimiter behind each, and a last word.
abbrev pub join_words : ℕ → List Bytes → Bytes → Bytes
join_words d [] last = last
join_words d (w ∷ ws) last = w ++ d ∷ join_words d ws last

split_last :
    (d : ℕ) (word last : Bytes) → IsFree d last → split_words d word last ≡ (word ++ last) ∷ []
unfolding split_words
split_last d word [] h = rw append-nil
split_last d word (c ∷ s) h =
    ground (arith, split_last d (word ++ c ∷ []) s h.1, append_assoc word (c ∷ []) s)

split_first :
    (d : ℕ) (word w s : Bytes)
    → IsFree d w
    → split_words d word (w ++ d ∷ s) ≡ cons_word (word ++ w) (split_words d [] s)
unfolding split_words
split_first d word [] s h = ground (arith, append-nil word)
split_first d word (c ∷ w) s h =
    ground (arith, split_first d (word ++ c ∷ []) w s h.1, append_assoc word (c ∷ []) w)

cons_word-word : (w : Bytes) (ws : List Bytes) → w ≢ [] → cons_word w ws ≡ w ∷ ws
cons_word-word [] ws h = absurd (h refl)
cons_word-word (c ∷ w) ws h = refl

split-join :
    (d : ℕ) (ws : List Bytes) (last : Bytes)
    → All (IsWord d) ws
    → IsFree d last
    → split_words d [] (join_words d ws last) ≡ ws ++ last ∷ []
split-join d [] last h k = split_last d [] last k
split-join d (w ∷ ws) last h k =
    split_first d [] w (join_words d ws last) h.0.1
    ∙ cons_word-word w _ h.0.0
    ∙ ap (λ (r : List Bytes). w ∷ r) (split-join d ws last h.1 k)

-- Non-empty words without delimiters, joined by single delimiters, are read back, with the text
-- behind the last delimiter as the last word, even if it is empty.
pub dbgcmd_parser-join :
    (d : ℕ) (ws : List Bytes) (last : Bytes)
    → All (IsWord d) ws
    → IsFree d last
    → dbgcmd_parser (join_words d ws last) d ≡ some (ws ++ last ∷ [])
dbgcmd_parser-join d ws last h k =
    dbgcmd_parser-eq (join_words d ws last) d ∙ ap some (split-join d ws last h k)

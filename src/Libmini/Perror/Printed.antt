-- ===== src/Libmini/Perror/Printed.antt =====
-- What perror prints.
use nycu_advanced_unix_progr.Base.{
  ℕ, ◌≡◌, ◌⊎◌, inl, inr, Bool-cases, get_elem?-past, get_elem?-inside, refl, true, false, Option,
  none, some, List, [], ◌∷◌, Bytes, codes, arith,
}
use nycu_advanced_unix_progr.Base.Int.{ℤ, pos, negsuc}
use nycu_advanced_unix_progr.Libmini.Wrappers.{Mini, wrapper_ret}
use nycu_advanced_unix_progr.Libmini.Perror.{errmsg, is_unknown, message, Writer, put, perror}

message-cases :
    (errno : ℤ)
    → ((is_unknown errno ≡ true) × (message errno ≡ none))
      ⊎ ((is_unknown errno ≡ false) × (text : Bytes) × (message errno ≡ some text))
unfolding message errmsg
message-cases (negsuc n) = inl (refl, refl)
message-cases (pos n) = elim (Bool-cases (is_unknown (pos n))) [
  | inl u ↦ inl (u, get_elem?-past errmsg n (ground arith))
  | inr u ↦ let (text, m) = get_elem?-inside errmsg n (ground arith) in inr (u, text, m)
]

-- The texts that perror means to print, and `none` where it reads outside its table.
abbrev pub pieces : Option Bytes → Option Bytes → Option (List Bytes)
pieces none none = some (codes "Unknown" ∷ codes "\n" ∷ [])
pieces none (some text) = some (text ∷ codes "\n" ∷ [])
pieces (some prefix) none = none
pieces (some prefix) (some text) = some (prefix ∷ codes ": " ∷ text ∷ codes "\n" ∷ [])

module _ {S : Type 0} (sys : Writer S) where
  -- The texts written one after the other.
  abbrev pub written : List Bytes → S → S
  written [] os = os
  written (text ∷ texts) os = written texts (sys text os).1

  abbrev pub printed : Option (List Bytes) → S → Option (Mini S)
  printed none os = none
  printed (some texts) os = some (record { errno = pos 0; os = written texts os })

  module _ (succeed : (text : Bytes) (os : S) → (n : ℕ) × ((sys text os).0 ≡ pos n)) where
    put-eq :
        (text : Bytes) (s : Mini S)
        → put sys text s ≡ record { errno = pos 0; os = (sys text s.os).1 }
    unfolding put wrapper_ret
    put-eq text s = rw (put, (succeed text s.os).1) refl

    put_two :
        (text text' : Bytes) (s : Mini S)
        → put sys text' (put sys text s)
          ≡ record { errno = pos 0; os = (sys text' (sys text s.os).1).1 }
    put_two text text' s = rw (put-eq text s, put-eq text') refl

    -- Where every write succeeds, perror prints the prefix, a colon and a space, then the message of
    -- errno, and a new line, and leaves errno 0. For an errno without a message it prints "Unknown" if
    -- there is no prefix; with a prefix, whose writes have set errno to 0, it reads outside its table.
    pub perror-eq :
        (prefix : Option Bytes) (s : Mini S)
        → perror sys prefix s ≡ printed (pieces prefix (message s.errno)) s.os
    unfolding perror
    perror-eq none s = elim (message-cases s.errno) [
      | inl (u, m) ↦ rw (u, m, put_two (codes "Unknown") (codes "\n") s) refl
      | inr (u, text, m) ↦ rw (u, m, put_two text (codes "\n") s) refl
    ]
    perror-eq (some prefix) s =
        let first = put_two prefix (codes ": ") s in
        elim (message-cases s.errno) [
          | inl (u, m) ↦ rw (first, m) refl
          | inr (u, text, m) ↦ rw (first, m, put_two text (codes "\n"), first) refl
        ]

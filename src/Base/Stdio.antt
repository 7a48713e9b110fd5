-- ===== src/Base/Stdio.antt =====
-- Reading lines of a text.
use nycu_advanced_unix_progr.Base.{
  ℕ, zero, suc, ◌≤◌, length, arith, [], ◌∷◌, Bytes, ◌==◌, if◌then◌else◌,
}

-- The bytes that fgets(buf, n + 1) takes from the front: to a newline, n at most; and the rest.
unfoldable pub fgets : ℕ → Bytes → Bytes × Bytes
fgets zero s = ([], s)
fgets (suc n) [] = ([], [])
fgets (suc n) (c ∷ s) =
    let (line, rest) = fgets n s in if c == b'\n' then (c ∷ [], s) else (c ∷ line, rest)

length-fgets : (n : ℕ) (s : Bytes) → length (fgets n s).1 ≤ length s
unfolding fgets
length-fgets zero s = omega arith
length-fgets (suc n) [] = omega arith
length-fgets (suc n) (c ∷ s) = ground (arith, length-fgets n s)

pub fgets-shorter : (n c : ℕ) (s : Bytes) → length (fgets (suc n) (c ∷ s)).1 ≤ length s
unfolding fgets
fgets-shorter n c s = ground (arith, length-fgets n s)

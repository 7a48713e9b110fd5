-- ===== src/Base/Ctype.antt =====
-- The character classes and C strings that the programs share.
use nycu_advanced_unix_progr.Base.{ℕ, Bool, ◌&&◌, [], ◌∷◌, Bytes, leb, ◌==◌, if◌then◌else◌}

-- isprint in the C locale.
unfoldable pub is_print : ℕ → Bool
is_print c = leb 32 c && leb c 126

-- The C string at the front of a buffer: its bytes before the first 0.
unfoldable pub c_str : Bytes → Bytes
c_str [] = []
c_str (c ∷ s) = let rest = c_str s in if c == 0 then [] else c ∷ rest

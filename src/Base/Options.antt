-- ===== src/Base/Options.antt =====
-- Chains of optional results, for code that can stop in the middle.
use nycu_advanced_unix_progr.Base.{Option, none, some}

infixl 5 ◌>>=◌
abbrev pub ◌>>=◌ {ℓ κ} : {A : Type ℓ} {B : Type κ} → Option A → (A → Option B) → Option B
some a >>= f = f a
none >>= f = none

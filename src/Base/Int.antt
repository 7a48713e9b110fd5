-- ===== src/Base/Int.antt =====
-- Signed integers over the native numbers, for `int` and `pid_t`: `negsuc n` is -(n + 1).
use Prim.Native.Nat.{ℕ, ◌-◌, ◌^◌}
use nycu_advanced_unix_progr.Base.Tests.{ltb, if◌then◌else◌}

pub data ℤ : Type 0 where
  pos : ℕ → ℤ
  negsuc : ℕ → ℤ

-- The `int` with some low 32 bits.
unfoldable pub signed_int : ℕ → ℤ
signed_int w = if ltb w (2 ^ 31) then pos w else negsuc (2 ^ 32 - w - 1)

-- ===== src/Libmini/Sigset.antt =====
-- Signal sets of hw3/libmini.c: sigset_t is an unsigned long, with bit sig - 1 for signal sig.
pub mod Members
use nycu_advanced_unix_progr.Base.{
  ℕ, zero, suc, ◌-◌, ◌%◌, ◌^◌, Bool, true, false, not, ◌||◌, Option, none, some, bit_and, bit_or,
  ltb, leb, ◌==◌, if◌then◌else◌,
}
use nycu_advanced_unix_progr.Base.Int.{ℤ, pos, negsuc}
use nycu_advanced_unix_progr.Libmini.Wrappers.{Mini, c_int, wrapper_ret}

-- EINVAL
abbrev pub einval : ℕ
einval = 22

-- `__sigmask(sig)`, for a signal number that is not negative.
unfoldable pub sigmask : ℕ → ℕ
sigmask sig = 2 ^ ((sig - 1) % 64)

-- `sig <= 0 || sig >= 32`
abbrev pub out_of_range : ℤ → Bool
out_of_range (pos sig) = sig == 0 || leb 32 sig
out_of_range (negsuc n) = true

-- The signal number, where it is one.
abbrev number : ℤ → ℕ
number (pos sig) = sig
number (negsuc n) = 0

-- `ret = -EINVAL; WRAPPER_RETval(int)` and `ret = 0; WRAPPER_RETval(int)`, with what `*set` holds.
abbrev pub SetResult : Type 0 → Type 0
SetResult S = ℤ × Option ℕ × Mini S

module _ {S : Type 0} where
  invalid : Option ℕ → Mini S → SetResult S
  unfolding wrapper_ret
  invalid set s = let (value, s') = wrapper_ret c_int (negsuc (einval - 1)) s.os in (value, set, s')

  done : ℕ → Mini S → SetResult S
  unfolding wrapper_ret
  done set s = let (value, s') = wrapper_ret c_int (pos 0) s.os in (value, some set, s')

  -- sigismember(set, sig); a null pointer is `none`. Its answer leaves errno alone.
  unfoldable pub sigismember : Option ℕ → ℤ → Mini S → SetResult S
  unfolding invalid sigmask
  sigismember none sig s = invalid none s
  sigismember (some set) sig s =
      if out_of_range sig
      then invalid (some set) s
      else (if not (bit_and set (sigmask (number sig)) == 0) then pos 1 else pos 0, some set, s)

  -- sigaddset(set, sig)
  unfoldable pub sigaddset : Option ℕ → ℤ → Mini S → SetResult S
  unfolding invalid done sigmask
  sigaddset none sig s = invalid none s
  sigaddset (some set) sig s =
      if out_of_range sig then invalid (some set) s else done (bit_or set (sigmask (number sig))) s

  -- sigdelset(set, sig)
  unfoldable pub sigdelset : Option ℕ → ℤ → Mini S → SetResult S
  unfolding invalid done sigmask
  sigdelset none sig s = invalid none s
  sigdelset (some set) sig s =
      if out_of_range sig
      then invalid (some set) s
      else done (bit_and set (2 ^ 64 - 1 - sigmask (number sig))) s

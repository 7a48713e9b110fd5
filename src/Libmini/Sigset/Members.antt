-- ===== src/Libmini/Sigset/Members.antt =====
-- Signal sets as sets of the signals 1 to 31.
use nycu_advanced_unix_progr.Base.{
  ℕ, ◌-◌, ◌^◌, ◌<◌, ◌≤◌, ◌≡◌, ap, ◌⊎◌, Bool, true, not, ◌&&◌, ◌||◌, Option, none, some, bit_and,
  bit_or, ◌==◌, if◌then◌else◌, arith,
}
use nycu_advanced_unix_progr.Base.Int.{ℤ, pos, negsuc}
use nycu_advanced_unix_progr.Base.Bits.Single.{
  bit, bit-lt, bit-bit_and, bit-bit_or, bit-pow, bit_not, bit_and-pow,
}
use native.Mathlib.Nat.{one-le-pow, pow-le-pow_right}
use nycu_advanced_unix_progr.Libmini.Wrappers.{Mini, failure, cast}
use nycu_advanced_unix_progr.Libmini.Sigset.{
  einval, sigmask, out_of_range, sigismember, sigaddset, sigdelset,
}

-- A set as the signals that it holds.
abbrev pub holds : ℕ → ℕ → Bool
holds set sig = bit (sig - 1) set == 1

-- A signal number that the library takes.
abbrev pub IsSignal : ℕ → Type 0
IsSignal sig = (1 ≤ sig) × (sig ≤ 31)

sigmask-eq : (sig : ℕ) → IsSignal sig → sigmask sig ≡ 2 ^ (sig - 1)
unfolding sigmask
sigmask-eq sig h = ap (λ (k : ℕ). 2 ^ k) (omega arith)

mask_test : (set sig : ℕ) → IsSignal sig → not (bit_and set (sigmask sig) == 0) ≡ holds set sig
mask_test set sig h =
    rw (sigmask-eq sig h, bit_and-pow (sig - 1) set)
      (ground (arith, bit-lt (sig - 1) set, one-le-pow (sig - 1) 2))

pow_small : (k : ℕ) → k < 31 → 2 ^ k < 2 ^ 64
pow_small k h = omega (arith, pow-le-pow_right {n = 2} (omega arith) {i = k} {j = 31} (omega arith))

holds-add :
    (set a b : ℕ)
    → IsSignal a
    → IsSignal b
    → holds (bit_or set (sigmask a)) b ≡ (a == b || holds set b)
holds-add set a b h k =
    rw (sigmask-eq a h, bit-bit_or (b - 1) set (2 ^ (a - 1)), bit-pow (b - 1) (a - 1))
      (ground (arith, bit-lt (b - 1) set))

holds-del :
    (set a b : ℕ)
    → IsSignal a
    → IsSignal b
    → holds (bit_and set (2 ^ 64 - 1 - sigmask a)) b ≡ (not (a == b) && holds set b)
holds-del set a b h k =
    let small : 2 ^ (a - 1) < 2 ^ 64 = pow_small (a - 1) (omega arith) in
    rw
      (
        sigmask-eq a h,
        bit-bit_and (b - 1) set (2 ^ 64 - 1 - 2 ^ (a - 1)),
        bit_not 64 (b - 1) (2 ^ (a - 1)) (omega arith) small,
        bit-pow (b - 1) (a - 1),
      )
      (ground (arith, bit-lt (b - 1) set))

module _ {S : Type 0} (set : ℕ) (s : Mini S) where
  -- The answer of sigismember, by the signals of the set.
  sigismember-holds :
      (sig : ℕ)
      → IsSignal sig
      → sigismember (some set) (pos sig) s ≡ ((if holds set sig then pos 1 else pos 0), some set, s)
  unfolding sigismember
  sigismember-holds sig h = ground (arith, mask_test set sig h)

  pub sigaddset-eq :
      (a : ℕ)
      → IsSignal a
      → sigaddset (some set) (pos a) s
        ≡ (pos 0, some (bit_or set (2 ^ (a - 1))), record s { errno = pos 0 })
  unfolding sigaddset cast
  sigaddset-eq a h = ground (arith, sigmask-eq a h)

  -- On a set and a signal from 1 to 31 sigaddset succeeds, and of the signals from 1 to 31 sigismember
  -- then finds the added one and those that it found before.
  pub sigaddset-members :
      (a b : ℕ)
      → IsSignal a
      → IsSignal b
      → (set' : ℕ) × (sigaddset (some set) (pos a) s
          ≡ (pos 0, some set', record s { errno = pos 0 }))
        × ((sigismember (some set') (pos b) s).0
            ≡ (if a == b then pos 1 else (sigismember (some set) (pos b) s).0))
  unfolding sigaddset sigismember cast
  sigaddset-members a b h k = (
    bit_or set (sigmask a),
    ground arith,
    ground
        (arith, holds-add set a b h k, mask_test set b k, mask_test (bit_or set (sigmask a)) b k),
  )

  -- On a set and a signal from 1 to 31 sigdelset succeeds, and of the signals from 1 to 31 sigismember
  -- then finds those that it found before, but the deleted one.
  pub sigdelset-members :
      (a b : ℕ)
      → IsSignal a
      → IsSignal b
      → (set' : ℕ) × (sigdelset (some set) (pos a) s
          ≡ (pos 0, some set', record s { errno = pos 0 }))
        × ((sigismember (some set') (pos b) s).0
            ≡ (if a == b then pos 0 else (sigismember (some set) (pos b) s).0))
  unfolding sigdelset sigismember cast
  sigdelset-members a b h k =
      let set' = bit_and set (2 ^ 64 - 1 - sigmask a) in
      (
        set',
        ground arith,
        ground (arith, holds-del set a b h k, mask_test set b k, mask_test set' b k),
      )

-- The answer of the three operations to a null pointer or to a number that is no signal.
sigset_invalid :
    {S : Type 0} (set : Option ℕ) (sig : ℤ) (s : Mini S)
    → (set ≡ none) ⊎ (out_of_range sig ≡ true)
    → let answer : ℤ × Option ℕ × Mini S = (negsuc 0, set, record s { errno = pos einval }) in
      (sigismember set sig s ≡ answer)
      × (sigaddset set sig s ≡ answer)
      × (sigdelset set sig s ≡ answer)
unfolding sigismember sigaddset sigdelset cast failure
sigset_invalid none sig s h = ground arith
sigset_invalid (some set) sig s h = ground arith

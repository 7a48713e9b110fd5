-- ===== src/Debugger/Breakpoint/Lookup.antt =====
-- Which addresses a breakpoint table has, and that its two kinds of look-up agree.
use nycu_advanced_unix_progr.Base.{
  ℕ, suc, ◌+◌, ◌<◌, ◌≡◌, refl, ◌⊎◌, inl, inr, Bool, true, false, ◌||◌, Option, none, some, [], ◌∷◌,
  ◌==◌, if◌then◌else◌, length, get_elem?, arith, Bool-cases,
}
use nycu_advanced_unix_progr.Base.Int.{ℤ, pos, negsuc}
use nycu_advanced_unix_progr.Debugger.Breakpoint.{
  BreakpointInfo, BreakpointTable, size, index_from, include, at_addr,
}

-- The first entry at an address.
abbrev pub first_at : BreakpointTable → ℕ → Option BreakpointInfo
first_at [] a = none
first_at (e ∷ t) a = if e.addr == a then some e else first_at t a

-- Whether a table has an address.
abbrev pub has_addr : BreakpointTable → ℕ → Bool
has_addr [] a = false
has_addr (e ∷ t) a = e.addr == a || has_addr t a

-- What the loop of dict_addr2idx finds: no entry, or the first one at that address.
abbrev Finds : ℕ → ℕ → BreakpointTable → ℤ → Type 0
Finds i a t r =
    ((r ≡ negsuc 0) × (has_addr t a ≡ false) × (first_at t a ≡ none))
    ⊎ ((k : ℕ) × (e : BreakpointInfo) × (r ≡ pos (i + k))
        × (get_elem? t k ≡ some e)
        × (k < length t)
        × (has_addr t a ≡ true)
        × (first_at t a ≡ some e)
        × (e.addr ≡ a))

index_from-Finds : (i a : ℕ) (t : BreakpointTable) → Finds i a t (index_from i a t)
unfolding index_from
index_from-Finds i a [] = inl (refl, refl, refl)
index_from-Finds i a (e ∷ t) = elim (Bool-cases (e.addr == a)) [
  | inl hit ↦ inr (0, e, ground arith, refl, omega arith, ground arith, ground arith, ground arith)
  | inr miss ↦ elim (index_from-Finds (i + 1) a t) [
    | inl (p, q, r) ↦ inl (ground arith, ground arith, ground arith)
    | inr (k, f, p, q, r, u, v, w) ↦
        inr (suc k, f, ground arith, q, omega arith, ground arith, ground arith, w)
  ]
]

-- include(unsigned long long) finds exactly the addresses of the table.
pub include-eq : (t : BreakpointTable) (a : ℕ) → include t a ≡ has_addr t a
unfolding include size
include-eq t a = ground (arith, index_from-Finds 0 a t)

-- operator[](unsigned long long) gives the first entry at the address.
pub at_addr-eq : (t : BreakpointTable) (a : ℕ) → at_addr t a ≡ first_at t a
unfolding at_addr
at_addr-eq t a = elim (index_from-Finds 0 a t) [
  | inl (p, q, r) ↦ rw (p, r)
  | inr (k, f, p, q, r, u, v, w) ↦ let e : 0 + k ≡ k = omega arith in rw (p, v, e) q
]

pub first_at_of_has :
    (t : BreakpointTable) (a : ℕ)
    → has_addr t a ≡ true
    → (e : BreakpointInfo) × (first_at t a ≡ some e) × (e.addr ≡ a)
first_at_of_has [] a h = absurd (cc)
first_at_of_has (e ∷ t) a h = elim (Bool-cases (e.addr == a)) [
  | inl hit ↦ (e, ground arith, ground arith)
  | inr miss ↦ let (f, p, q) = first_at_of_has t a (ground arith) in (f, ground arith, q)
]

-- ===== src/Debugger/Breakpoint/Dict.antt =====
-- The breakpoint table as a dictionary from addresses to saved words.
use mathlib.Core.Option.{some-injective}
use nycu_advanced_unix_progr.Base.{
  ℕ, zero, suc, ◌≡◌, refl, sym, ◌∙◌, ap, inl, inr, false, Option, none, some, [], ◌∷◌, ◌==◌,
  if◌then◌else◌, get_elem?, erase_at, arith, Bool-cases, ==_iff,
}
use nycu_advanced_unix_progr.Base.Int.{pos}
use nycu_advanced_unix_progr.Debugger.Breakpoint.{
  BreakpointInfo, BreakpointTable, at_addr, at_idx, add, del,
}
use nycu_advanced_unix_progr.Debugger.Breakpoint.Lookup.{first_at, has_addr, at_addr-eq}
use nycu_advanced_unix_progr.Debugger.Breakpoint.Sets.{Distinct, has_addr-get}

-- A look-up, or another where it finds nothing.
abbrev pub or_else : Option BreakpointInfo → Option BreakpointInfo → Option BreakpointInfo
or_else none y = y
or_else (some e) y = some e

first_at-add :
    (t : BreakpointTable) (a code b : ℕ)
    → first_at (add t a code) b
      ≡ or_else (first_at t b) (if a == b then some (record { code = code; addr = a }) else none)
unfolding add
first_at-add [] a code b = refl
first_at-add (e ∷ t) a code b = ground (arith, first_at-add t a code b)

first_at_absent : (t : BreakpointTable) (b : ℕ) → has_addr t b ≡ false → first_at t b ≡ none
first_at_absent [] b h = refl
first_at_absent (e ∷ t) b h = ground (arith, first_at_absent t b)

first_at-erase :
    (t : BreakpointTable) (i b : ℕ) (e : BreakpointInfo)
    → Distinct t
    → get_elem? t i ≡ some e
    → first_at (erase_at t i) b ≡ (if e.addr == b then none else first_at t b)
first_at-erase [] i b e d h = absurd (cc)
first_at-erase (f ∷ t) zero b e d h =
    let same : f.addr ≡ e.addr = ap (λ (x : BreakpointInfo). x.addr) (some-injective f e h) in
    elim (Bool-cases (f.addr == b)) [
      | inl hit ↦
          let there : has_addr t b ≡ false =
            ap (has_addr t) (sym ((==_iff f.addr b).0 hit)) ∙ d.0 in
          ground (arith, first_at_absent t b there)
      | inr miss ↦ ground arith
    ]
first_at-erase (f ∷ t) (suc i) b e d h = ground (
  arith,
  first_at-erase t i b e d.1 h,
  has_addr-get t i h,
  (==_iff f.addr b).0,
  (==_iff e.addr b).0,
)

-- add is an insertion that keeps an older entry at its address.
pub at_addr-add :
    (t : BreakpointTable) (a code b : ℕ)
    → at_addr (add t a code) b
      ≡ or_else (at_addr t b) (if a == b then some (record { code = code; addr = a }) else none)
at_addr-add t a code b = rw (at_addr-eq, at_addr-eq) (first_at-add t a code b)

-- In a table where no address has two entries, del of an index removes the address of its entry from
-- the dictionary, and no other.
pub at_addr-del :
    (t : BreakpointTable) (i b : ℕ) (e : BreakpointInfo)
    → Distinct t
    → at_idx t (pos i) ≡ some e
    → at_addr (del t (pos i)) b ≡ (if e.addr == b then none else at_addr t b)
unfolding at_idx del
at_addr-del t i b e d h = rw (at_addr-eq, at_addr-eq) (first_at-erase t i b e d h)

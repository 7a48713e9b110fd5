-- ===== src/Debugger/Breakpoint/Sets.antt =====
-- A breakpoint table as a set of addresses: what add and del do to it.
use mathlib.Core.Option.{some-injective}
use nycu_advanced_unix_progr.Base.{
  ℕ, zero, suc, ◌≡◌, refl, true, false, not, ◌&&◌, ◌||◌, some, [], ◌∷◌, ◌==◌, get_elem?, erase_at,
  arith, ap, inl, inr, Bool-cases, ==_iff,
}
use nycu_advanced_unix_progr.Debugger.Breakpoint.{BreakpointInfo, BreakpointTable, add}
use nycu_advanced_unix_progr.Debugger.Breakpoint.Lookup.{has_addr}

-- No address stands in two entries.
abbrev pub Distinct : BreakpointTable → Type 0
Distinct [] = Unit
Distinct (e ∷ t) = (has_addr t e.addr ≡ false) × Distinct t

pub has_addr-add :
    (t : BreakpointTable) (a code b : ℕ) → has_addr (add t a code) b ≡ (has_addr t b || a == b)
unfolding add
has_addr-add [] a code b = ground arith
has_addr-add (e ∷ t) a code b = ground (arith, has_addr-add t a code b)

pub add-Distinct :
    (t : BreakpointTable) (a code : ℕ) → has_addr t a ≡ false → Distinct t → Distinct (add t a code)
unfolding add
add-Distinct [] a code h d = (refl, tt)
add-Distinct (e ∷ t) a code h d =
    (ground (arith, has_addr-add t a code e.addr), add-Distinct t a code (ground arith) d.1)

pub has_addr-get :
    (t : BreakpointTable) (i : ℕ) {e : BreakpointInfo}
    → get_elem? t i ≡ some e
    → has_addr t e.addr ≡ true
has_addr-get [] i h = absurd (cc)
has_addr-get (f ∷ t) zero h = ground arith
has_addr-get (f ∷ t) (suc i) {e = e} h = ground (arith, has_addr-get t i h)

pub has_addr-erase :
    (t : BreakpointTable) (i b : ℕ) {e : BreakpointInfo}
    → Distinct t
    → get_elem? t i ≡ some e
    → has_addr (erase_at t i) b ≡ (has_addr t b && not (e.addr == b))
has_addr-erase [] i b d h = absurd (cc)
has_addr-erase (f ∷ t) zero b {e = e} d h =
    let same : f.addr ≡ e.addr = ap (λ (x : BreakpointInfo). x.addr) (some-injective f e h) in
    elim (Bool-cases (f.addr == b)) [
      | inl hit ↦ ground (arith, ap (has_addr t) ((==_iff f.addr b).0 hit))
      | inr miss ↦ ground arith
    ]
has_addr-erase (f ∷ t) (suc i) b {e = e} d h =
    ground (arith, has_addr-erase t i b {e = e} d.1 h, has_addr-get t i h)

has_addr-erase_false :
    (t : BreakpointTable) (i b : ℕ) → has_addr t b ≡ false → has_addr (erase_at t i) b ≡ false
has_addr-erase_false [] i b h = refl
has_addr-erase_false (f ∷ t) zero b h = ground arith
has_addr-erase_false (f ∷ t) (suc i) b h = ground (arith, has_addr-erase_false t i b)

pub erase-Distinct : (t : BreakpointTable) (i : ℕ) → Distinct t → Distinct (erase_at t i)
erase-Distinct [] i d = tt
erase-Distinct (f ∷ t) zero d = d.1
erase-Distinct (f ∷ t) (suc i) d = (has_addr-erase_false t i f.addr d.0, erase-Distinct t i d.1)

-- ===== src/Debugger/Breakpoint.antt =====
-- class breakpoint_table of hw4/breakpoint.hpp: a vector of saved words and their addresses,
-- looked up by address or by index.
pub mod Lookup
pub mod Sets
pub mod Dict
use nycu_advanced_unix_progr.Base.{
  ℕ, ◌+◌, Bool, false, Option, none, List, [], ◌∷◌, ◌++◌, ltb, ◌==◌, if◌then◌else◌, length,
  get_elem?, erase_at,
}
use nycu_advanced_unix_progr.Base.Int.{ℤ, pos, negsuc}

pub record BreakpointInfo : Type 0 where
  pub code : ℕ
  pub addr : ℕ

abbrev pub BreakpointTable : Type 0
BreakpointTable = List BreakpointInfo

unfoldable pub size : BreakpointTable → ℕ
size t = length t

-- The loop of dict_addr2idx, from index i on.
unfoldable pub index_from : ℕ → ℕ → BreakpointTable → ℤ
index_from i addr [] = negsuc 0
index_from i addr (e ∷ t) = if e.addr == addr then pos i else index_from (i + 1) addr t

unfoldable pub dict_addr2idx : BreakpointTable → ℕ → ℤ
unfolding index_from
dict_addr2idx t addr = index_from 0 addr t

-- include(int)
unfoldable pub include_idx : BreakpointTable → ℤ → Bool
unfolding size
include_idx t (negsuc n) = false
include_idx t (pos i) = ltb i (size t)

-- include(unsigned long long)
unfoldable pub include : BreakpointTable → ℕ → Bool
unfolding include_idx dict_addr2idx
include t addr = include_idx t (dict_addr2idx t addr)

-- operator[](int); out of range the element does not exist.
unfoldable pub at_idx : BreakpointTable → ℤ → Option BreakpointInfo
at_idx t (pos i) = get_elem? t i
at_idx t (negsuc n) = none

-- operator[](unsigned long long)
unfoldable pub at_addr : BreakpointTable → ℕ → Option BreakpointInfo
unfolding at_idx dict_addr2idx
at_addr t addr = at_idx t (dict_addr2idx t addr)

unfoldable pub add : BreakpointTable → ℕ → ℕ → BreakpointTable
add t addr code = t ++ (record { code = code; addr = addr } ∷ [])

-- del(int), on an index of the table.
unfoldable pub del : BreakpointTable → ℤ → BreakpointTable
del t (pos i) = erase_at t i
del t (negsuc n) = t

-- ===== src/Debugger/Maps/Total.antt =====
-- The loop of maps_parser ends within its fuel: each call of fgets takes at least one byte.
use nycu_advanced_unix_progr.Base.{ℕ, zero, suc, ◌<◌, ◌≡◌, refl, ◌≢◌, [], ◌∷◌, Bytes, length, arith}
use nycu_advanced_unix_progr.Base.Stdio.{fgets, fgets-shorter}
use nycu_advanced_unix_progr.Debugger.Maps.{
  LineResult, skipped, malformed, entry, MapsResult, out_of_fuel, bad_line, maps, parse_line,
  add_line, maps_loop, maps_parser,
}

add_line-ne : (l : LineResult) (r : MapsResult) → r ≢ out_of_fuel → add_line l r ≢ out_of_fuel
unfolding add_line
add_line-ne skipped r h = h
add_line-ne malformed r h = λ e. cc
add_line-ne (entry e) out_of_fuel h = h
add_line-ne (entry e) bad_line h = λ e'. cc
add_line-ne (entry e) (maps l) h = λ e'. cc

maps_loop_round :
    (fuel c : ℕ) (s : Bytes)
    → maps_loop (suc fuel) (c ∷ s)
      ≡ add_line (parse_line (fgets 255 (c ∷ s)).0) (maps_loop fuel (fgets 255 (c ∷ s)).1)
unfolding maps_loop
maps_loop_round fuel c s = refl

maps_loop_nil : (fuel : ℕ) → maps_loop (suc fuel) [] ≡ maps []
unfolding maps_loop
maps_loop_nil fuel = refl

maps_loop-total : (fuel : ℕ) (s : Bytes) → length s < fuel → maps_loop fuel s ≢ out_of_fuel
maps_loop-total zero s h = absurd (omega arith)
maps_loop-total (suc fuel) [] h = λ e. cc (maps_loop_nil fuel)
maps_loop-total (suc fuel) (c ∷ s) h = rw maps_loop_round (
    add_line-ne (parse_line (fgets 255 (c ∷ s)).0) (maps_loop fuel (fgets 255 (c ∷ s)).1)
      (maps_loop-total fuel (fgets 255 (c ∷ s)).1 (omega (arith, fgets-shorter 254 c s))))

-- maps_parser ends with a result of its own for every text: its fuel never runs out.
pub maps_parser-total : (s : Bytes) → maps_parser s ≢ out_of_fuel
unfolding maps_parser
maps_parser-total s = maps_loop-total (suc (length s)) s (omega arith)

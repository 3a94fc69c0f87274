-- ===== src/TilePair.antt =====
-- include/geodesk/geom/TilePair.h: a tile, or two tiles side by side. Bits 28 and 29 of the pattern
-- say that the pair extends east or south.
pub mod Cover
pub mod Codes
mod Tests
use libgeodesk.Common.{
  ℕ, zero, suc, ◌+◌, ◌-◌, ◌*◌, ◌/◌, ◌%◌, ◌^◌, min, max, bit_and, bit_or, ltb, leb, ◌==◌, ◌||◌, ◌&&◌,
  not, Bool, if◌then◌else◌, Option, none, some,
}
use libgeodesk.Tile.{row, column, zoom, from_column_row_zoom, relative, is_null, w32}
use libgeodesk.Tile

pub extend : ℕ → ℕ → ℕ
extend pair bits = bit_or pair (w32 (bits * 2 ^ 28))

pub extends_east : ℕ → Bool
extends_east pair = not (bit_and pair (2 ^ 28) == 0)

pub extends_south : ℕ → Bool
extends_south pair = not (bit_and pair (2 ^ 29) == 0)

pub has_second : ℕ → Bool
has_second pair = not (bit_and pair 0x3000_0000 == 0)

pub first : ℕ → ℕ
first pair = bit_and pair 0x0fff_ffff

pub second : ℕ → ℕ
unfolding first
second pair = relative (first pair) (bit_and (pair / 2 ^ 28) 1) (pair / 2 ^ 29)

pub zoomed_out : ℕ → ℕ → ℕ
unfolding first second
zoomed_out pair lower_zoom =
    let north_west = Tile.zoomed_out (first pair) lower_zoom in
    let south_east = Tile.zoomed_out (second pair) lower_zoom in
    bit_or north_west (if north_west == south_east then 0 else bit_and pair 0x3000_0000)

-- The loop of `operator+=`, with fuel.
pub join_loop : ℕ → ℕ → ℕ → ℕ → ℕ → ℕ → Option ℕ
join_loop zero left top right bottom common_zoom = none
join_loop (suc fuel) left top right bottom common_zoom =
    let more =
      join_loop fuel (left / 2) (top / 2) (right / 2) (bottom / 2)
        (w32 (common_zoom + 2 ^ 32 - 1)) in
    let col_delta = w32 (right + 2 ^ 32 - left) in
    let row_delta = w32 (bottom + 2 ^ 32 - top) in
    if (col_delta == 0 || row_delta == 0) && (leb col_delta 1 && leb row_delta 1)
    then some (
        bit_or
          (bit_or (from_column_row_zoom left top common_zoom)
            (w32 (w32 (right + 2 ^ 32 - left) * 2 ^ 28)))
          (w32 (w32 (bottom + 2 ^ 32 - top) * 2 ^ 29)))
    else more

pub add_tile : ℕ → ℕ → Option ℕ
unfolding zoomed_out
add_tile pair other =
    let common_zoom = min (zoom pair) (zoom other) in
    let out = zoomed_out pair common_zoom in
    let other_delta = zoom other - common_zoom in
    let b_col = column other / 2 ^ other_delta in
    let b_row = row other / 2 ^ other_delta in
    if is_null pair
    then some other
    else join_loop 16 (min (column out) b_col) (min (row out) b_row)
        (max (column out + bit_and (out / 2 ^ 28) 1) b_col)
        (max (row out + bit_and (out / 2 ^ 29) 1) b_row) common_zoom

pub covering : ℕ → ℕ → ℕ
covering tile code =
    let nibble = 0x4_85a0 / 2 ^ (code * 4) in
    let col_delta = bit_and nibble 1 in
    let row_delta = bit_and (nibble / 2) 1 in
    bit_or
      (from_column_row_zoom (w32 (column tile + 2 ^ 32 - col_delta))
        (w32 (row tile + 2 ^ 32 - row_delta)) (zoom tile))
      (bit_and nibble 12 * 2 ^ 26)

pub is_twin_of : ℕ → ℕ → ℕ
is_twin_of pair other =
    let col_delta = (column other + 2 ^ 64 - column pair) % 2 ^ 64 in
    let row_delta = (row other + 2 ^ 64 - row pair) % 2 ^ 64 in
    if ltb 1 col_delta || ltb 1 row_delta
    then 7
    else bit_and
        (0x7777_7173_7724_7770
          / 2
            ^ bit_or (bit_or (bit_and (pair / 2 ^ 24) 0x30) (row_delta * 2 ^ 3))
                (col_delta * 2 ^ 2))
        15

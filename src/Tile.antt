-- ===== src/Tile.antt =====
-- include/geodesk/geom/Tile.h: tile numbers. A tile is its 32-bit pattern, and so is an `int`; an
-- unsigned number of 64 bits is a `uint_fast32_t`.
pub mod Fields
pub mod Twins
pub mod Pyramid
pub mod Bounds
pub mod Order
mod Tests
use libgeodesk.Common.{
  ℕ, ◌+◌, ◌-◌, ◌*◌, ◌/◌, ◌%◌, ◌^◌, bit_and, bit_or, ltb, ◌==◌, ◌||◌, Bool, if◌then◌else◌,
}

abbrev pub w32 : ℕ → ℕ
w32 n = n % 2 ^ 32

-- `Tile::EMPTY`
abbrev pub empty_tile : ℕ
empty_tile = 0xffff_ffff

pub is_null : ℕ → Bool
is_null t = t == empty_tile

-- `x + 2^31` and `2^31 - 1 - y` of a signed coordinate are below 2 ^ 32.
unfoldable pub column_from_xz : ℕ → ℕ → ℕ
column_from_xz x zoom = w32 (x + 2 ^ 31) / 2 ^ (32 - zoom)

unfoldable pub row_from_yz : ℕ → ℕ → ℕ
row_from_yz y zoom = w32 (0x7fff_ffff + 2 ^ 32 - y) / 2 ^ (32 - zoom)

unfoldable pub row : ℕ → ℕ
row t = bit_and (t / 2 ^ 12) 0xfff

unfoldable pub column : ℕ → ℕ
column t = bit_and t 0xfff

unfoldable pub zoom : ℕ → ℕ
zoom t = bit_and (t / 2 ^ 24) 0xf

unfoldable pub from_column_row_zoom : ℕ → ℕ → ℕ → ℕ
from_column_row_zoom col row zoom = bit_or (bit_or (w32 (zoom * 2 ^ 24)) (w32 (row * 2 ^ 12))) col

abbrev pub relative : ℕ → ℕ → ℕ → ℕ
relative t delta_col delta_row = w32 (w32 (t + w32 (delta_row * 2 ^ 12)) + delta_col)

-- The coordinates of the edges, for a zoom level of at least 1. Where an `int` overflows, which C++
-- leaves undefined, it wraps around.
unfoldable pub top_y : ℕ → ℕ
unfolding row zoom
top_y t = w32 (0x7fff_ffff + 2 ^ 32 - w32 (row t * 2 ^ (32 - zoom t)))

pub bottom_y : ℕ → ℕ
unfolding row zoom
bottom_y t = w32 (2 ^ 31 + 2 ^ 32 - w32 ((row t + 1) * 2 ^ (32 - zoom t)))

unfoldable pub left_x : ℕ → ℕ
unfolding column zoom
left_x t = w32 ((column t + 2 ^ 32 - 2 ^ (zoom t - 1)) * 2 ^ (32 - zoom t))

pub right_x : ℕ → ℕ
unfolding left_x
right_x t = w32 (left_x t + 2 ^ (32 - zoom t) + 2 ^ 32 - 1)

pub neighbor : ℕ → ℕ → ℕ → ℕ
unfolding zoom column row from_column_row_zoom
neighbor t col_delta row_delta =
    let z = zoom t in
    let mask = 2 ^ z - 1 in
    from_column_row_zoom (bit_and (w32 (column t + col_delta)) mask)
      (bit_and (w32 (row t + row_delta)) mask) z

pub zoomed_out : ℕ → ℕ → ℕ
unfolding zoom column row from_column_row_zoom
zoomed_out t lower_zoom =
    let delta = zoom t - lower_zoom in
    from_column_row_zoom (column t / 2 ^ delta) (row t / 2 ^ delta) lower_zoom

pub is_twin_of : ℕ → ℕ → ℕ
unfolding column row
is_twin_of t other =
    let col_delta = (column t + 2 ^ 64 - column other + 1) % 2 ^ 64 in
    let row_delta = (row t + 2 ^ 64 - row other + 1) % 2 ^ 64 in
    if ltb 2 col_delta || ltb 2 row_delta
    then 7
    else bit_and (0x7777_7737_7402_7717 / 2 ^ bit_or (row_delta * 2 ^ 4) (col_delta * 2 ^ 2)) 15

pub twin : ℕ → ℕ → ℕ
unfolding column row zoom from_column_row_zoom
twin t code =
    let nibble = bit_and (0x6_9415 / 2 ^ (code * 4)) 15 in
    let col_delta = w32 (bit_and nibble 3 + 2 ^ 32 - 1) in
    let row_delta = w32 (nibble / 4 + 2 ^ 32 - 1) in
    from_column_row_zoom (w32 (column t + col_delta)) (w32 (row t + row_delta)) (zoom t)

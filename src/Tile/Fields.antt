-- ===== src/Tile/Fields.antt =====
-- The fields of a tile number.
use libgeodesk.Common.{ℕ, ◌+◌, ◌*◌, ◌/◌, ◌%◌, ◌^◌, ◌<◌, ◌≡◌, arith, bit_or, ◌∙◌}
use libgeodesk.Common.Bits.{or_fields, and_ones}
use libgeodesk.Tile.{row, column, zoom, from_column_row_zoom, w32}

pub row_lem : (t : ℕ) → row t ≡ t / 2 ^ 12 % 2 ^ 12
unfolding row
row_lem t = and_ones 12 (t / 2 ^ 12)

pub column_lem : (t : ℕ) → column t ≡ t % 2 ^ 12
unfolding column
column_lem t = and_ones 12 t

pub zoom_lem : (t : ℕ) → zoom t ≡ t / 2 ^ 24 % 2 ^ 4
unfolding zoom
zoom_lem t = and_ones 4 (t / 2 ^ 24)

-- A column and a row of 12 bits and a zoom level of 4 bits stand side by side.
pub from_column_row_zoom_lem :
    (c r z : ℕ)
    → c < 2 ^ 12
    → r < 2 ^ 12
    → z < 2 ^ 4
    → from_column_row_zoom c r z ≡ z * 2 ^ 24 + r * 2 ^ 12 + c
unfolding from_column_row_zoom
from_column_row_zoom_lem c r z hc hr hz =
    let upper : bit_or (w32 (z * 2 ^ 24)) (w32 (r * 2 ^ 12)) ≡ (z * 2 ^ 12 + r) * 2 ^ 12 =
      ground (arith, or_fields 24 z (r * 2 ^ 12)) in
    rw (upper, or_fields 12 (z * 2 ^ 12 + r) c hc) (omega arith)

-- The accessors give back the column, the row and the zoom level that `fromColumnRowZoom` was given,
-- for columns and rows of 12 bits and zoom levels of 4 bits.
pub fields-from_column_row_zoom :
    (c r z : ℕ)
    → c < 2 ^ 12
    → r < 2 ^ 12
    → z < 2 ^ 4
    → (column (from_column_row_zoom c r z) ≡ c)
      × (row (from_column_row_zoom c r z) ≡ r)
      × (zoom (from_column_row_zoom c r z) ≡ z)
fields-from_column_row_zoom c r z hc hr hz =
    let e = from_column_row_zoom_lem c r z hc hr hz in
    let t = from_column_row_zoom c r z in
    (omega (arith, e, column_lem t), omega (arith, e, row_lem t), omega (arith, e, zoom_lem t))

-- A tile number of 28 bits is what `fromColumnRowZoom` makes of its column, row and zoom level.
pub from_column_row_zoom_fields :
    (t : ℕ) → t < 2 ^ 28 → from_column_row_zoom (column t) (row t) (zoom t) ≡ t
from_column_row_zoom_fields t h =
    from_column_row_zoom_lem (column t) (row t) (zoom t) (omega (arith, column_lem t))
      (omega (arith, row_lem t)) (omega (arith, zoom_lem t))
    ∙ omega (arith, column_lem t, row_lem t, zoom_lem t)

-- ===== src/Tile/Tests.antt =====
-- Tiles at concrete inputs.
use libgeodesk.Common.{ℕ, ◌≤◌, ◌≡◌, ◌↔◌, ◌⊎◌, arith, refl}
use libgeodesk.Tile.{
  row, column, zoom, zoomed_out, twin, is_twin_of, column_from_xz, row_from_yz, left_x, right_x,
  bottom_y, top_y,
}
use libgeodesk.Tile.Twins.{twin-is_twin_of}
use libgeodesk.Tile.Pyramid.{tile_at, zoomed_out-tile_at}
use libgeodesk.Tile.Bounds.{biased, column_from_xz_iff, row_from_yz_iff}

-- Tiles 4/5/6 and 4/6/6.
abbrev here : ℕ
here = 0x400_6005

abbrev east : ℕ
east = 0x400_6006

east_is_twin : is_twin_of east here ≡ 4
unfolding is_twin_of
east_is_twin = refl

twin-is_twin_of_example : (is_twin_of east here ≡ 7) ⊎ (twin here (is_twin_of east here) ≡ east)
unfolding zoom
twin-is_twin_of_example = twin-is_twin_of east here (omega arith) refl

zoomed_out-tile_at_example :
    zoomed_out (tile_at 123_456_789 77_777 12) 6 ≡ tile_at 123_456_789 77_777 6
zoomed_out-tile_at_example = zoomed_out-tile_at 123_456_789 77_777 12 6 (omega arith) (omega arith)

column_from_xz_iff_example :
    (column_from_xz 123_456_789 (zoom here) ≡ column here)
    ↔ ((biased (left_x here) ≤ biased 123_456_789) × (biased 123_456_789 ≤ biased (right_x here)))
unfolding zoom column
column_from_xz_iff_example =
    column_from_xz_iff here 123_456_789 (omega arith) (omega arith) (omega arith)

row_from_yz_iff_example :
    (row_from_yz 123_456_789 (zoom here) ≡ row here)
    ↔ ((biased (bottom_y here) ≤ biased 123_456_789) × (biased 123_456_789 ≤ biased (top_y here)))
unfolding zoom row
row_from_yz_iff_example =
    row_from_yz_iff here 123_456_789 (omega arith) (omega arith) (omega arith) (omega arith)

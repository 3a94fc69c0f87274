-- ===== src/TileIndexWalker/Placed.antt =====
-- A level of children below a tile that the box meets: `startLevel` sets it up for the walk.
use libgeodesk.Common.{
  ℕ, ◌+◌, ◌-◌, ◌*◌, ◌/◌, ◌^◌, ◌<◌, ◌≤◌, ◌≡◌, refl, ◌∙◌, arith, ltb, lt→ltb, true, List, ◌∷◌,
}
use libgeodesk.Common.Bits.{pow_join}
use native.Mathlib.Nat.{
  div-lt_iff_lt-mul, le-div_iff_mul-le, mul-le-mul_right, pow-le-pow_right, one-le-pow,
}
use libgeodesk.Box.{Box}
use libgeodesk.Tile.{row, column, zoom, column_from_xz, row_from_yz, from_column_row_zoom}
use libgeodesk.Tile.Bounds.{biased}
use libgeodesk.Tile.Fields.{fields-from_column_row_zoom}
use libgeodesk.Tile.Order.{column_up, row_up, column_mono, row_mono}
use libgeodesk.TileIndex.{Query, Level, start_level, zero16}
use libgeodesk.TileIndexWalker.Tour.{Trace, Stop, Shape, Block, cells, shape, ranged_tour}
use libgeodesk.TileIndexWalker.Cells.{IsCounting, level_trace, level_trace_start}

-- A box whose corners are in order, on both axes.
pub record IsOrdered (b : Box) : Type 0 where
  pub x_order : biased b.min_x ≤ biased b.max_x
  pub y_order : biased b.min_y ≤ biased b.max_y
  pub min_y_word : b.min_y < 2 ^ 32
  pub max_y_word : b.max_y < 2 ^ 32

-- A tile number on the map whose column and row are among those that the box meets.
pub record IsMet (q : Query) (t : ℕ) : Type 0 where
  pub on_map_col : column t < 2 ^ zoom t
  pub on_map_row : row t < 2 ^ zoom t
  pub west : column_from_xz q.box.min_x (zoom t) ≤ column t
  pub east : column t ≤ column_from_xz q.box.max_x (zoom t)
  pub north : row_from_yz q.box.max_y (zoom t) ≤ row t
  pub south : row t ≤ row_from_yz q.box.min_y (zoom t)

-- An open level.
pub record IsPlaced (q : Query) (l : Level) : Type 0 where
  pub counting : IsCounting l
  pub zoom_small : zoom l.top_left_child_tile ≤ 12
  pub step_small : l.step ≤ 3
  pub number :
      l.top_left_child_tile
      ≡ from_column_row_zoom
          (column l.top_left_child_tile)
          (row l.top_left_child_tile)
          (zoom l.top_left_child_tile)
  pub left_fits : column l.top_left_child_tile + 2 ^ l.step ≤ 2 ^ zoom l.top_left_child_tile
  pub top_fits : row l.top_left_child_tile + 2 ^ l.step ≤ 2 ^ zoom l.top_left_child_tile
  pub end_col_fits : l.end_col < zero16 + 2 ^ l.step
  pub end_row_fits : l.end_row < zero16 + 2 ^ l.step
  pub first_west :
      column_from_xz q.box.min_x (zoom l.top_left_child_tile)
      ≤ column l.top_left_child_tile + (l.start_col - zero16)
  pub last_east :
      column l.top_left_child_tile + (l.end_col - zero16)
      ≤ column_from_xz q.box.max_x (zoom l.top_left_child_tile)
  pub first_north :
      row_from_yz q.box.max_y (zoom l.top_left_child_tile)
      ≤ row l.top_left_child_tile + (l.current_row - zero16)
  pub last_south :
      row l.top_left_child_tile + (l.end_row - zero16)
      ≤ row_from_yz q.box.min_y (zoom l.top_left_child_tile)

-- A number n of the upper level that lies from lo / 2 ^ s to hi / 2 ^ s has a child from lo to hi.
spread :
    (n p k lo hi : ℕ)
    → 1 ≤ k
    → n < p
    → lo / k ≤ n
    → n ≤ hi / k
    → (n * k + k ≤ p * k) × (lo < n * k + k) × (n * k ≤ hi)
spread n p k lo hi pos room low high =
    let next : (n + 1) * k ≡ n * k + k = omega arith in
    (
      omega (arith, next, mul-le-mul_right {m = n + 1} {n = p} k (omega arith)),
      omega (arith, next, (div-lt_iff_lt-mul {k = k} {x = lo} {y = n + 1} pos).0 (omega arith)),
      (le-div_iff_mul-le {k = k} {x = n} {y = hi} pos).0 high,
    )

cells_congr :
    (q : Query) (below : ℕ → ℕ → Trace Stop) {b₁ b₂ : Block} {c₁ c₂ n₁ n₂ r₁ r₂ m₁ m₂ : ℕ}
    → b₁ ≡ b₂
    → c₁ ≡ c₂
    → n₁ ≡ n₂
    → r₁ ≡ r₂
    → m₁ ≡ m₂
    → cells q below b₁ c₁ n₁ r₁ m₁ ≡ cells q below b₂ c₂ n₂ r₂ m₂
cells_congr q below b c n r m = rw (b, c, n, r, m) refl

module _ (q : Query) (t : ℕ) (d : Level) (tip : ℕ) (ordered : IsOrdered q.box) (met : IsMet q t)
    (next_zoom : zoom d.top_left_child_tile ≡ zoom t + d.step)
    (zoom_small : zoom d.top_left_child_tile ≤ 12) (step_small : d.step ≤ 3) where
  whole : 2 ^ zoom t * 2 ^ d.step ≡ 2 ^ zoom d.top_left_child_tile
  whole = pow_join (zoom t) d.step (zoom d.top_left_child_tile) next_zoom

  few : 2 ^ zoom d.top_left_child_tile ≤ 2 ^ 12
  few = pow-le-pow_right {n = 2} (omega arith) {i = zoom d.top_left_child_tile} {j = 12} zoom_small

  columns :
      (column t * 2 ^ d.step + 2 ^ d.step ≤ 2 ^ zoom d.top_left_child_tile)
      × (column_from_xz q.box.min_x (zoom d.top_left_child_tile)
          < column t * 2 ^ d.step + 2 ^ d.step)
      × (column t * 2 ^ d.step ≤ column_from_xz q.box.max_x (zoom d.top_left_child_tile))
  columns =
      let z = zoom d.top_left_child_tile in
      let min_up = column_up q.box.min_x (zoom t) d.step z next_zoom zoom_small in
      let max_up = column_up q.box.max_x (zoom t) d.step z next_zoom zoom_small in
      rw whole at (
        spread (column t) (2 ^ zoom t) (2 ^ d.step) (column_from_xz q.box.min_x z)
          (column_from_xz q.box.max_x z) (one-le-pow d.step 2 (omega arith)) met.on_map_col
          (rw min_up met.west) (rw max_up met.east))

  rows :
      (row t * 2 ^ d.step + 2 ^ d.step ≤ 2 ^ zoom d.top_left_child_tile)
      × (row_from_yz q.box.max_y (zoom d.top_left_child_tile) < row t * 2 ^ d.step + 2 ^ d.step)
      × (row t * 2 ^ d.step ≤ row_from_yz q.box.min_y (zoom d.top_left_child_tile))
  rows =
      let z = zoom d.top_left_child_tile in
      let max_up = row_up q.box.max_y (zoom t) d.step z next_zoom zoom_small in
      let min_up = row_up q.box.min_y (zoom t) d.step z next_zoom zoom_small in
      rw whole at (
        spread (row t) (2 ^ zoom t) (2 ^ d.step) (row_from_yz q.box.max_y z)
          (row_from_yz q.box.min_y z) (one-le-pow d.step 2 (omega arith)) met.on_map_row
          (rw max_up met.north) (rw min_up met.south))

  corner :
      let top_left =
        from_column_row_zoom
          (column t * 2 ^ d.step)
          (row t * 2 ^ d.step)
          (zoom d.top_left_child_tile) in
      (column top_left ≡ column t * 2 ^ d.step)
      × (row top_left ≡ row t * 2 ^ d.step)
      × (zoom top_left ≡ zoom d.top_left_child_tile)
  corner =
      let one = one-le-pow d.step 2 (omega arith) in
      fields-from_column_row_zoom (column t * 2 ^ d.step) (row t * 2 ^ d.step)
        (zoom d.top_left_child_tile) (omega (arith, columns.0, few, one))
        (omega (arith, rows.0, few, one)) (omega arith)

  -- The level has the zoom level and the step that it had.
  pub shape-start_level : shape (start_level q t d tip) ≡ shape d
  unfolding start_level
  shape-start_level = let (_, _, z) = corner in rw z refl

  start_level-IsCounting : IsCounting (start_level q t d tip)
  unfolding start_level
  start_level-IsCounting =
      let z = zoom d.top_left_child_tile in
      let one = one-le-pow d.step 2 (omega arith) in
      let (left_fits, west, east) = columns in
      let (top_fits, north, south) = rows in
      let in_order = column_mono q.box.min_x q.box.max_x z ordered.x_order in
      let down =
        row_mono q.box.min_y q.box.max_y z ordered.min_y_word ordered.max_y_word ordered.y_order in
      record {
        first = omega arith;
        some_col = omega (arith, one);
        col = omega arith;
        row = omega arith;
        some_row = omega (arith, one);
      }

  pub start_level-IsPlaced : IsPlaced q (start_level q t d tip)
  unfolding start_level
  start_level-IsPlaced =
      let (c, r, z) = corner in
      let one = one-le-pow d.step 2 (omega arith) in
      let (left_fits, west, east) = columns in
      let (top_fits, north, south) = rows in
      record {
        counting = start_level-IsCounting;
        zoom_small = rw z zoom_small;
        step_small = step_small;
        number = rw (c, r, z) refl;
        left_fits = rw (c, z) left_fits;
        top_fits = rw (r, z) top_fits;
        end_col_fits = omega (arith, one);
        end_row_fits = omega (arith, one);
        first_west = rw (c, z) (omega arith);
        last_east = rw (c, z) (omega (arith, one));
        first_north = rw (r, z) (omega arith);
        last_south = rw (r, z) (omega (arith, one));
      }

  -- What the level has left at its start is the tour of the tile's children.
  pub level_trace-start_level :
      (shapes : List Shape)
      → level_trace q shapes (start_level q t d tip) ≡ ranged_tour q (shape d ∷ shapes) t tip
  unfolding start_level ranged_tour
  level_trace-start_level shapes =
      let (c, r, z) = corner in
      let one = one-le-pow d.step 2 (omega arith) in
      let (left_fits, west, east) = columns in
      let (top_fits, north, south) = rows in
      level_trace_start q shapes (start_level q t d tip) start_level-IsCounting (omega arith)
      ∙ cells_congr q (ranged_tour q shapes) (rw (c, r, z) refl) (omega arith) (omega arith)
          (omega arith) (omega arith)

-- The counters stand in front of the first column.
pub start_level-ltb :
    (q : Query) (t : ℕ) (d : Level) (tip : ℕ)
    → let l = start_level q t d tip in ltb l.current_col l.start_col ≡ true
unfolding start_level
start_level-ltb q t d tip = lt→ltb _ _ (omega arith)

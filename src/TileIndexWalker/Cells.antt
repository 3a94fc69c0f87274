-- ===== src/TileIndexWalker/Cells.antt =====
-- What an open level has left, and how the counters of `next` go through it.
use libgeodesk.Common.{ℕ, zero, suc, ◌+◌, ◌-◌, ◌<◌, ◌≤◌, ◌≡◌, refl, ◌∙◌, arith, List}
use libgeodesk.Tile.{row, column, zoom}
use libgeodesk.TileIndex.{Query, Level, zero16}
use libgeodesk.TileIndexWalker.Tour.{
  Trace, done, ◌▹◌, then_assoc, done-then, each, Stop, Shape, Block, child, cells, ranged_tour,
}

module _ {ℓ} {A : Type ℓ} (f : ℕ → Trace A) where
  pub each_cons : (a n b m : ℕ) → n ≡ suc m → b ≡ suc a → each f a n ≡ f a ▹ each f b m
  unfolding each
  each_cons a zero b m e s = absurd (omega arith)
  each_cons a (suc n) b m e s = let same : n ≡ m = omega arith in rw (same, s) refl

  pub each_none : (a n : ℕ) → n ≡ 0 → each f a n ≡ done
  unfolding each
  each_none a zero e = refl
  each_none a (suc n) e = absurd (omega arith)

abbrev pub block : Level → Block
block l = record {
  mask = l.child_tile_mask;
  entries = l.child_entries;
  left = column l.top_left_child_tile;
  top = row l.top_left_child_tile;
  block_zoom = zoom l.top_left_child_tile;
  block_step = l.step;
}

-- The cell at the counters, and the cells behind it.
abbrev pub cell : Query → List Shape → Level → Trace Stop
cell q shapes l =
    child q (ranged_tour q shapes) (block l) (l.current_col - zero16) (l.current_row - zero16)

unfoldable pub level_trace : Query → List Shape → Level → Trace Stop
level_trace q shapes l =
    each (λ c. child q (ranged_tour q shapes) (block l) c (l.current_row - zero16))
      (l.current_col + 1 - zero16) (l.end_col - l.current_col)
    ▹ cells q (ranged_tour q shapes) (block l) (l.start_col - zero16) (l.end_col + 1 - l.start_col)
        (l.current_row + 1 - zero16) (l.end_row - l.current_row)

-- The counters are on the level, or one column in front of it.
pub record IsCounting (l : Level) : Type 0 where
  pub first : zero16 ≤ l.start_col
  pub some_col : l.start_col ≤ l.end_col
  pub col : l.start_col ≤ l.current_col + 1
  pub row : zero16 ≤ l.current_row
  pub some_row : l.current_row ≤ l.end_row

module _ (q : Query) (shapes : List Shape) (l : Level) (v : IsCounting l) where
  pub level_trace_col :
      l.current_col < l.end_col
      → let l' : Level = record l { current_col = l.current_col + 1 } in
        level_trace q shapes l ≡ cell q shapes l' ▹ level_trace q shapes l'
  unfolding level_trace
  level_trace_col h =
      rw
        (each_cons (λ c. child q (ranged_tour q shapes) (block l) c (l.current_row - zero16))
          (l.current_col + 1 - zero16) (l.end_col - l.current_col) (l.current_col + 1 + 1 - zero16)
          (l.end_col - (l.current_col + 1)) (omega arith) (omega arith))
        (then_assoc _ _ _)

  pub level_trace_row :
      l.end_col ≤ l.current_col
      → l.current_row < l.end_row
      → let l' : Level = record l { current_col = l.start_col; current_row = l.current_row + 1 } in
        level_trace q shapes l ≡ cell q shapes l' ▹ level_trace q shapes l'
  unfolding level_trace
  level_trace_row h room =
      let f = child q (ranged_tour q shapes) (block l) in
      rw
        (
          each_none (λ c. f c (l.current_row - zero16)) (l.current_col + 1 - zero16)
              (l.end_col - l.current_col) (omega arith),
          each_cons (λ r. each (λ c. f c r) (l.start_col - zero16) (l.end_col + 1 - l.start_col))
              (l.current_row + 1 - zero16) (l.end_row - l.current_row)
              (l.current_row + 1 + 1 - zero16) (l.end_row - (l.current_row + 1)) (omega arith)
              (omega arith),
          each_cons (λ c. f c (l.current_row + 1 - zero16)) (l.start_col - zero16)
              (l.end_col + 1 - l.start_col) (l.start_col + 1 - zero16) (l.end_col - l.start_col)
              (omega arith) (omega arith),
        )
        (done-then _ ∙ then_assoc _ _ _)

  pub level_trace_end :
      l.end_col ≤ l.current_col → l.end_row ≤ l.current_row → level_trace q shapes l ≡ done
  unfolding level_trace ◌▹◌
  level_trace_end h full =
      rw
        (each_none (λ c. child q (ranged_tour q shapes) (block l) c (l.current_row - zero16))
          (l.current_col + 1 - zero16) (l.end_col - l.current_col) (omega arith))
        (each_none _ (l.current_row + 1 - zero16) (l.end_row - l.current_row) (omega arith))

  -- In front of the first cell, all cells are left.
  pub level_trace_start :
      l.start_col ≡ l.current_col + 1
      → level_trace q shapes l
        ≡ cells q
            (ranged_tour q shapes)
            (block l)
            (l.start_col - zero16)
            (l.end_col + 1 - l.start_col)
            (l.current_row - zero16)
            (l.end_row + 1 - l.current_row)
  unfolding level_trace
  level_trace_start e =
      let f = child q (ranged_tour q shapes) (block l) in
      let all : l.end_col - l.current_col ≡ l.end_col + 1 - l.start_col = omega arith in
      rw
        (
          ← e,
          all,
          each_cons (λ r. each (λ c. f c r) (l.start_col - zero16) (l.end_col + 1 - l.start_col))
              (l.current_row - zero16) (l.end_row + 1 - l.current_row) (l.current_row + 1 - zero16)
              (l.end_row - l.current_row) (omega arith) (omega arith),
        )
        refl

-- ===== src/TileIndexWalker/Tests.antt =====
-- A walk over an index of six tiles.
use mathlib.Core.List.{map}
use libgeodesk.Common.{
  Bool, false, ◌==◌, ◌||◌, ℕ, ◌≡◌, refl, arith, none, some, List, [], ◌∷◌, get_elem?, All, All,
}
use libgeodesk.Box.{of_world}
use libgeodesk.Tile.{row, column, zoom, from_column_row_zoom, column_from_xz, row_from_yz}
use libgeodesk.TileIndex.{
  Query, Level, level_at, levels_of, init_levels, count_trailing_zeros, zeros, pointer_target,
  is_pointer,
}
use libgeodesk.TileIndexWalker.{
  Walker, turbo, next, skip_children, Move, arrived, again, no_level, finished, start, query_of,
  root_tile,
}
use libgeodesk.TileIndexWalker.Tour.{
  tour, shape, child, subtree, each, ◌▹◌, meets_column, meets_row,
}
use libgeodesk.TileIndex.Entries.{rank}
use libgeodesk.TileIndexWalker.Placed.{IsOrdered}
use libgeodesk.TileIndexWalker.Start.{IsNear, walk-start, skip_children-start}
use libgeodesk.TileIndexWalker.Next.{flagged, visits, walk}

abbrev words : List ℕ
words = 0 ∷ 22 ∷ 66 ∷ 29 ∷ 26 ∷ 0 ∷ 0 ∷ 0 ∷ 0 ∷ 0 ∷ 22 ∷ 33 ∷ 30 ∷ 34 ∷ []

abbrev index : ℕ → ℕ
index i = elim (get_elem? words i) [ none ↦ 0 | some word ↦ word ]

-- Levels 0, 2 and 4.
abbrev first : Level
first = level_at 2 2

abbrev second : Level
second = level_at 4 2

levels_example : levels_of 21 ≡ first ∷ second ∷ []
unfolding levels_of init_levels count_trailing_zeros zeros
levels_example = refl

abbrev holds : List ℕ → ℕ → Bool
holds [] tile = false
holds (t ∷ ts) tile = t == tile || holds ts tile

abbrev q : Query
q = query_of index of_world holds none

-- Tile 2/1/0 with two tiles below it, and tile 2/2/1.
four_tiles : visits (tour q (map shape (first ∷ second ∷ [])) root_tile 1) ≡ 4
unfolding query_of tour child subtree each ◌▹◌ zoom column row from_column_row_zoom column_from_xz
    row_from_yz is_pointer pointer_target level_at turbo meets_column meets_row rank
four_tiles = refl

of_world-IsOrdered : IsOrdered of_world
of_world-IsOrdered = record {
  x_order = omega arith;
  y_order = omega arith;
  min_y_word = omega arith;
  max_y_word = omega arith;
}

near : All IsNear (first ∷ second ∷ [])
unfolding level_at
near = (omega arith, (omega arith, tt))

walk-start_example :
    walk 5 q (start q first (second ∷ []))
    ≡ some (flagged q [] (tour q (map shape (first ∷ second ∷ [])) root_tile 1))
walk-start_example =
    walk-start index 21 of_world holds none first (second ∷ []) 5 levels_example (omega arith) near
      of_world-IsOrdered (rw four_tiles (omega arith))

skip_children-start_example : skip_children (start q first (second ∷ [])) ≡ none
skip_children-start_example = skip_children-start q first (second ∷ [])

abbrev walker_of : Move → Walker
walker_of (arrived w) = w
walker_of (again w) = w
walker_of (no_level w) = w
walker_of finished = start q first (second ∷ [])

abbrev behind_root : Walker
behind_root = walker_of (next q (start q first (second ∷ [])))

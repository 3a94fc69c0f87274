-- ===== src/TileIndexWalker/Start.antt =====
-- The walk from the root tile.
use mathlib.Core.List.{map}
use libgeodesk.Common.{
  ℕ, Bool, zero, suc, ◌+◌, ◌-◌, ◌/◌, ◌^◌, ◌<◌, ◌≤◌, ◌≡◌, refl, sym, ◌∙◌, arith, All, false,
  Bool-cases, inl, inr, ◌==◌, Option, none, some, List, [], ◌∷◌,
}
use libgeodesk.Common.Bits.{pow_join}
use native.Mathlib.Nat.{one-le-pow, div-lt_iff_lt-mul}
use libgeodesk.Box.{Box}
use libgeodesk.Tile.{zoom}
use libgeodesk.Tile.Fields.{fields-from_column_row_zoom}
use libgeodesk.Tile.Order.{column_top, row_top}
use libgeodesk.TileIndex.{
  Query, Level, Filter, start_level, count_trailing_zeros, init_levels, levels_of, level_at,
}
use libgeodesk.TileIndex.Entries.{count_trailing_zeros-lt}
use libgeodesk.TileIndexWalker.{skip_children, start, query_of, root_tile}
use libgeodesk.TileIndexWalker.Tour.{tour, ranged_tour, shape, then-done}
use libgeodesk.TileIndexWalker.Placed.{
  IsOrdered, IsMet, shape-start_level, start_level-ltb, start_level-IsPlaced, start_level-ltb,
  level_trace-start_level,
}
use libgeodesk.TileIndexWalker.Stack.{IsChain, IsWalking, pending}
use libgeodesk.TileIndexWalker.Enter.{open_level}
use libgeodesk.TileIndexWalker.Ranges.{tour-ranged_tour}
use libgeodesk.TileIndexWalker.Next.{flagged, visits, walk, walk-pending}

abbrev pub IsNear : Level → Type 0
IsNear l = l.step ≤ 3

zoom-level_at : (z step : ℕ) → z ≤ 12 → zoom (level_at z step).top_left_child_tile ≡ z
unfolding level_at
zoom-level_at z step h =
    (fields-from_column_row_zoom 0 0 z (omega arith) (omega arith) (omega arith)).2

positive : (n : ℕ) → (n == 0) ≡ false → 1 ≤ n
positive n e = ground arith

init_levels-IsChain :
    (fuel z zoom_levels : ℕ)
    → z ≤ 12
    → 1 ≤ zoom_levels
    → zoom_levels < 2 ^ (12 - z)
    → All IsNear (init_levels fuel z zoom_levels)
    → IsChain z (map shape (init_levels fuel z zoom_levels))
unfolding init_levels
init_levels-IsChain zero z bits hz pos below near = tt
init_levels-IsChain (suc fuel) z bits hz pos below (small, near) =
    let step = count_trailing_zeros bits + 1 in
    let lowest = count_trailing_zeros-lt (12 - z) bits (omega arith) pos below in
    let e = zoom-level_at (z + step) step (omega arith) in
    let join = pow_join (12 - (z + step)) step (12 - z) (omega arith) in
    let one = one-le-pow step 2 (omega arith) in
    let fewer =
      (div-lt_iff_lt-mul {k = 2 ^ step} {x = bits} {y = 2 ^ (12 - (z + step))} one).1
        (omega (arith, join)) in
    elim (Bool-cases (bits / 2 ^ step == 0)) [
      | inl done ↦ rw (done, e) (refl, omega arith, small, tt)
      | inr more ↦
          let rest =
            init_levels-IsChain fuel (z + step) (bits / 2 ^ step) (omega arith)
              (positive (bits / 2 ^ step) more) fewer (rw more at near) in
          rw (more, e) (refl, omega arith, small, rest)
    ]

levels_of-IsChain :
    (zoom_levels : ℕ)
    → zoom_levels < 2 ^ 13
    → All IsNear (levels_of zoom_levels)
    → IsChain 0 (map shape (levels_of zoom_levels))
unfolding levels_of
levels_of-IsChain zoom_levels below near = elim (Bool-cases (zoom_levels / 2 == 0)) [
  | inl e ↦ rw e tt
  | inr e ↦ rw e (
      init_levels-IsChain 32 0 (zoom_levels / 2) (omega arith) (positive (zoom_levels / 2) e)
        (omega arith) (rw e at near))
]

root-IsMet : (q : Query) → IsMet q root_tile
root-IsMet q =
    let (c, r, z) = fields-from_column_row_zoom 0 0 0 (omega arith) (omega arith) (omega arith) in
    record {
      on_map_col = rw (c, z) (omega arith);
      on_map_row = rw (r, z) (omega arith);
      west = rw (c, z, column_top) (omega arith);
      east = rw (c, z, column_top) (omega arith);
      north = rw (r, z, row_top) (omega arith);
      south = rw (r, z, row_top) (omega arith);
    }

-- The walker at the root tile can go on, and has the whole tour left.
pub start-IsWalking :
    (q : Query) (l : Level) (rest : List Level)
    → IsOrdered q.box
    → IsChain 0 (map shape (l ∷ rest))
    → IsWalking q (start q l rest)
      × (ranged_tour q (map shape (l ∷ rest)) root_tile 1 ≡ pending q (start q l rest))
unfolding start
start-IsWalking q l rest ordered (next, small, near, chain) =
    let (_, _, z) = fields-from_column_row_zoom 0 0 0 (omega arith) (omega arith) (omega arith) in
    let met = root-IsMet q in
    let next_zoom : zoom l.top_left_child_tile ≡ zoom root_tile + l.step = rw z next in
    let (walking, trace) =
      open_level q (start_level q root_tile l 1) [] (map shape rest)
        (shape-start_level q root_tile l 1 ordered met next_zoom small near)
        (start_level-IsPlaced q root_tile l 1 ordered met next_zoom small near)
        (level_trace-start_level q root_tile l 1 ordered met next_zoom small near (map shape rest))
        chain tt in
    (walking, sym (then-done (ranged_tour q (map shape (l ∷ rest)) root_tile 1)) ∙ trace)

-- A walk from the root tile, over an index whose zoom levels are at most 12 and at most 3 apart, for a
-- box whose corners are in order: calling `next` more often than the tour has tiles ends the walk, and
-- gives the tiles of the tour in their order, each with its tip, its turbo flags, and the flags for
-- the tiles north and west that its predecessors account for.
pub walk-start :
    (index : ℕ → ℕ) (zoom_levels : ℕ) (box : Box) (holds : List ℕ → ℕ → Bool)
    (filter : Option Filter) (l : Level) (rest : List Level) (n : ℕ)
    → levels_of zoom_levels ≡ l ∷ rest
    → zoom_levels < 2 ^ 13
    → All IsNear (l ∷ rest)
    → IsOrdered box
    → visits (tour (query_of index box holds filter) (map shape (l ∷ rest)) root_tile 1) < n
    → walk n (query_of index box holds filter) (start (query_of index box holds filter) l rest)
      ≡ some (
          flagged
            (query_of index box holds filter)
            []
            (tour (query_of index box holds filter) (map shape (l ∷ rest)) root_tile 1))
unfolding query_of start
walk-start index zoom_levels box holds filter l rest n e below near ordered enough =
    let q = query_of index box holds filter in
    let chain : IsChain 0 (map shape (l ∷ rest)) =
      rw e at (levels_of-IsChain zoom_levels below (rw e near)) in
    let (walking, left) = start-IsWalking q l rest ordered chain in
    let all = tour-ranged_tour q (map shape (l ∷ rest)) root_tile 1 ∙ left in
    rw all (walk-pending q ordered n (start q l rest) walking (rw all at enough))

-- `skipChildren` at the root tile goes to a level in front of the first one.
pub skip_children-start :
    (q : Query) (l : Level) (rest : List Level) → skip_children (start q l rest) ≡ none
unfolding skip_children start
skip_children-start q l rest = rw (start_level-ltb q root_tile l 1) refl

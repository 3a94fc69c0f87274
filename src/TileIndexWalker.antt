-- ===== src/TileIndexWalker.antt =====
-- src/query/TileIndexWalker.cpp, include/geodesk/query/TileIndexWalker.h: the walk of the tile index,
-- depth first, over the tiles that a box meets.
pub mod Tour
pub mod Cells
pub mod Placed
pub mod Stack
pub mod Enter
pub mod Look
pub mod Advance
pub mod Next
pub mod Start
pub mod Ranges
mod Tests
use libgeodesk.Common.{
  ℕ, zero, suc, ◌+◌, ◌-◌, ◌*◌, ◌/◌, ◌^◌, bit_and, bit_or, ltb, ◌==◌, ◌&&◌, ◌||◌, not, Bool, false,
  if◌then◌else◌, Option, none, some, List, [], ◌∷◌,
}
use libgeodesk.Box.{Box, lt}
use libgeodesk.Tile.{from_column_row_zoom, relative, neighbor, top_y, left_x}
use libgeodesk.TileIndex.{
  Query, Level, Filter, zero16, strict_bbox, fast_tile_filter, start_level, is_child, child_entry,
  is_pointer, pointer_target,
}

-- `levels_` is `level` at `currentLevel_`, `outer` in front of it, the nearest first, and `inner` behind
-- it.
pub record Walker : Type 0 where
  pub level : Level
  pub outer : List Level
  pub inner : List Level
  pub current_tile : ℕ
  pub current_tip : ℕ
  pub northwest_flags : ℕ
  pub turbo_flags : ℕ
  pub accepted_tiles : List ℕ

abbrev pub multitile_north : ℕ
multitile_north = 2 ^ 7

abbrev pub multitile_west : ℕ
multitile_west = 2 ^ 6

pub northwest : Query → List ℕ → ℕ → ℕ
northwest q accepted tile =
    if q.tile_based_acceleration
    then (if q.track_accepted_tiles
        then bit_or (if q.holds accepted (neighbor tile 0 0xffff_ffff) then multitile_north else 0)
            (if q.holds accepted (neighbor tile 0xffff_ffff 0) then multitile_west else 0)
        else bit_or multitile_north multitile_west)
    else bit_or (if lt (top_y tile) q.box.max_y then multitile_north else 0)
        (if lt q.box.min_x (left_x tile) then multitile_west else 0)

pub remember : Query → List ℕ → ℕ → List ℕ
remember q accepted tile =
    if q.tile_based_acceleration && q.track_accepted_tiles then tile ∷ accepted else accepted

pub turbo : Query → ℕ → Option ℕ
turbo q tile = if q.tile_based_acceleration then q.accept_tile tile else some 0

-- What one round of the loop of `next` ends in: another round, a tile, a tile whose children are below
-- the last level, where the source leaves `levels_`, or the end of the walk.
pub data Move : Type 0 where
  again arrived no_level : Walker → Move
  finished : Move

-- The walker has its new tile; `tip` is the number of its entry.
pub enter : Query → Walker → ℕ → Move
enter q w tip =
    let entry = q.index tip in
    let target = pointer_target tip entry in
    if is_pointer entry
    then elim w.inner [
      | [] ↦ no_level (record w { current_tip = target })
      | below ∷ rest ↦ arrived (record w {
        level = start_level q w.current_tile below target;
        outer = w.level ∷ w.outer;
        inner = rest;
        current_tip = target;
      })
    ]
    else arrived (record w { current_tip = tip })

-- The walker stands at a cell.
pub look : Query → Walker → Level → Move
unfolding northwest remember turbo enter
look q w l =
    let child_number = (l.current_row - zero16) * 2 ^ l.step + (l.current_col - zero16) in
    if is_child l child_number
    then (let tile =
          relative l.top_left_child_tile (l.current_col - zero16) (l.current_row - zero16) in
        elim (turbo q tile) [
          | none ↦ again (record w { level = l; current_tile = tile })
          | some t ↦
              enter q
                (record w {
                  level = l;
                  current_tile = tile;
                  turbo_flags = t;
                  northwest_flags = northwest q w.accepted_tiles tile;
                  accepted_tiles = remember q w.accepted_tiles tile;
                })
                (l.child_entries + child_entry l child_number)
        ])
    else again (record w { level = l })

-- The level is done.
leave : Walker → Level → Move
leave w l = elim w.outer [
  | [] ↦ finished
  | parent ∷ rest ↦ again (record w { level = parent; outer = rest; inner = l ∷ w.inner })
]

-- One round of the loop.
pub advance : Query → Walker → Move
unfolding look leave
advance q w =
    let l = w.level in
    let col = l.current_col + 1 in
    if ltb l.end_col col
    then (let row = l.current_row + 1 in
        if ltb l.end_row row
        then leave w (record l { current_col = col; current_row = row })
        else look q w (record l { current_col = l.start_col; current_row = row }))
    else look q w (record l { current_col = col })

next_loop : ℕ → Query → Walker → Move
unfolding advance
next_loop zero q w = again w
next_loop (suc fuel) q w = elim (advance q w) [
  | again w' ↦ next_loop fuel q w'
  | arrived w' ↦ arrived w'
  | no_level w' ↦ no_level w'
  | finished ↦ finished
]

-- The rounds that the open levels have left.
pub rounds : Level → ℕ
rounds l =
    1 + (l.end_col - l.current_col) + (l.end_row - l.current_row) * (l.end_col + 1 - l.start_col)

pub all_rounds : List Level → ℕ
unfolding rounds
all_rounds [] = 0
all_rounds (l ∷ ls) = rounds l + all_rounds ls

pub next : Query → Walker → Move
unfolding next_loop all_rounds
next q w = next_loop (all_rounds (w.level ∷ w.outer)) q w

-- `none` in front of the first level.
pub skip_children : Walker → Option Walker
skip_children w =
    if ltb w.level.current_col w.level.start_col
    then elim w.outer [
      | [] ↦ none
      | parent ∷ rest ↦ some (record w { level = parent; outer = rest; inner = w.level ∷ w.inner })
    ]
    else some w

-- The members that the constructor sets for good.
pub query_of : (ℕ → ℕ) → Box → (List ℕ → ℕ → Bool) → Option Filter → Query
query_of index box holds filter =
    let flags : ℕ = elim filter [ none ↦ 0 | some f ↦ f.flags ] in
    record {
      index = index;
      box = box;
      holds = holds;
      accept_tile = elim filter [ none ↦ λ tile. none | some f ↦ f.accept_tile ];
      tile_based_acceleration = not (bit_and flags fast_tile_filter == 0);
      track_accepted_tiles =
          not (bit_and flags fast_tile_filter == 0) && bit_and flags strict_bbox == 0;
    }

abbrev pub root_tile : ℕ
root_tile = from_column_row_zoom 0 0 0

-- The walker at the root tile, with the first level and the others.
pub start : Query → Level → List Level → Walker
start q l rest = record {
  level = start_level q root_tile l 1;
  outer = [];
  inner = rest;
  current_tile = root_tile;
  current_tip = 1;
  northwest_flags = 0;
  turbo_flags = 0;
  accepted_tiles = [];
}

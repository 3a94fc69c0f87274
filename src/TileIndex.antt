-- ===== src/TileIndex.antt =====
-- src/query/TileIndexWalker.cpp, include/geodesk/query/TileIndexWalker.h, include/clarisma/util/Bits.h:
-- the levels of the tile index and the entries on them. An `int16_t` n is n + 2 ^ 15, other numbers are
-- their patterns.
pub mod Entries
mod Tests
use libgeodesk.Common.{
  ℕ, zero, suc, ◌+◌, ◌-◌, ◌*◌, ◌/◌, ◌%◌, ◌^◌, min, bit_and, ltb, ◌==◌, not, Bool, if◌then◌else◌,
  Option, List, [], ◌∷◌,
}
use libgeodesk.Box.{Box}
use libgeodesk.Tile.{w32, row, column, zoom, from_column_row_zoom, column_from_xz, row_from_yz}

-- The 0 of an `int16_t`.
abbrev pub zero16 : ℕ
zero16 = 2 ^ 15

-- `__builtin_popcountll`
unfoldable pub ones : ℕ → ℕ → ℕ
ones zero n = 0
ones (suc k) n = n % 2 + ones k (n / 2)

unfoldable pub bit_count : ℕ → ℕ
unfolding ones
bit_count n = ones 64 n

-- `__builtin_ctzll`, for a number with a bit among its k lowest
unfoldable pub zeros : ℕ → ℕ → ℕ
zeros zero n = 0
zeros (suc k) n = let rest = zeros k (n / 2) in if n % 2 == 1 then 0 else suc rest

unfoldable pub count_trailing_zeros : ℕ → ℕ
unfolding zeros
count_trailing_zeros n = zeros 64 n

-- `acceptTile` gives `none` for a negative number.
pub record Filter : Type 0 where
  pub flags : ℕ
  pub accept_tile : ℕ → Option ℕ

abbrev pub strict_bbox : ℕ
strict_bbox = 2

abbrev pub fast_tile_filter : ℕ
fast_tile_filter = 4

-- What the constructor stores for good. The index is its 32-bit words by their number; `holds` says
-- what a hash set finds behind some insertions, the last one first.
pub record Query : Type 0 where
  pub index : ℕ → ℕ
  pub box : Box
  pub holds : List ℕ → ℕ → Bool
  pub accept_tile : ℕ → Option ℕ
  pub tile_based_acceleration : Bool
  pub track_accepted_tiles : Bool

pub record Level : Type 0 where
  pub child_tile_mask : ℕ
  pub child_entries : ℕ
  pub top_left_child_tile : ℕ
  pub step : ℕ
  pub start_col : ℕ
  pub end_col : ℕ
  pub end_row : ℕ
  pub current_col : ℕ
  pub current_row : ℕ

unfoldable pub start_level : Query → ℕ → Level → ℕ → Level
start_level q tile l tip =
    let z = zoom l.top_left_child_tile in
    let extent = 2 ^ l.step in
    let tile_top = row tile * extent in
    let tile_left = column tile * extent in
    let left = column_from_xz q.box.min_x z in
    let right = column_from_xz q.box.max_x z in
    let top = row_from_yz q.box.max_y z in
    let bottom = row_from_yz q.box.min_y z in
    let start_col = zero16 + (left - tile_left) in
    record {
      child_tile_mask = q.index (tip + 1) + q.index (tip + 2) * 2 ^ 32;
      child_entries = tip + (if l.step == 3 then 3 else 2);
      top_left_child_tile = from_column_row_zoom tile_left tile_top z;
      step = l.step;
      start_col = start_col;
      end_col = min (zero16 + right - tile_left) (zero16 + extent - 1);
      end_row = min (zero16 + bottom - tile_top) (zero16 + extent - 1);
      current_col = start_col - 1;
      current_row = zero16 + (top - tile_top);
    }

-- The bit of a child, and the place of its entry.
unfoldable pub is_child : Level → ℕ → Bool
is_child l child_number = not (bit_and l.child_tile_mask (2 ^ child_number) == 0)

unfoldable pub child_entry : Level → ℕ → ℕ
unfolding bit_count
child_entry l child_number = bit_count (l.child_tile_mask * 2 ^ (63 - child_number) % 2 ^ 64) - 1

-- An entry that points to a level of children, and where they stand.
unfoldable pub is_pointer : ℕ → Bool
is_pointer entry = bit_and entry 3 == 1

unfoldable pub pointer_target : ℕ → ℕ → ℕ
pointer_target tip entry = w32 (tip + entry / 4 + (if ltb entry (2 ^ 31) then 0 else 3 * 2 ^ 30))

-- The first loop of the constructor; the other members of a level are set by `startLevel`.
unfoldable pub level_at : ℕ → ℕ → Level
level_at z step = record {
  child_tile_mask = 0;
  child_entries = 0;
  top_left_child_tile = from_column_row_zoom 0 0 z;
  step = step;
  start_col = 0;
  end_col = 0;
  end_row = 0;
  current_col = 0;
  current_row = 0;
}

unfoldable pub init_levels : ℕ → ℕ → ℕ → List Level
unfolding count_trailing_zeros level_at
init_levels zero z zoom_levels = []
init_levels (suc fuel) z zoom_levels =
    let step = count_trailing_zeros zoom_levels + 1 in
    let rest = init_levels fuel (z + step) (zoom_levels / 2 ^ step) in
    level_at (z + step) step ∷ (if zoom_levels / 2 ^ step == 0 then [] else rest)

-- `zoomLevels` has a bit for each level, that of the root included.
unfoldable pub levels_of : ℕ → List Level
unfolding init_levels
levels_of zoom_levels = if zoom_levels / 2 == 0 then [] else init_levels 32 0 (zoom_levels / 2)

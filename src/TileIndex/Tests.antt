-- ===== src/TileIndex/Tests.antt =====
-- Levels of the index at concrete inputs.
use libgeodesk.Common.{◌≡◌, refl, arith}
use libgeodesk.TileIndex.{Level, is_child, child_entry}
use libgeodesk.TileIndex.Entries.{rank, child_entry_lem}

-- Children 1, 4 and 6.
abbrev three : Level
three = record {
  child_tile_mask = 82;
  child_entries = 3;
  top_left_child_tile = 0x200_0000;
  step = 2;
  start_col = 0x8000;
  end_col = 0x8003;
  end_row = 0x8003;
  current_col = 0x8000;
  current_row = 0x8000;
}

child_entry_lem_example : child_entry three 6 ≡ rank 82 6
unfolding is_child
child_entry_lem_example = child_entry_lem three 6 (omega arith) refl

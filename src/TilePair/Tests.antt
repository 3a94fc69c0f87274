-- ===== src/TilePair/Tests.antt =====
-- Tile pairs at concrete inputs.
use libgeodesk.Common.{ℕ, ◌-◌, ◌/◌, ◌^◌, ◌≤◌, ◌≡◌, ◌⊎◌, some, arith}
use libgeodesk.Tile.{row, column, from_column_row_zoom, twin}
use libgeodesk.TilePair.{first, second, covering, join_loop}
use libgeodesk.TilePair.Codes.{tiles-covering}
use libgeodesk.TilePair.Cover.{join_loop-covers}

-- Tile 4/5/6.
abbrev here : ℕ
here = 0x400_6005

tiles-covering_example :
    ((first (covering here 2) ≡ here) × (second (covering here 2) ≡ twin here 2))
    ⊎ ((first (covering here 2) ≡ twin here 2) × (second (covering here 2) ≡ here))
unfolding column row
tiles-covering_example =
    tiles-covering here 2 (omega arith) (omega arith) (omega arith) (omega arith) (omega arith)
      (omega arith)

join_loop-covers_example :
    (p k : ℕ) × (join_loop 16 5 6 6 8 4 ≡ some p)
    × (k ≤ 4)
    × ((c w : ℕ)
        → 5 ≤ c
        → c ≤ 6
        → 6 ≤ w
        → w ≤ 8
        → (first p ≡ from_column_row_zoom (c / 2 ^ k) (w / 2 ^ k) (4 - k))
          ⊎ (second p ≡ from_column_row_zoom (c / 2 ^ k) (w / 2 ^ k) (4 - k)))
join_loop-covers_example =
    join_loop-covers 16 5 6 6 8 4 (omega arith) (omega arith) (omega arith) (omega arith)
      (omega arith) (omega arith)

-- ===== src/TileIndexWalker/Stack.antt =====
-- The open levels of a walker, what they have left, and what one round of `next` does to that.
use mathlib.Core.List.{map}
use libgeodesk.Common.{ℕ, ◌+◌, ◌<◌, ◌≤◌, ◌≡◌, ◌⊎◌, some, false, List, [], ◌∷◌}
use libgeodesk.Tile.{zoom}
use libgeodesk.TileIndex.{Query, Level, is_pointer}
use libgeodesk.TileIndexWalker.{
  Walker, Move, again, arrived, no_level, finished, northwest, remember, skip_children, all_rounds,
}
use libgeodesk.TileIndexWalker.Tour.{Trace, done, fault, visit, tour, ◌▹◌, Stop, Shape, shape}
use libgeodesk.TileIndexWalker.Cells.{level_trace}
use libgeodesk.TileIndexWalker.Placed.{IsPlaced}

-- The levels below zoom level z.
abbrev pub IsChain : ℕ → List Shape → Type 0
IsChain z [] = Unit
IsChain z (s ∷ ss) =
    (s.level_zoom ≡ z + s.level_step)
    × (s.level_zoom ≤ 12)
    × (s.level_step ≤ 3)
    × IsChain s.level_zoom ss

abbrev pub IsStack : Query → List Level → List Shape → Type 0
IsStack q [] ss = Unit
IsStack q (l ∷ ls) ss =
    IsPlaced q l × IsChain (zoom l.top_left_child_tile) ss × IsStack q ls (shape l ∷ ss)

abbrev pub stack_trace : Query → List Level → List Shape → Trace Stop
stack_trace q [] ss = done
stack_trace q (l ∷ ls) ss = level_trace q ss l ▹ stack_trace q ls (shape l ∷ ss)

abbrev pub IsWalking : Query → Walker → Type 0
IsWalking q w = IsStack q (w.level ∷ w.outer) (map shape w.inner)

abbrev pub pending : Query → Walker → Trace Stop
pending q w = stack_trace q (w.level ∷ w.outer) (map shape w.inner)

abbrev pub stop : Walker → Stop
stop w = record { tile = w.current_tile; tip = w.current_tip; turbo_flags = w.turbo_flags }

abbrev pub left_rounds : Walker → ℕ
left_rounds w = all_rounds (w.level ∷ w.outer)

-- The tile of a walker that had accepted some tiles before.
pub record IsTile (q : Query) (accepted : List ℕ) (w : Walker) : Type 0 where
  pub flags : w.northwest_flags ≡ northwest q accepted w.current_tile
  pub accepts : w.accepted_tiles ≡ remember q accepted w.current_tile

-- `skipChildren` at the tile of a walker: at a tile without children it does nothing, at another it takes
-- away what is below the tile, and nothing else.
abbrev pub Skips : Query → Walker → Type 0
Skips q w =
    (w' : Walker) × (skip_children w ≡ some w')
    × IsWalking q w'
    × (((w' ≡ w) × (is_pointer (q.index w.current_tip) ≡ false))
        ⊎ ((ss : List Shape) × (pending q w
              ≡ tour q ss w.current_tile w.current_tip ▹ pending q w')))

-- What a round makes of the tiles that are left, when it started with n rounds left.
abbrev pub Makes : Query → List ℕ → Trace Stop → ℕ → Move → Type 0
Makes q accepted t n (again w) =
    IsWalking q w × (t ≡ pending q w) × (left_rounds w < n) × (w.accepted_tiles ≡ accepted)
Makes q accepted t n (arrived w) =
    IsWalking q w × (t ≡ visit (stop w) (pending q w)) × IsTile q accepted w × Skips q w
Makes q accepted t n (no_level w) = (t ≡ visit (stop w) fault) × IsTile q accepted w
Makes q accepted t n finished = t ≡ done

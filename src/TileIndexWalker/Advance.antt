-- ===== src/TileIndexWalker/Advance.antt =====
-- One round of the loop of `next`, and the loop.
use mathlib.Core.List.{map}
use libgeodesk.Common.{
  ℕ, ◌+◌, ◌-◌, ◌*◌, ◌<◌, ◌≤◌, ◌≡◌, refl, arith, ltb, Bool-cases, inl, inr, List, [], ◌∷◌,
}
use libgeodesk.TileIndex.{Query, Level}
use libgeodesk.TileIndexWalker.{Walker, advance, leave, look, rounds, all_rounds}
use libgeodesk.TileIndexWalker.Tour.{◌▹◌, done-then, then_assoc, shape}
use libgeodesk.TileIndexWalker.Cells.{
  cell, level_trace, level_trace_col, level_trace_row, level_trace_end,
}
use libgeodesk.TileIndexWalker.Placed.{IsPlaced, IsOrdered}
use libgeodesk.TileIndexWalker.Stack.{IsStack, IsWalking, stack_trace, pending, left_rounds, Makes}
use libgeodesk.TileIndexWalker.Look.{look_lem}

-- The counters of an open level move.
move_to :
    (q : Query) (l : Level) (col row : ℕ)
    → IsPlaced q l
    → l.start_col ≤ col + 1
    → l.current_row ≤ row
    → row ≤ l.end_row
    → IsPlaced q (record l { current_col = col; current_row = row })
move_to q l col row placed behind below inside = record {
  counting = record {
    first = placed.counting.first;
    some_col = placed.counting.some_col;
    col = behind;
    row = omega arith;
    some_row = inside;
  };
  zoom_small = placed.zoom_small;
  step_small = placed.step_small;
  number = placed.number;
  left_fits = placed.left_fits;
  top_fits = placed.top_fits;
  end_col_fits = placed.end_col_fits;
  end_row_fits = placed.end_row_fits;
  first_west = placed.first_west;
  last_east = placed.last_east;
  first_north = omega arith;
  last_south = placed.last_south;
}

rounds-col :
    (l : Level)
    → l.current_col < l.end_col
    → rounds (record l { current_col = l.current_col + 1 }) < rounds l
unfolding rounds
rounds-col l h = omega arith

rounds-row :
    (l : Level)
    → l.end_col ≤ l.current_col
    → l.start_col ≤ l.end_col
    → l.current_row < l.end_row
    → rounds (record l { current_col = l.start_col; current_row = l.current_row + 1 }) < rounds l
unfolding rounds
rounds-row l h some room =
    let k = l.end_col + 1 - l.start_col in
    let m = l.end_row - (l.current_row + 1) in
    let next : (m + 1) * k ≡ m * k + k = omega arith in
    let more : l.end_row - l.current_row ≡ m + 1 = omega arith in rw more (omega (arith, next))

module _ (q : Query) (w : Walker) where
  leave_lem :
      (l : Level) (outer : List Level)
      → shape l ≡ shape w.level
      → IsStack q outer (shape l ∷ map shape w.inner)
      → Makes q w.accepted_tiles
          (stack_trace q outer (shape l ∷ map shape w.inner))
          (rounds w.level + all_rounds outer)
          (leave (record w { outer = outer }) l)
  unfolding leave rounds
  leave_lem l [] e walking = refl
  leave_lem l (parent ∷ rest) e walking = (walking, refl, omega arith, refl)

  look_at :
      (l : Level) (n : ℕ)
      → IsOrdered q.box
      → IsStack q (l ∷ w.outer) (map shape w.inner)
      → l.start_col ≤ l.current_col
      → l.current_col ≤ l.end_col
      → rounds l + all_rounds w.outer < n
      → Makes q w.accepted_tiles
          ((cell q (map shape w.inner) l ▹ level_trace q (map shape w.inner) l)
            ▹ stack_trace q w.outer (shape l ∷ map shape w.inner))
          n
          (look q w l)
  unfolding all_rounds
  look_at l n ordered walking behind inside fewer =
      rw then_assoc (look_lem q w l n ordered walking behind inside fewer)

  pub advance_lem :
      IsOrdered q.box
      → IsWalking q w
      → Makes q w.accepted_tiles (pending q w) (left_rounds w) (advance q w)
  unfolding advance all_rounds
  advance_lem ordered (placed, chain, walking) =
      let l = w.level in
      let ss = map shape w.inner in
      let counting = placed.counting in
      elim (Bool-cases (ltb l.end_col (l.current_col + 1))) [
        | inr e ↦
            rw (e, level_trace_col q ss l counting (ground arith))
              (look_at (record l { current_col = l.current_col + 1 }) (left_rounds w) ordered
                (
                  move_to q l (l.current_col + 1) l.current_row placed (omega arith) (omega arith)
                      (omega arith),
                  chain,
                  walking,
                )
                (omega arith) (ground arith) (omega (arith, rounds-col l (ground arith))))
        | inl e ↦ elim (Bool-cases (ltb l.end_row (l.current_row + 1))) [
          | inr e' ↦
              rw (e, e', level_trace_row q ss l counting (ground arith) (ground arith))
                (look_at (record l { current_col = l.start_col; current_row = l.current_row + 1 })
                  (left_rounds w) ordered
                  (
                    move_to q l l.start_col (l.current_row + 1) placed (omega arith) (omega arith)
                        (ground arith),
                    chain,
                    walking,
                  )
                  (omega arith) (omega arith)
                  (omega (arith, rounds-row l (ground arith) (omega arith) (ground arith))))
          | inl e' ↦
              rw (e, e', level_trace_end q ss l counting (ground arith) (ground arith))
                (rw done-then (
                  leave_lem
                    (record l { current_col = l.current_col + 1; current_row = l.current_row + 1 })
                    w.outer refl walking))
        ]
      ]

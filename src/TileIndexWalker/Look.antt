-- ===== src/TileIndexWalker/Look.antt =====
-- What the walker makes of the cell that it stands at.
use mathlib.Core.List.{map}
use libgeodesk.Common.{
  ℕ, ◌+◌, ◌-◌, ◌*◌, ◌^◌, ◌<◌, ◌≤◌, ◌≡◌, refl, sym, ◌∙◌, arith, Bool-cases, Option-cases, inl, inr,
  true, false, none, some, List, ◌∷◌,
}
use libgeodesk.Common.Bits.{pow_join}
use native.Mathlib.Nat.{mul-le-mul_right, pow-le-pow_right, one-le-pow}
use libgeodesk.Tile.{row, column, zoom, relative, from_column_row_zoom}
use libgeodesk.Tile.Fields.{from_column_row_zoom_lem, fields-from_column_row_zoom}
use libgeodesk.TileIndex.{Query, Level, zero16, is_child, child_entry}
use libgeodesk.TileIndex.Entries.{is_child_lem, child_entry_lem}
use libgeodesk.TileIndexWalker.{Walker, look, turbo, all_rounds, northwest, remember}
use libgeodesk.TileIndexWalker.Tour.{
  ◌▹◌, done, done-then, Shape, shape, subtree, child, ranged_tour,
}
use libgeodesk.TileIndexWalker.Cells.{cell}
use libgeodesk.TileIndexWalker.Placed.{IsPlaced, IsMet, IsOrdered}
use libgeodesk.TileIndexWalker.Stack.{IsStack, stack_trace, Makes}
use libgeodesk.TileIndexWalker.Enter.{enter_lem}

module _ (q : Query) (l : Level) (placed : IsPlaced q l) (behind : l.start_col ≤ l.current_col)
    (inside : l.current_col ≤ l.end_col) where
  abbrev number : ℕ
  number = (l.current_row - zero16) * 2 ^ l.step + (l.current_col - zero16)

  abbrev here : ℕ
  here = relative l.top_left_child_tile (l.current_col - zero16) (l.current_row - zero16)

  number-lt : number < 64
  number-lt =
      let k = 2 ^ l.step in
      let r = l.current_row - zero16 in
      let next : (r + 1) * k ≡ r * k + k = omega arith in
      let square = pow_join l.step l.step (l.step + l.step) refl in
      let small : 2 ^ (l.step + l.step) ≤ 2 ^ 6 =
        pow-le-pow_right {n = 2} (omega arith) {i = l.step + l.step} {j = 6} (omega arith) in
      let below : (r + 1) * k ≤ k * k = mul-le-mul_right {m = r + 1} {n = k} k (omega arith) in
      omega (arith, next, square, small, below)

  few : 2 ^ zoom l.top_left_child_tile ≤ 2 ^ 12
  few =
      pow-le-pow_right {n = 2} (omega arith) {i = zoom l.top_left_child_tile} {j = 12} (omega arith)

  here_lem :
      from_column_row_zoom
        (column l.top_left_child_tile + (l.current_col - zero16))
        (row l.top_left_child_tile + (l.current_row - zero16))
        (zoom l.top_left_child_tile)
      ≡ here
  here_lem =
      let c = column l.top_left_child_tile in
      let r = row l.top_left_child_tile in
      let z = zoom l.top_left_child_tile in
      let one = one-le-pow l.step 2 (omega arith) in
      let corner =
        from_column_row_zoom_lem c r z (omega (arith, few, one)) (omega (arith, few, one))
          (omega arith) in
      let tile =
        from_column_row_zoom_lem (c + (l.current_col - zero16)) (r + (l.current_row - zero16)) z
          (omega (arith, few)) (omega (arith, few)) (omega arith) in
      let number = placed.number in omega (arith, corner, tile, number, few)

  here_fields :
      (column here ≡ column l.top_left_child_tile + (l.current_col - zero16))
      × (row here ≡ row l.top_left_child_tile + (l.current_row - zero16))
      × (zoom here ≡ zoom l.top_left_child_tile)
  here_fields = rw here_lem at (
      fields-from_column_row_zoom (column l.top_left_child_tile + (l.current_col - zero16))
        (row l.top_left_child_tile + (l.current_row - zero16)) (zoom l.top_left_child_tile)
        (omega (arith, few)) (omega (arith, few)) (omega arith))

  here-IsMet : IsMet q here
  here-IsMet =
      let (c, r, z) = here_fields in
      record {
        on_map_col = rw (c, z) (omega arith);
        on_map_row = rw (r, z) (omega arith);
        west = rw (c, z) (omega arith);
        east = rw (c, z) (omega arith);
        north = rw (r, z) (omega arith);
        south = rw (r, z) (omega arith);
      }

  module _ (ss : List Shape) where
    cell_empty : is_child l number ≡ false → cell q ss l ≡ done
    unfolding child
    cell_empty e = let bit = sym (is_child_lem l number) ∙ e in rw bit refl

    cell_rejected : is_child l number ≡ true → turbo q here ≡ none → cell q ss l ≡ done
    unfolding child
    cell_rejected e t = let bit = sym (is_child_lem l number) ∙ e in rw (bit, here_lem, t) refl

    cell_accepted :
        (flags : ℕ)
        → is_child l number ≡ true
        → turbo q here ≡ some flags
        → cell q ss l
          ≡ subtree q (ranged_tour q ss) here (l.child_entries + child_entry l number) flags
    unfolding child
    cell_accepted flags e t =
        let bit = sym (is_child_lem l number) ∙ e in
        let entry = child_entry_lem l number number-lt e in
        rw (bit, here_lem, t, here_lem, entry) refl

-- The walker goes to a cell, and on to what is left behind it.
pub look_lem :
    (q : Query) (w : Walker) (l : Level) (n : ℕ)
    → IsOrdered q.box
    → IsStack q (l ∷ w.outer) (map shape w.inner)
    → l.start_col ≤ l.current_col
    → l.current_col ≤ l.end_col
    → all_rounds (l ∷ w.outer) < n
    → Makes q w.accepted_tiles
        (cell q (map shape w.inner) l ▹ stack_trace q (l ∷ w.outer) (map shape w.inner))
        n
        (look q w l)
unfolding look
look_lem q w l n ordered (placed, chain, walking) behind inside rounds =
    let ss = map shape w.inner in
    let child_number = number q l placed behind inside in
    let tile = here q l placed behind inside in
    let arrived_at : ℕ → Walker = λ flags. record w {
      level = l;
      current_tile = tile;
      turbo_flags = flags;
      northwest_flags = northwest q w.accepted_tiles tile;
      accepted_tiles = remember q w.accepted_tiles tile;
    } in
    elim (Bool-cases (is_child l child_number)) [
      | inr e ↦
          rw (e, cell_empty q l placed behind inside ss e)
            ((placed, chain, walking), done-then _, rounds, refl)
      | inl e ↦ elim (Option-cases (turbo q tile)) [
        | inl t ↦
            rw (e, t, cell_rejected q l placed behind inside ss e t)
              ((placed, chain, walking), done-then _, rounds, refl)
        | inr (flags, t) ↦
            rw (e, t, cell_accepted q l placed behind inside ss flags e t)
              (enter_lem q (arrived_at flags) (l.child_entries + child_entry l child_number) n
                w.accepted_tiles ordered (record { flags = refl; accepts = refl })
                (here-IsMet q l placed behind inside) (here_fields q l placed behind inside).2
                behind (placed, chain, walking))
      ]
    ]

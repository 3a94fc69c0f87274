-- ===== src/TileIndexWalker/Tour.antt =====
-- The walk as a recursion over the tree of tiles: what `next` is to deliver, one tile after the other.
use libgeodesk.Common.{
  ℕ, zero, suc, ◌+◌, ◌-◌, ◌*◌, ◌/◌, ◌%◌, ◌^◌, ◌≡◌, refl, ap, min, ◌==◌, ◌&&◌, leb, Bool,
  if◌then◌else◌, none, some, List, [], ◌∷◌,
}
use libgeodesk.Tile.{row, column, zoom, from_column_row_zoom, column_from_xz, row_from_yz}
use libgeodesk.TileIndex.{Query, Level, is_pointer, pointer_target}
use libgeodesk.TileIndex.Entries.{rank}
use libgeodesk.TileIndexWalker.{turbo}

-- A sequence that ends well, or at a pointer below the last level.
pub data Trace {ℓ} (A : Type ℓ) : Type ℓ where
  done fault : Trace A
  visit : A → Trace A → Trace A

module _ {ℓ} {A : Type ℓ} where
  infixr 40 ◌▹◌
  unfoldable pub ◌▹◌ : Trace A → Trace A → Trace A
  done ▹ u = u
  fault ▹ u = fault
  visit a t ▹ u = visit a (t ▹ u)

  pub done-then : (t : Trace A) → done ▹ t ≡ t
  unfolding ◌▹◌
  done-then t = refl

  pub then-done : (t : Trace A) → t ▹ done ≡ t
  unfolding ◌▹◌
  then-done done = refl
  then-done fault = refl
  then-done (visit a t) = ap (visit a) (then-done t)

  pub then_assoc : (t u v : Trace A) → (t ▹ u) ▹ v ≡ t ▹ u ▹ v
  unfolding ◌▹◌
  then_assoc done u v = refl
  then_assoc fault u v = refl
  then_assoc (visit a t) u v = ap (visit a) (then_assoc t u v)

  -- `f` at n numbers from a on
  unfoldable pub each : (ℕ → Trace A) → ℕ → ℕ → Trace A
  each f a zero = done
  each f a (suc n) = f a ▹ each f (suc a) n

pub record Stop : Type 0 where
  pub tile : ℕ
  pub tip : ℕ
  pub turbo_flags : ℕ

-- A level of the index, whatever tile it is below.
pub record Shape : Type 0 where
  pub level_zoom : ℕ
  pub level_step : ℕ

-- The children of one tile.
pub record Block : Type 0 where
  pub mask : ℕ
  pub entries : ℕ
  pub left : ℕ
  pub top : ℕ
  pub block_zoom : ℕ
  pub block_step : ℕ

abbrev pub block_of : Query → Shape → ℕ → ℕ → Block
block_of q s tile tip = record {
  mask = q.index (tip + 1) + q.index (tip + 2) * 2 ^ 32;
  entries = tip + (if s.level_step == 3 then 3 else 2);
  left = column tile * 2 ^ s.level_step;
  top = row tile * 2 ^ s.level_step;
  block_zoom = s.level_zoom;
  block_step = s.level_step;
}

-- A tile at its entry, and then what is below it.
unfoldable pub subtree : Query → (ℕ → ℕ → Trace Stop) → ℕ → ℕ → ℕ → Trace Stop
subtree q below tile tip t =
    let entry = q.index tip in
    let target = pointer_target tip entry in
    if is_pointer entry
    then visit (record { tile = tile; tip = target; turbo_flags = t }) (below tile target)
    else visit (record { tile = tile; tip = tip; turbo_flags = t }) done

unfoldable pub child : Query → (ℕ → ℕ → Trace Stop) → Block → ℕ → ℕ → Trace Stop
child q below b c r =
    let n = r * 2 ^ b.block_step + c in
    let tile = from_column_row_zoom (b.left + c) (b.top + r) b.block_zoom in
    if b.mask / 2 ^ n % 2 == 1
    then elim (turbo q tile) [
      | none ↦ done
      | some t ↦ subtree q below tile (b.entries + rank b.mask n) t
    ]
    else done

-- Whether the box has points in a column, and in a row.
unfoldable pub meets_column : Query → Block → ℕ → Bool
meets_column q b c =
    leb (column_from_xz q.box.min_x b.block_zoom) (b.left + c)
    && leb (b.left + c) (column_from_xz q.box.max_x b.block_zoom)

unfoldable pub meets_row : Query → Block → ℕ → Bool
meets_row q b r =
    leb (row_from_yz q.box.max_y b.block_zoom) (b.top + r)
    && leb (b.top + r) (row_from_yz q.box.min_y b.block_zoom)

-- All children of a tile whose column and row the box meets, row by row, each with what is below it.
unfoldable pub tour : Query → List Shape → ℕ → ℕ → Trace Stop
tour q [] tile tip = fault
tour q (s ∷ deeper) tile tip =
    let b = block_of q s tile tip in
    let extent = 2 ^ s.level_step in
    each
      (λ r.
        if meets_row q b r
        then each (λ c. if meets_column q b c then child q (tour q deeper) b c r else done) 0 extent
        else done)
      0 extent

-- Some columns of some rows.
abbrev pub cells : Query → (ℕ → ℕ → Trace Stop) → Block → ℕ → ℕ → ℕ → ℕ → Trace Stop
cells q below b first_col cols first_row rows =
    each (λ r. each (λ c. child q below b c r) first_col cols) first_row rows

-- The same tour, over the columns and rows that the box spans on the level.
unfoldable pub ranged_tour : Query → List Shape → ℕ → ℕ → Trace Stop
ranged_tour q [] tile tip = fault
ranged_tour q (s ∷ deeper) tile tip =
    let b = block_of q s tile tip in
    let extent = 2 ^ s.level_step in
    let first_col = column_from_xz q.box.min_x s.level_zoom - b.left in
    let first_row = row_from_yz q.box.max_y s.level_zoom - b.top in
    let end_col = min (column_from_xz q.box.max_x s.level_zoom + 1 - b.left) extent in
    let end_row = min (row_from_yz q.box.min_y s.level_zoom + 1 - b.top) extent in
    cells q (ranged_tour q deeper) b first_col (end_col - first_col) first_row (end_row - first_row)

abbrev pub shape : Level → Shape
shape l = record { level_zoom = zoom l.top_left_child_tile; level_step = l.step }

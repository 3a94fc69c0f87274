-- ===== src/TileIndexWalker/Enter.antt =====
-- What the walker makes of an entry of the index.
use mathlib.Core.List.{map}
use libgeodesk.Common.{
  ℕ, ◌+◌, ◌≡◌, refl, arith, sym, ◌∙◌, subst, ap, Bool-cases, ltb-false, false, ◌≤◌, inl, inr, true,
  List, [], ◌∷◌,
}
use libgeodesk.Tile.{zoom}
use libgeodesk.TileIndex.{Query, Level, start_level, is_pointer, pointer_target}
use libgeodesk.TileIndexWalker.{Walker, skip_children, enter}
use libgeodesk.TileIndexWalker.Tour.{Trace, Stop, ◌▹◌, visit, Shape, shape, subtree, ranged_tour}
use libgeodesk.TileIndexWalker.Cells.{level_trace}
use libgeodesk.TileIndexWalker.Ranges.{tour-ranged_tour}
use libgeodesk.TileIndexWalker.Placed.{
  IsPlaced, IsMet, IsOrdered, shape-start_level, start_level-IsPlaced, start_level-ltb,
  level_trace-start_level,
}
use libgeodesk.TileIndexWalker.Stack.{IsChain, IsStack, stack_trace, IsTile, Skips, Makes}

-- A level is opened in front of others.
pub open_level :
    (q : Query) (l : Level) (ls : List Level) (ss : List Shape) {t : Trace Stop} {s : Shape}
    → shape l ≡ s
    → IsPlaced q l
    → level_trace q ss l ≡ t
    → IsChain s.level_zoom ss
    → IsStack q ls (s ∷ ss)
    → IsStack q (l ∷ ls) ss × (t ▹ stack_trace q ls (s ∷ ss) ≡ stack_trace q (l ∷ ls) ss)
open_level q l ls ss {t} {s} same placed trace chain walking =
    let (chain', walking', rest) =
      subst
        (λ (x : Shape).
          IsChain x.level_zoom ss
          × IsStack q ls (x ∷ ss)
          × (stack_trace q ls (s ∷ ss) ≡ stack_trace q ls (x ∷ ss)))
        (sym same) (chain, walking, refl) in
    ((placed, chain', walking'), rw (rest, ← trace) refl)

module _ (q : Query) (w : Walker) (tip n : ℕ) (accepted : List ℕ) (ordered : IsOrdered q.box)
    (is_tile : IsTile q accepted w) (met : IsMet q w.current_tile)
    (same_zoom : zoom w.current_tile ≡ zoom w.level.top_left_child_tile)
    (behind : w.level.start_col ≤ w.level.current_col) where
  skip_leaf :
      IsStack q (w.level ∷ w.outer) (map shape w.inner)
      → is_pointer (q.index tip) ≡ false
      → Skips q (record w { current_tip = tip })
  unfolding skip_children
  skip_leaf walking e = (
    record w { current_tip = tip },
    rw (ltb-false w.level.current_col w.level.start_col (omega arith)) refl,
    walking,
    inl (refl, e),
  )

  skip_pointer :
      (below : Level) (rest : List Level) (target : ℕ)
      → zoom below.top_left_child_tile ≡ zoom w.current_tile + below.step
      → zoom below.top_left_child_tile ≤ 12
      → below.step ≤ 3
      → IsStack q (w.level ∷ w.outer) (shape below ∷ map shape rest)
      → let l = start_level q w.current_tile below target in
        Skips q
          (record w { level = l; outer = w.level ∷ w.outer; inner = rest; current_tip = target })
  unfolding skip_children
  skip_pointer below rest target next small step walking =
      let l = start_level q w.current_tile below target in
      let ss = map shape rest in
      let sh = shape-start_level q w.current_tile below target ordered met next small step in
      let trace =
        level_trace-start_level q w.current_tile below target ordered met next small step ss
        ∙ sym (tour-ranged_tour q (shape below ∷ ss) w.current_tile target) in
      (
        record w { inner = l ∷ rest; current_tip = target },
        rw (start_level-ltb q w.current_tile below target) refl,
        subst (λ (s : Shape). IsStack q (w.level ∷ w.outer) (s ∷ ss)) (sym sh) walking,
        inr (
          shape below ∷ ss,
          ap (λ t. t ▹ stack_trace q (w.level ∷ w.outer) (shape l ∷ ss)) trace,
        ),
      )

  -- The children of a tile with children.
  enter_pointer :
      (inner : List Level)
      → is_pointer (q.index tip) ≡ true
      → IsStack q (w.level ∷ w.outer) (map shape inner)
      → Makes q accepted
          (subtree q (ranged_tour q (map shape inner)) w.current_tile tip w.turbo_flags
            ▹ stack_trace q (w.level ∷ w.outer) (map shape inner))
          n
          (enter q (record w { inner = inner }) tip)
  unfolding enter subtree ◌▹◌ ranged_tour skip_children
  enter_pointer [] e walking =
      rw e (refl, record { flags = is_tile.flags; accepts = is_tile.accepts })
  enter_pointer (below ∷ rest) e (placed, (next_zoom, small, step, chain), walking) =
      let target = pointer_target tip (q.index tip) in
      let next : zoom below.top_left_child_tile ≡ zoom w.current_tile + below.step =
        rw same_zoom next_zoom in
      let sh = shape-start_level q w.current_tile below target ordered met next small step in
      let target_level = start_level q w.current_tile below target in
      let (walking', rest_trace) =
        open_level q target_level (w.level ∷ w.outer) (map shape rest) sh
          (start_level-IsPlaced q w.current_tile below target ordered met next small step)
          (level_trace-start_level q w.current_tile below target ordered met next small step
            (map shape rest))
          chain (placed, (next_zoom, small, step, chain), walking) in
      rw e (
        walking',
        ap (visit (record { tile = w.current_tile; tip = target; turbo_flags = w.turbo_flags }))
            rest_trace,
        record { flags = is_tile.flags; accepts = is_tile.accepts },
        skip_pointer below rest target next small step
            (placed, (next_zoom, small, step, chain), walking),
      )

  pub enter_lem :
      IsStack q (w.level ∷ w.outer) (map shape w.inner)
      → Makes q accepted
          (subtree q (ranged_tour q (map shape w.inner)) w.current_tile tip w.turbo_flags
            ▹ stack_trace q (w.level ∷ w.outer) (map shape w.inner))
          n
          (enter q w tip)
  unfolding enter subtree ◌▹◌
  enter_lem walking = elim (Bool-cases (is_pointer (q.index tip))) [
    | inl e ↦ enter_pointer w.inner e walking
    | inr e ↦ rw e (
      walking,
      refl,
      record { flags = is_tile.flags; accepts = is_tile.accepts },
      skip_leaf walking e,
    )
  ]

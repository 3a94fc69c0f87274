-- ===== src/Box/Around.antt =====
-- The bounding box of coordinates.
use libgeodesk.Common.{◌≡◌, ◌↔◌, arith, true, min, max, List, [], ◌∷◌, All}
use libgeodesk.Box.{
  Box, Coordinate, flip, empty_box, expand_to_include, contains_simple, contains_box_simple,
}
use libgeodesk.Box.Order.{flip-lower, flip-higher}
use libgeodesk.Box.Contains.{IsInside, IsBetween, contains_simple_iff, contains_box_simple_iff}
use libgeodesk.Box.Combine.{flip_low, flip_high, flip-lt}

-- The coordinates one after the other, from an empty box.
abbrev pub bounds_of : List Coordinate → Box
bounds_of [] = empty_box
bounds_of (c ∷ cs) = expand_to_include (bounds_of cs) c

include_edges :
    (b : Box) (c : Coordinate)
    → (flip (expand_to_include b c).min_x ≡ min (flip b.min_x) (flip c.x))
      × (flip (expand_to_include b c).min_y ≡ min (flip b.min_y) (flip c.y))
      × (flip (expand_to_include b c).max_x ≡ max (flip b.max_x) (flip c.x))
      × (flip (expand_to_include b c).max_y ≡ max (flip b.max_y) (flip c.y))
unfolding expand_to_include
include_edges b c = (
  flip-lower b.min_x c.x,
  flip-lower b.min_y c.y,
  flip-higher b.max_x c.x,
  flip-higher b.max_y c.y,
)

IsBetween-expand_to_include :
    (b o : Box) (c : Coordinate)
    → IsBetween b (expand_to_include o c) ↔ (IsBetween b o × IsInside b c.x c.y)
IsBetween-expand_to_include b o c =
    let (p, q, r, s) = include_edges o c in
    (
      λ (h, k, l, m). (
        (omega arith, omega arith, omega arith, omega arith),
        (omega arith, omega arith, omega arith, omega arith),
      ),
      λ ((h, k, l, m), (h', k', l', m')). (omega arith, omega arith, omega arith, omega arith),
    )

IsBetween-empty_box : (b : Box) → IsBetween b empty_box
IsBetween-empty_box b = (
  omega (arith, flip_high, flip-lt b.min_x),
  omega (arith, flip_low),
  omega (arith, flip_high, flip-lt b.min_y),
  omega (arith, flip_low),
)

-- A box contains the bounding box of coordinates, by the test of edges, exactly when it contains each
-- of them.
pub contains_box_simple-bounds_of :
    (b : Box) (cs : List Coordinate)
    → (contains_box_simple b (bounds_of cs) ≡ true) ↔ All (λ c. contains_simple b c.x c.y ≡ true) cs
contains_box_simple-bounds_of b [] =
    (λ h. tt, λ h. (contains_box_simple_iff b empty_box).1 (IsBetween-empty_box b))
contains_box_simple-bounds_of b (c ∷ cs) =
    let (all, back) = contains_box_simple-bounds_of b cs in
    let (edges, whole) = contains_box_simple_iff b (bounds_of cs) in
    let (edges', whole') = contains_box_simple_iff b (expand_to_include (bounds_of cs) c) in
    let (here, in_box) = contains_simple_iff b c.x c.y in
    let (to, from) = IsBetween-expand_to_include b (bounds_of cs) c in
    (
      λ h. let (rest, first) = to (edges' h) in (in_box first, all (whole rest)),
      λ (first, rest). whole' (from (edges (back rest), here first)),
    )

-- ===== src/Box/Contains.antt =====
-- Which points and boxes a box contains.
use libgeodesk.Common.{ℕ, ◌≤◌, ◌≡◌, ◌↔◌, refl, arith, true, min, max}
use libgeodesk.Box.{
  Box, flip, lt, higher, is_simple, contains_simple, contains, contains_box_simple, contains_box,
  intersects,
}
use libgeodesk.Box.Order.{lt_iff, lt-false, flip-higher}

-- The point is inside or on the edge.
abbrev pub IsInside : Box → ℕ → ℕ → Type 0
IsInside b x y =
    (flip b.min_x ≤ flip x)
    × (flip x ≤ flip b.max_x)
    × (flip b.min_y ≤ flip y)
    × (flip y ≤ flip b.max_y)

-- The lowest edges are not above the highest.
abbrev pub IsSimple : Box → Type 0
IsSimple b = (flip b.min_x ≤ flip b.max_x) × (flip b.min_y ≤ flip b.max_y)

pub is_simple_iff : (b : Box) → (is_simple b ≡ true) ↔ IsSimple b
unfolding is_simple
is_simple_iff b = ground (arith, lt_iff b.max_x b.min_x, lt_iff b.max_y b.min_y)

pub contains_simple_iff : (b : Box) (x y : ℕ) → (contains_simple b x y ≡ true) ↔ IsInside b x y
unfolding contains_simple lt
contains_simple_iff b x y = ground arith

-- On every box, `contains` is true exactly of the points between the edges of the box, its left and
-- right edge in the order of their numbers: of a box that crosses the antimeridian too, whose points
-- are those outside.
pub contains_iff :
    (b : Box) (x y : ℕ)
    → (contains b x y ≡ true) ↔ (
        (min (flip b.min_x) (flip b.max_x) ≤ flip x)
        × (flip x ≤ max (flip b.min_x) (flip b.max_x))
        × (flip b.min_y ≤ flip y)
        × (flip y ≤ flip b.max_y))
unfolding contains contains_simple lt
contains_iff b x y = ground arith

-- The edges of `o` are between those of `b`.
abbrev pub IsBetween : Box → Box → Type 0
IsBetween b o =
    (flip b.min_x ≤ flip o.min_x)
    × (flip o.max_x ≤ flip b.max_x)
    × (flip b.min_y ≤ flip o.min_y)
    × (flip o.max_y ≤ flip b.max_y)

pub contains_box_simple_iff : (b o : Box) → (contains_box_simple b o ≡ true) ↔ IsBetween b o
unfolding contains_box_simple lt
contains_box_simple_iff b o = ground arith

contains_box_edges :
    (b o : Box) → IsSimple b → IsSimple o → contains_box b o ≡ contains_box_simple b o
unfolding contains_box
contains_box_edges b o (bx, _) (ox, _) =
    rw ((lt-false b.max_x b.min_x).1 bx, (lt-false o.max_x o.min_x).1 ox) refl

-- Of two simple boxes, one contains the other by the test of corners exactly when every point of the
-- other is one of its points.
pub contains_box_iff :
    (b o : Box)
    → is_simple b ≡ true
    → is_simple o ≡ true
    → (contains_box b o ≡ true) ↔ ((x y : ℕ) → IsInside o x y → IsInside b x y)
contains_box_iff b o hb ho =
    let simple : IsSimple b = (is_simple_iff b).0 hb in
    let (ox, oy) = (is_simple_iff o).0 ho in
    rw (contains_box_edges b o simple (ox, oy)) (
      λ h x y i. let edges : IsBetween b o = (contains_box_simple_iff b o).0 h in omega arith,
      λ all.
          let (p, _, q, _) =
            all o.min_x o.min_y (omega arith, omega arith, omega arith, omega arith) in
          let (_, r, _, s) =
            all o.max_x o.max_y (omega arith, omega arith, omega arith, omega arith) in
          (contains_box_simple_iff b o).1 (p, r, q, s),
    )

-- Two simple boxes intersect by the test of edges exactly when they share a point.
pub intersects_iff :
    (a b : Box)
    → is_simple a ≡ true
    → is_simple b ≡ true
    → (intersects a b ≡ true) ↔ ((x : ℕ) × (y : ℕ) × IsInside a x y × IsInside b x y)
unfolding intersects lt
intersects_iff a b ha hb =
    let (ax, ay) = (is_simple_iff a).0 ha in
    let (bx, by) = (is_simple_iff b).0 hb in
    (
      λ h.
          let x = flip-higher a.min_x b.min_x in
          let y = flip-higher a.min_y b.min_y in
          (
            higher a.min_x b.min_x,
            higher a.min_y b.min_y,
            ground (arith, h, x, y),
            ground (arith, h, x, y),
          ),
      λ (x, y, i, j). ground (arith, i, j),
    )

-- ===== src/Box/Tests.antt =====
-- Boxes with small numbers, and one that crosses the antimeridian.
use libgeodesk.Common.{
  ℕ, ◌+◌, ◌≤◌, ◌≡◌, ◌↔◌, refl, arith, true, false, min, max, [], ◌∷◌, All, List,
}
use libgeodesk.Box.{
  Box, Coordinate, flip, lt, is_simple, is_empty, contains_simple, contains, contains_box,
  contains_box_simple, intersects, simple_intersection, buffer,
}
use libgeodesk.Box.Contains.{IsInside, contains_iff, contains_box_iff, intersects_iff}
use libgeodesk.Box.Combine.{contains_simple-simple_intersection}
use libgeodesk.Box.Around.{bounds_of, contains_box_simple-bounds_of}
use libgeodesk.Box.Buffer.{IsWord, contains_simple-buffer}

abbrev small_box : Box
small_box = record { min_x = 10; min_y = 10; max_x = 20; max_y = 30 }

abbrev wide_box : Box
wide_box = record { min_x = 5; min_y = 15; max_x = 90; max_y = 25 }

-- From x 1000 over the antimeridian to x -1000.
abbrev crossing_box : Box
crossing_box = record { min_x = 1000; min_y = 10; max_x = 4_294_966_296; max_y = 30 }

small-is_simple : is_simple small_box ≡ true
unfolding is_simple lt flip
small-is_simple = refl

wide-is_simple : is_simple wide_box ≡ true
unfolding is_simple lt flip
wide-is_simple = refl

small_some : is_empty small_box ≡ false
unfolding is_empty lt flip
small_some = refl

-- A point of the box that crosses the antimeridian, which it is said not to contain.
crossing_misses : contains crossing_box 2000 20 ≡ false
unfolding contains contains_simple lt flip
crossing_misses = refl

contains_iff_example : (contains crossing_box 2000 20 ≡ true) ↔ (
    (min (flip 1000) (flip 4_294_966_296) ≤ flip 2000)
    × (flip 2000 ≤ max (flip 1000) (flip 4_294_966_296))
    × (flip 10 ≤ flip 20)
    × (flip 20 ≤ flip 30))
contains_iff_example = contains_iff crossing_box 2000 20

contains_box_iff_example :
    (contains_box small_box wide_box ≡ true)
    ↔ ((x y : ℕ) → IsInside wide_box x y → IsInside small_box x y)
contains_box_iff_example = contains_box_iff small_box wide_box small-is_simple wide-is_simple

intersects_iff_example :
    (intersects small_box wide_box ≡ true)
    ↔ ((x : ℕ) × (y : ℕ) × IsInside small_box x y × IsInside wide_box x y)
intersects_iff_example = intersects_iff small_box wide_box small-is_simple wide-is_simple

contains_simple-simple_intersection_example :
    (contains_simple (simple_intersection small_box wide_box) 12 20 ≡ true)
    ↔ ((contains_simple small_box 12 20 ≡ true) × (contains_simple wide_box 12 20 ≡ true))
contains_simple-simple_intersection_example =
    contains_simple-simple_intersection small_box wide_box 12 20

abbrev two_points : List Coordinate
two_points = record { x = 12; y = 13 } ∷ record { x = 15; y = 11 } ∷ []

contains_box_simple-bounds_of_example :
    (contains_box_simple small_box (bounds_of two_points) ≡ true)
    ↔ All (λ c. contains_simple small_box c.x c.y ≡ true) two_points
contains_box_simple-bounds_of_example = contains_box_simple-bounds_of small_box two_points

small-IsWord : IsWord small_box
small-IsWord = record {
  min_x = omega arith;
  min_y = omega arith;
  max_x = omega arith;
  max_y = omega arith;
}

contains_simple-buffer_example : (contains_simple (buffer small_box 5) 6 33 ≡ true) ↔ (
    (flip 10 ≤ flip 6 + 5)
    × (flip 6 ≤ flip 20 + 5)
    × (flip 10 ≤ flip 33 + 5)
    × (flip 33 ≤ flip 30 + 5))
unfolding flip
contains_simple-buffer_example =
    contains_simple-buffer small_box 5 6 33 small-IsWord small_some (omega arith) (omega arith)
      (omega arith)

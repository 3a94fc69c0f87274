-- ===== src/Box/Combine.antt =====
-- Intersections and unions of boxes.
use libgeodesk.Common.{
  ℕ, ◌<◌, ◌^◌, ◌≡◌, ◌↔◌, ◌⊎◌, inl, inr, refl, arith, true, min, max, Bool-cases, ◌||◌,
}
use libgeodesk.Box.{
  Box, flip, lt, lower, higher, empty_box, simple_intersection, expand_to_include_simple,
  contains_simple, contains_box_simple,
}
use libgeodesk.Box.Order.{lt_iff, flip-lower, flip-higher}
use libgeodesk.Box.Contains.{IsInside, IsBetween, contains_simple_iff, contains_box_simple_iff}

pub flip_low : flip 0x8000_0000 ≡ 0
unfolding flip
flip_low = refl

pub flip_high : flip 0x7fff_ffff ≡ 0xffff_ffff
unfolding flip
flip_high = refl

pub flip-lt : (x : ℕ) → flip x < 2 ^ 32
unfolding flip
flip-lt x = omega arith

-- No point is in the empty box.
pub IsInside-empty_box : (x y : ℕ) → IsInside empty_box x y → ⊥
IsInside-empty_box x y i = omega (arith, flip_low, flip_high)

abbrev overlap : Box → Box → Box
overlap a b = record {
  min_x = higher a.min_x b.min_x;
  min_y = higher a.min_y b.min_y;
  max_x = lower a.max_x b.max_x;
  max_y = lower a.max_y b.max_y;
}

IsInside-overlap :
    (a b : Box) (x y : ℕ) → IsInside (overlap a b) x y ↔ (IsInside a x y × IsInside b x y)
IsInside-overlap a b x y =
    let x₁ = flip-higher a.min_x b.min_x in
    let y₁ = flip-higher a.min_y b.min_y in
    let x₂ = flip-lower a.max_x b.max_x in let y₂ = flip-lower a.max_y b.max_y in ground arith

apart_lem :
    (a b : Box) (x y : ℕ)
    → (lt (overlap a b).max_x (overlap a b).min_x || lt (overlap a b).max_y (overlap a b).min_y)
      ≡ true
    → IsInside (overlap a b) x y
    → ⊥
apart_lem a b x y apart i = ground (
  arith,
  apart,
  i,
  lt_iff (overlap a b).max_x (overlap a b).min_x,
  lt_iff (overlap a b).max_y (overlap a b).min_y,
)

-- The points of an intersection are those of both boxes.
pub contains_simple-simple_intersection :
    (a b : Box) (x y : ℕ)
    → (contains_simple (simple_intersection a b) x y ≡ true)
      ↔ ((contains_simple a x y ≡ true) × (contains_simple b x y ≡ true))
unfolding simple_intersection
contains_simple-simple_intersection a b x y =
    let (in_a, a_in) = contains_simple_iff a x y in
    let (in_b, b_in) = contains_simple_iff b x y in
    let (to, from) = IsInside-overlap a b x y in
    elim (Bool-cases
      (lt (overlap a b).max_x (overlap a b).min_x || lt (overlap a b).max_y (overlap a b).min_y)) [
        | inl apart ↦ rw apart (
          λ h. absurd (IsInside-empty_box x y ((contains_simple_iff empty_box x y).0 h)),
          λ (p, q). absurd (apart_lem a b x y apart (from (in_a p, in_b q))),
        )
        | inr meet ↦
            let (inside, back) = contains_simple_iff (overlap a b) x y in
            rw meet (
              λ h. let (p, q) = to (inside h) in (a_in p, b_in q),
              λ (p, q). back (from (in_a p, in_b q)),
            )
      ]

abbrev around : Box → Box → Box
around b o = expand_to_include_simple b o

around_edges :
    (b o : Box)
    → (flip (around b o).min_x ≡ min (flip b.min_x) (flip o.min_x))
      × (flip (around b o).min_y ≡ min (flip b.min_y) (flip o.min_y))
      × (flip (around b o).max_x ≡ max (flip b.max_x) (flip o.max_x))
      × (flip (around b o).max_y ≡ max (flip b.max_y) (flip o.max_y))
unfolding expand_to_include_simple
around_edges b o = (
  ground (arith, lt_iff o.min_x b.min_x),
  ground (arith, lt_iff o.min_y b.min_y),
  ground (arith, lt_iff b.max_x o.max_x),
  ground (arith, lt_iff b.max_y o.max_y),
)

IsInside-around :
    (b o : Box) (x y : ℕ) → IsInside b x y ⊎ IsInside o x y → IsInside (around b o) x y
IsInside-around b o x y i =
    let (p, q, r, s) = around_edges b o in
    elim i [
      | inl (h, k, l, m) ↦ (omega arith, omega arith, omega arith, omega arith)
      | inr (h, k, l, m) ↦ (omega arith, omega arith, omega arith, omega arith)
    ]

IsBetween-around : (c b o : Box) → IsBetween c (around b o) ↔ (IsBetween c b × IsBetween c o)
IsBetween-around c b o =
    let (p, q, r, s) = around_edges b o in
    (
      λ (h, k, l, m). (
        (omega arith, omega arith, omega arith, omega arith),
        (omega arith, omega arith, omega arith, omega arith),
      ),
      λ ((h, k, l, m), (h', k', l', m')). (omega arith, omega arith, omega arith, omega arith),
    )

-- The box around two boxes holds the points of both; and a box contains it by the test of edges
-- exactly when it so contains both.
pub contains_box_simple-expand_to_include_simple :
    (b o : Box)
    → ((x y : ℕ) → IsInside b x y ⊎ IsInside o x y → IsInside (expand_to_include_simple b o) x y)
      × ((c : Box)
          → (contains_box_simple c (expand_to_include_simple b o) ≡ true)
            ↔ ((contains_box_simple c b ≡ true) × (contains_box_simple c o ≡ true)))
contains_box_simple-expand_to_include_simple b o = (
  IsInside-around b o,
  λ c.
      let (to, from) = IsBetween-around c b o in
      let (whole, back) = contains_box_simple_iff c (around b o) in
      let (in_b, b_in) = contains_box_simple_iff c b in
      let (in_o, o_in) = contains_box_simple_iff c o in
      (λ h. let (p, q) = to (whole h) in (b_in p, o_in q), λ (p, q). back (from (in_b p, in_o q))),
)

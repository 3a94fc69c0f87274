-- ===== src/Box.antt =====
-- include/geodesk/geom/Box.h: axis-aligned boxes of a plane whose x-axis wraps around. An `int` is
-- its 32-bit pattern, and arithmetic that the source leaves to the machine wraps.
pub mod Order
pub mod Contains
pub mod Combine
pub mod Around
pub mod Trimmed
pub mod Buffer
mod Tests
use libgeodesk.Common.{
  ℕ, ◌+◌, ◌-◌, ◌*◌, ◌/◌, ◌%◌, ◌^◌, bit_and, bit_xor, ltb, ◌==◌, ◌&&◌, ◌||◌, not, Bool, true, false,
  if◌then◌else◌,
}

-- A signed number from 0 on: its order is that of the signed ones.
unfoldable pub flip : ℕ → ℕ
flip x = (x + 2 ^ 31) % 2 ^ 32

-- `<` of two `int`s, and `std::min` and `std::max`.
unfoldable pub lt : ℕ → ℕ → Bool
unfolding flip
lt a b = ltb (flip a) (flip b)

pub lower : ℕ → ℕ → ℕ
unfolding lt
lower a b = if lt b a then b else a

pub higher : ℕ → ℕ → ℕ
unfolding lt
higher a b = if lt a b then b else a

pub record Box : Type 0 where
  pub min_x : ℕ
  pub min_y : ℕ
  pub max_x : ℕ
  pub max_y : ℕ

pub record Coordinate : Type 0 where
  pub x : ℕ
  pub y : ℕ

-- `Box()` and `setEmpty`
abbrev pub empty_box : Box
empty_box = record {
  min_x = 0x7fff_ffff;
  min_y = 0x7fff_ffff;
  max_x = 0x8000_0000;
  max_y = 0x8000_0000;
}

abbrev pub of_world : Box
of_world = record {
  min_x = 0x8000_0000;
  min_y = 0x8000_0000;
  max_x = 0x7fff_ffff;
  max_y = 0x7fff_ffff;
}

pub normalized_simple : Coordinate → Coordinate → Box
unfolding lower higher
normalized_simple a b = record {
  min_x = lower a.x b.x;
  min_y = lower a.y b.y;
  max_x = higher a.x b.x;
  max_y = higher a.y b.y;
}

pub is_simple : Box → Bool
is_simple b = not (lt b.max_x b.min_x) && not (lt b.max_y b.min_y)

pub is_empty : Box → Bool
is_empty b = lt b.max_y b.min_y

pub intersects : Box → Box → Bool
intersects a b =
    not (lt b.max_x a.min_x || (lt b.max_y a.min_y || (lt a.max_x b.min_x || lt a.max_y b.min_y)))

pub contains_simple : Box → ℕ → ℕ → Bool
contains_simple b x y = not (lt b.max_x x || (lt b.max_y y || (lt x b.min_x || lt y b.min_y)))

pub contains : Box → ℕ → ℕ → Bool
unfolding contains_simple
contains b x y =
    if lt b.max_x b.min_x
    then (if lt b.max_y b.min_y
        then false
        else (not (lt x b.max_x)
            && (not (lt b.min_x x) && (not (lt y b.min_y) && not (lt b.max_y y)))))
    else contains_simple b x y

pub contains_box_simple : Box → Box → Bool
contains_box_simple b o =
    not (lt o.min_x b.min_x)
    && (not (lt b.max_x o.max_x) && (not (lt o.min_y b.min_y) && not (lt b.max_y o.max_y)))

pub contains_box : Box → Box → Bool
unfolding contains_box_simple is_empty lower higher
contains_box b o =
    let simple = not (lt b.max_x b.min_x) in
    let other_simple = not (lt o.max_x o.min_x) in
    if simple && other_simple
    then contains_box_simple b o
    else (if is_empty b || is_empty o
        then false
        else (not (lt (lower o.min_x o.max_x) (lower b.min_x b.max_x))
            && (not (lt (higher b.min_x b.max_x) (higher o.min_x o.max_x))
                && (not (lt o.min_y b.min_y) && not (lt b.max_y o.max_y)))))

pub simple_intersection : Box → Box → Box
unfolding lower higher
simple_intersection a b =
    let x₁ = higher a.min_x b.min_x in
    let y₁ = higher a.min_y b.min_y in
    let x₂ = lower a.max_x b.max_x in
    let y₂ = lower a.max_y b.max_y in
    if lt x₂ x₁ || lt y₂ y₁
    then empty_box
    else record { min_x = x₁; min_y = y₁; max_x = x₂; max_y = y₂ }

pub expand_to_include_simple : Box → Box → Box
expand_to_include_simple b o = record {
  min_x = if lt o.min_x b.min_x then o.min_x else b.min_x;
  min_y = if lt o.min_y b.min_y then o.min_y else b.min_y;
  max_x = if lt b.max_x o.max_x then o.max_x else b.max_x;
  max_y = if lt b.max_y o.max_y then o.max_y else b.max_y;
}

pub expand_to_include : Box → Coordinate → Box
unfolding lower higher
expand_to_include b c = record {
  min_x = lower b.min_x c.x;
  min_y = lower b.min_y c.y;
  max_x = higher b.max_x c.x;
  max_y = higher b.max_y c.y;
}

-- `r < 0` is a test of the highest bit.
pub trimmed_subtract : ℕ → ℕ → ℕ
trimmed_subtract x y =
    let r = (x + 2 ^ 32 - y) % 2 ^ 32 in
    if bit_and (bit_and (bit_xor x y) (bit_xor x r)) (2 ^ 31) == 0 then r else 0x8000_0000

pub trimmed_add : ℕ → ℕ → ℕ
trimmed_add x y =
    let r = (x + y) % 2 ^ 32 in
    if bit_and (bit_and (bit_xor x r) (bit_xor y r)) (2 ^ 31) == 0 then r else 0x7fff_ffff

pub units_around_xy : ℕ → Coordinate → Box
unfolding trimmed_subtract trimmed_add
units_around_xy d pt = record {
  min_x = (pt.x + 2 ^ 32 - d) % 2 ^ 32;
  min_y = trimmed_subtract pt.y d;
  max_x = (pt.x + d) % 2 ^ 32;
  max_y = trimmed_add pt.y d;
}

pub buffer : Box → ℕ → Box
unfolding is_empty trimmed_subtract trimmed_add
buffer b d =
    let min_x = (b.min_x + 2 ^ 32 - d) % 2 ^ 32 in
    let max_x = (b.max_x + d) % 2 ^ 32 in
    let minus = (2 ^ 32 - d) % 2 ^ 32 in
    let grown : Box = record {
      min_x = min_x;
      min_y = trimmed_subtract b.min_y d;
      max_x = max_x;
      max_y = trimmed_add b.max_y d;
    } in
    let shrunk : Box = record {
      min_x = min_x;
      min_y = trimmed_add b.min_y minus;
      max_x = max_x;
      max_y = trimmed_subtract b.max_y minus;
    } in
    if is_empty b
    then b
    else (if lt d 0 then (if lt shrunk.max_y shrunk.min_y then empty_box else shrunk) else grown)

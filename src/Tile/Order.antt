-- ===== src/Tile/Order.antt =====
-- Columns and rows of coordinates: on two zoom levels, and in order.
use libgeodesk.Common.{ℕ, ◌+◌, ◌-◌, ◌/◌, ◌^◌, ◌≤◌, ◌<◌, ◌≡◌, arith}
use native.Mathlib.Nat.{le-div_iff_mul-le, one-le-pow, le_trans, div-mul-le_self}
use libgeodesk.Tile.{column_from_xz, row_from_yz, w32}
use libgeodesk.Tile.Bounds.{biased}
use libgeodesk.Tile.Pyramid.{div-pow}

pub column_up : (x z s m : ℕ) → m ≡ z + s → m ≤ 12 → column_from_xz x m / 2 ^ s ≡ column_from_xz x z
unfolding column_from_xz
column_up x z s m e h = div-pow (w32 (x + 2 ^ 31)) (32 - m) s (32 - z) (omega arith)

pub row_up : (y z s m : ℕ) → m ≡ z + s → m ≤ 12 → row_from_yz y m / 2 ^ s ≡ row_from_yz y z
unfolding row_from_yz
row_up y z s m e h = div-pow (w32 (0x7fff_ffff + 2 ^ 32 - y)) (32 - m) s (32 - z) (omega arith)

div_mono : (a b k : ℕ) → 1 ≤ k → a ≤ b → a / k ≤ b / k
div_mono a b k pos h =
    (le-div_iff_mul-le {k = k} {x = a / k} {y = b} pos).1 (le_trans (div-mul-le_self a k) h)

-- From west to east the columns grow, and from south to north the rows shrink.
pub column_mono : (x₁ x₂ z : ℕ) → biased x₁ ≤ biased x₂ → column_from_xz x₁ z ≤ column_from_xz x₂ z
unfolding column_from_xz
column_mono x₁ x₂ z h =
    div_mono (biased x₁) (biased x₂) (2 ^ (32 - z)) (one-le-pow (32 - z) 2 (omega arith)) h

pub row_mono :
    (y₁ y₂ z : ℕ)
    → y₁ < 2 ^ 32
    → y₂ < 2 ^ 32
    → biased y₁ ≤ biased y₂
    → row_from_yz y₂ z ≤ row_from_yz y₁ z
unfolding row_from_yz
row_mono y₁ y₂ z h₁ h₂ h =
    div_mono (w32 (0x7fff_ffff + 2 ^ 32 - y₂)) (w32 (0x7fff_ffff + 2 ^ 32 - y₁)) (2 ^ (32 - z))
      (one-le-pow (32 - z) 2 (omega arith)) (omega arith)

-- On level 0 there is one column and one row.
pub column_top : (x : ℕ) → column_from_xz x 0 ≡ 0
unfolding column_from_xz
column_top x = omega arith

pub row_top : (y : ℕ) → row_from_yz y 0 ≡ 0
unfolding row_from_yz
row_top y = omega arith

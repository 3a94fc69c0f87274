-- ===== src/Tile/Bounds.antt =====
-- The edges of a tile against the coordinates that fall into its column and row.
use libgeodesk.Common.{ℕ, zero, suc, ◌+◌, ◌-◌, ◌*◌, ◌/◌, ◌^◌, ◌<◌, ◌≤◌, ◌≡◌, ◌↔◌, arith}
use native.Mathlib.Nat.{one-le-pow, div-lt_iff_lt-mul, le-div_iff_mul-le}
use libgeodesk.Tile.{
  row, column, zoom, column_from_xz, row_from_yz, left_x, right_x, top_y, bottom_y, w32,
}

-- Signed patterns in the order of their values.
abbrev pub biased : ℕ → ℕ
biased x = w32 (x + 2 ^ 31)

left_edge :
    (z c : ℕ)
    → z ≤ 12
    → 1 ≤ z
    → c < 2 ^ z
    → (biased (w32 ((c + 2 ^ 32 - 2 ^ (z - 1)) * 2 ^ (32 - z))) ≡ c * 2 ^ (32 - z))
      × (c * 2 ^ (32 - z) + 2 ^ (32 - z) ≤ 2 ^ 32)
left_edge zero c hz pos hc = absurd (omega arith)
left_edge (suc zero) c hz pos hc = (omega arith, omega arith)
left_edge (suc (suc zero)) c hz pos hc = (omega arith, omega arith)
left_edge (suc (suc (suc zero))) c hz pos hc = (omega arith, omega arith)
left_edge (suc (suc (suc (suc zero)))) c hz pos hc = (omega arith, omega arith)
left_edge (suc (suc (suc (suc (suc zero))))) c hz pos hc = (omega arith, omega arith)
left_edge (suc (suc (suc (suc (suc (suc zero)))))) c hz pos hc = (omega arith, omega arith)
left_edge (suc (suc (suc (suc (suc (suc (suc zero))))))) c hz pos hc = (omega arith, omega arith)
left_edge (suc (suc (suc (suc (suc (suc (suc (suc zero)))))))) c hz pos hc =
    (omega arith, omega arith)
left_edge (suc (suc (suc (suc (suc (suc (suc (suc (suc zero))))))))) c hz pos hc =
    (omega arith, omega arith)
left_edge (suc (suc (suc (suc (suc (suc (suc (suc (suc (suc zero)))))))))) c hz pos hc =
    (omega arith, omega arith)
left_edge (suc (suc (suc (suc (suc (suc (suc (suc (suc (suc (suc zero))))))))))) c hz pos hc =
    (omega arith, omega arith)
left_edge (suc (suc (suc (suc (suc (suc (suc (suc (suc (suc (suc (suc zero)))))))))))) c hz pos hc =
    (omega arith, omega arith)
left_edge (suc (suc (suc (suc (suc (suc (suc (suc (suc (suc (suc (suc (suc z))))))))))))) c hz pos
      hc =
    absurd (omega arith)

right_edge :
    (l p from : ℕ)
    → l < 2 ^ 32
    → 1 ≤ p
    → biased l ≡ from
    → from + p ≤ 2 ^ 32
    → biased (w32 (l + p + 2 ^ 32 - 1)) + 1 ≡ from + p
right_edge l p from hl hp e room = omega arith

-- A quotient is the multiple that the number reaches.
quotient : (x p c : ℕ) → 1 ≤ p → (x / p ≡ c) ↔ ((c * p ≤ x) × (x < c * p + p))
quotient x p c pos =
    let (lt_to, lt_from) = div-lt_iff_lt-mul {k = p} {x = x} {y = suc c} pos in
    let (le_to, le_from) = le-div_iff_mul-le {k = p} {x = c} {y = x} pos in
    (
      λ e. (le_to (omega arith), omega (arith, lt_to (omega arith))),
      λ (lo, hi). omega (arith, le_from lo, lt_from (omega arith)),
    )

-- On the zoom levels from 1 to 12, for a tile whose column is on the map, the coordinates whose
-- column is that of the tile are those from its left edge to its right edge, both counted in.
pub column_from_xz_iff :
    (t x : ℕ)
    → 1 ≤ zoom t
    → zoom t ≤ 12
    → column t < 2 ^ zoom t
    → (column_from_xz x (zoom t) ≡ column t)
      ↔ ((biased (left_x t) ≤ biased x) × (biased x ≤ biased (right_x t)))
unfolding column_from_xz left_x right_x
column_from_xz_iff t x pos hz hc =
    let p = 2 ^ (32 - zoom t) in
    let one : 1 ≤ p = one-le-pow (32 - zoom t) 2 (omega arith) in
    let (left, room) = left_edge (zoom t) (column t) hz pos hc in
    let right : biased (right_x t) + 1 ≡ column t * p + p =
      right_edge (left_x t) p (column t * p) (omega arith) one left room in
    let (to, from) = quotient (biased x) p (column t) one in
    (
      λ e. let (lo, hi) = to e in (omega (arith, left), omega (arith, right)),
      λ (lo, hi). from (omega (arith, left), omega (arith, right)),
    )

-- The distance of a signed pattern from the top.
abbrev below_top : ℕ → ℕ
below_top y = w32 (0x7fff_ffff + 2 ^ 32 - y)

row_edges :
    (p from next y : ℕ)
    → 1 ≤ p
    → next ≡ from + p
    → next ≤ 2 ^ 32
    → y < 2 ^ 32
    → ((from ≤ below_top y) × (below_top y < from + p)) ↔ (
        (biased (w32 (2 ^ 31 + 2 ^ 32 - w32 next)) ≤ biased y)
        × (biased y ≤ biased (w32 (0x7fff_ffff + 2 ^ 32 - w32 from))))
row_edges p from next y hp e room hy =
    (λ (lo, hi). (omega arith, omega arith), λ (lo, hi). (omega arith, omega arith))

-- On the zoom levels from 1 to 12, for a tile whose row is on the map, the 32-bit coordinates whose
-- row is that of the tile are those from its bottom edge to its top edge, both counted in.
pub row_from_yz_iff :
    (t y : ℕ)
    → y < 2 ^ 32
    → 1 ≤ zoom t
    → zoom t ≤ 12
    → row t < 2 ^ zoom t
    → (row_from_yz y (zoom t) ≡ row t)
      ↔ ((biased (bottom_y t) ≤ biased y) × (biased y ≤ biased (top_y t)))
unfolding row_from_yz bottom_y top_y
row_from_yz_iff t y hy pos hz hr =
    let p = 2 ^ (32 - zoom t) in
    let one : 1 ≤ p = one-le-pow (32 - zoom t) 2 (omega arith) in
    let (_, room) = left_edge (zoom t) (row t) hz pos hr in
    let next : (row t + 1) * p ≡ row t * p + p = omega arith in
    let (to, from) = quotient (below_top y) p (row t) one in
    let (down, up) = row_edges p (row t * p) ((row t + 1) * p) y one next (omega arith) hy in
    (λ e. down (to e), λ h. from (up h))

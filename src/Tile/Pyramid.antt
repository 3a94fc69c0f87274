-- ===== src/Tile/Pyramid.antt =====
-- The tile pyramid: zooming out, the tile of a coordinate, and neighbors.
use libgeodesk.Common.{ℕ, suc, zero, ◌+◌, ◌-◌, ◌/◌, ◌%◌, ◌^◌, ◌<◌, ◌≤◌, ◌≡◌, arith, refl, ◌∙◌}
use libgeodesk.Common.Bits.{and_ones, div-pow-suc}
use native.Mathlib.Nat.{
  div-one, mod-lt, one-le-pow, pow-le-pow_right, div-le_self, div-lt_iff_lt-mul,
}
use libgeodesk.Tile.{
  row, column, zoom, from_column_row_zoom, zoomed_out, neighbor, column_from_xz, row_from_yz, w32,
}
use libgeodesk.Tile.Fields.{
  fields-from_column_row_zoom, from_column_row_zoom_fields, row_lem, column_lem, zoom_lem,
}

-- Dividing by two powers of 2 divides by the power of the sum.
pub div-pow : (n j k m : ℕ) → m ≡ j + k → n / 2 ^ j / 2 ^ k ≡ n / 2 ^ m
div-pow n zero k m e = let same : m ≡ k = omega arith in rw (same, div-one) refl
div-pow n (suc j) k m e =
    let next : m ≡ suc (j + k) = omega arith in
    rw (next, div-pow-suc n j, div-pow-suc n (j + k)) (div-pow (n / 2) j k (j + k) refl)

zoomed_out-from_column_row_zoom :
    (c r z a : ℕ)
    → c < 2 ^ 12
    → r < 2 ^ 12
    → z < 2 ^ 4
    → zoomed_out (from_column_row_zoom c r z) a
      ≡ from_column_row_zoom (c / 2 ^ (z - a)) (r / 2 ^ (z - a)) a
unfolding zoomed_out
zoomed_out-from_column_row_zoom c r z a hc hr hz =
    let (ec, er, ez) = fields-from_column_row_zoom c r z hc hr hz in rw (ec, er, ez) refl

-- Zooming out to a level and from there to a lower one is zooming out to the lower one.
pub zoomed_out-zoomed_out :
    (t a b : ℕ) → b ≤ a → a ≤ zoom t → zoomed_out (zoomed_out t a) b ≡ zoomed_out t b
unfolding zoomed_out
zoomed_out-zoomed_out t a b hb ha =
    let k = zoom t - a in
    zoomed_out-from_column_row_zoom (column t / 2 ^ k) (row t / 2 ^ k) a b
      (omega (arith, div-le_self (column t) (2 ^ k), column_lem t))
      (omega (arith, div-le_self (row t) (2 ^ k), row_lem t)) (omega (arith, zoom_lem t))
    ∙ rw
        (
          div-pow (column t) k (a - b) (zoom t - b) (omega arith),
          div-pow (row t) k (a - b) (zoom t - b) (omega arith),
        )
        refl

-- The tile of a coordinate on a zoom level.
abbrev pub tile_at : ℕ → ℕ → ℕ → ℕ
tile_at x y z = from_column_row_zoom (column_from_xz x z) (row_from_yz y z) z

narrow : (n z : ℕ) → z ≤ 12 → n < 2 ^ 32 → n / 2 ^ (32 - z) < 2 ^ 12
narrow n z hz hn =
    let wide = pow-le-pow_right {n = 2} (omega arith) {i = 20} {j = 32 - z} (omega arith) in
    (div-lt_iff_lt-mul {k = 2 ^ (32 - z)} {x = n} {y = 2 ^ 12} (omega arith)).1 (omega arith)

pub column_from_xz-lt : (x z : ℕ) → z ≤ 12 → column_from_xz x z < 2 ^ 12
unfolding column_from_xz
column_from_xz-lt x z hz = narrow (w32 (x + 2 ^ 31)) z hz (omega arith)

pub row_from_yz-lt : (y z : ℕ) → z ≤ 12 → row_from_yz y z < 2 ^ 12
unfolding row_from_yz
row_from_yz-lt y z hz = narrow (w32 (0x7fff_ffff + 2 ^ 32 - y)) z hz (omega arith)

-- On the zoom levels up to 12, zooming out the tile of a coordinate gives the coordinate's tile on the
-- lower level.
pub zoomed_out-tile_at :
    (x y z a : ℕ) → z ≤ 12 → a ≤ z → zoomed_out (tile_at x y z) a ≡ tile_at x y a
unfolding column_from_xz row_from_yz
zoomed_out-tile_at x y z a hz ha =
    zoomed_out-from_column_row_zoom (column_from_xz x z) (row_from_yz y z) z a
      (column_from_xz-lt x z hz) (row_from_yz-lt y z hz) (omega arith)
    ∙ rw
        (
          div-pow (w32 (x + 2 ^ 31)) (32 - z) (z - a) (32 - a) (omega arith),
          div-pow (w32 (0x7fff_ffff + 2 ^ 32 - y)) (32 - z) (z - a) (32 - a) (omega arith),
        )
        refl

-- On a map of `2 ^ z` columns, a step of `d` columns and one of `-d` cancel.
cancel :
    (z c d : ℕ)
    → z ≤ 12
    → c < 2 ^ z
    → d < 2 ^ 32
    → w32 (w32 (c + d) % 2 ^ z + w32 (2 ^ 32 - d)) % 2 ^ z ≡ c
cancel zero c d h hc hd = omega arith
cancel (suc zero) c d h hc hd = omega arith
cancel (suc (suc zero)) c d h hc hd = omega arith
cancel (suc (suc (suc zero))) c d h hc hd = omega arith
cancel (suc (suc (suc (suc zero)))) c d h hc hd = omega arith
cancel (suc (suc (suc (suc (suc zero))))) c d h hc hd = omega arith
cancel (suc (suc (suc (suc (suc (suc zero)))))) c d h hc hd = omega arith
cancel (suc (suc (suc (suc (suc (suc (suc zero))))))) c d h hc hd = omega arith
cancel (suc (suc (suc (suc (suc (suc (suc (suc zero)))))))) c d h hc hd = omega arith
cancel (suc (suc (suc (suc (suc (suc (suc (suc (suc zero))))))))) c d h hc hd = omega arith
cancel (suc (suc (suc (suc (suc (suc (suc (suc (suc (suc zero)))))))))) c d h hc hd = omega arith
cancel (suc (suc (suc (suc (suc (suc (suc (suc (suc (suc (suc zero))))))))))) c d h hc hd =
    omega arith
cancel (suc (suc (suc (suc (suc (suc (suc (suc (suc (suc (suc (suc zero)))))))))))) c d h hc hd =
    omega arith
cancel (suc (suc (suc (suc (suc (suc (suc (suc (suc (suc (suc (suc (suc z))))))))))))) c d h hc hd =
    absurd (omega arith)

small_side : (n z : ℕ) → z ≤ 12 → n % 2 ^ z < 2 ^ 12
small_side n z h = omega (
  arith,
  pow-le-pow_right {n = 2} (omega arith) {i = z} {j = 12} h,
  mod-lt n (one-le-pow z 2 (omega arith)),
)

neighbor_lem :
    (t dc dr : ℕ)
    → zoom t ≤ 12
    → neighbor t dc dr
      ≡ from_column_row_zoom
          (w32 (column t + dc) % 2 ^ zoom t)
          (w32 (row t + dr) % 2 ^ zoom t)
          (zoom t)
unfolding neighbor
neighbor_lem t dc dr h =
    rw (and_ones (zoom t) (w32 (column t + dc)), and_ones (zoom t) (w32 (row t + dr))) refl

-- The map wraps around: for a tile of 28 bits on a zoom level up to 12, whose column and row are on
-- the map, the neighbor of its neighbor in the opposite direction is the tile itself, for steps of
-- 32 bits.
pub neighbor-neighbor :
    (t dc dr : ℕ)
    → t < 2 ^ 28
    → zoom t ≤ 12
    → column t < 2 ^ zoom t
    → row t < 2 ^ zoom t
    → dc < 2 ^ 32
    → dr < 2 ^ 32
    → neighbor (neighbor t dc dr) (w32 (2 ^ 32 - dc)) (w32 (2 ^ 32 - dr)) ≡ t
neighbor-neighbor t dc dr small h hc hr hdc hdr =
    let z = zoom t in
    let (ec, er, ez) =
      fields-from_column_row_zoom (w32 (column t + dc) % 2 ^ z) (w32 (row t + dr) % 2 ^ z) z
        (small_side _ z h) (small_side _ z h) (omega arith) in
    let first = neighbor_lem t dc dr h in
    neighbor_lem (neighbor t dc dr) (w32 (2 ^ 32 - dc)) (w32 (2 ^ 32 - dr)) (rw (first, ez) h)
    ∙ rw (first, ec, er, ez, cancel z (column t) dc h hc hdc, cancel z (row t) dr h hr hdr)
        (from_column_row_zoom_fields t small)

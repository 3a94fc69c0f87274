-- ===== src/Tile/Twins.antt =====
-- Twins: a tile and its four neighbors, by the codes of the lookup tables.
use libgeodesk.Common.{
  ℕ, suc, zero, ◌+◌, ◌-◌, ◌*◌, ◌/◌, ◌%◌, ◌^◌, ◌<◌, ◌≤◌, ◌≡◌, ◌⊎◌, inl, inr, arith, refl, bit_or,
  ltb, ◌||◌, true, false,
}
use libgeodesk.Common.Bits.{or_fields, and_ones}
use libgeodesk.Tile.{row, column, zoom, from_column_row_zoom, is_twin_of, twin, w32}
use libgeodesk.Tile.Fields.{
  fields-from_column_row_zoom, from_column_row_zoom_fields, row_lem, column_lem, zoom_lem,
}

-- The neighbor for each code.
module _ (t : ℕ) where
  pub twin_self : twin t 0 ≡ from_column_row_zoom (w32 (column t + 0)) (w32 (row t + 0)) (zoom t)
  unfolding twin
  twin_self = refl

  pub twin_north :
      twin t 1 ≡ from_column_row_zoom (w32 (column t + 0)) (w32 (row t + 0xffff_ffff)) (zoom t)
  unfolding twin
  twin_north = refl

  pub twin_west :
      twin t 2 ≡ from_column_row_zoom (w32 (column t + 0xffff_ffff)) (w32 (row t + 0)) (zoom t)
  unfolding twin
  twin_west = refl

  pub twin_south : twin t 3 ≡ from_column_row_zoom (w32 (column t + 0)) (w32 (row t + 1)) (zoom t)
  unfolding twin
  twin_south = refl

  pub twin_east : twin t 4 ≡ from_column_row_zoom (w32 (column t + 1)) (w32 (row t + 0)) (zoom t)
  unfolding twin
  twin_east = refl

-- The code for a difference of columns and one of rows, both counted from -1.
abbrev code : ℕ → ℕ → ℕ
code col_delta row_delta = 0x7777_7737_7402_7717 / 2 ^ (row_delta * 16 + col_delta * 4) % 16

module _ (a b : ℕ) where
  is_twin_of_near :
      (dc dr : ℕ)
      → column a + 1 ≡ column b + dc
      → row a + 1 ≡ row b + dr
      → dc ≤ 2
      → dr ≤ 2
      → is_twin_of a b ≡ code dc dr
  unfolding is_twin_of
  is_twin_of_near dc dr ec er hc hr =
      let c : (column a + 2 ^ 64 - column b + 1) % 2 ^ 64 ≡ dc =
        omega (arith, column_lem a, column_lem b) in
      let r : (row a + 2 ^ 64 - row b + 1) % 2 ^ 64 ≡ dr = omega (arith, row_lem a, row_lem b) in
      let near : (ltb 2 dc || ltb 2 dr) ≡ false = ground arith in
      let shift : bit_or (dr * 2 ^ 4) (dc * 2 ^ 2) ≡ dr * 16 + dc * 4 =
        or_fields 4 dr (dc * 4) (omega arith) in
      rw (c, r, near, shift) (and_ones 4 (0x7777_7737_7402_7717 / 2 ^ (dr * 16 + dc * 4)))

  is_twin_of_far :
      (column b + 1 < column a)
        ⊎ (column a + 1 < column b)
        ⊎ (row b + 1 < row a)
        ⊎ (row a + 1 < row b)
      → is_twin_of a b ≡ 7
  unfolding is_twin_of
  is_twin_of_far far =
      let off : (ltb 2 ((column a + 2 ^ 64 - column b + 1) % 2 ^ 64)
            || ltb 2 ((row a + 2 ^ 64 - row b + 1) % 2 ^ 64))
          ≡ true =
        ground (arith, column_lem a, column_lem b, row_lem a, row_lem b) in
      rw off refl

  rebuilt :
      (c r : ℕ)
      → a < 2 ^ 28
      → zoom a ≡ zoom b
      → c ≡ column a
      → r ≡ row a
      → from_column_row_zoom c r (zoom b) ≡ a
  rebuilt c r small same ec er = rw (ec, er, ← same) (from_column_row_zoom_fields a small)

  -- Two columns, or two rows: far from each other, or one of the three near cases.
  apart : (x y : ℕ) → ((y + 1 < x) ⊎ (x + 1 < y)) ⊎ (x + 1 ≡ y) ⊎ (x ≡ y) ⊎ (x ≡ y + 1)
  apart x y = omega arith

  -- Of two tiles of 28 bits on one zoom level, the first is the twin of the second that `isTwinOf`
  -- names, unless it answers 7.
  pub twin-is_twin_of :
      a < 2 ^ 28 → zoom a ≡ zoom b → (is_twin_of a b ≡ 7) ⊎ (twin b (is_twin_of a b) ≡ a)
  twin-is_twin_of small same = elim (apart (column a) (column b)) [
    | inl far ↦ inl (is_twin_of_far (omega arith))
    | inr (inl west) ↦ elim (apart (row a) (row b)) [
      | inl far ↦ inl (is_twin_of_far (omega arith))
      | inr (inl north) ↦
          inl (is_twin_of_near 0 0 (omega arith) (omega arith) (omega arith) (omega arith))
      | inr (inr (inl level)) ↦ inr (
          rw
            (
              is_twin_of_near 0 1 (omega arith) (omega arith) (omega arith) (omega arith),
              twin_west b,
            )
            (rebuilt _ _ small same (omega (arith, column_lem b)) (omega (arith, row_lem b))))
      | inr (inr (inr south)) ↦
          inl (is_twin_of_near 0 2 (omega arith) (omega arith) (omega arith) (omega arith))
    ]
    | inr (inr (inl level)) ↦ elim (apart (row a) (row b)) [
      | inl far ↦ inl (is_twin_of_far (omega arith))
      | inr (inl north) ↦ inr (
          rw
            (
              is_twin_of_near 1 0 (omega arith) (omega arith) (omega arith) (omega arith),
              twin_north b,
            )
            (rebuilt _ _ small same (omega (arith, column_lem b)) (omega (arith, row_lem b))))
      | inr (inr (inl here)) ↦ inr (
          rw
            (
              is_twin_of_near 1 1 (omega arith) (omega arith) (omega arith) (omega arith),
              twin_self b,
            )
            (rebuilt _ _ small same (omega (arith, column_lem b)) (omega (arith, row_lem b))))
      | inr (inr (inr south)) ↦ inr (
          rw
            (
              is_twin_of_near 1 2 (omega arith) (omega arith) (omega arith) (omega arith),
              twin_south b,
            )
            (rebuilt _ _ small same (omega (arith, column_lem b)) (omega (arith, row_lem b))))
    ]
    | inr (inr (inr east)) ↦ elim (apart (row a) (row b)) [
      | inl far ↦ inl (is_twin_of_far (omega arith))
      | inr (inl north) ↦
          inl (is_twin_of_near 2 0 (omega arith) (omega arith) (omega arith) (omega arith))
      | inr (inr (inl here)) ↦ inr (
          rw
            (
              is_twin_of_near 2 1 (omega arith) (omega arith) (omega arith) (omega arith),
              twin_east b,
            )
            (rebuilt _ _ small same (omega (arith, column_lem b)) (omega (arith, row_lem b))))
      | inr (inr (inr south)) ↦
          inl (is_twin_of_near 2 2 (omega arith) (omega arith) (omega arith) (omega arith))
    ]
  ]

  is_twin_of-from_column_row_zoom :
      (c r z dc dr : ℕ)
      → c < 2 ^ 12
      → r < 2 ^ 12
      → z < 2 ^ 4
      → a ≡ from_column_row_zoom c r z
      → c + 1 ≡ column b + dc
      → r + 1 ≡ row b + dr
      → dc ≤ 2
      → dr ≤ 2
      → is_twin_of a b ≡ code dc dr
  is_twin_of-from_column_row_zoom c r z dc dr hc hr hz e ec er hdc hdr =
      let (fc, fr, _) = fields-from_column_row_zoom c r z hc hr hz in
      is_twin_of_near dc dr (rw (e, fc) ec) (rw (e, fr) er) hdc hdr

-- For a tile whose column and row leave room for a neighbor on each side, its twin for a code up to
-- 4 is recognized under that code.
pub is_twin_of-twin :
    (t n : ℕ)
    → n ≤ 4
    → 1 ≤ column t
    → column t < 0xfff
    → 1 ≤ row t
    → row t < 0xfff
    → is_twin_of (twin t n) t ≡ n
is_twin_of-twin t n few c₀ c₁ r₀ r₁ = by_code n few
  where
    placed :
        (m d e : ℕ)
        → (c r : ℕ) → twin t m ≡ from_column_row_zoom c r (zoom t)
        → c + 1 ≡ column t + d
        → r + 1 ≡ row t + e
        → d ≤ 2
        → e ≤ 2
        → is_twin_of (twin t m) t ≡ code d e
    placed m d e c r q ec er hd he =
        is_twin_of-from_column_row_zoom (twin t m) t c r (zoom t) d e (omega arith) (omega arith)
          (omega (arith, zoom_lem t)) q ec er hd he

    by_code : (m : ℕ) → m ≤ 4 → is_twin_of (twin t m) t ≡ m
    by_code zero h =
        placed 0 1 1 _ _ (twin_self t) (omega arith) (omega arith) (omega arith) (omega arith)
    by_code (suc zero) h =
        placed 1 1 0 _ _ (twin_north t) (omega arith) (omega arith) (omega arith) (omega arith)
    by_code (suc (suc zero)) h =
        placed 2 0 1 _ _ (twin_west t) (omega arith) (omega arith) (omega arith) (omega arith)
    by_code (suc (suc (suc zero))) h =
        placed 3 1 2 _ _ (twin_south t) (omega arith) (omega arith) (omega arith) (omega arith)
    by_code (suc (suc (suc (suc zero)))) h =
        placed 4 2 1 _ _ (twin_east t) (omega arith) (omega arith) (omega arith) (omega arith)
    by_code (suc (suc (suc (suc (suc m))))) h = absurd (omega arith)

-- ===== src/TilePair/Codes.antt =====
-- The codes under which a pair covers a tile.
use libgeodesk.Common.{
  ℕ, zero, suc, ◌+◌, ◌-◌, ◌*◌, ◌/◌, ◌%◌, ◌^◌, ◌≤◌, ◌<◌, ◌≡◌, ◌⊎◌, inl, inr, refl, ◌∙◌, ap, arith,
  bit_and, bit_or, ltb, ◌||◌, false,
}
use libgeodesk.Common.Bits.{and_ones, and_lowest, or_fields, or_comm}
use libgeodesk.Tile.{row, column, zoom, from_column_row_zoom, twin, w32}
use libgeodesk.Tile.Fields.{row_lem, column_lem, zoom_lem, from_column_row_zoom_lem}
use libgeodesk.Tile.Twins.{twin_self, twin_north, twin_west, twin_south, twin_east}
use libgeodesk.TilePair.{first, second, covering, is_twin_of}

pub first_lem : (p : ℕ) → first p ≡ p % 2 ^ 28
unfolding first
first_lem p = and_ones 28 p

pub second_lem :
    (p : ℕ) → second p ≡ w32 (w32 (p % 2 ^ 28 + w32 (p / 2 ^ 29 * 2 ^ 12)) + p / 2 ^ 28 % 2)
unfolding second
second_lem p = rw (first_lem p, and_ones 1 (p / 2 ^ 28)) refl

-- The fields of a pair stand side by side.
pub pair_lem :
    (c r z b : ℕ)
    → c < 2 ^ 12
    → r < 2 ^ 12
    → z < 2 ^ 4
    → bit_or (from_column_row_zoom c r z) (b * 2 ^ 28) ≡ b * 2 ^ 28 + z * 2 ^ 24 + r * 2 ^ 12 + c
pair_lem c r z b hc hr hz =
    let e = from_column_row_zoom_lem c r z hc hr hz in
    or_comm (from_column_row_zoom c r z) (b * 2 ^ 28)
    ∙ or_fields 28 b (from_column_row_zoom c r z) (omega arith)
    ∙ omega (arith, e)

module _ (t : ℕ) where
  covering_self :
      covering t 0
      ≡ bit_or
          (from_column_row_zoom (w32 (column t + 2 ^ 32 - 0)) (w32 (row t + 2 ^ 32 - 0)) (zoom t))
          (0 * 2 ^ 28)
  unfolding covering
  covering_self = refl

  covering_north :
      covering t 1
      ≡ bit_or
          (from_column_row_zoom (w32 (column t + 2 ^ 32 - 0)) (w32 (row t + 2 ^ 32 - 1)) (zoom t))
          (2 * 2 ^ 28)
  unfolding covering
  covering_north = refl

  covering_west :
      covering t 2
      ≡ bit_or
          (from_column_row_zoom (w32 (column t + 2 ^ 32 - 1)) (w32 (row t + 2 ^ 32 - 0)) (zoom t))
          (1 * 2 ^ 28)
  unfolding covering
  covering_west = refl

  covering_south :
      covering t 3
      ≡ bit_or
          (from_column_row_zoom (w32 (column t + 2 ^ 32 - 0)) (w32 (row t + 2 ^ 32 - 0)) (zoom t))
          (2 * 2 ^ 28)
  unfolding covering
  covering_south = refl

  covering_east :
      covering t 4
      ≡ bit_or
          (from_column_row_zoom (w32 (column t + 2 ^ 32 - 0)) (w32 (row t + 2 ^ 32 - 0)) (zoom t))
          (1 * 2 ^ 28)
  unfolding covering
  covering_east = refl

  module _ (c₀ : 1 ≤ column t) (c₁ : column t < 0xfff) (r₀ : 1 ≤ row t) (r₁ : row t < 0xfff) where
    -- A tile near `t`, and a pair that begins there, as numbers.
    near :
        (c r : ℕ)
        → c < 2 ^ 12
        → r < 2 ^ 12
        → from_column_row_zoom c r (zoom t) ≡ zoom t * 2 ^ 24 + r * 2 ^ 12 + c
    near c r hc hr = from_column_row_zoom_lem c r (zoom t) hc hr (omega (arith, zoom_lem t))

    near_pair :
        (c r b : ℕ)
        → c < 2 ^ 12
        → r < 2 ^ 12
        → bit_or (from_column_row_zoom c r (zoom t)) (b * 2 ^ 28)
          ≡ b * 2 ^ 28 + zoom t * 2 ^ 24 + r * 2 ^ 12 + c
    near_pair c r b hc hr = pair_lem c r (zoom t) b hc hr (omega (arith, zoom_lem t))

    tiles :
        (p first_tile second_tile b : ℕ)
        → p ≡ b * 2 ^ 28 + first_tile
        → first_tile < 2 ^ 28
        → b < 4
        → second_tile ≡ w32 (first_tile + b / 2 * 2 ^ 12 + b % 2)
        → (first p ≡ first_tile) × (second p ≡ second_tile)
    tiles p x y b e hx hb ey = (omega (arith, first_lem p), omega (arith, second_lem p))

  -- For a tile of 28 bits whose column and row leave room for a neighbor on each side, the two tiles
  -- of the pair that covers it under a code up to 4 are the tile and its twin for the code.
  pub tiles-covering :
      (n : ℕ)
      → n ≤ 4
      → t < 2 ^ 28
      → 1 ≤ column t
      → column t < 0xfff
      → 1 ≤ row t
      → row t < 0xfff
      → ((first (covering t n) ≡ t) × (second (covering t n) ≡ twin t n))
        ⊎ ((first (covering t n) ≡ twin t n) × (second (covering t n) ≡ t))
  tiles-covering n few small c₀ c₁ r₀ r₁ = by_code n few
    where
      value : t ≡ zoom t * 2 ^ 24 + row t * 2 ^ 12 + column t
      value = omega (arith, zoom_lem t, row_lem t, column_lem t)

      by_code :
          (m : ℕ)
          → m ≤ 4
          → ((first (covering t m) ≡ t) × (second (covering t m) ≡ twin t m))
            ⊎ ((first (covering t m) ≡ twin t m) × (second (covering t m) ≡ t))
      by_code zero h =
          let p = covering_self ∙ near_pair c₀ c₁ r₀ r₁ _ _ 0 (omega arith) (omega arith) in
          let w = twin_self t ∙ near c₀ c₁ r₀ r₁ _ _ (omega arith) (omega arith) in
          inl (
            tiles c₀ c₁ r₀ r₁ (covering t 0) t (twin t 0) 0 (omega (arith, p, w, value)) small
              (omega (arith, p, w, value)) (omega (arith, p, w, value)))
      by_code (suc zero) h =
          let p = covering_north ∙ near_pair c₀ c₁ r₀ r₁ _ _ 2 (omega arith) (omega arith) in
          let w = twin_north t ∙ near c₀ c₁ r₀ r₁ _ _ (omega arith) (omega arith) in
          inr (
            tiles c₀ c₁ r₀ r₁ (covering t 1) (twin t 1) t 2 (omega (arith, p, w, value))
              (omega (arith, p, w, value)) (omega (arith, p, w, value))
              (omega (arith, p, w, value)))
      by_code (suc (suc zero)) h =
          let p = covering_west ∙ near_pair c₀ c₁ r₀ r₁ _ _ 1 (omega arith) (omega arith) in
          let w = twin_west t ∙ near c₀ c₁ r₀ r₁ _ _ (omega arith) (omega arith) in
          inr (
            tiles c₀ c₁ r₀ r₁ (covering t 2) (twin t 2) t 1 (omega (arith, p, w, value))
              (omega (arith, p, w, value)) (omega (arith, p, w, value))
              (omega (arith, p, w, value)))
      by_code (suc (suc (suc zero))) h =
          let p = covering_south ∙ near_pair c₀ c₁ r₀ r₁ _ _ 2 (omega arith) (omega arith) in
          let w = twin_south t ∙ near c₀ c₁ r₀ r₁ _ _ (omega arith) (omega arith) in
          inl (
            tiles c₀ c₁ r₀ r₁ (covering t 3) t (twin t 3) 2 (omega (arith, p, w, value)) small
              (omega (arith, p, w, value)) (omega (arith, p, w, value)))
      by_code (suc (suc (suc (suc zero)))) h =
          let p = covering_east ∙ near_pair c₀ c₁ r₀ r₁ _ _ 1 (omega arith) (omega arith) in
          let w = twin_east t ∙ near c₀ c₁ r₀ r₁ _ _ (omega arith) (omega arith) in
          inl (
            tiles c₀ c₁ r₀ r₁ (covering t 4) t (twin t 4) 1 (omega (arith, p, w, value)) small
              (omega (arith, p, w, value)) (omega (arith, p, w, value)))
      by_code (suc (suc (suc (suc (suc m))))) h = absurd (omega arith)

-- The code for a pair's extension bits and a difference of columns and one of rows.
abbrev code : ℕ → ℕ → ℕ → ℕ
code bits col_delta row_delta =
    0x7777_7173_7724_7770 / 2 ^ (bits * 16 + row_delta * 8 + col_delta * 4) % 16

is_twin_of_near :
    (p t b dc dr : ℕ)
    → p / 2 ^ 28 ≡ b
    → b < 4
    → column t ≡ column p + dc
    → row t ≡ row p + dr
    → dc ≤ 1
    → dr ≤ 1
    → is_twin_of p t ≡ code b dc dr
unfolding is_twin_of
is_twin_of_near p t b dc dr eb hb ec er hc hr =
    let c : (column t + 2 ^ 64 - column p) % 2 ^ 64 ≡ dc = omega (arith, column_lem t) in
    let r : (row t + 2 ^ 64 - row p) % 2 ^ 64 ≡ dr = omega (arith, row_lem t) in
    let close : (ltb 1 dc || ltb 1 dr) ≡ false = ground arith in
    let bits : bit_and (p / 2 ^ 24) 0x30 ≡ b * 2 ^ 4 =
      (let x = p / 2 ^ 24 in
        omega (
          arith,
          and_lowest x 48,
          and_lowest (x / 2) 24,
          and_lowest (x / 2 / 2) 12,
          and_lowest (x / 2 / 2 / 2) 6,
          and_ones 2 (x / 2 / 2 / 2 / 2),
        )) in
    let halves : b * 2 ^ 4 + dr * 8 ≡ (b * 2 + dr) * 2 ^ 3 = omega arith in
    let shift : bit_or (bit_or (b * 2 ^ 4) (dr * 2 ^ 3)) (dc * 2 ^ 2) ≡ b * 16 + dr * 8 + dc * 4 =
      rw (or_fields 4 b (dr * 8) (omega arith)) (
        ap (λ (n : ℕ). bit_or n (dc * 2 ^ 2)) halves
        ∙ or_fields 3 (b * 2 + dr) (dc * 4) (omega arith)
        ∙ omega arith) in
    rw (c, r, close, bits, shift)
      (and_ones 4 (0x7777_7173_7724_7770 / 2 ^ (b * 16 + dr * 8 + dc * 4)))

-- For a tile whose column and row leave room for a neighbor on each side, the pair that covers it
-- under a code up to 4 recognizes it under that code.
pub is_twin_of-covering :
    (t n : ℕ)
    → n ≤ 4
    → 1 ≤ column t
    → column t < 0xfff
    → 1 ≤ row t
    → row t < 0xfff
    → is_twin_of (covering t n) t ≡ n
is_twin_of-covering t n few c₀ c₁ r₀ r₁ = by_code n few
  where
    seen :
        (p c r b dc dr : ℕ)
        → p ≡ b * 2 ^ 28 + zoom t * 2 ^ 24 + r * 2 ^ 12 + c
        → c < 2 ^ 12
        → r < 2 ^ 12
        → b < 4
        → column t ≡ c + dc
        → row t ≡ r + dr
        → dc ≤ 1
        → dr ≤ 1
        → is_twin_of p t ≡ code b dc dr
    seen p c r b dc dr e hc hr hb ec er hdc hdr =
        is_twin_of_near p t b dc dr (omega (arith, zoom_lem t)) hb
          (omega (arith, column_lem p, zoom_lem t)) (omega (arith, row_lem p, zoom_lem t)) hdc hdr

    by_code : (m : ℕ) → m ≤ 4 → is_twin_of (covering t m) t ≡ m
    by_code zero h =
        seen _ _ _ 0 0 0
          (covering_self t ∙ near_pair t c₀ c₁ r₀ r₁ _ _ 0 (omega arith) (omega arith))
          (omega arith) (omega arith) (omega arith) (omega arith) (omega arith) (omega arith)
          (omega arith)
    by_code (suc zero) h =
        seen _ _ _ 2 0 1
          (covering_north t ∙ near_pair t c₀ c₁ r₀ r₁ _ _ 2 (omega arith) (omega arith))
          (omega arith) (omega arith) (omega arith) (omega arith) (omega arith) (omega arith)
          (omega arith)
    by_code (suc (suc zero)) h =
        seen _ _ _ 1 1 0
          (covering_west t ∙ near_pair t c₀ c₁ r₀ r₁ _ _ 1 (omega arith) (omega arith))
          (omega arith) (omega arith) (omega arith) (omega arith) (omega arith) (omega arith)
          (omega arith)
    by_code (suc (suc (suc zero))) h =
        seen _ _ _ 2 0 0
          (covering_south t ∙ near_pair t c₀ c₁ r₀ r₁ _ _ 2 (omega arith) (omega arith))
          (omega arith) (omega arith) (omega arith) (omega arith) (omega arith) (omega arith)
          (omega arith)
    by_code (suc (suc (suc (suc zero)))) h =
        seen _ _ _ 1 0 0
          (covering_east t ∙ near_pair t c₀ c₁ r₀ r₁ _ _ 1 (omega arith) (omega arith))
          (omega arith) (omega arith) (omega arith) (omega arith) (omega arith) (omega arith)
          (omega arith)
    by_code (suc (suc (suc (suc (suc m))))) h = absurd (omega arith)

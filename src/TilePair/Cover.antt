-- ===== src/TilePair/Cover.antt =====
-- The loop of `operator+=`, which goes up to a level where two tiles side by side cover a rectangle.
use libgeodesk.Common.{
  ℕ, zero, suc, ◌+◌, ◌-◌, ◌*◌, ◌/◌, ◌^◌, ◌≤◌, ◌<◌, ◌≡◌, ◌⊎◌, inl, inr, refl, ◌∙◌, arith, bit_or,
  leb, ◌||◌, ◌&&◌, ◌==◌, true, false, some, Bool-cases,
}
use libgeodesk.Common.Bits.{or_fields, or_comm, div-pow-suc}
use native.Mathlib.Nat.{
  one-le-pow, div-one, div-le_self, pow-succ', pow-le-pow_right, le-div_iff_mul-le,
}
use libgeodesk.Tile.{from_column_row_zoom, w32}
use libgeodesk.Tile.Fields.{from_column_row_zoom_lem}
use libgeodesk.TilePair.{first, second, join_loop}
use libgeodesk.TilePair.Codes.{first_lem, second_lem, pair_lem}

abbrev pub packed : ℕ → ℕ → ℕ → ℕ → ℕ → ℕ
packed left top z dc dr =
    bit_or (bit_or (from_column_row_zoom left top z) (w32 (dc * 2 ^ 28))) (w32 (dr * 2 ^ 29))

packed_lem :
    (l t z dc dr : ℕ)
    → l < 2 ^ 12
    → t < 2 ^ 12
    → z < 2 ^ 4
    → dc ≤ 1
    → dr ≤ 1
    → packed l t z dc dr ≡ dr * 2 ^ 29 + dc * 2 ^ 28 + z * 2 ^ 24 + t * 2 ^ 12 + l
packed_lem l t z dc dr hl ht hz hdc hdr =
    let c : w32 (dc * 2 ^ 28) ≡ dc * 2 ^ 28 = omega arith in
    let r : w32 (dr * 2 ^ 29) ≡ dr * 2 ^ 29 = omega arith in
    let e = pair_lem l t z dc hl ht hz in
    rw (c, r)
      (or_comm (bit_or (from_column_row_zoom l t z) (dc * 2 ^ 28)) (dr * 2 ^ 29)
        ∙ or_fields 29 dr (bit_or (from_column_row_zoom l t z) (dc * 2 ^ 28)) (omega (arith, e))
        ∙ omega (arith, e))

-- Where the loop stops, `k` levels up.
record Stops (l t r b z fuel : ℕ) : Type 0 where
  levels : ℕ
  dc : ℕ
  dr : ℕ
  levels_le : levels ≤ z
  cols : l / 2 ^ levels + dc ≡ r / 2 ^ levels
  rows : t / 2 ^ levels + dr ≡ b / 2 ^ levels
  dc_le : dc ≤ 1
  dr_le : dr ≤ 1
  straight : (dc ≡ 0) ⊎ (dr ≡ 0)
  result :
      join_loop fuel l t r b z ≡ some (packed (l / 2 ^ levels) (t / 2 ^ levels) (z - levels) dc dr)

module _ (fuel l t r b z : ℕ) (hl : l ≤ r) (ht : t ≤ b) (hr : r < 2 ^ 12) (hb : b < 2 ^ 12) where
  Stops-here :
      (((r - l) == 0 || (b - t) == 0) && (leb (r - l) 1 && leb (b - t) 1)) ≡ true
      → Stops l t r b z (suc fuel)
  unfolding join_loop
  Stops-here stop =
      let c : w32 (r + 2 ^ 32 - l) ≡ r - l = omega arith in
      let w : w32 (b + 2 ^ 32 - t) ≡ b - t = omega arith in
      let same : z - 0 ≡ z = omega arith in
      record {
        levels = 0;
        dc = r - l;
        dr = b - t;
        levels_le = omega arith;
        cols = rw (div-one l, div-one r) (omega arith);
        rows = rw (div-one t, div-one b) (omega arith);
        dc_le = ground arith;
        dr_le = ground arith;
        straight = ground arith;
        result = rw (c, w, stop, div-one l, div-one t, same) refl;
      }

  goes_on :
      (((r - l) == 0 || (b - t) == 0) && (leb (r - l) 1 && leb (b - t) 1)) ≡ false
      → 1 ≤ z
      → z ≤ 12
      → join_loop (suc fuel) l t r b z ≡ join_loop fuel (l / 2) (t / 2) (r / 2) (b / 2) (z - 1)
  unfolding join_loop
  goes_on more pos hz =
      let c : w32 (r + 2 ^ 32 - l) ≡ r - l = omega arith in
      let w : w32 (b + 2 ^ 32 - t) ≡ b - t = omega arith in
      let lower : w32 (z + 2 ^ 32 - 1) ≡ z - 1 = omega arith in rw (c, w, more, lower) refl

join_loop-Stops :
    (fuel l t r b z : ℕ)
    → l ≤ r
    → t ≤ b
    → z ≤ 12
    → r < 2 ^ z
    → b < 2 ^ z
    → z < fuel
    → Stops l t r b z fuel
join_loop-Stops zero l t r b z hl ht hz hr hb h = absurd (omega arith)
join_loop-Stops (suc fuel) l t r b zero hl ht hz hr hb h =
    Stops-here fuel l t r b zero hl ht (omega arith) (omega arith) (ground arith)
join_loop-Stops (suc fuel) l t r b (suc z) hl ht hz hr hb h =
    let top = pow-le-pow_right {n = 2} (omega arith) {i = suc z} {j = 12} hz in
    elim (Bool-cases (((r - l) == 0 || (b - t) == 0) && (leb (r - l) 1 && leb (b - t) 1))) [
      | inl stop ↦ Stops-here fuel l t r b (suc z) hl ht (omega arith) (omega arith) stop
      | inr more ↦
          let s =
            join_loop-Stops fuel (l / 2) (t / 2) (r / 2) (b / 2) z (omega arith) (omega arith)
              (omega arith) (omega (arith, pow-succ' 2 z)) (omega (arith, pow-succ' 2 z))
              (omega arith) in
          let one_less : suc z - 1 ≡ z = omega arith in
          let rest : suc z - suc s.levels ≡ z - s.levels = omega arith in
          record {
            levels = suc s.levels;
            dc = s.dc;
            dr = s.dr;
            levels_le = omega (arith, s.levels_le);
            cols = rw (div-pow-suc l s.levels, div-pow-suc r s.levels) s.cols;
            rows = rw (div-pow-suc t s.levels, div-pow-suc b s.levels) s.rows;
            dc_le = s.dc_le;
            dr_le = s.dr_le;
            straight = s.straight;
            result =
                rw
                  (
                    goes_on fuel l t r b (suc z) hl ht (omega arith) (omega arith) more
                        (omega arith) hz,
                    one_less,
                    rest,
                    div-pow-suc l s.levels,
                    div-pow-suc t s.levels,
                  )
                  s.result;
          }
    ]

shr-le : (a b k : ℕ) → a ≤ b → a / 2 ^ k ≤ b / 2 ^ k
shr-le a b k h =
    let pos = one-le-pow k 2 (omega arith) in
    (le-div_iff_mul-le {k = 2 ^ k} {x = a / 2 ^ k} {y = b} pos).1
      (omega (arith, (le-div_iff_mul-le {k = 2 ^ k} {x = a / 2 ^ k} {y = a} pos).0 (omega arith)))

-- For a rectangle of columns and rows on a map of level `z`, up to 12, and fuel above `z`, the loop of
-- `operator+=` returns a pair such that, on a level that is not above `z`, the tile over each tile of
-- the rectangle is the pair's first or its second.
pub join_loop-covers :
    (fuel l t r b z : ℕ)
    → l ≤ r
    → t ≤ b
    → z ≤ 12
    → r < 2 ^ z
    → b < 2 ^ z
    → z < fuel
    → (p k : ℕ) × (join_loop fuel l t r b z ≡ some p)
      × (k ≤ z)
      × ((c w : ℕ)
          → l ≤ c
          → c ≤ r
          → t ≤ w
          → w ≤ b
          → (first p ≡ from_column_row_zoom (c / 2 ^ k) (w / 2 ^ k) (z - k))
            ⊎ (second p ≡ from_column_row_zoom (c / 2 ^ k) (w / 2 ^ k) (z - k)))
join_loop-covers fuel l t r b z hl ht hz hr hb h =
    let s = join_loop-Stops fuel l t r b z hl ht hz hr hb h in
    let k = s.levels in
    let top = pow-le-pow_right {n = 2} (omega arith) {i = z} {j = 12} hz in
    let p = packed (l / 2 ^ k) (t / 2 ^ k) (z - k) s.dc s.dr in
    let e =
      packed_lem (l / 2 ^ k) (t / 2 ^ k) (z - k) s.dc s.dr (omega (arith, div-le_self l (2 ^ k)))
        (omega (arith, div-le_self t (2 ^ k))) (omega arith) s.dc_le s.dr_le in
    (
      p,
      k,
      s.result,
      s.levels_le,
      λ c w lc cr tw wb.
          let n =
            from_column_row_zoom_lem (c / 2 ^ k) (w / 2 ^ k) (z - k)
              (omega (arith, div-le_self c (2 ^ k))) (omega (arith, div-le_self w (2 ^ k)))
              (omega arith) in
          omega (
            arith,
            e,
            n,
            first_lem p,
            second_lem p,
            s.cols,
            s.rows,
            s.straight,
            s.dc_le,
            s.dr_le,
            shr-le l c k lc,
            shr-le c r k cr,
            shr-le t w k tw,
            shr-le w b k wb,
            div-le_self l (2 ^ k),
            div-le_self t (2 ^ k),
            div-le_self r (2 ^ k),
            div-le_self b (2 ^ k),
          ),
    )

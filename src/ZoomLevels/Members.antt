-- ===== src/ZoomLevels/Members.antt =====
-- Which zoom levels a set holds.
use libgeodesk.Common.{
  ℕ, zero, suc, ◌*◌, ◌/◌, ◌%◌, ◌^◌, ◌<◌, ◌≤◌, ◌≡◌, ◌==◌, ◌||◌, not, refl, arith, if◌then◌else◌,
}
use libgeodesk.Common.Bits.{and_bit, or_lowest, or-shr, div-pow-suc}
use native.Mathlib.Nat.{one-le-pow, pow-succ', div-le_self}
use libgeodesk.ZoomLevels.{add, is_valid_zoom_level}

scaled : (b p : ℕ) → b < 2 → 1 ≤ p → (b * p == 0) ≡ (b == 0)
scaled zero p h pos = ground arith
scaled (suc zero) p h pos = ground arith
scaled (suc (suc b)) p h pos = absurd (omega arith)

-- The bit of a level.
is_valid_zoom_level_bit : (n j : ℕ) → is_valid_zoom_level n j ≡ not (n / 2 ^ j % 2 == 0)
unfolding is_valid_zoom_level
is_valid_zoom_level_bit n j =
    rw (and_bit j n, scaled (n / 2 ^ j % 2) (2 ^ j) (omega arith) (one-le-pow j 2 (omega arith)))
      refl

pow-bit : (k j : ℕ) → 2 ^ k / 2 ^ j % 2 ≡ (if k == j then 1 else 0)
pow-bit zero zero = refl
pow-bit zero (suc j) = ground (arith, div-pow-suc 1 j, div-le_self (1 / 2) (2 ^ j))
pow-bit (suc k) zero = ground (arith, pow-succ' 2 k)
pow-bit (suc k) (suc j) =
    let half : 2 ^ suc k / 2 ≡ 2 ^ k = omega (arith, pow-succ' 2 k) in
    rw (div-pow-suc (2 ^ suc k) j, half) (ground (arith, pow-bit k j))

-- A level is in the set behind `add` exactly when it is the added one or was in the set.
pub is_valid_zoom_level-add :
    (levels level zoom : ℕ)
    → is_valid_zoom_level (add levels level) zoom
      ≡ (level == zoom || is_valid_zoom_level levels zoom)
unfolding add
is_valid_zoom_level-add levels level zoom =
    rw
      (
        is_valid_zoom_level_bit (add levels level) zoom,
        is_valid_zoom_level_bit levels zoom,
        or-shr zoom levels (2 ^ level),
      )
      (ground (arith, or_lowest (levels / 2 ^ zoom) (2 ^ level / 2 ^ zoom), pow-bit level zoom))

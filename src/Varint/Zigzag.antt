-- ===== src/Varint/Zigzag.antt =====
-- Zigzag numbers, at every width of `suc k` bits (64 and 32 in the source).
use libgeodesk.Common.{
  ℕ, suc, ◌+◌, ◌-◌, ◌*◌, ◌/◌, ◌%◌, ◌^◌, ◌≤◌, ◌<◌, ◌≡◌, ◌⊎◌, lt→ltb, arith, bit_and, List, ◌++◌,
  some,
}
use libgeodesk.Common.Bits.{and_ones, xor_ones, xor-zero}
use native.Mathlib.Nat.{pow-succ', one-le-pow, mod-eq_of_lt, mod-eq-sub-mod}
use native.Mathlib.Decide.{dec_lt}
use libgeodesk.Varint.{to_zigzag, from_zigzag, read_signed_varint64, write_signed_varint}
use libgeodesk.Varint.Read.{read_varint64-write_varint}

-- A pattern of `suc k` bits below 2 ^ k is a number from 0 up; the others are negative, and stand
-- for their distance from the all-ones pattern, which is -1.
pub to_zigzag_nonneg : (k v : ℕ) → v < 2 ^ k → to_zigzag k v ≡ 2 * v
unfolding to_zigzag
to_zigzag_nonneg k v h =
    let small : v * 2 % 2 ^ suc k ≡ v * 2 = mod-eq_of_lt (omega (arith, pow-succ' 2 k)) in
    rw (small, lt→ltb v (2 ^ k) h) (omega (arith, xor-zero (v * 2)))

pub to_zigzag_neg :
    (k v : ℕ) → 2 ^ k ≤ v → v < 2 ^ suc k → to_zigzag k v ≡ 2 * (2 ^ suc k - 1 - v) + 1
unfolding to_zigzag
to_zigzag_neg k v h hi = ground (
  arith,
  pow-succ' 2 k,
  mod-eq-sub-mod {n = v * 2} {m = 2 ^ suc k} (omega (arith, pow-succ' 2 k)),
  mod-eq_of_lt {n = v * 2 - 2 ^ suc k} {m = 2 ^ suc k} (omega arith),
  xor_ones (suc k) (v * 2 - 2 ^ suc k) (omega arith),
)

pub from_zigzag_even : (k n : ℕ) → n < 2 ^ k → from_zigzag k (2 * n) ≡ n
unfolding from_zigzag
from_zigzag_even k n h =
    let none_set : (2 ^ suc k - bit_and (2 * n) 1) % 2 ^ suc k ≡ 0 =
      grind (arith, and_ones 1 (2 * n)) in
    rw none_set (omega (arith, xor-zero (2 * n / 2)))

pub from_zigzag_odd : (k n : ℕ) → n < 2 ^ k → from_zigzag k (2 * n + 1) ≡ 2 ^ suc k - 1 - n
unfolding from_zigzag
from_zigzag_odd k n h =
    let ones : (2 ^ suc k - bit_and (2 * n + 1) 1) % 2 ^ suc k ≡ 2 ^ suc k - 1 =
      rw (and_ones 1 (2 * n + 1)) (grind (arith, one-le-pow (suc k) 2)) in
    rw ones (
      omega
        (arith, xor_ones (suc k) ((2 * n + 1) / 2) (omega (arith, pow-succ' 2 k)), pow-succ' 2 k))

-- `from_zigzag` undoes `to_zigzag` on every word of `suc k` bits.
pub from_zigzag-to_zigzag : (k v : ℕ) → v < 2 ^ suc k → from_zigzag k (to_zigzag k v) ≡ v
from_zigzag-to_zigzag k v h = elim (dec_lt v (2 ^ k)) [
  | yes p ↦ rw (to_zigzag_nonneg k v p) (from_zigzag_even k v p)
  | no p ↦
      rw (to_zigzag_neg k v (omega arith) h)
        (omega (arith, from_zigzag_odd k (2 ^ suc k - 1 - v) (omega (arith, pow-succ' 2 k))))
]

-- `to_zigzag` undoes `from_zigzag` on every word of `suc k` bits.
pub to_zigzag-from_zigzag : (k z : ℕ) → z < 2 ^ suc k → to_zigzag k (from_zigzag k z) ≡ z
to_zigzag-from_zigzag k z h = ground (
  arith,
  pow-succ' 2 k,
  from_zigzag_even k (z / 2) (omega (arith, pow-succ' 2 k)),
  from_zigzag_odd k (z / 2) (omega (arith, pow-succ' 2 k)),
  to_zigzag_nonneg k (z / 2) (omega (arith, pow-succ' 2 k)),
  to_zigzag_neg k (2 ^ suc k - 1 - z / 2) (omega (arith, pow-succ' 2 k))
      (omega (arith, one-le-pow (suc k) 2)),
  parity,
)
  where
    parity : (z ≡ 2 * (z / 2)) ⊎ (z ≡ 2 * (z / 2) + 1)
    parity = omega arith

to_zigzag-lt : (k v : ℕ) → v < 2 ^ suc k → to_zigzag k v < 2 ^ suc k
to_zigzag-lt k v h = elim (dec_lt v (2 ^ k)) [
  | yes p ↦ omega (arith, pow-succ' 2 k, to_zigzag_nonneg k v p)
  | no p ↦ omega (arith, pow-succ' 2 k, to_zigzag_neg k v (omega arith) h)
]

module _ (v : ℕ) (rest : List ℕ) where
  -- `read_signed_varint64` reads back every pattern of 64 bits that `write_signed_varint` wrote, and
  -- leaves what follows.
  pub read_signed_varint64-write_signed_varint :
      v < 2 ^ 64 → read_signed_varint64 (write_signed_varint v ++ rest) ≡ some (v, rest)
  unfolding read_signed_varint64 write_signed_varint
  read_signed_varint64-write_signed_varint h = rw (
    read_varint64-write_varint (to_zigzag 63 v) rest (to_zigzag-lt 63 v h),
    from_zigzag-to_zigzag 63 v h,
  )

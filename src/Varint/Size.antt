-- ===== src/Varint/Size.antt =====
-- `varint_size` against the bytes that `write_varint` writes.
use libgeodesk.Common.{
  ℕ, zero, suc, ◌+◌, ◌-◌, ◌*◌, ◌/◌, ◌^◌, ◌≤◌, ◌<◌, ◌≡◌, refl, sym, ◌∙◌, arith, bit_or, length,
}
use libgeodesk.Common.Bits.{or_lowest, or-zero, div-pow-suc}
use mathlib.Core.WellFounded.{Acc}
use native.Mathlib.Nat.{pow-succ', one-le-pow, div-one, le_trans, pow-le-pow_right}
use native.Mathlib.Numerals.{towards_suc}
use native.Mathlib.Decide.{dec_lt}
use libgeodesk.Varint.{write_loop, write_varint, count_leading_zeros, varint_size}

count_leading_zeros-one : (k i : ℕ) → 2 ^ k ≤ i → i < 2 ^ suc k → count_leading_zeros (suc k) i ≡ 0
unfolding count_leading_zeros
count_leading_zeros-one k i lo hi = ground (arith, digit)
  where
    digit : i / 2 ^ k ≡ 1
    digit = grind (arith, pow-succ' 2 k)

count_leading_zeros-zero :
    (k i : ℕ) → i < 2 ^ k → count_leading_zeros (suc k) i ≡ suc (count_leading_zeros k i)
unfolding count_leading_zeros
count_leading_zeros-zero k i hi = ground (arith, digit)
  where
    digit : i / 2 ^ k ≡ 0
    digit = grind arith

-- Halving a number of two bits or more drops its lowest bit and no leading zero.
count_leading_zeros-half :
    (k i : ℕ)
    → i < 2 ^ suc k
    → 2 ≤ i
    → count_leading_zeros (suc k) i ≡ count_leading_zeros k (i / 2)
count_leading_zeros-half zero i h two = absurd (omega arith)
count_leading_zeros-half (suc k) i h two = elim (dec_lt i (2 ^ suc k)) [
  | yes low ↦ omega (
    arith,
    pow-succ' 2 k,
    count_leading_zeros-zero (suc k) i low,
    count_leading_zeros-half k i low two,
    count_leading_zeros-zero k (i / 2) (omega (arith, pow-succ' 2 k)),
  )
  | no high ↦ omega (
    arith,
    pow-succ' 2 (suc k),
    pow-succ' 2 k,
    count_leading_zeros-one (suc k) i (omega arith) h,
    count_leading_zeros-one k (i / 2) (omega (arith, pow-succ' 2 k))
        (omega (arith, pow-succ' 2 (suc k), pow-succ' 2 k)),
  )
]

-- Dropping the d lowest bits, one at a time.
count_leading_zeros-shr :
    (d n k i : ℕ)
    → n ≡ k + d
    → i < 2 ^ n
    → 2 ^ d ≤ i
    → count_leading_zeros n i ≡ count_leading_zeros k (i / 2 ^ d)
count_leading_zeros-shr zero n k i e h big = let e' : n ≡ k = omega arith in rw (e', div-one) refl
count_leading_zeros-shr (suc d) zero k i e h big = absurd (omega arith)
count_leading_zeros-shr (suc d) (suc n) k i e h big = rw (div-pow-suc i d) (
    count_leading_zeros-half n i h (omega (arith, pow-succ' 2 d, one-le-pow d 2))
    ∙ count_leading_zeros-shr d n k (i / 2) (omega arith) (omega (arith, pow-succ' 2 n))
        (omega (arith, pow-succ' 2 d)))

count_leading_zeros-lt : (k i : ℕ) → 0 < i → i < 2 ^ k → count_leading_zeros k i < k
count_leading_zeros-lt zero i pos h = absurd (omega arith)
count_leading_zeros-lt (suc k) i pos h = elim (dec_lt i (2 ^ k)) [
  | yes low ↦ omega (arith, count_leading_zeros-zero k i low, count_leading_zeros-lt k i pos low)
  | no high ↦ omega (arith, count_leading_zeros-one k i (omega arith) h)
]

digits-le : (m k i : ℕ) → i < 2 ^ m → k ≤ m + count_leading_zeros k i
digits-le m zero i h = omega arith
digits-le m (suc k) i h = elim (dec_lt k m) [
  | yes short ↦ omega arith
  | no long ↦ omega (
    arith,
    count_leading_zeros-zero k i (le_trans h (pow-le-pow_right (omega arith) (omega arith))),
    digits-le m k i h,
  )
]

pow-add-seven : (k j : ℕ) → k ≡ j + 7 → 2 ^ k ≡ 128 * 2 ^ j
pow-add-seven k j e = rw e (simp towards_suc (omega arith))

wide : (k i : ℕ) → 128 ≤ i → i < 2 ^ k → (7 ≤ k) × (i / 128 < 2 ^ (k - 7))
wide k i big h = elim (dec_lt k 7) [
  | yes narrow ↦
      absurd (omega (arith, pow-le-pow_right {n = 2} (omega arith) {i = k} {j = 7} (omega arith)))
  | no room ↦ (omega arith, omega (arith, pow-add-seven k (k - 7) (omega arith)))
]

-- `i` has the digits of `val` but the lowest, and is not 0.
length-write_loop :
    (k val i : ℕ) (w : Acc ◌<◌ val)
    → val / 2 ≡ i / 2
    → 0 < i
    → i < 2 ^ k
    → length (write_loop val w) ≡ (k - count_leading_zeros k i + 6) / 7
unfolding write_loop
length-write_loop k val i (Acc.intro _ smaller) same pos h = elim (dec_lt 127 val) [
  | yes more ↦
      let (room, fits) = wide k i (omega arith) h in
      grind (
        arith,
        λ (p : val / 128 < val).
            length-write_loop (k - 7) (val / 128) (i / 128) (smaller (val / 128) p) (omega arith)
              (omega arith) fits,
        count_leading_zeros-shr 7 k (k - 7) i (omega arith) h (omega arith),
        count_leading_zeros-lt (k - 7) (i / 128) (omega arith) fits,
      )
  | no done ↦ ground (arith, count_leading_zeros-lt k i pos h, digits-le 7 k i)
]

-- `varint_size` is the number of bytes that `write_varint` writes, for every 64-bit value.
pub varint_size-write_varint : (v : ℕ) → v < 2 ^ 64 → varint_size v ≡ length (write_varint v)
unfolding varint_size write_varint
varint_size-write_varint v h = sym (
    length-write_loop 64 v (bit_or v 1) _ (omega (arith, halves)) (omega (arith, halves))
      (omega (arith, halves)))
  where
    halves : bit_or v 1 ≡ v / 2 * 2 + 1
    halves = omega (arith, or_lowest v 1, or-zero (v / 2))

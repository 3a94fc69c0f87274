-- ===== src/TileIndex/Entries.antt =====
-- The bits of the mask of children.
use libgeodesk.Common.{
  ℕ, zero, suc, ◌+◌, ◌-◌, ◌*◌, ◌/◌, ◌%◌, ◌^◌, ◌<◌, ◌≤◌, ◌≡◌, refl, sym, ap, ap₂, ◌∙◌, ==_iff,
  Bool-cases, inl, inr, arith, ◌==◌, not, true,
}
use libgeodesk.Common.Bits.{and_bit, div-pow-suc, double-field, pow_join}
use native.Mathlib.Nat.{
  one-le-pow, pow-succ', div-one, zero-add, mul-add-mod_self_right, mod-eq_of_lt, mod-lt,
  div-add-mod', mul_assoc, add-mul, mul-lt-mul_of_pos_right,
}
use libgeodesk.TileIndex.{
  Level, zeros, count_trailing_zeros, ones, bit_count, is_child, child_entry,
}

-- How many bits a number has below bit n.
unfoldable pub rank : ℕ → ℕ → ℕ
rank mask zero = 0
rank mask (suc n) = mask / 2 ^ n % 2 + rank mask n

scaled : (b p : ℕ) → b < 2 → 1 ≤ p → not (b * p == 0) ≡ (b == 1)
scaled zero p h pos = ground arith
scaled (suc zero) p h pos = ground arith
scaled (suc (suc b)) p h pos = absurd (omega arith)

-- A cell has a child exactly when the bit of its number is set.
pub is_child_lem : (l : Level) (n : ℕ) → is_child l n ≡ (l.child_tile_mask / 2 ^ n % 2 == 1)
unfolding is_child
is_child_lem l n =
    rw
      (
        and_bit n l.child_tile_mask,
        scaled (l.child_tile_mask / 2 ^ n % 2) (2 ^ n) (omega arith) (one-le-pow n 2 (omega arith)),
      )
      refl

rank_lowest : (x n : ℕ) → rank x (suc n) ≡ x % 2 + rank (x / 2) n
unfolding rank
rank_lowest x zero = omega (arith, div-one x)
rank_lowest x (suc n) = omega (arith, rank_lowest x n, div-pow-suc x n)

ones-shift : (k j m x : ℕ) → m ≡ j + k → ones m (x * 2 ^ j) ≡ ones k x
unfolding ones
ones-shift k zero m x e =
    let same : x * 2 ^ 0 ≡ x = omega arith in let none : m ≡ k = omega arith in ap₂ ones none same
ones-shift k (suc j) zero x e = absurd (omega arith)
ones-shift k (suc j) (suc m) x e =
    let half : x * 2 ^ suc j / 2 ≡ x * 2 ^ j = omega (arith, double-field x j) in
    let even : x * 2 ^ suc j % 2 ≡ 0 = omega (arith, double-field x j) in
    rw (even, half, zero-add) (ones-shift k j m x (omega arith))

mod_unique : (x m q r : ℕ) → x ≡ q * m + r → r < m → x % m ≡ r
mod_unique x m q r e h = rw (e, mul-add-mod_self_right q m r) (mod-eq_of_lt h)

-- The lowest digit of a remainder, and the others.
mod-double : (x k : ℕ) → x % 2 ^ suc k ≡ 2 * (x / 2 % 2 ^ k) + x % 2
mod-double x k =
    let p = 2 ^ k in
    let low = mod-lt (x / 2) {m = p} (one-le-pow k 2 (omega arith)) in
    mod_unique x (2 ^ suc k) (x / 2 / p) (2 * (x / 2 % p) + x % 2)
      (omega (arith, double-field (x / 2 / p) k, div-add-mod' (x / 2) p))
      (omega (arith, pow-succ' 2 k))

ones-rank : (k x : ℕ) → ones k (x % 2 ^ k) ≡ rank x k
unfolding ones rank
ones-rank zero x = refl
ones-rank (suc k) x =
    let low : x % 2 ^ suc k % 2 ≡ x % 2 = omega (arith, mod-double x k) in
    let high : x % 2 ^ suc k / 2 ≡ x / 2 % 2 ^ k = omega (arith, mod-double x k) in
    rw (low, high, ones-rank k (x / 2)) (sym (rank_lowest x k))

mod-shift : (x a b : ℕ) → 1 ≤ a → 1 ≤ b → x * b % (a * b) ≡ x % a * b
mod-shift x a b ha hb =
    let split : x * b ≡ x / a * (a * b) + x % a * b =
      rw (← mul_assoc (x / a) a b, ← add-mul (x / a * a) (x % a) b, div-add-mod' x a) refl in
    mod_unique (x * b) (a * b) (x / a) (x % a * b) split (mul-lt-mul_of_pos_right (mod-lt x ha) hb)

-- The place of the entry of a child, whose number is below 64, among the entries of its level is the
-- number of the children in front of it.
pub child_entry_lem :
    (l : Level) (n : ℕ) → n < 64 → is_child l n ≡ true → child_entry l n ≡ rank l.child_tile_mask n
unfolding child_entry bit_count rank
child_entry_lem l n h e =
    let x = l.child_tile_mask in
    let bit : x / 2 ^ n % 2 ≡ 1 = (==_iff (x / 2 ^ n % 2) 1).0 (sym (is_child_lem l n) ∙ e) in
    let j = 63 - n in
    let whole : 2 ^ suc n * 2 ^ j ≡ 2 ^ 64 = pow_join (suc n) j 64 (omega arith) in
    let cut : x * 2 ^ j % 2 ^ 64 ≡ x % 2 ^ suc n * 2 ^ j = rw (← whole) (
      mod-shift x (2 ^ suc n) (2 ^ j) (one-le-pow (suc n) 2 (omega arith))
        (one-le-pow j 2 (omega arith))) in
    let all : ones 64 (x * 2 ^ j % 2 ^ 64) ≡ rank x (suc n) =
      ap (ones 64) cut
      ∙ ones-shift (suc n) j 64 (x % 2 ^ suc n) (omega arith)
      ∙ ones-rank (suc n) x in
    omega (arith, all, bit)

zeros-lt : (k m n : ℕ) → m ≤ k → 1 ≤ n → n < 2 ^ m → zeros k n < m
unfolding zeros
zeros-lt zero m n h pos below =
    let none : m ≡ 0 = omega arith in absurd (omega (arith, rw none at below))
zeros-lt (suc k) zero n h pos below = absurd (omega arith)
zeros-lt (suc k) (suc m) n h pos below = elim (Bool-cases (n % 2 == 1)) [
  | inl e ↦ rw e (omega arith)
  | inr e ↦ rw e (
      omega
        (arith, zeros-lt k m (n / 2) (omega arith) (ground arith) (omega (arith, pow-succ' 2 m))))
]

-- The lowest bit of a number below 2 ^ m is below bit m.
pub count_trailing_zeros-lt : (m n : ℕ) → m ≤ 64 → 1 ≤ n → n < 2 ^ m → count_trailing_zeros n < m
unfolding count_trailing_zeros
count_trailing_zeros-lt m n h pos below = zeros-lt 64 m n h pos below

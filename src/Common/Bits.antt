-- ===== src/Common/Bits.antt =====
-- The bit operations at variables: the law of the lowest digit, and from it the laws of masks,
-- shifts and disjoint fields, at every width.
use Prim.Native.Nat.{
  ℕ, zero, suc, ◌+◌, ◌-◌, ◌*◌, ◌/◌, ◌%◌, ◌^◌, ◌≤◌, ◌<◌, min, max, digits, bitwise, bit_and, bit_or,
  bit_xor, bit_and-bitwise, bit_or-bitwise, bit_xor-bitwise, differ,
}
use mathlib.Core.Path.{◌≡◌, refl, ap, sym, ◌∙◌}
use native.Mathlib.Nat.{le_refl, pow-succ', one-le-pow, div-div-eq-div-mul, div-one, mul_assoc}
use native.Mathlib.Omega.{arith}

-- The digit count may be any bound of the first number.
module _ (rest : ℕ → ℕ) (join : ℕ → ℕ → ℕ) where
  digits_enough : (n m a b : ℕ) → a ≤ n → a ≤ m → digits rest join n a b ≡ digits rest join m a b
  digits_enough zero zero a b p q = refl
  digits_enough zero (suc m) zero b p q = refl
  digits_enough zero (suc m) (suc a) b p q = absurd (omega arith)
  digits_enough (suc n) zero zero b p q = refl
  digits_enough (suc n) zero (suc a) b p q = absurd (omega arith)
  digits_enough (suc n) (suc m) zero b p q = refl
  digits_enough (suc n) (suc m) (suc a) b p q =
      rw (digits_enough n m (suc a / 2) (b / 2) (omega arith) (omega arith))

  bitwise_lowest :
      (a b : ℕ)
      → bitwise rest join (suc a) b
        ≡ bitwise rest join (suc a / 2) (b / 2) * 2 + join (suc a % 2) (b % 2)
  bitwise_lowest a b =
      omega (arith, digits_enough a (suc a / 2) (suc a / 2) (b / 2) (omega arith) (le_refl _))

pub and_lowest : (a b : ℕ) → bit_and a b ≡ bit_and (a / 2) (b / 2) * 2 + min (a % 2) (b % 2)
and_lowest zero b = simp bit_and-bitwise (omega arith)
and_lowest (suc a) b = simp bit_and-bitwise (bitwise_lowest (λ y. 0) min a b)

pub or_lowest : (a b : ℕ) → bit_or a b ≡ bit_or (a / 2) (b / 2) * 2 + max (a % 2) (b % 2)
or_lowest zero b = simp bit_or-bitwise (omega arith)
or_lowest (suc a) b = simp bit_or-bitwise (bitwise_lowest (λ y. y) max a b)

pub xor_lowest : (a b : ℕ) → bit_xor a b ≡ bit_xor (a / 2) (b / 2) * 2 + differ (a % 2) (b % 2)
xor_lowest zero b = simp bit_xor-bitwise (omega arith)
xor_lowest (suc a) b = simp bit_xor-bitwise (bitwise_lowest (λ y. y) differ a b)

pub differ-le-one : (a b : ℕ) → differ (a % 2) (b % 2) ≤ 1
differ-le-one a b = step (a % 2) (b % 2) (omega arith) (omega arith)
  where
    step : (x y : ℕ) → x < 2 → y < 2 → differ x y ≤ 1
    step zero y p q = omega arith
    step (suc zero) zero p q = omega arith
    step (suc zero) (suc zero) p q = omega arith
    step (suc zero) (suc (suc y)) p q = absurd (omega arith)
    step (suc (suc x)) y p q = absurd (omega arith)

differ_zero : (x : ℕ) → differ x 0 ≡ x
differ_zero zero = refl
differ_zero (suc x) = refl

-- Halving both numbers halves the result, so a shift goes through.
pub and-half : (a b : ℕ) → bit_and a b / 2 ≡ bit_and (a / 2) (b / 2)
and-half a b = omega (arith, and_lowest a b)

pub or-half : (a b : ℕ) → bit_or a b / 2 ≡ bit_or (a / 2) (b / 2)
or-half a b = omega (arith, or_lowest a b)

pub xor-half : (a b : ℕ) → bit_xor a b / 2 ≡ bit_xor (a / 2) (b / 2)
xor-half a b = omega (arith, xor_lowest a b, differ-le-one a b)

pub div-pow-suc : (a k : ℕ) → a / 2 ^ suc k ≡ a / 2 / 2 ^ k
div-pow-suc a k = rw (pow-succ' 2 k) (sym (div-div-eq-div-mul a 2 (2 ^ k)))

pub and-shr : (k a b : ℕ) → bit_and a b / 2 ^ k ≡ bit_and (a / 2 ^ k) (b / 2 ^ k)
and-shr zero a b = simp div-one
and-shr (suc k) a b = simp (div-pow-suc, and-half) (and-shr k (a / 2) (b / 2))

pub or-shr : (k a b : ℕ) → bit_or a b / 2 ^ k ≡ bit_or (a / 2 ^ k) (b / 2 ^ k)
or-shr zero a b = simp div-one
or-shr (suc k) a b = simp (div-pow-suc, or-half) (or-shr k (a / 2) (b / 2))

pub xor-shr : (k a b : ℕ) → bit_xor a b / 2 ^ k ≡ bit_xor (a / 2 ^ k) (b / 2 ^ k)
xor-shr zero a b = simp div-one
xor-shr (suc k) a b = simp (div-pow-suc, xor-half) (xor-shr k (a / 2) (b / 2))

and-zero_below : (n a : ℕ) → a ≤ n → bit_and a 0 ≡ 0
and-zero_below n zero h = refl
and-zero_below zero (suc a) h = absurd (omega arith)
and-zero_below (suc n) (suc a) h =
    omega (arith, and_lowest (suc a) 0, and-zero_below n (suc a / 2) (omega arith))

or-zero_below : (n a : ℕ) → a ≤ n → bit_or a 0 ≡ a
or-zero_below n zero h = refl
or-zero_below zero (suc a) h = absurd (omega arith)
or-zero_below (suc n) (suc a) h =
    omega (arith, or_lowest (suc a) 0, or-zero_below n (suc a / 2) (omega arith))

pub zero-and : (b : ℕ) → bit_and 0 b ≡ 0
zero-and b = bit_and-bitwise 0 b

pub zero-or : (b : ℕ) → bit_or 0 b ≡ b
zero-or b = bit_or-bitwise 0 b

pub zero-xor : (b : ℕ) → bit_xor 0 b ≡ b
zero-xor b = bit_xor-bitwise 0 b

pub and-zero : (a : ℕ) → bit_and a 0 ≡ 0
and-zero a = and-zero_below a a (le_refl a)

pub or-zero : (a : ℕ) → bit_or a 0 ≡ a
or-zero a = or-zero_below a a (le_refl a)

xor-zero_below : (n a : ℕ) → a ≤ n → bit_xor a 0 ≡ a
xor-zero_below n zero h = refl
xor-zero_below zero (suc a) h = absurd (omega arith)
xor-zero_below (suc n) (suc a) h = ground (
  arith,
  xor_lowest (suc a) 0,
  xor-zero_below n (suc a / 2) (omega arith),
  differ_zero (suc a % 2),
)

pub xor-zero : (a : ℕ) → bit_xor a 0 ≡ a
xor-zero a = xor-zero_below a a (le_refl a)

or_comm_below : (n a b : ℕ) → a ≤ n → b ≤ n → bit_or a b ≡ bit_or b a
or_comm_below n zero b p q = omega (arith, zero-or b, or-zero b)
or_comm_below zero (suc a) b p q = absurd (omega arith)
or_comm_below (suc n) (suc a) b p q = omega (
  arith,
  or_lowest (suc a) b,
  or_lowest b (suc a),
  or_comm_below n (suc a / 2) (b / 2) (omega arith) (omega arith),
)

pub or_comm : (a b : ℕ) → bit_or a b ≡ bit_or b a
or_comm a b = or_comm_below (a + b) a b (omega arith) (omega arith)

pub double-field : (q k : ℕ) → q * 2 ^ suc k ≡ 2 * (q * 2 ^ k)
double-field q k = omega (arith, ap (λ (t : ℕ). q * t) (pow-succ' 2 k))

-- `|` of a number below 2 ^ k and one whose k lowest bits are zero is their sum.
pub or_fields : (k q r : ℕ) → r < 2 ^ k → bit_or (q * 2 ^ k) r ≡ q * 2 ^ k + r
or_fields zero q r h = ground (arith, or-zero q)
or_fields (suc k) q r h = ground (
  arith,
  or_lowest (q * 2 ^ suc k) r,
  double-field q k,
  pow-succ' 2 k,
  or_fields k q (r / 2) (omega (arith, pow-succ' 2 k)),
)

-- The k lowest bits of a number.
and_ones_fields : (k q r : ℕ) → r < 2 ^ k → bit_and (q * 2 ^ k + r) (2 ^ k - 1) ≡ r
and_ones_fields zero q r h = rw and-zero (omega arith)
and_ones_fields (suc k) q r h = ground (
  arith,
  and_lowest (q * 2 ^ suc k + r) (2 ^ suc k - 1),
  double-field q k,
  pow-succ' 2 k,
  one-le-pow k 2,
  and_ones_fields k q (r / 2) (omega (arith, pow-succ' 2 k)),
)

pub and_ones : (k a : ℕ) → bit_and a (2 ^ k - 1) ≡ a % 2 ^ k
and_ones k a = ground (arith, one-le-pow k 2, and_ones_fields k (a / 2 ^ k) (a % 2 ^ k))

-- The bit k of a number, in its place.
pub and_bit : (k a : ℕ) → bit_and a (2 ^ k) ≡ a / 2 ^ k % 2 * 2 ^ k
and_bit zero a = ground (arith, and_lowest a 1, and-zero (a / 2))
and_bit (suc k) a = ground (
  arith,
  and_lowest a (2 ^ suc k),
  pow-succ' 2 k,
  and_bit k (a / 2),
  div-pow-suc a k,
  double-field (a / 2 ^ suc k % 2) k,
)

differ_one : (x y : ℕ) → x < 2 → y ≡ 1 → differ x y ≡ 1 - x
differ_one zero y p e = e
differ_one (suc zero) zero p e = absurd (omega arith)
differ_one (suc zero) (suc zero) p e = refl
differ_one (suc zero) (suc (suc y)) p e = absurd (omega arith)
differ_one (suc (suc x)) y p e = absurd (omega arith)

-- Flipping every bit of a number below 2 ^ k.
pub xor_ones : (k a : ℕ) → a < 2 ^ k → bit_xor a (2 ^ k - 1) ≡ 2 ^ k - 1 - a
xor_ones zero a h = ground (arith, zero-xor 0)
xor_ones (suc k) a h = ground (
  arith,
  xor_lowest a (2 ^ suc k - 1),
  pow-succ' 2 k,
  one-le-pow k 2,
  xor_ones k (a / 2),
  differ_one (a % 2) ((2 ^ suc k - 1) % 2),
)

pub pow_join : (a b m : ℕ) → m ≡ a + b → 2 ^ a * 2 ^ b ≡ 2 ^ m
pow_join zero b m e = let same : b ≡ m = omega arith in rw same (omega arith)
pow_join (suc a) b zero e = absurd (omega arith)
pow_join (suc a) b (suc m) e =
    let assoc : 2 ^ suc a * 2 ^ b ≡ 2 * (2 ^ a * 2 ^ b) =
      rw pow-succ' (mul_assoc 2 (2 ^ a) (2 ^ b)) in
    assoc ∙ rw (pow_join a b m (omega arith)) (sym (pow-succ' 2 m))

-- ===== src/Common/Xor.antt =====
-- Exclusive or at variables.
use Prim.Native.Nat.{ℕ, zero, suc, ◌+◌, ◌*◌, ◌/◌, ◌%◌, ◌^◌, ◌≤◌, ◌<◌, bit_xor, differ}
use mathlib.Core.Path.{◌≡◌, refl}
use native.Mathlib.Nat.{le_refl, pow-succ'}
use native.Mathlib.Omega.{arith}
use libgeodesk.Common.Bits.{xor_lowest, xor-half, zero-xor, xor-zero, differ-le-one, double-field}

-- The law of one digit.
differ_comm : (x y : ℕ) → differ (x % 2) (y % 2) ≡ differ (y % 2) (x % 2)
differ_comm x y = table (x % 2) (y % 2) (omega arith) (omega arith)
  where
    table : (a b : ℕ) → a < 2 → b < 2 → differ a b ≡ differ b a
    table zero zero p q = refl
    table zero (suc zero) p q = refl
    table (suc zero) zero p q = refl
    table (suc zero) (suc zero) p q = refl
    table (suc (suc a)) b p q = absurd (omega arith)
    table a (suc (suc b)) p q = absurd (omega arith)

differ_assoc : (a b c : ℕ) → a < 2 → b < 2 → c < 2 → differ (differ a b) c ≡ differ a (differ b c)
differ_assoc zero b c p q r = refl
differ_assoc (suc zero) zero c p q r = refl
differ_assoc (suc zero) (suc zero) zero p q r = refl
differ_assoc (suc zero) (suc zero) (suc zero) p q r = refl
differ_assoc (suc zero) (suc zero) (suc (suc c)) p q r = absurd (omega arith)
differ_assoc (suc zero) (suc (suc b)) c p q r = absurd (omega arith)
differ_assoc (suc (suc a)) b c p q r = absurd (omega arith)

xor_comm_below : (n a b : ℕ) → a ≤ n → b ≤ n → bit_xor a b ≡ bit_xor b a
xor_comm_below n zero b p q = omega (arith, zero-xor b, xor-zero b)
xor_comm_below zero (suc a) b p q = absurd (omega arith)
xor_comm_below (suc n) (suc a) b p q = omega (
  arith,
  xor_lowest (suc a) b,
  xor_lowest b (suc a),
  differ_comm (suc a) b,
  xor_comm_below n (suc a / 2) (b / 2) (omega arith) (omega arith),
)

pub xor_comm : (a b : ℕ) → bit_xor a b ≡ bit_xor b a
xor_comm a b = xor_comm_below (a + b) a b (omega arith) (omega arith)

pub xor_parity : (a b : ℕ) → bit_xor a b % 2 ≡ differ (a % 2) (b % 2)
xor_parity a b = omega (arith, xor_lowest a b, differ-le-one a b)

xor_assoc_below : (n a b c : ℕ) → a ≤ n → bit_xor (bit_xor a b) c ≡ bit_xor a (bit_xor b c)
xor_assoc_below n zero b c p = rw (zero-xor b, zero-xor (bit_xor b c)) refl
xor_assoc_below zero (suc a) b c p = absurd (omega arith)
xor_assoc_below (suc n) (suc a) b c p =
    rw
      (
        xor_lowest (bit_xor (suc a) b) c,
        xor_lowest (suc a) (bit_xor b c),
        xor-half (suc a) b,
        xor-half b c,
        xor_parity (suc a) b,
        xor_parity b c,
        differ_assoc (suc a % 2) (b % 2) (c % 2) (omega arith) (omega arith) (omega arith),
        xor_assoc_below n (suc a / 2) (b / 2) (c / 2) (omega arith),
      )
      refl

pub xor_assoc : (a b c : ℕ) → bit_xor (bit_xor a b) c ≡ bit_xor a (bit_xor b c)
xor_assoc a b c = xor_assoc_below a a b c (le_refl a)

xor_self_below : (n a : ℕ) → a ≤ n → bit_xor a a ≡ 0
xor_self_below n zero p = refl
xor_self_below zero (suc a) p = absurd (omega arith)
xor_self_below (suc n) (suc a) p = omega (
  arith,
  xor_lowest (suc a) (suc a),
  same (suc a % 2) (omega arith),
  xor_self_below n (suc a / 2) (omega arith),
)
  where
    same : (x : ℕ) → x < 2 → differ x x ≡ 0
    same zero q = refl
    same (suc zero) q = refl
    same (suc (suc x)) q = absurd (omega arith)

pub xor_self : (a : ℕ) → bit_xor a a ≡ 0
xor_self a = xor_self_below a a (le_refl a)

-- `^` of a number below 2 ^ k and one whose k lowest bits are zero is their sum.
pub xor_fields : (k q r : ℕ) → r < 2 ^ k → bit_xor (q * 2 ^ k) r ≡ q * 2 ^ k + r
xor_fields zero q r h = ground (arith, xor-zero q)
xor_fields (suc k) q r h = ground (
  arith,
  xor_lowest (q * 2 ^ suc k) r,
  double-field q k,
  pow-succ' 2 k,
  zero-differ (r % 2),
  xor_fields k q (r / 2) (omega (arith, pow-succ' 2 k)),
)
  where
    zero-differ : (x : ℕ) → differ 0 x ≡ x
    zero-differ x = refl

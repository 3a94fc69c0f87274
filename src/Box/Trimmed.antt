-- ===== src/Box/Trimmed.antt =====
-- Addition and subtraction that stop at the ends of the signed numbers.
use libgeodesk.Common.{
  ℕ, zero, suc, ◌+◌, ◌-◌, ◌/◌, ◌%◌, ◌*◌, ◌^◌, ◌<◌, ◌≡◌, ◌∙◌, ap, refl, arith, min, bit_and, bit_xor,
  ltb, ◌&&◌, not, if◌then◌else◌,
}
use libgeodesk.Common.Bits.{and_bit, and-shr, xor-shr}
use libgeodesk.Box.{flip, trimmed_subtract, trimmed_add}

-- The highest bits of an `and` of two `xor`s.
top_bit :
    (a b c d : ℕ)
    → bit_and (bit_and (bit_xor a b) (bit_xor c d)) (2 ^ 31)
      ≡ bit_and (bit_xor (a / 2 ^ 31) (b / 2 ^ 31)) (bit_xor (c / 2 ^ 31) (d / 2 ^ 31)) % 2 * 2 ^ 31
top_bit a b c d =
    rw
      (
        and_bit 31 (bit_and (bit_xor a b) (bit_xor c d)),
        and-shr 31 (bit_xor a b) (bit_xor c d),
        xor-shr 31 a b,
        xor-shr 31 c d,
      )
      refl

-- The sum of a number with sign `p` and one that is not negative has overflowed to the sign `r`.
add_signs : (p r : ℕ) → p < 2 → r < 2 → bit_and (bit_xor p r) (bit_xor 0 r) % 2 ≡ (1 - p) * r
add_signs zero zero h k = refl
add_signs zero (suc zero) h k = refl
add_signs (suc zero) zero h k = refl
add_signs (suc zero) (suc zero) h k = refl
add_signs (suc (suc p)) r h k = absurd (omega arith)
add_signs zero (suc (suc r)) h k = absurd (omega arith)
add_signs (suc zero) (suc (suc r)) h k = absurd (omega arith)

subtract_signs : (p r : ℕ) → p < 2 → r < 2 → bit_and (bit_xor p 0) (bit_xor p r) % 2 ≡ p * (1 - r)
subtract_signs zero zero h k = refl
subtract_signs zero (suc zero) h k = refl
subtract_signs (suc zero) zero h k = refl
subtract_signs (suc zero) (suc zero) h k = refl
subtract_signs (suc (suc p)) r h k = absurd (omega arith)
subtract_signs zero (suc (suc r)) h k = absurd (omega arith)
subtract_signs (suc zero) (suc (suc r)) h k = absurd (omega arith)

add_overflow :
    (x y r : ℕ)
    → x < 2 ^ 32
    → y < 2 ^ 31
    → r < 2 ^ 32
    → bit_and (bit_and (bit_xor x r) (bit_xor y r)) (2 ^ 31)
      ≡ (1 - x / 2 ^ 31) * (r / 2 ^ 31) * 2 ^ 31
add_overflow x y r h k l =
    let low : y / 2 ^ 31 ≡ 0 = omega arith in
    top_bit x r y r
    ∙ rw low (
        ap (λ (b : ℕ). b * 2 ^ 31)
          (add_signs (x / 2 ^ 31) (r / 2 ^ 31) (omega arith) (omega arith)))

subtract_overflow :
    (x y r : ℕ)
    → x < 2 ^ 32
    → y < 2 ^ 31
    → r < 2 ^ 32
    → bit_and (bit_and (bit_xor x y) (bit_xor x r)) (2 ^ 31)
      ≡ x / 2 ^ 31 * (1 - r / 2 ^ 31) * 2 ^ 31
subtract_overflow x y r h k l =
    let low : y / 2 ^ 31 ≡ 0 = omega arith in
    top_bit x y x r
    ∙ rw low (
        ap (λ (b : ℕ). b * 2 ^ 31)
          (subtract_signs (x / 2 ^ 31) (r / 2 ^ 31) (omega arith) (omega arith)))

abbrev sum : ℕ → ℕ → ℕ
sum x y = (x + y) % 2 ^ 32

abbrev difference : ℕ → ℕ → ℕ
difference x y = (x + 2 ^ 32 - y) % 2 ^ 32

trimmed_add_lem :
    (x y : ℕ)
    → x < 2 ^ 32
    → y < 2 ^ 31
    → trimmed_add x y
      ≡ (if ltb x (2 ^ 31) && not (ltb (sum x y) (2 ^ 31)) then 0x7fff_ffff else sum x y)
unfolding trimmed_add
trimmed_add_lem x y h k = rw (add_overflow x y (sum x y) h k (omega arith)) (ground arith)

trimmed_subtract_lem :
    (x y : ℕ)
    → x < 2 ^ 32
    → y < 2 ^ 31
    → trimmed_subtract x y ≡ (
        if not (ltb x (2 ^ 31)) && ltb (difference x y) (2 ^ 31)
        then 0x8000_0000
        else difference x y)
unfolding trimmed_subtract
trimmed_subtract_lem x y h k =
    rw (subtract_overflow x y (difference x y) h k (omega arith)) (ground arith)

-- On signed numbers, counted from the lowest one, adding a number that is not negative stops at the
-- highest one.
pub flip-trimmed_add :
    (x y : ℕ) → x < 2 ^ 32 → y < 2 ^ 31 → flip (trimmed_add x y) ≡ min (flip x + y) (2 ^ 32 - 1)
unfolding flip
flip-trimmed_add x y h k = rw (trimmed_add_lem x y h k) (ground arith)

-- Counted so, subtracting a number that is not negative stops at 0, the lowest one.
pub flip-trimmed_subtract :
    (x y : ℕ) → x < 2 ^ 32 → y < 2 ^ 31 → flip (trimmed_subtract x y) ≡ flip x - y
unfolding flip
flip-trimmed_subtract x y h k = rw (trimmed_subtract_lem x y h k) (ground arith)

-- ===== src/Decimal/Loops.antt =====
-- What the loops of `parse` make of digits.
use libgeodesk.Common.{
  ℕ, zero, suc, ◌+◌, ◌-◌, ◌*◌, ◌/◌, ◌^◌, ◌≤◌, ◌<◌, ◌≡◌, ◌≢◌, ◌⊎◌, refl, ap, ◌∙◌, arith, ◌==◌, not,
  ◌||◌, Bool-cases, eq_false, ==_iff, ◌&&◌, inl, inr, true, false, some, List, [], ◌∷◌, ◌++◌, All,
  length, bit_and, Bool,
}
use libgeodesk.Common.Bits.{and_lowest, zero-and, double-field}
use native.Mathlib.Nat.{pow-succ'}
use libgeodesk.Decimal.{
  Scan, scan_start, dot, zero_digit, too_large, is_digit, scan_fraction, scan_whole,
}
use libgeodesk.Decimal.Digits.{IsDigit, value_from}

and_disjoint : (k q r : ℕ) → r < 2 ^ k → bit_and r (q * 2 ^ k) ≡ 0
and_disjoint zero q r h = let none : r ≡ 0 = omega arith in rw none (zero-and (q * 2 ^ 0))
and_disjoint (suc k) q r h = ground (
  arith,
  and_lowest r (q * 2 ^ suc k),
  double-field q k,
  pow-succ' 2 k,
  and_disjoint k q (r / 2) (omega (arith, pow-succ' 2 k)),
)

too_large-false : (v : ℕ) → v < 2 ^ 59 → too_large v ≡ false
unfolding too_large
too_large-false v h = rw (and_disjoint 59 31 v h) refl

is_digit-true : (ch : ℕ) → IsDigit ch → is_digit ch ≡ true
unfolding is_digit
is_digit-true ch h = ground arith

and-false : (z : Bool) → (z && not true) ≡ false
and-false true = refl
and-false false = refl

or-true : (z : Bool) → (z || true) ≡ true
or-true true = refl
or-true false = refl

pub le-value_from : (v : ℕ) (ds : List ℕ) → v ≤ value_from v ds
unfolding value_from
le-value_from v [] = omega arith
le-value_from v (ch ∷ p) = omega (arith, le-value_from (v * 10 + (ch - 48)) p)

pub scan_fraction_lem :
    (ds : List ℕ) (s : Scan)
    → All IsDigit ds
    → value_from s.value ds < 2 ^ 59
    → scan_fraction ds s
      ≡ some (record s { value = value_from s.value ds; places = s.places + length ds })
unfolding scan_fraction value_from
scan_fraction_lem [] s h small = ap some (ap (λ (n : ℕ). record s { places = n }) (omega arith))
scan_fraction_lem (ch ∷ p) s (digit, h) small =
    let v = s.value * 10 + (ch - 48) in
    let next : Scan = record s { value = v; places = s.places + 1 } in
    rw
      (
        is_digit-true ch digit,
        too_large-false v (omega (arith, le-value_from v p)),
        scan_fraction_lem p next h small,
      )
      (ap some (ap (λ (n : ℕ). record s { value = value_from v p; places = n }) (omega arith)))

-- A scan that has found nothing wrong yet.
abbrev pub reading : ℕ → ℕ → Bool → Bool → Bool → Scan
reading v n z nz d = record {
  value = v;
  places = n;
  seen_zero = z;
  seen_non_zero = nz;
  leading_zeroes = false;
  trailing_non_numeric = false;
  seen_dot = d;
}

scan_whole_zero :
    (p : List ℕ) (v : ℕ) (z nz : Bool)
    → (z && not nz) ≡ false
    → v * 10 < 2 ^ 59
    → scan_whole (zero_digit ∷ p) (reading v 0 z nz false)
      ≡ scan_whole p (reading (v * 10) 0 true nz false)
unfolding scan_whole
scan_whole_zero p v z nz e small = rw (e, too_large-false (v * 10) small) refl

scan_whole_digit :
    (ch : ℕ) (p : List ℕ) (v : ℕ) (z nz : Bool)
    → IsDigit ch
    → (ch == zero_digit) ≡ false
    → (z && not nz) ≡ false
    → v * 10 + (ch - 48) < 2 ^ 59
    → scan_whole (ch ∷ p) (reading v 0 z nz false)
      ≡ scan_whole p (reading (v * 10 + (ch - 48)) 0 z true false)
unfolding scan_whole
scan_whole_digit ch p v z nz digit other e small =
    let no_dot : (ch == dot) ≡ false = eq_false ch dot (omega arith) in
    rw (other, no_dot, is_digit-true ch digit, too_large-false (v * 10 + (ch - 48)) small, e) refl

-- Digits behind one that is not zero.
scan_whole-append :
    (ds tail : List ℕ) (v : ℕ) (z : Bool)
    → All IsDigit ds
    → value_from v ds < 2 ^ 59
    → (z' : Bool) × (scan_whole (ds ++ tail) (reading v 0 z true false)
        ≡ scan_whole tail (reading (value_from v ds) 0 z' true false))
unfolding value_from
scan_whole-append [] tail v z h small = (z, refl)
scan_whole-append (ch ∷ p) tail v z (digit, h) small = elim (Bool-cases (ch == zero_digit)) [
  | inl e ↦
      let same : ch ≡ 48 = (==_iff ch zero_digit).0 e in
      let grown : v * 10 ≡ v * 10 + (ch - 48) = omega arith in
      let (z', rest) = scan_whole-append p tail (v * 10 + (ch - 48)) true h small in
      (
        z',
        ap (λ (c : ℕ). scan_whole (c ∷ (p ++ tail)) (reading v 0 z true false)) same
            ∙ scan_whole_zero (p ++ tail) v z true (and-false z)
                (omega (arith, le-value_from (v * 10 + (ch - 48)) p))
            ∙ ap (λ (n : ℕ). scan_whole (p ++ tail) (reading n 0 true true false)) grown
            ∙ rest,
      )
  | inr e ↦
      let (z', rest) = scan_whole-append p tail (v * 10 + (ch - 48)) z h small in
      (
        z',
        scan_whole_digit ch (p ++ tail) v z true digit e (and-false z)
              (omega (arith, le-value_from (v * 10 + (ch - 48)) p))
            ∙ rest,
      )
]

-- The digits in front of a dot: some digit is seen, and no zero in front of others.
pub scan_whole_lem :
    (c : ℕ) (others tail : List ℕ)
    → All IsDigit (c ∷ others)
    → ((c ≡ 48) × (others ≡ [])) ⊎ (c ≢ 48)
    → value_from 0 (c ∷ others) < 2 ^ 59
    → (z : Bool) × (nz : Bool) × (scan_whole (c ∷ (others ++ tail)) scan_start
        ≡ scan_whole tail (reading (value_from 0 (c ∷ others)) 0 z nz false))
      × ((z || nz) ≡ true)
unfolding value_from
scan_whole_lem c others tail (digit, h) (inl (e, none)) small =
    rw (e, none) (true, false, scan_whole_zero tail 0 false false refl (omega arith), refl)
scan_whole_lem c others tail (digit, h) (inr ne) small =
    let (z, rest) = scan_whole-append others tail (0 * 10 + (c - 48)) false h small in
    (
      z,
      true,
      scan_whole_digit c (others ++ tail) 0 false false digit (eq_false c zero_digit ne) refl
            (omega (arith, le-value_from (0 * 10 + (c - 48)) others))
          ∙ rest,
      or-true z,
    )

pub scan_whole-dot :
    (p : List ℕ) (s : Scan)
    → scan_whole (dot ∷ p) s ≡ scan_fraction p (record s { seen_dot = true })
unfolding scan_whole
scan_whole-dot p s = refl

pub scan_whole_end : (s : Scan) → scan_whole [] s ≡ some s
unfolding scan_whole
scan_whole_end s = refl

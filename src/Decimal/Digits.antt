-- ===== src/Decimal/Digits.antt =====
-- The digits of a number.
use libgeodesk.Common.{
  ℕ, zero, suc, ◌+◌, ◌-◌, ◌*◌, ◌/◌, ◌%◌, ◌^◌, ◌≤◌, ◌<◌, ◌≡◌, ◌≢◌, ◌⊎◌, refl, ap, sym, ◌∙◌, arith,
  ◌==◌, Bool-cases, inl, inr, true, false, List, [], ◌∷◌, ◌++◌, All, ==_iff,
}
use mathlib.Core.List.{append_assoc}
use native.Mathlib.Nat.{pow-succ'}
use libgeodesk.Decimal.{zero_digit, digits_loop, unsigned_integer_reverse}

-- A digit, and the number that digits stand for behind one that is already read.
abbrev pub IsDigit : ℕ → Type 0
IsDigit ch = (48 ≤ ch) × (ch ≤ 57)

unfoldable pub value_from : ℕ → List ℕ → ℕ
value_from v [] = v
value_from v (ch ∷ p) = value_from (v * 10 + (ch - 48)) p

pub value_from-append :
    (v : ℕ) (xs ys : List ℕ) → value_from v (xs ++ ys) ≡ value_from (value_from v xs) ys
unfolding value_from
value_from-append v [] ys = refl
value_from-append v (x ∷ xs) ys = value_from-append (v * 10 + (x - 48)) xs ys

-- Digits that stand for d and have no zero in front, unless d is 0.
pub record AreDigits (d : ℕ) (ds : List ℕ) : Type 0 where
  pub digits : All IsDigit ds
  pub value : value_from 0 ds ≡ d
  pub first : ℕ
  pub others : List ℕ
  pub parts : ds ≡ first ∷ others
  pub canonical : ((d ≡ 0) × (others ≡ [])) ⊎ (first ≢ 48)

module _ (P : ℕ → Type 0) where
  pub All-append : (xs ys : List ℕ) → All P xs → All P ys → All P (xs ++ ys)
  All-append [] ys h k = k
  All-append (x ∷ xs) ys (h, hs) k = (h, All-append xs ys hs k)

digits_loop-append : (n d : ℕ) (end : List ℕ) → digits_loop n d end ≡ digits_loop n d [] ++ end
unfolding digits_loop
digits_loop-append zero d end = refl
digits_loop-append (suc n) d end = elim (Bool-cases (d / 10 == 0)) [
  | inl e ↦ rw e refl
  | inr e ↦ rw e (
      digits_loop-append n (d / 10) ((zero_digit + d % 10) ∷ end)
      ∙ sym (append_assoc (digits_loop n (d / 10) []) ((zero_digit + d % 10) ∷ []) end)
      ∙ ap (λ (xs : List ℕ). xs ++ end)
          (sym (digits_loop-append n (d / 10) ((zero_digit + d % 10) ∷ []))))
]

some_left : (d : ℕ) → (d / 10 == 0) ≡ false → ¬ (d / 10 ≡ 0)
some_left d e h = ground arith

none_left : (d : ℕ) → (d / 10 == 0) ≡ true → d < 10
none_left d e = ground arith

one-AreDigits : (d : ℕ) → d < 10 → AreDigits d ((zero_digit + d % 10) ∷ [])
unfolding value_from
one-AreDigits d h = record {
  digits = ((omega arith, omega arith), tt);
  value = omega arith;
  first = zero_digit + d % 10;
  others = [];
  parts = refl;
  canonical = elim (Bool-cases (d == 0)) [
    | inl e ↦ inl ((==_iff d 0).0 e, refl)
    | inr e ↦ inr (ground arith)
  ];
}

snoc-AreDigits :
    (d : ℕ) (ds : List ℕ)
    → (d / 10 == 0) ≡ false
    → AreDigits (d / 10) ds
    → AreDigits d (ds ++ (zero_digit + d % 10) ∷ [])
unfolding value_from
snoc-AreDigits d ds e h = record {
  digits =
      All-append IsDigit ds ((zero_digit + d % 10) ∷ []) h.digits ((omega arith, omega arith), tt);
  value = value_from-append 0 ds ((zero_digit + d % 10) ∷ []) ∙ omega (arith, h.value);
  first = h.first;
  others = h.others ++ (zero_digit + d % 10) ∷ [];
  parts = ap (λ (xs : List ℕ). xs ++ (zero_digit + d % 10) ∷ []) h.parts;
  canonical = elim h.canonical [ inl (none, _) ↦ absurd (some_left d e none) | inr c ↦ inr c ];
}

digits_loop-AreDigits : (n d : ℕ) → d < 10 ^ suc n → AreDigits d (digits_loop (suc n) d [])
unfolding digits_loop value_from
digits_loop-AreDigits zero d h = elim (Bool-cases (d / 10 == 0)) [
  | inl e ↦ rw e (one-AreDigits d (none_left d e))
  | inr e ↦ absurd (some_left d e (omega arith))
]
digits_loop-AreDigits (suc n) d h = elim (Bool-cases (d / 10 == 0)) [
  | inl e ↦ rw e (one-AreDigits d (none_left d e))
  | inr e ↦
      let rest = digits_loop-AreDigits n (d / 10) (omega (arith, pow-succ' 10 (suc n))) in
      rw (e, digits_loop-append (suc n) (d / 10) ((zero_digit + d % 10) ∷ []))
        (snoc-AreDigits d (digits_loop (suc n) (d / 10) []) e rest)
]

-- The digits that are printed for a number of 64 bits.
pub unsigned_integer_reverse-AreDigits :
    (d : ℕ) → d < 2 ^ 64 → AreDigits d (unsigned_integer_reverse d [])
unfolding unsigned_integer_reverse
unsigned_integer_reverse-AreDigits d h = digits_loop-AreDigits 19 d (omega arith)

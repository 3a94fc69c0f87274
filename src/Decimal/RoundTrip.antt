-- ===== src/Decimal/RoundTrip.antt =====
-- A decimal number that is printed and read.
use libgeodesk.Common.{
  ℕ, ◌+◌, ◌-◌, ◌*◌, ◌/◌, ◌%◌, ◌^◌, ◌≤◌, ◌<◌, ◌≡◌, refl, ap, sym, ◌∙◌, arith, ◌==◌, ltb, ltb→lt,
  lt→ltb, ltb-false, eq_false, ◌&&◌, Bool-cases, inl, inr, true, false, List, [], ◌∷◌, ◌++◌, length,
  Bool, if◌then◌else◌, take, drop,
}
use libgeodesk.Common.Bits.{or_fields, and_ones}
use libgeodesk.Decimal.{
  dot, minus, plus, zero_digit, invalid, zeroes, parse_unsigned, parse, format_unsigned, format,
  decimal, mantissa, scale, unsigned_integer_reverse,
}
use libgeodesk.Decimal.Digits.{IsDigit, unsigned_integer_reverse-AreDigits}
use libgeodesk.Decimal.Format.{cut_front, parse_unsigned-format_unsigned}

-- A number of 60 bits stands above the scale.
decimal_lem : (m n : ℕ) → n ≤ 15 → decimal m n ≡ m % 2 ^ 60 * 16 + n
unfolding decimal
decimal_lem m n few =
    let q : m * 16 % 2 ^ 64 ≡ m % 2 ^ 60 * 2 ^ 4 = omega arith in
    rw q (or_fields 4 (m % 2 ^ 60) n (omega arith))

scale-decimal : (m n : ℕ) → n ≤ 15 → scale (decimal m n) ≡ n
unfolding scale
scale-decimal m n few = and_ones 4 (decimal m n) ∙ omega (arith, decimal_lem m n few)

-- Printed digits start with a digit.
starts :
    (v n : ℕ) → v < 2 ^ 64 → (c : ℕ) × (cs : List ℕ) × (format_unsigned v n ≡ c ∷ cs) × IsDigit c
unfolding format_unsigned
starts v n small =
    let h = unsigned_integer_reverse-AreDigits v small in
    let start = unsigned_integer_reverse v [] in
    let (digit, _) = rw h.parts at h.digits in
    elim (Bool-cases (n == 0)) [
      | inl e ↦ (h.first, h.others, rw e h.parts, digit)
      | inr e ↦ elim (Bool-cases (ltb n (length start))) [
        | inl e' ↦
            let k = length start - n in
            (
              h.first,
              take (k - 1) h.others ++ (dot ∷ drop (k - 1) h.others),
              rw (e, e')
                  (ap (λ (xs : List ℕ). take k xs ++ (dot ∷ drop k xs)) h.parts
                    ∙ cut_front h.first h.others k (omega (arith, ltb→lt n (length start) e'))),
              digit,
            )
        | inr e' ↦ (
          zero_digit,
          dot ∷ (zeroes (n - length start) ++ start),
          rw (e, e') refl,
          (omega arith, omega arith),
        )
      ]
    ]

module _ (v n : ℕ) (strict : Bool) (small : v < 2 ^ 59) (few : n ≤ 15) where
  parse-format_positive : parse (format (decimal v n)) strict ≡ decimal v n
  unfolding format parse mantissa decimal
  parse-format_positive =
      let value = decimal_lem v n few in
      let sound = eq_false (decimal v n) invalid (omega (arith, value)) in
      let low = lt→ltb (decimal v n) (2 ^ 63) (omega (arith, value)) in
      let whole : decimal v n / 16 + 0 ≡ v = omega (arith, value) in
      let digits = lt→ltb v (2 ^ 63) (omega arith) in
      let (c, cs, start, digit) = starts v n (omega arith) in
      let no_minus = eq_false c minus (omega arith) in
      let no_plus = eq_false c plus (omega arith) in
      rw (sound, low, whole, digits, scale-decimal v n few, start, no_minus, no_plus)
        (ap (parse_unsigned strict false) (sym start)
          ∙ parse_unsigned-format_unsigned strict false v n small few (ground arith))

  parse-format_negative :
      1 ≤ v → parse (format (decimal (2 ^ 64 - v) n)) strict ≡ decimal (2 ^ 64 - v) n
  unfolding format parse mantissa decimal
  parse-format_negative pos =
      let m = 2 ^ 64 - v in
      let value = decimal_lem m n few in
      let sound = eq_false (decimal m n) invalid (omega (arith, value)) in
      let high = ltb-false (decimal m n) (2 ^ 63) (omega (arith, value)) in
      let whole : decimal m n / 16 + 15 * 2 ^ 60 ≡ m = omega (arith, value) in
      let negative = ltb-false m (2 ^ 63) (omega arith) in
      let back : 2 ^ 64 - m ≡ v = omega arith in
      let (c, cs, start, digit) = starts v n (omega arith) in
      let no_zero : (v == 0) ≡ false = eq_false v 0 (omega arith) in
      rw (sound, high, whole, negative, back, scale-decimal m n few, start)
        (ap (parse_unsigned strict true) (sym start)
          ∙ parse_unsigned-format_unsigned strict true v n small few (rw no_zero refl))

-- What `format` prints, `parse` reads back, strict or not: for every scale up to 15 and every mantissa
-- whose absolute value v is below 2 ^ 59, where 0 has no sign.
pub parse-format :
    (v n : ℕ) (negative strict : Bool)
    → v < 2 ^ 59
    → n ≤ 15
    → (v == 0 && negative) ≡ false
    → parse (format (decimal (if negative then 2 ^ 64 - v else v) n)) strict
      ≡ decimal (if negative then 2 ^ 64 - v else v) n
parse-format v n true strict small few signed_zero =
    parse-format_negative v n strict small few (ground arith)
parse-format v n false strict small few signed_zero = parse-format_positive v n strict small few

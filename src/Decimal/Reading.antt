-- ===== src/Decimal/Reading.antt =====
-- A string that is read, printed and read again.
use libgeodesk.Common.{
  ℕ, zero, suc, ◌^◌, ◌≤◌, ◌<◌, ◌≡◌, ◌⊎◌, refl, arith, ◌==◌, ltb, not, ◌||◌, ◌&&◌, Bool-cases, inl,
  inr, true, false, none, some, Option, List, [], ◌∷◌, Bool, if◌then◌else◌,
}
use libgeodesk.Decimal.{
  Scan, scan_start, minus, plus, invalid, scan_whole, finish, finish_scan, parse_unsigned,
  parse_signed, parse, format, decimal,
}
use libgeodesk.Decimal.Format.{signed}
use libgeodesk.Decimal.RoundTrip.{parse-format}
use libgeodesk.Decimal.Range.{IsSmall, scan_whole-IsSmall}

-- The number is invalid, or stays the same when it is printed and read.
abbrev Kept : Bool → ℕ → Type 0
Kept again x = (x ≡ invalid) ⊎ (parse (format x) again ≡ x)

module _ (again : Bool) where
  signed-Kept : (v n : ℕ) (negative : Bool) → v < 2 ^ 59 → n ≤ 15 → Kept again (signed negative v n)
  unfolding decimal
  signed-Kept zero n true small few = inr (parse-format 0 n false again small few refl)
  signed-Kept zero n false small few = inr (parse-format 0 n false again small few refl)
  signed-Kept (suc v) n negative small few =
      inr (parse-format (suc v) n negative again small few (ground arith))

  finish-Kept :
      (strict negative : Bool) (s : Scan) → s.value < 2 ^ 59 → Kept again (finish strict negative s)
  unfolding finish
  finish-Kept strict negative s small =
      let no_digits = s.places == 0 || not s.seen_zero && not s.seen_non_zero in
      let refused =
        strict
        && (s.trailing_non_numeric
            || (s.seen_dot && no_digits || (s.leading_zeroes || s.value == 0 && negative))) in
      elim (Bool-cases refused) [
        | inl e ↦ rw e (inl refl)
        | inr e ↦ elim (Bool-cases (ltb 15 s.places)) [
          | inl many ↦ rw (e, many) (inl refl)
          | inr few ↦ rw (e, few) (signed-Kept s.value s.places negative small (ground arith))
        ]
      ]

  finish_scan-Kept :
      (strict negative : Bool) (s : Option Scan)
      → IsSmall s
      → Kept again (finish_scan strict negative s)
  finish_scan-Kept strict negative none h = inl refl
  finish_scan-Kept strict negative (some s) h = finish-Kept strict negative s h

  parse_unsigned-Kept :
      (strict negative : Bool) (p : List ℕ) → Kept again (parse_unsigned strict negative p)
  parse_unsigned-Kept strict negative p =
      finish_scan-Kept strict negative (scan_whole p scan_start)
        (scan_whole-IsSmall p scan_start (omega arith))

  parse_signed-Kept :
      (strict negative : Bool) (p : List ℕ) → Kept again (parse_signed strict negative p)
  parse_signed-Kept strict negative [] = inl refl
  parse_signed-Kept strict negative (c ∷ p) = parse_unsigned-Kept strict negative (c ∷ p)

  parse_plus-Kept :
      (p : List ℕ) (strict : Bool)
      → Kept again (if strict then invalid else parse_signed strict false p)
  parse_plus-Kept p true = inl refl
  parse_plus-Kept p false = parse_signed-Kept false false p

  parse-Kept : (p : List ℕ) (strict : Bool) → Kept again (parse p strict)
  unfolding parse
  parse-Kept [] strict = inl refl
  parse-Kept (ch ∷ p) strict = elim (Bool-cases (ch == minus)) [
    | inl e ↦ rw e (parse_signed-Kept strict true p)
    | inr no_minus ↦ elim (Bool-cases (ch == plus)) [
      | inl e ↦ rw (no_minus, e) (parse_plus-Kept p strict)
      | inr no_plus ↦ rw (no_minus, no_plus) (parse_unsigned-Kept strict false (ch ∷ p))
    ]
  ]

-- What `parse` makes of a string, strict or not, is `INVALID`, or it stays the same when `format` prints
-- it and `parse` reads it again, strict or not.
pub format-parse :
    (p : List ℕ) (strict again : Bool)
    → (parse p strict ≡ invalid) ⊎ (parse (format (parse p strict)) again ≡ parse p strict)
format-parse p strict again = parse-Kept again p strict

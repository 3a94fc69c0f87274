-- ===== src/Decimal/Range.antt =====
-- What `parse` returns for any string.
use libgeodesk.Common.{
  ℕ, zero, suc, ◌+◌, ◌-◌, ◌*◌, ◌/◌, ◌^◌, ◌≤◌, ◌<◌, ◌≡◌, sym, arith, ◌==◌, ==_iff, not, ◌||◌, ◌&&◌,
  Bool-cases, inl, inr, true, false, none, some, Option, List, [], ◌∷◌, bit_and,
}
use libgeodesk.Common.Bits.{and_lowest, and_ones, double-field, div-pow-suc}
use native.Mathlib.Nat.{div-one}
use libgeodesk.Decimal.{Scan, dot, zero_digit, too_large, is_digit, scan_fraction, scan_whole}
use libgeodesk.Decimal.Format.{}

one_fold : (q : ℕ) → q ≡ q * 2 ^ 0
one_fold q = omega arith

and_high : (k q v : ℕ) → bit_and v (q * 2 ^ k) ≡ bit_and (v / 2 ^ k) q * 2 ^ k
and_high zero q v = rw (div-one v, sym (one_fold q)) (one_fold (bit_and v q))
and_high (suc k) q v = ground (
  arith,
  and_lowest v (q * 2 ^ suc k),
  double-field q k,
  double-field (bit_and (v / 2 ^ suc k) q) k,
  div-pow-suc v k,
  and_high k q (v / 2),
)

too_large-small : (v : ℕ) → v < 2 ^ 64 → too_large v ≡ false → v < 2 ^ 59
unfolding too_large
too_large-small v below h =
    let top = and_high 59 31 v in
    let kept = and_ones 5 (v / 2 ^ 59) in
    let none_set : bit_and v 0xf800_0000_0000_0000 ≡ 0 = grind (arith, ==_iff) in
    omega (arith, top, kept, none_set)

-- The scan holds a number below 2 ^ 59.
abbrev pub IsSmall : Option Scan → Type 0
IsSmall none = Unit
IsSmall (some s) = s.value < 2 ^ 59

is_digit-small : (ch : ℕ) → is_digit ch ≡ true → ch ≤ 57
unfolding is_digit
is_digit-small ch e = ground arith

scan_fraction-IsSmall : (p : List ℕ) (s : Scan) → s.value < 2 ^ 59 → IsSmall (scan_fraction p s)
unfolding scan_fraction
scan_fraction-IsSmall [] s h = h
scan_fraction-IsSmall (ch ∷ p) s h =
    let v = s.value * 10 + (ch - zero_digit) in
    elim (Bool-cases (is_digit ch)) [
      | inr e ↦ rw e h
      | inl e ↦ elim (Bool-cases (too_large v)) [
        | inl over ↦ rw (e, over) tt
        | inr fits ↦
            rw (e, fits)
              (scan_fraction-IsSmall p (record s { value = v; places = s.places + 1 })
                (too_large-small v (omega (arith, is_digit-small ch e)) fits))
      ]
    ]

pub scan_whole-IsSmall : (p : List ℕ) (s : Scan) → s.value < 2 ^ 59 → IsSmall (scan_whole p s)
unfolding scan_whole
scan_whole-IsSmall [] s h = h
scan_whole-IsSmall (ch ∷ p) s h =
    let v = s.value * 10 + (ch - zero_digit) in
    let leading = s.leading_zeroes || s.seen_zero && not s.seen_non_zero in
    elim (Bool-cases (ch == zero_digit)) [
      | inl zero_here ↦ elim (Bool-cases (too_large (s.value * 10))) [
        | inl over ↦ rw (zero_here, over) tt
        | inr fits ↦
            rw (zero_here, fits)
              (scan_whole-IsSmall p
                (record s { value = s.value * 10; leading_zeroes = leading; seen_zero = true })
                (too_large-small (s.value * 10) (omega arith) fits))
      ]
      | inr other ↦ elim (Bool-cases (ch == dot)) [
        | inl dot_here ↦
            rw (other, dot_here) (scan_fraction-IsSmall p (record s { seen_dot = true }) h)
        | inr no_dot ↦ elim (Bool-cases (is_digit ch)) [
          | inr e ↦ rw (other, no_dot, e) h
          | inl e ↦ elim (Bool-cases (too_large v)) [
            | inl over ↦ rw (other, no_dot, e, over) tt
            | inr fits ↦
                rw (other, no_dot, e, fits)
                  (scan_whole-IsSmall p
                    (record s { value = v; leading_zeroes = leading; seen_non_zero = true })
                    (too_large-small v (omega (arith, is_digit-small ch e)) fits))
          ]
        ]
      ]
    ]

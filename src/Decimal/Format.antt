-- ===== src/Decimal/Format.antt =====
-- What `format` prints, `parse` reads.
use libgeodesk.Common.{
  ℕ, zero, suc, ◌+◌, ◌-◌, ◌*◌, ◌%◌, ◌^◌, ◌≤◌, ◌<◌, ◌≡◌, ◌≢◌, ◌⊎◌, refl, ap, ap₂, eq_false,
  ltb-false, sym, ◌∙◌, arith, ◌==◌, ltb, not, ◌||◌, ◌&&◌, Bool-cases, ltb→lt, ==_iff, inl, inr,
  true, false, List, [], ◌∷◌, ◌++◌, All, length, bit_or, Bool, if◌then◌else◌, take, drop,
  take-append-drop, length-drop, length-append,
}
use mathlib.Core.List.{append-nil}
use libgeodesk.Decimal.{
  zeroes, finish_scan, dot, minus, zero_digit, finish, parse_unsigned, format_unsigned,
  unsigned_integer_reverse,
}
use libgeodesk.Decimal.Digits.{
  IsDigit, All-append, value_from, value_from-append, unsigned_integer_reverse-AreDigits,
}
use libgeodesk.Decimal.Loops.{
  reading, scan_whole_lem, scan_fraction_lem, le-value_from, scan_whole-dot, scan_whole_end,
}

-- The pattern of a number with a sign and some decimal places.
abbrev pub signed : Bool → ℕ → ℕ → ℕ
signed negative v n = bit_or ((if negative then 2 ^ 64 - v else v) * 16 % 2 ^ 64) n

All-zeroes : (k : ℕ) → All IsDigit (zeroes k)
unfolding zeroes
All-zeroes zero = tt
All-zeroes (suc k) = ((omega arith, omega arith), All-zeroes k)

length-zeroes : (k : ℕ) → length (zeroes k) ≡ k
unfolding zeroes
length-zeroes zero = refl
length-zeroes (suc k) = ap suc (length-zeroes k)

value_from-zeroes : (k : ℕ) (ds : List ℕ) → value_from 0 (zeroes k ++ ds) ≡ value_from 0 ds
unfolding zeroes value_from
value_from-zeroes zero ds = refl
value_from-zeroes (suc k) ds = value_from-zeroes k ds

-- A list with its first member, cut behind it.
pub cut_front :
    (c : ℕ) (others : List ℕ) (k : ℕ)
    → 1 ≤ k
    → take k (c ∷ others) ++ (dot ∷ drop k (c ∷ others))
      ≡ c ∷ (take (k - 1) others ++ (dot ∷ drop (k - 1) others))
cut_front c others zero pos = absurd (omega arith)
cut_front c others (suc k) pos =
    ap (λ (m : ℕ). c ∷ (take m others ++ (dot ∷ drop m others))) (omega arith)

All-take :
    (k : ℕ) (ds : List ℕ) → All IsDigit ds → All IsDigit (take k ds) × All IsDigit (drop k ds)
All-take zero ds h = (tt, h)
All-take (suc k) [] h = (tt, tt)
All-take (suc k) (x ∷ ds) (h, hs) = let (front, behind) = All-take k ds hs in ((h, front), behind)

only_one :
    (n : ℕ) (others ds : List ℕ) (c : ℕ) → ds ≡ c ∷ others → others ≡ [] → n < length ds → 1 ≤ n → ⊥
only_one n others ds c parts none longer some_places =
    omega (arith, ap length parts, ap length none)

pub positive : (n : ℕ) → (n == 0) ≡ false → 1 ≤ n
positive n e = ground arith

pub not_ltb : (a b : ℕ) → ltb a b ≡ false → b ≤ a
not_ltb a b e = ground arith

no_fault :
    (strict d p z nz m : Bool)
    → (z || nz) ≡ true
    → (d && p) ≡ false
    → m ≡ false
    → (strict && (d && (p || not z && not nz) || m)) ≡ false
no_fault strict d p z nz m seen places minus = ground arith

module _ (strict negative : Bool) (v n : ℕ) (small : v < 2 ^ 59) (few : n ≤ 15)
    (not_minus_zero : (v == 0 && negative) ≡ false) where
  finish_lem :
      (z nz d : Bool)
      → (z || nz) ≡ true
      → (d && n == 0) ≡ false
      → finish strict negative (reading v n z nz d) ≡ signed negative v n
  unfolding finish
  finish_lem z nz d seen places =
      rw
        (
          no_fault strict d (n == 0) z nz (v == 0 && negative) seen places not_minus_zero,
          ltb-false 15 n (omega arith),
        )
        refl

  whole_only :
      (c : ℕ) (others : List ℕ)
      → All IsDigit (c ∷ others)
      → ((c ≡ 48) × (others ≡ [])) ⊎ (c ≢ 48)
      → value_from 0 (c ∷ others) ≡ v
      → n ≡ 0
      → parse_unsigned strict negative (c ∷ others) ≡ signed negative v n
  whole_only c others digits canonical value none =
      let (z, nz, front, seen) = scan_whole_lem c others [] digits canonical (omega arith) in
      ap (λ (p : List ℕ). parse_unsigned strict negative (c ∷ p)) (sym (append-nil others))
      ∙ ap (finish_scan strict negative) (front ∙ scan_whole_end _)
      ∙ ap₂ (λ (a b : ℕ). finish strict negative (reading a b z nz false)) value (sym none)
      ∙ finish_lem z nz false seen refl

  with_fraction :
      (c : ℕ) (others frac : List ℕ)
      → All IsDigit (c ∷ others)
      → ((c ≡ 48) × (others ≡ [])) ⊎ (c ≢ 48)
      → All IsDigit frac
      → value_from (value_from 0 (c ∷ others)) frac ≡ v
      → length frac ≡ n
      → 1 ≤ n
      → parse_unsigned strict negative (c ∷ (others ++ (dot ∷ frac))) ≡ signed negative v n
  with_fraction c others frac digits canonical places value long some_places =
      let (z, nz, front, seen) =
        scan_whole_lem c others (dot ∷ frac) digits canonical
          (omega (arith, le-value_from (value_from 0 (c ∷ others)) frac)) in
      let behind =
        scan_fraction_lem frac (reading (value_from 0 (c ∷ others)) 0 z nz true) places
          (omega arith) in
      ap (finish_scan strict negative)
        (front ∙ scan_whole-dot frac (reading (value_from 0 (c ∷ others)) 0 z nz false) ∙ behind)
      ∙ ap₂ (λ (a b : ℕ). finish strict negative (reading a b z nz true)) value (omega arith)
      ∙ finish_lem z nz true seen (eq_false n 0 (omega arith))

  canonical_number :
      (first : ℕ) (others : List ℕ)
      → ((v ≡ 0) × (others ≡ [])) ⊎ (first ≢ 48)
      → IsDigit first
      → value_from 0 (first ∷ others) ≡ v
      → ((first ≡ 48) × (others ≡ [])) ⊎ (first ≢ 48)
  unfolding value_from
  canonical_number first others (inl (e, none)) digit value =
      inl (zero_first first digit (rw none at value ∙ e), none)
    where
      zero_first : (c : ℕ) → IsDigit c → 0 + (c - 48) ≡ 0 → c ≡ 48
      zero_first c digit e = omega arith
  canonical_number first others (inr ne) digit value = inr ne

  -- The dot stands among the digits.
  inside :
      (ds : List ℕ) (c : ℕ) (others : List ℕ)
      → ds ≡ c ∷ others
      → All IsDigit (c ∷ others)
      → ((c ≡ 48) × (others ≡ [])) ⊎ (c ≢ 48)
      → value_from 0 (c ∷ others) ≡ v
      → 1 ≤ n
      → n < length ds
      → parse_unsigned strict negative (take (length ds - n) ds ++ (dot ∷ drop (length ds - n) ds))
        ≡ signed negative v n
  inside ds c others parts (digit, digits) canonical value some_places longer =
      let k = length ds - n in
      let size = ap length parts in
      let (front, behind) = All-take (k - 1) others digits in
      let whole = take-append-drop (k - 1) others in
      ap (λ (xs : List ℕ). parse_unsigned strict negative (take k xs ++ (dot ∷ drop k xs))) parts
      ∙ ap (parse_unsigned strict negative) (cut_front c others k (omega arith))
      ∙ with_fraction c (take (k - 1) others) (drop (k - 1) others) (digit, front)
          (elim canonical [
            | inl (_, none) ↦ absurd (only_one n others (ds) c parts none longer some_places)
            | inr ne ↦ inr ne
          ])
          behind
          (sym (value_from-append 0 (c ∷ take (k - 1) others) (drop (k - 1) others))
            ∙ ap (λ (xs : List ℕ). value_from 0 (c ∷ xs)) whole
            ∙ value)
          (omega (arith, length-drop (k - 1) others, size)) some_places

  pub parse_unsigned-format_unsigned :
      parse_unsigned strict negative (format_unsigned v n) ≡ signed negative v n
  unfolding format_unsigned value_from
  parse_unsigned-format_unsigned =
      let h = unsigned_integer_reverse-AreDigits v (omega arith) in
      let start = unsigned_integer_reverse v [] in
      let (digit, digits) = rw h.parts at h.digits in
      let value = rw h.parts at h.value in
      let canonical = canonical_number h.first h.others h.canonical digit value in
      elim (Bool-cases (n == 0)) [
        | inl e ↦
            rw (e, h.parts)
              (whole_only h.first h.others (digit, digits) canonical value ((==_iff n 0).0 e))
        | inr e ↦ elim (Bool-cases (ltb n (length start))) [
          | inl e' ↦
              rw (e, e')
                (inside start h.first h.others h.parts (digit, digits) canonical value
                  (positive n e) (ltb→lt n (length start) e'))
          | inr e' ↦
              rw (e, e')
                (with_fraction zero_digit [] (zeroes (n - length start) ++ start)
                  ((omega arith, omega arith), tt) (inl (refl, refl))
                  (All-append IsDigit (zeroes (n - length start)) start
                    (All-zeroes (n - length start)) h.digits)
                  (value_from-zeroes (n - length start) start ∙ h.value)
                  (length-append (zeroes (n - length start)) start
                    ∙ omega (arith, length-zeroes (n - length start), not_ltb n (length start) e'))
                  (positive n e))
        ]
      ]

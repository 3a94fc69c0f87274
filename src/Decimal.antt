-- ===== src/Decimal.antt =====
-- include/clarisma/math/Decimal.h, src/clarisma/math/Decimal.cpp: decimal numbers, whose pattern of 64
-- bits holds a mantissa above a scale of 4 bits. A string is the list of its bytes.
pub mod Digits
pub mod Loops
pub mod Format
pub mod RoundTrip
pub mod Range
pub mod Reading
mod Tests
use libgeodesk.Common.{
  ℕ, zero, suc, ◌+◌, ◌-◌, ◌*◌, ◌/◌, ◌%◌, ◌^◌, bit_and, bit_or, ltb, ◌==◌, ◌&&◌, ◌||◌, not, Bool,
  true, false, if◌then◌else◌, Option, none, some, List, [], ◌∷◌, ◌++◌, length, take, drop,
}

-- `INT64_MIN`
abbrev pub invalid : ℕ
invalid = 2 ^ 63

-- The bytes `-`, `+`, `.` and `0`.
abbrev pub minus : ℕ
minus = 45

abbrev pub plus : ℕ
plus = 43

abbrev pub dot : ℕ
dot = 46

abbrev pub zero_digit : ℕ
zero_digit = 48

-- The constructor from a mantissa, the pattern of an `int64_t`.
pub decimal : ℕ → ℕ → ℕ
decimal mantissa scale = bit_or (mantissa * 16 % 2 ^ 64) scale

pub mantissa : ℕ → ℕ
mantissa value = value / 16 + (if ltb value (2 ^ 63) then 0 else 15 * 2 ^ 60)

pub scale : ℕ → ℕ
scale value = bit_and value 15

-- The variables of `parse`, but for the sign.
pub record Scan : Type 0 where
  pub value : ℕ
  pub places : ℕ
  pub seen_zero : Bool
  pub seen_non_zero : Bool
  pub leading_zeroes : Bool
  pub trailing_non_numeric : Bool
  pub seen_dot : Bool

abbrev pub scan_start : Scan
scan_start = record {
  value = 0;
  places = 0;
  seen_zero = false;
  seen_non_zero = false;
  leading_zeroes = false;
  trailing_non_numeric = false;
  seen_dot = false;
}

pub too_large : ℕ → Bool
too_large value = not (bit_and value 0xf800_0000_0000_0000 == 0)

pub is_digit : ℕ → Bool
is_digit ch = not (ltb ch zero_digit || ltb 57 ch)

-- The loop behind a dot; `none` for `return INVALID`.
pub scan_fraction : List ℕ → Scan → Option Scan
scan_fraction [] s = some s
scan_fraction (ch ∷ p) s =
    let next : Scan = record s {
      value = s.value * 10 + (ch - zero_digit);
      places = s.places + 1;
    } in
    let rest = scan_fraction p next in
    if is_digit ch
    then (if too_large next.value then none else rest)
    else some (record s { trailing_non_numeric = true })

-- The loop in front of a dot.
pub scan_whole : List ℕ → Scan → Option Scan
scan_whole [] s = some s
scan_whole (ch ∷ p) s =
    let leading = s.leading_zeroes || s.seen_zero && not s.seen_non_zero in
    let after_zero : Scan = record s {
      value = s.value * 10;
      leading_zeroes = leading;
      seen_zero = true;
    } in
    let after_digit : Scan = record s {
      value = s.value * 10 + (ch - zero_digit);
      leading_zeroes = leading;
      seen_non_zero = true;
    } in
    let zero_rest = scan_whole p after_zero in
    let digit_rest = scan_whole p after_digit in
    if ch == zero_digit
    then (if too_large after_zero.value then none else zero_rest)
    else (if ch == dot
        then scan_fraction p (record s { seen_dot = true })
        else (if is_digit ch
            then (if too_large after_digit.value then none else digit_rest)
            else some (record s { trailing_non_numeric = true })))

-- The checks behind the loops.
pub finish : Bool → Bool → Scan → ℕ
finish strict negative s =
    let no_digits = s.places == 0 || not s.seen_zero && not s.seen_non_zero in
    if strict
      && (s.trailing_non_numeric
          || (s.seen_dot && no_digits || (s.leading_zeroes || s.value == 0 && negative)))
    then invalid
    else (if ltb 15 s.places
        then invalid
        else bit_or ((if negative then 2 ^ 64 - s.value else s.value) * 16 % 2 ^ 64) s.places)

abbrev pub finish_scan : Bool → Bool → Option Scan → ℕ
finish_scan strict negative none = invalid
finish_scan strict negative (some s) = finish strict negative s

abbrev pub parse_unsigned : Bool → Bool → List ℕ → ℕ
parse_unsigned strict negative p = finish_scan strict negative (scan_whole p scan_start)

-- What stands behind a sign.
abbrev pub parse_signed : Bool → Bool → List ℕ → ℕ
parse_signed strict negative [] = invalid
parse_signed strict negative (ch ∷ p) = parse_unsigned strict negative (ch ∷ p)

pub parse : List ℕ → Bool → ℕ
parse [] strict = invalid
parse (ch ∷ p) strict =
    if ch == minus
    then parse_signed strict true p
    else (if ch == plus
        then (if strict then invalid else parse_signed strict false p)
        else parse_unsigned strict false (ch ∷ p))

-- `Format::unsignedIntegerReverse`, with fuel for its rounds.
digits_loop : ℕ → ℕ → List ℕ → List ℕ
digits_loop zero d end = end
digits_loop (suc fuel) d end =
    let rest = digits_loop fuel (d / 10) ((zero_digit + d % 10) ∷ end) in
    if d / 10 == 0 then (zero_digit + d % 10) ∷ end else rest

pub unsigned_integer_reverse : ℕ → List ℕ → List ℕ
unsigned_integer_reverse d end = digits_loop 20 d end

-- The bytes of "invalid".
abbrev invalid_word : List ℕ
invalid_word = 105 ∷ 110 ∷ 118 ∷ 97 ∷ 108 ∷ 105 ∷ 100 ∷ []

-- The loop that prints zeros between the dot and the digits.
pub zeroes : ℕ → List ℕ
zeroes zero = []
zeroes (suc n) = zero_digit ∷ zeroes n

pub format_unsigned : ℕ → ℕ → List ℕ
format_unsigned v places =
    let start = unsigned_integer_reverse v [] in
    let len = length start in
    if places == 0
    then start
    else (if ltb places len
        then take (len - places) start ++ (dot ∷ drop (len - places) start)
        else zero_digit ∷ dot ∷ (zeroes (places - len) ++ start))

pub format : ℕ → List ℕ
format value =
    if value == invalid
    then invalid_word
    else (let v = mantissa value in
        if ltb v (2 ^ 63)
        then format_unsigned v (scale value)
        else minus ∷ format_unsigned (2 ^ 64 - v) (scale value))

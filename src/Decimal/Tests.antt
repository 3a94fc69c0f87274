-- ===== src/Decimal/Tests.antt =====
-- Decimal numbers at concrete inputs.
use libgeodesk.Common.{ℕ, ◌≡◌, ◌⊎◌, refl, arith, true, false, List, [], ◌∷◌}
use libgeodesk.Decimal.{
  decimal, invalid, parse, format, scan_whole, is_digit, too_large, scan_fraction, finish,
}
use libgeodesk.Decimal.RoundTrip.{parse-format}
use libgeodesk.Decimal.Reading.{format-parse}

-- The bytes of "-3.14".
abbrev digits : List ℕ
digits = 45 ∷ 51 ∷ 46 ∷ 49 ∷ 52 ∷ []

read_digits : parse digits true ≡ decimal 0xffff_ffff_ffff_fec6 2
unfolding parse decimal scan_whole is_digit too_large scan_fraction finish
read_digits = refl

parse-format_example :
    parse (format (decimal 0xffff_ffff_ffff_fec6 2)) true ≡ decimal 0xffff_ffff_ffff_fec6 2
parse-format_example = parse-format 314 2 true true (omega arith) (omega arith) (ground arith)

format-parse_example :
    (parse digits true ≡ invalid) ⊎ (parse (format (parse digits true)) false ≡ parse digits true)
format-parse_example = format-parse digits true false

-- ===== src/Crc32C/Tests.antt =====
-- The check value of the source's comment.
use libgeodesk.Common.{◌≡◌, refl, arith, [], ◌∷◌}
use libgeodesk.Crc32C.Table.{crc_bits, soft_raw-eq-crc_bits}
use libgeodesk.Crc32C.{crc32c_table, entry, soft_raw, finalize, compute}

digits : compute (49 ∷ 50 ∷ 51 ∷ 52 ∷ 53 ∷ 54 ∷ 55 ∷ 56 ∷ 57 ∷ []) ≡ 0xe306_9283
unfolding compute soft_raw finalize crc32c_table entry
digits = refl

soft_raw-eq-crc_bits_example : soft_raw (49 ∷ 255 ∷ []) 7 ≡ crc_bits (49 ∷ 255 ∷ []) 7
soft_raw-eq-crc_bits_example =
    soft_raw-eq-crc_bits (49 ∷ 255 ∷ []) 7 (omega arith, (omega arith, tt))

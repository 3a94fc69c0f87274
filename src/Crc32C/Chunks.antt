-- ===== src/Crc32C/Chunks.antt =====
-- A checksum that is fed in pieces.
use libgeodesk.Common.{ℕ, ◌<◌, ◌^◌, arith, ◌≡◌, refl, List, [], ◌∷◌, ◌++◌}
use libgeodesk.Crc32C.{soft_raw, finalize}

-- Two updates are one update with the bytes of both.
pub soft_raw-append : (p q : List ℕ) (crc : ℕ) → soft_raw (p ++ q) crc ≡ soft_raw q (soft_raw p crc)
unfolding soft_raw
soft_raw-append [] q crc = refl
soft_raw-append (b ∷ p) q crc = soft_raw-append p q _

pub soft_raw-nil : (crc : ℕ) → soft_raw [] crc ≡ crc
unfolding soft_raw
soft_raw-nil crc = refl

pub finalize-lt : (crc : ℕ) → finalize crc < 2 ^ 32
unfolding finalize
finalize-lt crc = omega arith

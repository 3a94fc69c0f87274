-- ===== src/ZoomLevels.antt =====
-- include/geodesk/feature/ZoomLevels.h: the zoom levels of a tile pyramid, as a set of bits. A level is
-- below 32, where the source shifts an `int`.
pub mod Members
mod Tests
use libgeodesk.Common.{ℕ, ◌*◌, ◌^◌, ◌%◌, bit_and, bit_or, ◌==◌, not, Bool}

pub add : ℕ → ℕ → ℕ
add levels level = bit_or levels (2 ^ level)

pub is_valid_zoom_level : ℕ → ℕ → Bool
is_valid_zoom_level levels zoom = not (bit_and levels (2 ^ zoom) == 0)

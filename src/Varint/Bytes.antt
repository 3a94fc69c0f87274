-- ===== src/Varint/Bytes.antt =====
-- The masks of a varint's byte as arithmetic.
use libgeodesk.Common.{ℕ, ◌+◌, ◌-◌, ◌*◌, ◌/◌, ◌%◌, ◌^◌, ◌<◌, ◌≡◌, bit_and, bit_or, arith}
use native.Mathlib.Nat.{mod-eq_of_lt}
use libgeodesk.Common.Bits.{and_ones, and_bit, or_fields, or_comm, xor_ones}
use libgeodesk.Varint.{add_group, count_down}

pub low_group : (b : ℕ) → bit_and b 0x7f ≡ b % 128
low_group = and_ones 7

pub top_bit : (b : ℕ) → bit_and b 0x80 ≡ b / 128 % 2 * 128
top_bit = and_bit 7

-- What `write_varint` stores for a number with more groups to come.
pub inner_byte : (val : ℕ) → bit_or (bit_and val 0x7f) 0x80 % 256 ≡ val % 128 + 128
inner_byte val =
    omega (arith, or_comm (bit_and val 0x7f) 0x80, or_fields 7 1 (bit_and val 0x7f), low_group val)

-- A group that fits above the bits read so far is added to them.
pub add_group_lem :
    (width val b shift : ℕ)
    → val < 2 ^ shift
    → b % 128 * 2 ^ shift < 2 ^ width
    → add_group width val b shift ≡ val + b % 128 * 2 ^ shift
unfolding add_group
add_group_lem width val b shift h fits = ground (
  arith,
  low_group b,
  or_comm val (b % 128 * 2 ^ shift),
  or_fields shift (b % 128) val,
  mod-eq_of_lt {n = b % 128 * 2 ^ shift} fits,
)

-- A byte counts down by one exactly if it ends a varint.
pub count_down_lem :
    (count b : ℕ)
    → b < 256
    → count < 2 ^ 32
    → 0 < count
    → count_down count b ≡ count - (1 - b / 128)
unfolding count_down
count_down_lem count b hb hc pos = omega (arith, xor_ones 1 (b / 128))

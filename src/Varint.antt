-- ===== src/Varint.antt =====
-- include/clarisma/util/varint.h and varint_safe.h: LEB128 varints and zigzag numbers.
-- A byte pointer is the list of the bytes from it on; `none` is a read behind the last of them.
-- An unsigned value is a number below 2 ^ 64 or 2 ^ 32, a signed one its two's complement pattern.
-- The source's `assert`s are compiled out.
mod Bytes
pub mod Write
pub mod Size
pub mod Read
pub mod SafeRead
pub mod Zigzag
pub mod Skip
pub mod SkipBack
mod Tests
use libgeodesk.Common.{
  ℕ, zero, suc, ◌+◌, ◌-◌, ◌*◌, ◌/◌, ◌%◌, ◌^◌, ◌<◌, bit_and, bit_or, bit_xor, arith, List, [], ◌∷◌,
  Option, none, some, ltb, ◌==◌, if◌then◌else◌, lt_wf,
}
use mathlib.Core.Logic.{dite}
use mathlib.Core.Option
use mathlib.Core.WellFounded.{Acc}
use native.Mathlib.Decide.{dec_lt}

abbrev pub Reader : Type 0 → Type 0
Reader A = Option (A × List ℕ)

-- `val | (b & 0x7f) << shift` in a word of `width` bits.
pub add_group : ℕ → ℕ → ℕ → ℕ → ℕ
add_group width val b shift = bit_or val (bit_and b 0x7f * 2 ^ shift % 2 ^ width)

-- The unrolled reads of the source, with `left` bytes to come behind this one; the byte with none
-- to come ends the number whatever its top bit.
pub read_groups : ℕ → ℕ → ℕ → List ℕ → Reader ℕ
read_groups left shift val [] = none
read_groups zero shift val (b ∷ p) = some (add_group 64 val b shift, p)
read_groups (suc left) shift val (b ∷ p) =
    let val' = add_group 64 val b shift in
    let more = read_groups left (shift + 7) val' p in
    if bit_and b 0x80 == 0 then some (val', p) else more

pub read_varint35 : List ℕ → Reader ℕ
read_varint35 p = read_groups 4 0 0 p

pub read_varint64 : List ℕ → Reader ℕ
read_varint64 p = read_groups 9 0 0 p

pub read_varint32 : List ℕ → Reader ℕ
read_varint32 p = Option.map (λ (val, q). (val % 2 ^ 32, q)) (read_varint35 p)

shr-lt : (val : ℕ) → 127 < val → val / 128 < val
shr-lt val h = omega arith

-- `while (val >= 0x80)`; the result is what the loop and the line behind it write.
pub write_loop : (val : ℕ) → Acc ◌<◌ val → List ℕ
write_loop val (Acc.intro _ smaller) =
    dite (dec_lt 127 val)
      (λ more.
        bit_or (bit_and val 0x7f) 0x80 % 256
        ∷ write_loop (val / 128) (smaller (val / 128) (shr-lt val more)))
      (λ _. val % 256 ∷ [])

pub write_varint : ℕ → List ℕ
write_varint val = write_loop val (lt_wf.apply val)

-- For values below 0x4000.
pub write_varint14 : ℕ → List ℕ
write_varint14 val =
    if ltb val 0x80
    then val % 256 ∷ []
    else bit_or (bit_and val 0x7f) 0x80 % 256 ∷ val / 128 % 256 ∷ []

-- `__builtin_clzll`, counted down from bit `k - 1`.
pub count_leading_zeros : ℕ → ℕ → ℕ
count_leading_zeros zero i = 0
count_leading_zeros (suc k) i =
    let rest = count_leading_zeros k i in if i / 2 ^ k % 2 == 1 then 0 else suc rest

pub varint_size : ℕ → ℕ
varint_size v = (64 - count_leading_zeros 64 (bit_or v 1) + 6) / 7

-- A number of `suc k` bits: `v >> k` copies the sign bit, `-(v & 1)` is zero or all ones.
pub sign_mask : ℕ → ℕ → ℕ
sign_mask k v = if ltb v (2 ^ k) then 0 else 2 ^ suc k - 1

pub to_zigzag : ℕ → ℕ → ℕ
unfolding sign_mask
to_zigzag k v = bit_xor (v * 2 % 2 ^ suc k) (sign_mask k v)

pub from_zigzag : ℕ → ℕ → ℕ
from_zigzag k v = bit_xor (v / 2) ((2 ^ suc k - bit_and v 1) % 2 ^ suc k)

pub read_signed_varint35 : List ℕ → Reader ℕ
read_signed_varint35 p = Option.map (λ (val, q). (from_zigzag 63 val, q)) (read_varint35 p)

pub read_signed_varint32 : List ℕ → Reader ℕ
read_signed_varint32 p = Option.map (λ (val, q). (from_zigzag 63 val % 2 ^ 32, q)) (read_varint35 p)

pub read_signed_varint64 : List ℕ → Reader ℕ
read_signed_varint64 p = Option.map (λ (val, q). (from_zigzag 63 val, q)) (read_varint64 p)

pub write_signed_varint : ℕ → List ℕ
write_signed_varint val = write_varint (to_zigzag 63 val)

-- `char` is signed: a byte is at least 0 when its top bit is clear.
pub count_varints : List ℕ → ℕ
count_varints [] = 0
count_varints (b ∷ p) = (if ltb b 0x80 then 1 else 0) + count_varints p

-- `count -= (b >> 7) ^ 1` on an `int`, as a pattern of 32 bits.
pub count_down : ℕ → ℕ → ℕ
count_down count b = (count + 2 ^ 32 - bit_xor (b / 128) 1) % 2 ^ 32

pub skip_varints : List ℕ → ℕ → Option (List ℕ)
skip_varints [] count = none
skip_varints (b ∷ p) count =
    let count' = count_down count b in
    let more = skip_varints p count' in if count' == 0 then some p else more

-- The list is what stands before the pointer, nearest byte first: `p--` drops its head, and
-- `*(p - 1)` is then the next one.
pub skip_varints_backward : List ℕ → ℕ → Option (List ℕ)
skip_varints_backward [] count = none
skip_varints_backward (a ∷ []) count = none
skip_varints_backward (a ∷ b ∷ before) count =
    let count' = count_down count b in
    let more = skip_varints_backward (b ∷ before) count' in
    if count' == 0 then some (b ∷ before) else more

-- The two messages of `std::runtime_error`.
pub data SafeError : Type 0 where
  too_long past_end : SafeError

pub data Safe {ℓ} (A : Type ℓ) : Type ℓ where
  ok : A → Safe A
  throws : SafeError → Safe A

-- `while (p < end)`; `limit` is 63 or 28.
pub safe_loop : ℕ → ℕ → ℕ → ℕ → List ℕ → Safe (ℕ × List ℕ)
safe_loop width limit val shift [] = throws past_end
safe_loop width limit val shift (b ∷ p) =
    let val' = add_group width val b shift in
    let more = safe_loop width limit val' (shift + 7) p in
    if bit_and b 0x80 == 0
    then ok (val', p)
    else (if ltb limit (shift + 7) then throws too_long else more)

pub safe_read_varint64 : List ℕ → Safe (ℕ × List ℕ)
safe_read_varint64 p = safe_loop 64 63 0 0 p

pub safe_read_varint32 : List ℕ → Safe (ℕ × List ℕ)
safe_read_varint32 p = safe_loop 32 28 0 0 p

-- `while (count)`
pub safe_skip_varints : List ℕ → ℕ → Safe (List ℕ)
safe_skip_varints [] count = if count == 0 then ok [] else throws past_end
safe_skip_varints (b ∷ p) count =
    let more = safe_skip_varints p (count_down count b) in if count == 0 then ok (b ∷ p) else more

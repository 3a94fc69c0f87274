-- ===== src/FreeStore/Encoding.antt =====
-- The packed entries and the segment tests as arithmetic.
use libgeodesk.Common.{
  ℕ, zero, suc, ◌+◌, ◌-◌, ◌*◌, ◌/◌, ◌%◌, ◌^◌, ◌≤◌, ◌<◌, ◌≡◌, ◌∙◌, sym, ap, arith, bit_and, bit_or,
  ◌==◌, refl,
}
use libgeodesk.Common.Bits.{or_fields, and_ones}
use native.Mathlib.Nat.{
  pow-succ', one-le-pow, mul-div_cancel, pow-le-pow_right, mod-add-mod, mod-eq_of_lt,
}
use libgeodesk.FreeStore.{start_entry, size_entry, pages_per_segment, is_first_page_of_segment}
use libgeodesk.FreeStore.Ranges.{start_key}

pub start_entry-eq-start_key :
    (start pages garbage : ℕ)
    → pages < 2 ^ 31
    → garbage < 2
    → start_entry start pages garbage ≡ start_key start pages garbage
unfolding start_entry
start_entry-eq-start_key start pages garbage narrow g = ground (
  arith,
  or_fields 32 start (pages * 2),
  or_fields 1 (start * 2 ^ 31 + pages) garbage,
  ap (λ (t : ℕ). bit_or t garbage) twice,
)
  where
    twice : start * 2 ^ 32 + pages * 2 ≡ (start * 2 ^ 31 + pages) * 2 ^ 1
    twice = omega arith

pub size_entry-eq :
    (pages start : ℕ) → start < 2 ^ 32 → size_entry pages start ≡ pages * 2 ^ 32 + start
unfolding size_entry
size_entry-eq pages start h = or_fields 32 pages start h

pow-split : (d s n : ℕ) → n ≡ d + s → 2 ^ n ≡ 2 ^ d * 2 ^ s
pow-split d zero n e = let e' : n ≡ d = omega arith in rw e' (omega arith)
pow-split d (suc s) zero e = absurd (omega arith)
pow-split d (suc s) (suc n) e = omega (
  arith,
  pow-succ' 2 n,
  pow-succ' 2 s,
  pow-split d s n (omega arith),
  ap (λ (t : ℕ). 2 ^ d * t) (pow-succ' 2 s),
)

-- Pages behind the first of a range lie as far into the segment.
pub mod-add_within : (per s a : ℕ) → s % per + a < per → (s + a) % per ≡ s % per + a
mod-add_within per s a h = sym (mod-add-mod s per a) ∙ mod-eq_of_lt h

module _ (shift : ℕ) (h : shift ≤ 30) where
  pages_per_segment_pow : pages_per_segment shift ≡ 2 ^ (30 - shift)
  pages_per_segment_pow =
      ap (λ (t : ℕ). t / 2 ^ shift) (pow-split (30 - shift) shift 30 (omega arith))
      ∙ mul-div_cancel (2 ^ (30 - shift)) (one-le-pow shift 2 (omega arith))

  pub pages_per_segment_pos : (1 ≤ pages_per_segment shift) × (pages_per_segment shift ≤ 2 ^ 30)
  pages_per_segment_pos = rw pages_per_segment_pow (
    one-le-pow (30 - shift) 2 (omega arith),
    pow-le-pow_right {n = 2} (omega arith) {i = 30 - shift} {j = 30} (omega arith),
  )

  pub segment_offset :
      (x : ℕ) → bit_and x (pages_per_segment shift - 1) ≡ x % pages_per_segment shift
  segment_offset x = rw pages_per_segment_pow (and_ones (30 - shift) x)

  pub is_first_page_of_segment-eq :
      (x : ℕ) → is_first_page_of_segment shift x ≡ (x % pages_per_segment shift == 0)
  unfolding is_first_page_of_segment
  is_first_page_of_segment-eq x = rw (mask, segment_offset x) refl
    where
      mask : 0x3fff_ffff / 2 ^ shift ≡ pages_per_segment shift - 1
      mask = rw pages_per_segment_pow (
          grind (
            arith,
            pow-split (30 - shift) shift 30 (omega arith),
            one-le-pow shift 2,
            one-le-pow (30 - shift) 2,
          ))

-- ===== src/FreeStore/Take.antt =====
-- The branch of `allocPages` that found a free range.
use libgeodesk.Common.{
  ℕ, ◌+◌, ◌-◌, ◌/◌, ◌%◌, ◌^◌, ◌≤◌, ◌<◌, ◌≡◌, ◌↔◌, refl, sym, arith, true, inl, inr, some, bit_and,
}
use libgeodesk.Common.Bits.{and_ones}
use native.Mathlib.Decide.{ℕ_discrete, dec_lt}
use libgeodesk.OrderedSet.{OrderedSet}
use libgeodesk.FreeStore.{Transaction, start_of, size_of, u32, pages_per_segment, take_range}
use libgeodesk.FreeStore.Ranges.{size_key, Apart, has-erase_true}
use libgeodesk.FreeStore.Encoding.{start_entry-eq-start_key, size_entry-eq, mod-add_within}
use libgeodesk.FreeStore.Pages.{
  Within, dec_within, IsFree, IsFree-erase, IsFree-insert, lower_bound_start,
}
use libgeodesk.FreeStore.Allocated.{Allocated, carved-Allocated}
use libgeodesk.FreeStore.Valid.{IsValid, without, without-IsValid, with_range, with_range-IsValid}

module _ (o : OrderedSet) (shift : ℕ) where
  open o use {has, erase}

  module _ {t : Transaction o} (v : IsValid o shift t) (pages e : ℕ)
      (he : has e t.free_by_start ≡ true) (one : 1 ≤ pages) (fits : pages ≤ size_of e) where
    -- The state behind a perfect fit.
    abbrev exact : Transaction o
    exact = without o shift v e he

    exact-Allocated : size_of e ≡ pages → Allocated o shift t pages (start_of e) exact
    exact-Allocated same =
        carved-Allocated o shift t exact pages (start_of e) (without-IsValid o shift v e he) refl
          (v.ranges.inside e he).1 (omega (arith, v.ranges.inside e he))
          (omega (arith, v.ranges.segment e he)) (λ p w. (e, he, (w.0, omega arith)))
          (λ p. rw same at (IsFree-erase o v.ranges e p he))

    module _ (more : pages < size_of e) where
      open_range :
          (f : ℕ)
          → has f exact.free_by_start ≡ true
          → Apart (start_of e + pages) (size_of e - pages) (start_of f) (size_of f)
      open_range f hf =
          let (was, ne) = has-erase_true o e f t.free_by_start hf in
          elim (v.ranges.apart e f he was) [
            | inl same ↦ absurd (ne (sym same))
            | inr away ↦ omega arith
          ]

      still_inside :
          (start_of e + pages) % pages_per_segment shift + (size_of e - pages)
          ≤ pages_per_segment shift
      still_inside =
          let seg = v.ranges.segment e he in
          omega (
            arith,
            seg,
            mod-add_within (pages_per_segment shift) (start_of e) pages (omega (arith, seg)),
          )

      garbage-lt : bit_and e 1 < 2
      garbage-lt = omega (arith, and_ones 1 e)

      -- The state behind a split: the range is gone, and its end is back.
      abbrev split : Transaction o
      split =
          with_range o shift (without-IsValid o shift v e he) (start_of e + pages)
            (size_of e - pages) (bit_and e 1) garbage-lt (omega arith) (omega arith)
            (omega (arith, v.ranges.inside e he)) (omega arith) still_inside open_range

      split-IsValid : IsValid o shift split
      split-IsValid =
          with_range-IsValid o shift (without-IsValid o shift v e he) (start_of e + pages)
            (size_of e - pages) (bit_and e 1) garbage-lt (omega arith) (omega arith)
            (omega (arith, v.ranges.inside e he)) (omega arith) still_inside open_range

      IsFree-split :
          (p : ℕ)
          → IsFree o split.free_by_start p
            ↔ (IsFree o t.free_by_start p × (¬ Within (start_of e) pages p))
      IsFree-split p =
          let (to, from) =
            IsFree-insert o (start_of e + pages) (size_of e - pages) (bit_and e 1) p
              exact.free_by_start garbage-lt (omega arith) in
          let (keep, back) = IsFree-erase o v.ranges e p he in
          (
            λ free. elim (to free) [
              | inl w ↦ ((e, he, (omega arith, omega arith)), λ low. omega arith)
              | inr old ↦ let (was, out) = keep old in (was, λ low. out (low.0, omega arith))
            ],
            λ c. elim (dec_within (start_of e) (size_of e) p) [
              | yes w ↦ from (inl (not_low p w c.1))
              | no out ↦ from (inr (back (c.0, out)))
            ],
          )
        where
          not_low :
              (p : ℕ)
              → Within (start_of e) (size_of e) p
              → (¬ Within (start_of e) pages p)
              → Within (start_of e + pages) (size_of e - pages) p
          not_low p w out = elim (dec_lt p (start_of e + pages)) [
            | yes low ↦ absurd (out (w.0, low))
            | no high ↦ (omega arith, omega arith)
          ]

      split-Allocated : Allocated o shift t pages (start_of e) split
      split-Allocated =
          carved-Allocated o shift t split pages (start_of e) split-IsValid refl
            (v.ranges.inside e he).1 (omega (arith, v.ranges.inside e he))
            (omega (arith, v.ranges.segment e he)) (λ p w. (e, he, (w.0, omega arith))) IsFree-split

    size_part : size_key e / 2 ^ 32 ≡ size_of e
    size_part = omega (arith, v.ranges.small, v.ranges.inside e he)

    start_part : u32 (size_key e) ≡ start_of e
    start_part = omega (arith, v.ranges.small, v.ranges.inside e he)

    leftover_size : pages < size_of e → u32 (size_of e + 2 ^ 32 - pages) ≡ size_of e - pages
    leftover_size more = omega arith

    leftover_start : u32 (start_of e + pages) ≡ start_of e + pages
    leftover_start = omega (arith, v.ranges.small, v.ranges.inside e he)

    same_count : t.free_ranges ≡ u32 (u32 (t.free_ranges + 2 ^ 32 - 1) + 1)
    same_count = omega (arith, v.count_start)

    -- A range that is large enough serves the request.
    pub take_range-Allocated :
        (t' : Transaction o) × (take_range o shift t pages (size_key e) ≡ some (start_of e, t'))
        × Allocated o shift t pages (start_of e) t'
    unfolding take_range
    take_range-Allocated = elim (ℕ_discrete (size_of e) pages) [
      | yes same ↦ (
        exact,
        rw (take_range, start_part, lower_bound_start o v.ranges e he, size_part, start_part)
            (ground arith),
        exact-Allocated same,
      )
      | no ne ↦
          let more : pages < size_of e = omega arith in
          (
            split more,
            rw
                (
                  take_range,
                  start_part,
                  lower_bound_start o v.ranges e he,
                  size_part,
                  start_part,
                  leftover_size more,
                  leftover_start,
                  start_entry-eq-start_key (start_of e + pages) (size_of e - pages) (bit_and e 1)
                      (omega arith) (garbage-lt more),
                  size_entry-eq (size_of e - pages) (start_of e + pages)
                      (omega (arith, v.ranges.small, v.ranges.inside e he)),
                )
                (ground (arith, same_count)),
            split-Allocated more,
          )
    ]

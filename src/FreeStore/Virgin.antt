-- ===== src/FreeStore/Virgin.antt =====
-- The branch of `allocPages` that lengthens the file.
use libgeodesk.Common.{
  ℕ, ◌+◌, ◌-◌, ◌*◌, ◌/◌, ◌%◌, ◌^◌, ◌≤◌, ◌<◌, ◌≡◌, refl, arith, inl, inr, lt→ltb, ltb-false,
}
use native.Mathlib.Nat.{mul-mod_left, mod-lt, div-add-mod}
use native.Mathlib.Decide.{dec_lt}
use libgeodesk.OrderedSet.{OrderedSet}
use libgeodesk.FreeStore.{Transaction, u32, pages_per_segment, alloc_virgin}
use libgeodesk.FreeStore.Encoding.{
  start_entry-eq-start_key, size_entry-eq, segment_offset, pages_per_segment_pos,
}
use libgeodesk.FreeStore.Pages.{IsFree-lt, IsFree-insert}
use libgeodesk.FreeStore.Allocated.{Allocated}
use libgeodesk.FreeStore.Valid.{IsValid, with_range, with_range-IsValid, total-IsValid}

-- What is left of a segment behind page `total` takes the next page to a segment's start.
next_segment : (per total : ℕ) → 0 < per → (total + (per - total % per)) % per ≡ 0
next_segment per total h = rw whole (mul-mod_left (total / per + 1) per)
  where
    whole : total + (per - total % per) ≡ (total / per + 1) * per
    whole = omega (arith, div-add-mod total per, mod-lt total h)

module _ (o : OrderedSet) (shift : ℕ) (h : shift ≤ 30) where
  open o use {has}

  abbrev per : ℕ
  per = pages_per_segment shift

  module _ {t : Transaction o} (v : IsValid o shift t) (pages : ℕ) (one : 1 ≤ pages)
      (fits : pages ≤ per) (room : t.total_pages + per + pages < 2 ^ 32) where
    abbrev total : ℕ
    total = t.total_pages

    abbrev remaining : ℕ
    remaining = per - total % per

    abbrev appended : Transaction o
    appended = record t { total_pages = total + pages }

    appended-IsValid : IsValid o shift appended
    appended-IsValid =
        total-IsValid o shift v (total + pages) (omega arith) (omega arith)
          (λ e he. omega (arith, v.ranges.inside e he))

    appended-Allocated : pages ≤ remaining → Allocated o shift t pages total appended
    appended-Allocated low = record {
      valid = appended-IsValid;
      behind_header = v.header_page;
      in_file = omega arith;
      in_segment = omega (arith, pages_per_segment_pos shift h);
      was_unused = λ p w u. omega arith;
      used_iff = λ p. (
        λ u. elim (dec_lt p total) [ yes old ↦ inl (old, u.1) | no new ↦ inr (omega arith, u.0) ],
        λ c. elim c [
          | inl u ↦ (omega arith, u.1)
          | inr w ↦ (w.1, λ free. omega (arith, IsFree-lt o v.ranges p free))
        ],
      );
    }

    abbrev fresh : ℕ
    fresh = total + remaining

    lengthened-IsValid : IsValid o shift (record t { total_pages = fresh + pages })
    lengthened-IsValid =
        total-IsValid o shift v (fresh + pages) (omega arith) (omega arith)
          (λ e he. omega (arith, v.ranges.inside e he))

    tail-pos : (1 ≤ remaining) × (remaining ≤ 2 ^ 30)
    tail-pos =
        omega (arith, pages_per_segment_pos shift h, mod-lt total (pages_per_segment_pos shift h).0)

    wraps : u32 fresh ≡ fresh
    wraps = omega (arith, tail-pos)

    wraps_total : u32 (fresh + pages) ≡ fresh + pages
    wraps_total = omega (arith, tail-pos)

    appended_total : u32 (total + pages) ≡ total + pages
    appended_total = omega arith

    abbrev skipped : Transaction o
    skipped =
        with_range o shift lengthened-IsValid total remaining 0 (omega arith) tail-pos.0
          v.header_page (omega arith) (omega (arith, tail-pos)) (omega arith)
          (λ f hf. inr (omega (arith, v.ranges.inside f hf)))

    skipped-Allocated : Allocated o shift t pages fresh skipped
    skipped-Allocated = record {
      valid =
          with_range-IsValid o shift lengthened-IsValid total remaining 0 (omega arith) tail-pos.0
            v.header_page (omega arith) (omega (arith, tail-pos)) (omega arith)
            (λ f hf. inr (omega (arith, v.ranges.inside f hf)));
      behind_header = omega (arith, v.header_page);
      in_file = omega arith;
      in_segment = omega (arith, next_segment per total (pages_per_segment_pos shift h).0);
      was_unused = λ p w u. omega arith;
      used_iff = λ p.
          let (to, from) =
            IsFree-insert o total remaining 0 p t.free_by_start (omega arith)
              (omega (arith, tail-pos)) in
          (
            λ u. elim (dec_lt p total) [
              | yes old ↦ inl (old, λ free. u.1 (from (inr free)))
              | no new ↦ elim (dec_lt p fresh) [
                | yes mid ↦ absurd (u.1 (from (inl (omega arith, mid))))
                | no new' ↦ inr (omega arith, u.0)
              ]
            ],
            λ c. elim c [
              | inl u ↦
                  (omega arith, λ free. elim (to free) [ inl w ↦ omega arith | inr f ↦ u.1 f ])
              | inr w ↦ (
                w.1,
                λ free. elim (to free) [
                  | inl k ↦ omega arith
                  | inr f ↦ omega (arith, IsFree-lt o v.ranges p f)
                ],
              )
            ],
          );
    }

    -- Pages behind the end of the file serve any request that fits a segment.
    pub alloc_virgin-Allocated :
        (first : ℕ) × (t' : Transaction o) × (alloc_virgin o shift t pages ≡ (first, t'))
        × Allocated o shift t pages first t'
    unfolding alloc_virgin
    alloc_virgin-Allocated = elim (dec_lt remaining pages) [
      | yes full ↦ (
        fresh,
        skipped,
        rw
            (
              segment_offset shift h total,
              lt→ltb remaining pages full,
              wraps,
              wraps_total,
              start_entry-eq-start_key total remaining 0 (omega (arith, tail-pos)) (omega arith),
              size_entry-eq remaining total v.ranges.small,
            )
            refl,
        skipped-Allocated,
      )
      | no low ↦ (
        total,
        appended,
        rw (segment_offset shift h total, ltb-false remaining pages low, appended_total) refl,
        appended-Allocated (omega arith),
      )
    ]

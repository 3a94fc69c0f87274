-- ===== src/FreeStore/Alloc.antt =====
-- `allocPages`: every request that fits a segment is served.
use libgeodesk.Common.{ℕ, ◌+◌, ◌*◌, ◌^◌, ◌≤◌, ◌<◌, ◌≡◌, ap, arith, inl, inr, some, Option-cases}
use libgeodesk.OrderedSet.{OrderedSet}
use libgeodesk.FreeStore.{Transaction, start_of, pages_per_segment, alloc_pages}
use libgeodesk.FreeStore.Allocated.{Allocated}
use libgeodesk.FreeStore.Take.{take_range-Allocated}
use libgeodesk.FreeStore.Virgin.{alloc_virgin-Allocated}
use libgeodesk.FreeStore.Valid.{IsValid}

module _ (o : OrderedSet) (shift : ℕ) (h : shift ≤ 30) where
  open o use {lower_bound, lower_bound-has}

  -- On a valid state, for a page size of at most 1 GB, a request of at least one page that fits a
  -- segment, with page numbers that stay below 2 ^ 32, `alloc_pages` returns a range of pages that
  -- were not in use, lie behind the header's page, inside the file and in one segment; the new state
  -- is valid, and its pages in use are exactly the old ones and the range.
  pub alloc_pages-Allocated :
      {t : Transaction o} (pages : ℕ)
      → IsValid o shift t
      → 1 ≤ pages
      → pages ≤ pages_per_segment shift
      → t.total_pages + pages_per_segment shift + pages < 2 ^ 32
      → (first : ℕ) × (t' : Transaction o) × (alloc_pages o shift t pages ≡ some (first, t'))
        × Allocated o shift t pages first t'
  unfolding alloc_pages
  alloc_pages-Allocated {t} pages v one fits room =
      elim (Option-cases (lower_bound (pages * 2 ^ 32) t.free_by_size)) [
        | inl q ↦
            let (first, t', eq, spec) = alloc_virgin-Allocated o shift h v pages one fits room in
            (first, t', rw (alloc_pages, q) (ap some eq), spec)
        | inr (g, q) ↦
            let (lo, hg) = lower_bound-has (pages * 2 ^ 32) g t.free_by_size q in
            let (e, he, key) = v.ranges.placed g hg in
            let (t', eq, spec) =
              take_range-Allocated o shift v pages e he one
                (omega (arith, v.ranges.small, v.ranges.inside e he)) in
            (start_of e, t', rw (alloc_pages, q, ← key) eq, spec)
      ]

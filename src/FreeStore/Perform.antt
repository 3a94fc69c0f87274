-- ===== src/FreeStore/Perform.antt =====
-- `performFreePages` as a whole: a range at the end of the file shortens the file.
use libgeodesk.Common.{ℕ, suc, ◌+◌, ◌-◌, ◌%◌, ◌^◌, ◌≤◌, ◌≡◌, arith, true, inl, inr, some, eq_true}
use native.Mathlib.Decide.{ℕ_discrete, dec_lt}
use libgeodesk.OrderedSet.{OrderedSet}
use libgeodesk.FreeStore.{
  Transaction, start_of, size_of, u32, pages_per_segment, perform_free_pages,
}
use libgeodesk.FreeStore.Ranges.{Apart}
use libgeodesk.FreeStore.Pages.{Within}
use libgeodesk.FreeStore.Trim.{Loose, trim-Trimmed}
use libgeodesk.FreeStore.Coalesce.{Remains}
use libgeodesk.FreeStore.Free.{Freed, joined-Freed}
use libgeodesk.FreeStore.Valid.{IsValid, IsUsed, total-IsValid}

module _ (o : OrderedSet) (shift : ℕ) (h : shift ≤ 30) where
  open o use {has, size}

  -- A range of pages in use, as `freePages` takes it.
  pub record IsAllocated (t : Transaction o) (first pages : ℕ) : Type 0 where
    pub some_page : 1 ≤ pages
    pub behind_header : 1 ≤ first
    pub in_file : first + pages ≤ t.total_pages
    pub in_segment : first % pages_per_segment shift + pages ≤ pages_per_segment shift
    pub in_use : (p : ℕ) → Within first pages p → IsUsed o shift t p

  -- Pages in use are apart from every free range.
  used-Apart :
      (t : Transaction o) (first pages : ℕ)
      → IsValid o shift t
      → IsAllocated t first pages
      → (f : ℕ) → has f t.free_by_start ≡ true
      → Apart first pages (start_of f) (size_of f)
  used-Apart t first pages v a f hf = elim (dec_lt first (start_of f + size_of f)) [
    | no left ↦ inr (omega arith)
    | yes low ↦ elim (dec_lt (start_of f) (first + pages)) [
      | no right ↦ inl (omega arith)
      | yes high ↦ elim (dec_lt first (start_of f)) [
        | yes inside ↦ absurd (
            (a.in_use (start_of f) (omega arith, high)).1
              (f, hf, (omega arith, omega (arith, v.ranges.inside f hf))))
        | no from ↦ absurd (
            (a.in_use first (omega arith, omega (arith, a.some_page))).1
              (f, hf, (omega arith, low)))
      ]
    ]
  ]

  trimmed-Freed :
      (t : Transaction o) (first pages : ℕ)
      → IsValid o shift t
      → IsAllocated t first pages
      → first + pages ≡ t.total_pages
      → (t' : Transaction o) × (perform_free_pages o shift t first pages ≡ some t')
        × Freed o shift h t first pages t'
  unfolding perform_free_pages
  trimmed-Freed t first pages v a ends =
      let no_wrap : u32 (first + pages) ≡ first + pages = omega (arith, v.ranges.small) in
      let shorter : u32 (t.total_pages + 2 ^ 32 - pages) ≡ first = omega (arith, v.ranges.small) in
      let (t', eq, (valid, same)) =
        trim-Trimmed o shift (suc (size t.free_by_start)) (record t { total_pages = first })
          (omega arith) loose a.behind_header in
      (
        t',
        rw (no_wrap, eq_true _ _ ends, shorter) eq,
        (valid, λ p. (λ u. remains p ((same p).0 u), λ r. (same p).1 (kept p r))),
      )
    where
      loose : Loose o shift (record t { total_pages = first })
      loose =
          total-IsValid o shift v (suc first) (omega arith)
            (omega (arith, v.ranges.small, a.some_page))
            (λ f hf. omega (arith, v.ranges.inside f hf, used-Apart t first pages v a f hf))

      remains :
          (p : ℕ)
          → IsUsed o shift (record t { total_pages = first }) p
          → Remains o shift h t first pages p
      remains p u = ((omega (arith, a.some_page), u.1), λ w. omega arith)

      kept :
          (p : ℕ)
          → Remains o shift h t first pages p
          → IsUsed o shift (record t { total_pages = first }) p
      kept p r = (
        elim (dec_lt p first) [ yes low ↦ low | no high ↦ absurd (r.1 (omega arith, omega arith)) ],
        r.0.1,
      )

  -- On a valid state, for a page size of at most 1 GB, freeing a range of pages in use that lies in
  -- one segment behind the header's page returns a valid state (the loop that shortens the file
  -- ends), whose pages in use are the old ones without the range.
  pub perform_free_pages-Freed :
      {t : Transaction o} (first pages : ℕ)
      → IsValid o shift t
      → IsAllocated t first pages
      → (t' : Transaction o) × (perform_free_pages o shift t first pages ≡ some t')
        × Freed o shift h t first pages t'
  perform_free_pages-Freed {t} first pages v a = elim (ℕ_discrete (first + pages) t.total_pages) [
    | yes ends ↦ trimmed-Freed t first pages v a ends
    | no inner ↦
        joined-Freed o shift h first pages
          (record {
            valid = v;
            some_page = a.some_page;
            behind_header = a.behind_header;
            fits = omega (arith, a.in_file);
            segment = a.in_segment;
            apart = used-Apart t first pages v a;
          })
          inner
  ]

-- ===== src/FreeStore/Index/Count.antt =====
-- How an allocation changes the number of free ranges.
use libgeodesk.Common.{
  ℕ, ◌+◌, ◌-◌, ◌*◌, ◌/◌, ◌^◌, ◌≤◌, ◌≡◌, arith, inl, inr, Bool-cases, Option, none, some,
  Option-cases, bit_and, ltb, ◌==◌,
}
use libgeodesk.OrderedSet.{OrderedSet}
use libgeodesk.FreeStore.{
  Transaction, u32, start_entry, pages_per_segment, take_range, alloc_virgin, alloc_pages,
}

module _ (o : OrderedSet) (shift : ℕ) where
  open o use {
    Set, has, insert, erase, lower_bound, lower_bound-has, size, size-insert, size-insert_held,
    size-erase,
  }

  -- At most one range more or less.
  abbrev pub IsClose : Transaction o → Transaction o → Type 0
  IsClose t t' =
      (size t'.free_by_start ≤ size t.free_by_start + 1)
      × (size t.free_by_start ≤ size t'.free_by_start + 1)

  size-insert_close :
      (k : ℕ) (s : Set) → (size s ≤ size (insert k s)) × (size (insert k s) ≤ size s + 1)
  size-insert_close k s = elim (Bool-cases (has k s)) [
    | inl held ↦ omega (arith, size-insert_held k s held)
    | inr new ↦ omega (arith, size-insert k s new)
  ]

  abbrev IsCloseResult : Transaction o → Option (ℕ × Transaction o) → Type 0
  IsCloseResult t none = Unit {0}
  IsCloseResult t (some (first, t')) = IsClose t t'

  alloc_virgin-IsClose :
      (t : Transaction o) (pages : ℕ) → IsClose t (alloc_virgin o shift t pages).1
  unfolding alloc_virgin
  alloc_virgin-IsClose t pages =
      let first = t.total_pages in
      let remaining = pages_per_segment shift - bit_and first (pages_per_segment shift - 1) in
      elim (Bool-cases (ltb remaining pages)) [
        | inl full ↦
            rw full
              (omega (arith, size-insert_close (start_entry first remaining 0) t.free_by_start))
        | inr fits ↦ rw fits (omega arith)
      ]

  take_range-IsCloseResult :
      (t : Transaction o) (pages g : ℕ) → IsCloseResult t (take_range o shift t pages g)
  unfolding take_range
  take_range-IsCloseResult t pages g =
      elim (Option-cases (lower_bound (u32 g * 2 ^ 32) t.free_by_start)) [
        | inl q ↦ rw (take_range, q) tt
        | inr (e, q) ↦
            let (_, held) = lower_bound-has (u32 g * 2 ^ 32) e t.free_by_start q in
            let gone = size-erase e t.free_by_start held in
            let leftover =
              start_entry (u32 (u32 g + pages)) (u32 (g / 2 ^ 32 + 2 ^ 32 - pages)) (bit_and e 1) in
            elim (Bool-cases (g / 2 ^ 32 == pages)) [
              | inl same ↦ rw (take_range, q, same) (omega (arith, gone))
              | inr more ↦
                  rw (take_range, q, more)
                    (omega (arith, gone, size-insert_close leftover (erase e t.free_by_start)))
            ]
      ]

  alloc_pages-IsCloseResult :
      (t : Transaction o) (pages : ℕ) → IsCloseResult t (alloc_pages o shift t pages)
  unfolding alloc_pages
  alloc_pages-IsCloseResult t pages =
      elim (Option-cases (lower_bound (pages * 2 ^ 32) t.free_by_size)) [
        | inl q ↦ rw (alloc_pages, q) (alloc_virgin-IsClose t pages)
        | inr (g, q) ↦ rw (alloc_pages, q) (take_range-IsCloseResult t pages g)
      ]

  pub alloc_pages-IsClose :
      (t t' : Transaction o) (pages first : ℕ)
      → alloc_pages o shift t pages ≡ some (first, t')
      → IsClose t t'
  alloc_pages-IsClose t t' pages first eq = rw eq at (alloc_pages-IsCloseResult t pages)

-- ===== src/FreeStore/Valid.antt =====
-- The allocator's invariant, and that taking a range out and putting one in keep it.
use libgeodesk.Common.{
  ℕ, ◌+◌, ◌-◌, ◌*◌, ◌%◌, ◌^◌, ◌≤◌, ◌<◌, ◌≡◌, arith, true, false, inl, inr, Bool-cases,
}
use libgeodesk.OrderedSet.{OrderedSet}
use libgeodesk.FreeStore.{Transaction, start_of, size_of, u32, pages_per_segment}
use libgeodesk.FreeStore.Ranges.{
  size_key, start_key, start_key_decodes, Apart, AreRanges, AreRanges-total, AreRanges-erase,
  AreRanges-insert,
}
use libgeodesk.FreeStore.Pages.{IsFree}

module _ (o : OrderedSet) (shift : ℕ) where
  open o use {Set, has, insert, erase, size, size-insert, size-erase}

  pub record IsValid (t : Transaction o) : Type 0 where
    pub ranges : AreRanges o (pages_per_segment shift) t.total_pages t.free_by_size t.free_by_start
    pub header_page : 1 ≤ t.total_pages
    pub count_start : t.free_ranges ≡ u32 (size t.free_by_start)
    pub count_size : t.free_ranges ≡ u32 (size t.free_by_size)

  -- A page of the file that no free range holds.
  abbrev pub IsUsed : Transaction o → ℕ → Type 0
  IsUsed t p = (p < t.total_pages) × (¬ IsFree o t.free_by_start p)

  module _ {t : Transaction o} (v : IsValid t) where
    pub total-IsValid :
        (total : ℕ)
        → 1 ≤ total
        → total < 2 ^ 32
        → ((e : ℕ) → has e t.free_by_start ≡ true → start_of e + size_of e < total)
        → IsValid (record t { total_pages = total })
    total-IsValid total pos small fits = record {
      ranges = AreRanges-total o (pages_per_segment shift) v.ranges total small fits;
      header_page = pos;
      count_start = v.count_start;
      count_size = v.count_size;
    }

    module _ (e : ℕ) (h : has e t.free_by_start ≡ true) where
      abbrev pub without : Transaction o
      without = record t {
        free_by_size = erase (size_key e) t.free_by_size;
        free_by_start = erase e t.free_by_start;
        free_ranges = u32 (t.free_ranges + 2 ^ 32 - 1);
      }

      pub without-IsValid : IsValid without
      without-IsValid = record {
        ranges = AreRanges-erase o (pages_per_segment shift) v.ranges e h;
        header_page = v.header_page;
        count_start = omega (arith, v.count_start, size-erase e t.free_by_start h);
        count_size =
            omega
              (arith, v.count_size, size-erase (size_key e) t.free_by_size (v.ranges.sized e h));
      }

    module _ (start pages garbage : ℕ) (g : garbage < 2) (one : 1 ≤ pages) (pos : 1 ≤ start)
        (fits : start + pages < t.total_pages) (narrow : pages < 2 ^ 31)
        (seg : start % pages_per_segment shift + pages ≤ pages_per_segment shift)
        (free : (f : ℕ)
          → has f t.free_by_start ≡ true
          → Apart start pages (start_of f) (size_of f)) where
      abbrev pub with_range : Transaction o
      with_range = record t {
        free_by_size = insert (pages * 2 ^ 32 + start) t.free_by_size;
        free_by_start = insert (start_key start pages garbage) t.free_by_start;
        free_ranges = u32 (t.free_ranges + 1);
      }

      not_held : (f : ℕ) → has f t.free_by_start ≡ true → start_of f ≡ start → size_of f ≡ pages → ⊥
      not_held f hf a b = ground (arith, free f hf)

      new_start : has (start_key start pages garbage) t.free_by_start ≡ false
      new_start = elim (Bool-cases (has (start_key start pages garbage) t.free_by_start)) [
        | inl yes_held ↦
            let (a, b) = start_key_decodes start pages garbage g narrow in
            absurd (not_held _ yes_held a b)
        | inr new ↦ new
      ]

      new_size : has (pages * 2 ^ 32 + start) t.free_by_size ≡ false
      new_size = elim (Bool-cases (has (pages * 2 ^ 32 + start) t.free_by_size)) [
        | inl yes_held ↦
            let (f, hf, eq) = v.ranges.placed _ yes_held in
            let (_, _, c) = v.ranges.inside f hf in
            absurd (not_held f hf (omega (arith, v.ranges.small)) (omega (arith, v.ranges.small)))
        | inr new ↦ new
      ]

      pub with_range-IsValid : IsValid with_range
      with_range-IsValid = record {
        ranges =
            AreRanges-insert o (pages_per_segment shift) v.ranges start pages garbage g one pos fits
              narrow seg free;
        header_page = v.header_page;
        count_start = omega (arith, v.count_start, size-insert _ t.free_by_start new_start);
        count_size = omega (arith, v.count_size, size-insert _ t.free_by_size new_size);
      }

-- ===== src/FreeStore/Tests.antt =====
-- The allocator at concrete states, over an ordered set that is a list.
use libgeodesk.Common.{
  ℕ, ◌+◌, ◌*◌, ◌^◌, ◌≤◌, ◌<◌, ◌≡◌, ◌↔◌, refl, arith, List, [], ◌∷◌, some, inl, inr, ◌⊎◌, true,
}
use libgeodesk.OrderedSet.{OrderedSet}
use libgeodesk.OrderedSet.ListSet.{list_set}
use libgeodesk.OrderedSet.ListSet
use libgeodesk.FreeStore.{
  Transaction, take_range, alloc_pages, perform_free_pages, free_staged, begin_created,
  begin_create_store, set_meta_section_size, pages_for_bytes,
}
use libgeodesk.DiskFile.ListFile.{list_file}
use libgeodesk.FreeStore.Index.{write_free_range_index, begin_existing}
use libgeodesk.FreeStore.Index.SameRanges.{HasSameRanges}
use libgeodesk.FreeStore.Index.RoundTrip.{begin_existing-write_free_range_index}
use libgeodesk.FreeStore.Pages.{IsFree-insert}
use libgeodesk.FreeStore.Valid.{IsValid, IsUsed, with_range, with_range-IsValid}
use libgeodesk.FreeStore.Allocated.{Allocated}
use libgeodesk.FreeStore.Alloc.{alloc_pages-Allocated}
use libgeodesk.FreeStore.Free.{Freed}
use libgeodesk.FreeStore.Perform.{IsAllocated, perform_free_pages-Freed}
use libgeodesk.FreeStore.Commit.{
  AreStaged, Committed, free_staged-Committed, perform_free_pages-alloc_pages,
}
use libgeodesk.FreeStore.Create.{bare-IsValid, set_meta_section_size-begin_create_store}
open list_set use {insert, empty}

abbrev S : Type 0
S = Transaction list_set

-- A store of 20 pages of 4 KB with no free range.
abbrev full : S
full = record (begin_created list_set) { total_pages = 20 }

full-IsValid : IsValid list_set 12 full
full-IsValid = bare-IsValid list_set 12 20 (omega arith) (omega arith)

none_free : (e : ℕ) → OrderedSet.has list_set e full.free_by_start ≡ true → ⊥
unfolding begin_created
none_free e h = cc (OrderedSet.has-empty list_set e)

-- The same store when its pages 3 and 4 are free.
abbrev holed : S
holed =
    with_range list_set 12 full-IsValid 3 2 0 (omega arith) (omega arith) (omega arith)
      (omega arith) (omega arith) (omega arith) (λ f hf. absurd (none_free f hf))

holed-IsValid : IsValid list_set 12 holed
holed-IsValid =
    with_range-IsValid list_set 12 full-IsValid 3 2 0 (omega arith) (omega arith) (omega arith)
      (omega arith) (omega arith) (omega arith) (λ f hf. absurd (none_free f hf))

IsUsed-holed : (p : ℕ) → p < 20 → (p < 3) ⊎ (5 ≤ p) → IsUsed list_set 12 holed p
IsUsed-holed p below out = (
  below,
  λ free.
      elim ((IsFree-insert list_set 3 2 0 p full.free_by_start (omega arith) (omega arith)).0
        free) [ inl w ↦ omega arith | inr (e, he, _) ↦ none_free e he ],
)

-- Pages 5 and 6, right behind the free ones.
five : IsAllocated list_set 12 (omega arith) holed 5 2
five = record {
  some_page = omega arith;
  behind_header = omega arith;
  in_file = omega arith;
  in_segment = omega arith;
  in_use = λ p w. IsUsed-holed p (omega arith) (omega arith);
}

-- The two free pages are taken.
alloc_2 :
    alloc_pages list_set 12
      (record full {
        free_ranges = 1;
        free_by_size = insert (2 * 2 ^ 32 + 3) empty;
        free_by_start = insert (3 * 2 ^ 32 + 4) empty;
      })
      2
    ≡ some (3, full)
unfolding alloc_pages take_range begin_created list_set ListSet.insert ListSet.erase
    ListSet.lower_bound ListSet.lower ListSet.has
alloc_2 = refl

alloc_pages-Allocated_example :
    (first : ℕ) × (t' : S) × (alloc_pages list_set 12 holed 2 ≡ some (first, t'))
    × Allocated list_set 12 holed 2 first t'
alloc_pages-Allocated_example =
    alloc_pages-Allocated list_set 12 (omega arith) 2 holed-IsValid (omega arith) (omega arith)
      (omega arith)

perform_free_pages-Freed_example :
    (t' : S) × (perform_free_pages list_set 12 holed 5 2 ≡ some t')
    × Freed list_set 12 (omega arith) holed 5 2 t'
perform_free_pages-Freed_example =
    perform_free_pages-Freed list_set 12 (omega arith) 5 2 holed-IsValid five

staged-AreStaged : AreStaged list_set 12 (omega arith) holed ((5 * 2 ^ 32 + 2) ∷ [])
staged-AreStaged = (five, (λ p w s. s), tt)

free_staged-Committed_example :
    (t' : S) × (free_staged list_set 12 ((5 * 2 ^ 32 + 2) ∷ []) holed ≡ some t')
    × Committed list_set 12 (omega arith) holed ((5 * 2 ^ 32 + 2) ∷ []) t'
free_staged-Committed_example =
    free_staged-Committed list_set 12 (omega arith) ((5 * 2 ^ 32 + 2) ∷ []) holed-IsValid
      staged-AreStaged

perform_free_pages-alloc_pages_example :
    (first : ℕ) × (t₁ t₂ : S) × (alloc_pages list_set 12 holed 2 ≡ some (first, t₁))
    × (perform_free_pages list_set 12 t₁ first 2 ≡ some t₂)
    × IsValid list_set 12 t₂
    × ((p : ℕ) → IsUsed list_set 12 t₂ p ↔ IsUsed list_set 12 holed p)
perform_free_pages-alloc_pages_example =
    perform_free_pages-alloc_pages list_set 12 (omega arith) 2 holed-IsValid (omega arith)
      (omega arith) (omega arith)

set_meta_section_size-begin_create_store_example :
    IsValid list_set 12 (
      set_meta_section_size list_set 12 (begin_create_store list_set (begin_created list_set)) 5000)
    × ((p : ℕ)
        → IsUsed list_set 12
            (set_meta_section_size list_set 12
              (begin_create_store list_set (begin_created list_set))
              5000)
            p
          ↔ (p * 2 ^ 12 < 5000 + 4096))
set_meta_section_size-begin_create_store_example =
    set_meta_section_size-begin_create_store list_set 12 5000 (omega arith)

size-holed : OrderedSet.size list_set holed.free_by_start ≡ 1
unfolding begin_created list_set ListSet.insert ListSet.size ListSet.has
size-holed = refl

one_page : pages_for_bytes 12 ((OrderedSet.size list_set holed.free_by_start + 2) * 8) ≡ 1
unfolding pages_for_bytes
one_page = rw size-holed refl

begin_existing-write_free_range_index_example :
    (index_page : ℕ) × (file' : List ℕ) × (t' : S) × (write_free_range_index list_set list_file 12
        [] holed
      ≡ some (file', record t' { free_range_index = index_page }))
    × Allocated list_set 12 holed
        (pages_for_bytes 12 ((OrderedSet.size list_set holed.free_by_start + 2) * 8))
        index_page
        t'
    × ((t'.free_ranges ≡ 0)
        ⊎ ((t'' : S) × (begin_existing list_set list_file 12 file'
                (record t' { free_range_index = index_page })
              ≡ some t'')
            × HasSameRanges list_set t' t''
            × (t''.staged_free_ranges
                ≡ (index_page * 2 ^ 32
                    + pages_for_bytes 12 ((OrderedSet.size list_set holed.free_by_start + 2) * 8))
                  ∷ [])))
unfolding begin_created
begin_existing-write_free_range_index_example =
    begin_existing-write_free_range_index list_set list_file 12 (omega arith) [] holed-IsValid
      (omega arith) (omega (arith, size-holed)) (omega (arith, one_page)) (omega (arith, one_page))

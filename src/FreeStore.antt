-- ===== src/FreeStore.antt =====
-- include/clarisma/libero/FreeStore.h, FreeStore_Transaction.h and
-- src/clarisma/libero/FreeStore_Transaction.cpp: the page allocator of a store, its state and its
-- operations. `shift` is the store's `pageSizeShift_`; the source's `assert`s are compiled out,
-- and `none` is a read through `end()`.
pub mod Ranges
pub mod Encoding
pub mod Pages
pub mod Valid
pub mod Allocated
pub mod Take
pub mod Virgin
pub mod Alloc
pub mod Trim
pub mod Coalesce
pub mod Free
pub mod Perform
pub mod Commit
pub mod Create
pub mod Index
mod Tests
use libgeodesk.Common.{
  ℕ, zero, suc, ◌+◌, ◌-◌, ◌*◌, ◌/◌, ◌%◌, ◌^◌, bit_and, bit_or, List, [], ◌∷◌, ◌++◌, Option, none,
  some, ltb, ◌==◌, not, ◌&&◌, Bool, if◌then◌else◌,
}
use libgeodesk.OrderedSet.{OrderedSet}

infixl 5 ◌>>=◌
abbrev pub ◌>>=◌ {ℓ κ} : {A : Type ℓ} {B : Type κ} → Option A → (A → Option B) → Option B
none >>= f = none
some a >>= f = f a

abbrev pub u32 : ℕ → ℕ
u32 n = n % 2 ^ 32

-- An entry of `freeByStart_`: `start << 32 | size << 1 | garbage`.
pub start_entry : ℕ → ℕ → ℕ → ℕ
start_entry start size garbage = bit_or (bit_or (start * 2 ^ 32) (u32 (size * 2))) garbage

-- An entry of `freeBySize_`: `size << 32 | start`.
pub size_entry : ℕ → ℕ → ℕ
size_entry size start = bit_or (size * 2 ^ 32) start

-- `*it >> 32` and `static_cast<uint32_t>(*it) >> 1`
abbrev pub start_of : ℕ → ℕ
start_of e = e / 2 ^ 32

abbrev pub size_of : ℕ → ℕ
size_of e = u32 e / 2

-- `pages * 2 ^ shift` bytes are a segment of 1 GB.
abbrev pub pages_per_segment : ℕ → ℕ
pages_per_segment shift = 2 ^ 30 / 2 ^ shift

pub is_first_page_of_segment : ℕ → ℕ → Bool
is_first_page_of_segment shift page = bit_and page (0x3fff_ffff / 2 ^ shift) == 0

module _ (o : OrderedSet) where
  open o use {Set, insert, erase, lower_bound, before, last, size}

  pub record Transaction : Type 0 where
    pub total_pages : ℕ
    pub free_range_index : ℕ
    pub free_ranges : ℕ
    pub free_by_size : Set
    pub free_by_start : Set
    pub staged_free_ranges : List ℕ

module _ (o : OrderedSet) (shift : ℕ) where
  open o use {Set, insert, erase, lower_bound, before, last, size}

  -- `erase(lower_bound(k))`
  pub erase_at : ℕ → Set → Option Set
  erase_at k s = elim (lower_bound k s) [ none ↦ none | some e ↦ some (erase e s) ]

  -- The branch of `allocPages` that found the entry `g` of a free range that is large enough.
  pub take_range : Transaction o → ℕ → ℕ → Option (ℕ × Transaction o)
  take_range t requested g =
      let free_pages = g / 2 ^ 32 in
      let first_page = u32 g in
      elim (lower_bound (first_page * 2 ^ 32) t.free_by_start) [
        | none ↦ none
        | some e ↦
            let leftover_size = u32 (free_pages + 2 ^ 32 - requested) in
            let leftover_start = u32 (first_page + requested) in
            some (
              first_page,
              if free_pages == requested
                  then record t {
                    free_by_size = erase g t.free_by_size;
                    free_by_start = erase e t.free_by_start;
                    free_ranges = u32 (t.free_ranges + 2 ^ 32 - 1);
                  }
                  else record t {
                    free_by_size =
                        insert (size_entry leftover_size leftover_start) (erase g t.free_by_size);
                    free_by_start =
                        insert (start_entry leftover_start leftover_size (bit_and e 1))
                          (erase e t.free_by_start);
                  },
            )
      ]

  -- The rest of `allocPages`: pages that the file does not have yet.
  pub alloc_virgin : Transaction o → ℕ → ℕ × Transaction o
  alloc_virgin t requested =
      let first = t.total_pages in
      let per_segment = pages_per_segment shift in
      let remaining = per_segment - bit_and first (per_segment - 1) in
      let fresh = u32 (first + remaining) in
      if ltb remaining requested
      then (
        fresh,
        record t {
          total_pages = u32 (fresh + requested);
          free_by_size = insert (size_entry remaining first) t.free_by_size;
          free_by_start = insert (start_entry first remaining 0) t.free_by_start;
          free_ranges = u32 (t.free_ranges + 1);
        },
      )
      else (first, record t { total_pages = u32 (first + requested) })

  pub alloc_pages : Transaction o → ℕ → Option (ℕ × Transaction o)
  alloc_pages t requested = elim (lower_bound (requested * 2 ^ 32) t.free_by_size) [
    | none ↦ some (alloc_virgin t requested)
    | some g ↦ take_range t requested g
  ]

  -- `while (!freeByStart_.empty())`, with fuel.
  pub trim : ℕ → Transaction o → Option (Transaction o)
  trim zero t = none
  trim (suc fuel) t = elim (last t.free_by_start) [
    | none ↦ some t
    | some e ↦
        let more = erase_at (size_entry (size_of e) (start_of e)) t.free_by_size >>= λ by_size.
        trim fuel (record t {
          total_pages = start_of e;
          free_by_size = by_size;
          free_by_start = erase e t.free_by_start;
          free_ranges = u32 (t.free_ranges + 2 ^ 32 - 1);
        }) in
        if u32 (start_of e + size_of e) == t.total_pages then more else some t
  ]

  -- The state without the entry `e`, which is joined to a range beside it.
  pub join_entry : Transaction o → ℕ → Option (Transaction o)
  unfolding erase_at
  join_entry t e = erase_at (size_entry (size_of e) (start_of e)) t.free_by_size >>= λ by_size.
      some (record t {
        free_by_size = by_size;
        free_by_start = erase e t.free_by_start;
        free_ranges = u32 (t.free_ranges + 2 ^ 32 - 1);
      })

  -- The new length of the range, and the state.
  pub coalesce_right : Transaction o → ℕ → ℕ → Option (ℕ × Transaction o)
  coalesce_right t first_page pages = elim (lower_bound (first_page * 2 ^ 32) t.free_by_start) [
    | none ↦ some (pages, t)
    | some e ↦
        if start_of e == u32 (first_page + pages)
          && not (is_first_page_of_segment shift (start_of e))
        then (join_entry t e >>= λ t'. some (u32 (pages + size_of e), t'))
        else some (pages, t)
  ]

  -- The new start and length of the range, and the state.
  pub coalesce_left : Transaction o → ℕ → ℕ → Option (ℕ × ℕ × Transaction o)
  coalesce_left t first_page pages = elim (before (first_page * 2 ^ 32) t.free_by_start) [
    | none ↦ some (first_page, pages, t)
    | some e ↦
        if u32 (start_of e + size_of e) == first_page
          && not (is_first_page_of_segment shift first_page)
        then (join_entry t e >>= λ t'. some (start_of e, u32 (pages + size_of e), t'))
        else some (first_page, pages, t)
  ]

  pub add_range : Transaction o → ℕ → ℕ → Transaction o
  add_range t first_page pages = record t {
    free_by_start = insert (start_entry first_page pages 1) t.free_by_start;
    free_by_size = insert (size_entry pages first_page) t.free_by_size;
    free_ranges = u32 (t.free_ranges + 1);
  }

  pub perform_free_pages : Transaction o → ℕ → ℕ → Option (Transaction o)
  perform_free_pages t first_page pages =
      if u32 (first_page + pages) == t.total_pages
      then trim (suc (size t.free_by_start))
          (record t { total_pages = u32 (t.total_pages + 2 ^ 32 - pages) })
      else (do
        (right_pages, t') ← coalesce_right t first_page pages
        (start, all_pages, t'') ← coalesce_left t' first_page right_pages
        some (add_range t'' start all_pages))

  -- `freePages` only stages the range; `commit` frees what is staged, in order.
  pub free_pages : Transaction o → ℕ → ℕ → Transaction o
  free_pages t first_page pages = record t {
    staged_free_ranges = t.staged_free_ranges ++ (bit_or (first_page * 2 ^ 32) pages ∷ []);
  }

  pub free_staged : List ℕ → Transaction o → Option (Transaction o)
  free_staged [] t = some (record t { staged_free_ranges = [] })
  free_staged (range ∷ ranges) t =
      perform_free_pages t (range / 2 ^ 32) (u32 range) >>= free_staged ranges

pub pages_for_bytes : ℕ → ℕ → ℕ
pages_for_bytes shift bytes = u32 (bytes + 2 ^ shift + 2 ^ 32 - 1) / 2 ^ shift

module _ (o : OrderedSet) where
  -- `begin` on a store that was just created: a header of zeros and empty sets.
  pub begin_created : Transaction o
  begin_created = record {
    total_pages = 0;
    free_range_index = 0;
    free_ranges = 0;
    free_by_size = OrderedSet.empty o;
    free_by_start = OrderedSet.empty o;
    staged_free_ranges = [];
  }

  pub begin_create_store : Transaction o → Transaction o
  begin_create_store t = record t { total_pages = 1 }

  pub set_meta_section_size : ℕ → Transaction o → ℕ → Transaction o
  unfolding pages_for_bytes
  set_meta_section_size shift t bytes = record t {
    total_pages = pages_for_bytes shift (u32 (bytes + 4096));
  }

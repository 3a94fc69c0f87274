-- ===== src/FreeStore/Index.antt =====
-- writeFreeRangeIndex, readFreeRangeIndex and `begin` of src/clarisma/libero/FreeStore_Transaction.cpp:
-- the free ranges in the file. `none` is a read behind the end of the file, which throws, or one of
-- the allocator's.
pub mod Words
pub mod Count
pub mod SameRanges
pub mod RoundTrip
use libgeodesk.Common.{
  ℕ, zero, suc, ◌+◌, ◌-◌, ◌*◌, ◌^◌, List, [], ◌∷◌, ◌++◌, length, drop, Option, none, some, ltb, leb,
  ◌==◌, if◌then◌else◌,
}
use libgeodesk.OrderedSet.{OrderedSet}
use libgeodesk.DiskFile.{DiskFile}
use libgeodesk.Journal.{put_le, get_le}
use libgeodesk.FreeStore.{
  Transaction, ◌>>=◌, u32, size_entry, start_of, size_of, alloc_pages, free_pages, pages_for_bytes,
}

-- An array of 64-bit numbers, and the next ones of a file.
pub put_words : List ℕ → List ℕ
put_words [] = []
put_words (w ∷ words) = put_le 8 w ++ put_words words

pub get_words : ℕ → List ℕ → List ℕ
get_words zero p = []
get_words (suc n) p = get_le 8 p ∷ get_words n (drop 8 p)

-- Zeros for slots that are left, two at most.
pub zero_slots : ℕ → ℕ → List ℕ
zero_slots used slots =
    if ltb used slots then (0 ∷ (if ltb (suc used) slots then 0 ∷ [] else [])) else []

-- `std::sort`
pub insert_sorted : ℕ → List ℕ → List ℕ
insert_sorted k [] = k ∷ []
insert_sorted k (x ∷ xs) =
    let rest = insert_sorted k xs in if leb k x then k ∷ (x ∷ xs) else (x ∷ rest)

pub sort : List ℕ → List ℕ
sort [] = []
sort (x ∷ xs) = insert_sorted x (sort xs)

pub size_entries : List ℕ → List ℕ
size_entries [] = []
size_entries (range ∷ ranges) = size_entry (size_of range) (start_of range) ∷ size_entries ranges

module _ (o : OrderedSet) where
  open o use {Set, insert, elements, empty}

  pub insert_all : List ℕ → Set → Set
  insert_all [] s = s
  insert_all (k ∷ keys) s = insert_all keys (insert k s)

  -- The first number is the length of the blob behind its own four bytes.
  pub index_words : ℕ → Set → List ℕ
  index_words slot_count by_start =
      let keys = elements by_start in
      u32 (u32 (slot_count * 8) + 2 ^ 32 - 4) ∷ (keys ++ zero_slots (suc (length keys)) slot_count)

  module _ (d : DiskFile) (shift : ℕ) where
    open d use {File, content, write_all_at}

    pub write_free_range_index : File → Transaction o → Option (File × Transaction o)
    write_free_range_index file t =
        let slot_count = u32 (t.free_ranges + 2) in
        let done =
          alloc_pages o shift t (pages_for_bytes shift (u32 (slot_count * 8)))
          >>= λ (index_page, t'). some (
            write_all_at file (index_page * 2 ^ shift)
                (put_words (index_words slot_count t'.free_by_start)),
            record t' { free_range_index = index_page },
          ) in
        if t.free_ranges == 0 then some (file, record t { free_range_index = 0 }) else done

    pub read_free_range_index : File → Transaction o → Option (Transaction o)
    read_free_range_index file t =
        let count = t.free_ranges in
        let bytes = drop (t.free_range_index * 2 ^ shift) (content file) in
        let ranges = get_words count (drop 8 bytes) in
        let index_blob_size = u32 (get_le 8 bytes + 4) in
        let filled = record t {
          free_by_start = insert_all ranges t.free_by_start;
          free_by_size = insert_all (sort (size_entries ranges)) t.free_by_size;
        } in
        let freed =
          free_pages o shift filled t.free_range_index (pages_for_bytes shift index_blob_size) in
        if count == 0
        then some t
        else (if ltb (length bytes) (u32 (count + 1) * 8)
            then none
            else some (record freed { free_range_index = 0xffff_ffff }))

    -- `begin` on a store that exists: the header gives the numbers, and the file the free ranges.
    pub begin_existing : File → Transaction o → Option (Transaction o)
    begin_existing file header =
        read_free_range_index file
          (record header { free_by_size = empty; free_by_start = empty; staged_free_ranges = [] })

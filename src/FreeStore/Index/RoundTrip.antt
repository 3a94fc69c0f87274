-- ===== src/FreeStore/Index/RoundTrip.antt =====
-- What a commit writes of the free ranges, the next transaction reads.
use libgeodesk.Common.{
  ℕ, suc, ◌+◌, ◌-◌, ◌*◌, ◌^◌, ◌≤◌, ◌<◌, ◌≡◌, ◌≢◌, refl, ap, arith, List, [], ◌∷◌, ◌++◌, length,
  drop, length-append, drop-append, ◌⊎◌, All, inl, inr, ltb-false, eq_false, some, bit_or,
}
use libgeodesk.Common.Bits.{or_fields}
use mathlib.Core.List.{append_assoc}
use native.Mathlib.Decide.{ℕ_discrete}
use libgeodesk.OrderedSet.{OrderedSet}
use libgeodesk.DiskFile.{DiskFile}
use libgeodesk.DiskFile.Overwrite.{drop-write_all_at}
use libgeodesk.Journal.{put_le, get_le}
use libgeodesk.Journal.Stream.{length-put_le, get_le-put_le}
use libgeodesk.FreeStore.{
  Transaction, u32, alloc_pages, free_pages, pages_for_bytes, pages_per_segment,
}
use libgeodesk.FreeStore.Create.{pages_for_bytes_lem, narrow}
use libgeodesk.FreeStore.Valid.{IsValid}
use libgeodesk.FreeStore.Allocated.{Allocated}
use libgeodesk.FreeStore.Alloc.{alloc_pages-Allocated}
use libgeodesk.FreeStore.Index.{
  put_words, get_words, zero_slots, sort, size_entries, insert_all, index_words,
  write_free_range_index, read_free_range_index, begin_existing,
}
use libgeodesk.FreeStore.Index.Words.{put_words-append, length-put_words, get_words-put_words}
use libgeodesk.FreeStore.Index.Count.{alloc_pages-IsClose}
use libgeodesk.FreeStore.Index.SameRanges.{HasSameRanges, start_back, size_back, keys_small}

module _ (o : OrderedSet) where
  open o use {Set, has, insert, elements, empty, size, length-elements}

  -- What a reader finds at the start of the index, and behind its first number.
  record IsIndex (slots : ℕ) (by_start : Set) (bytes : List ℕ) : Type 0 where
    first : get_le 8 bytes ≡ slots * 8 - 4
    ranges : get_words (size by_start) (drop 8 bytes) ≡ elements by_start
    long : (size by_start + 1) * 8 ≤ length bytes

  index_words-IsIndex :
      (slots : ℕ) (by_start : Set) (rest : List ℕ)
      → size by_start + 1 ≤ slots
      → slots ≤ size by_start + 3
      → slots * 8 < 2 ^ 32
      → All (λ w. w < 2 ^ 64) (elements by_start)
      → IsIndex slots by_start (put_words (index_words o slots by_start) ++ rest)
  unfolding index_words put_words
  index_words-IsIndex slots by_start rest lo hi narrow small =
      let keys = elements by_start in
      let zeros = zero_slots (suc (length keys)) slots in
      let head : u32 (u32 (slots * 8) + 2 ^ 32 - 4) ≡ slots * 8 - 4 = omega arith in
      let tail = put_words (keys ++ zeros) ++ rest in
      let shape : put_words (index_words o slots by_start) ++ rest
          ≡ put_le 8 (slots * 8 - 4) ++ tail =
        rw head (append_assoc (put_le 8 (slots * 8 - 4)) (put_words (keys ++ zeros)) rest) in
      let body : tail ≡ put_words keys ++ (put_words zeros ++ rest) =
        rw (put_words-append keys zeros) (append_assoc (put_words keys) (put_words zeros) rest) in
      rw shape (record {
        first = get_le-put_le 8 (slots * 8 - 4) tail (omega arith);
        ranges =
            rw
              (
                drop-append 8 (put_le 8 (slots * 8 - 4)) tail (length-put_le 8 (slots * 8 - 4)),
                body,
                ← length-elements by_start,
              )
              (get_words-put_words keys (put_words zeros ++ rest) small);
        long = rw body (
            omega (
              arith,
              length-append (put_le 8 (slots * 8 - 4))
                  (put_words keys ++ (put_words zeros ++ rest)),
              length-append (put_words keys) (put_words zeros ++ rest),
              length-put_le 8 (slots * 8 - 4),
              length-put_words keys,
              length-elements by_start,
            ));
      })

  module _ (d : DiskFile) (shift : ℕ) where
    open d use {File, content, write_all_at}

    begin_existing-IsIndex :
        (file : File) (header : Transaction o) (slots : ℕ) (by_start : Set)
        → header.free_ranges ≡ size by_start
        → header.free_ranges ≢ 0
        → slots * 8 < 2 ^ 32
        → size by_start + 1 ≤ slots
        → IsIndex slots by_start (drop (header.free_range_index * 2 ^ shift) (content file))
        → begin_existing o d shift file header
          ≡ some (record header {
            free_by_start = insert_all o (elements by_start) empty;
            free_by_size = insert_all o (sort (size_entries (elements by_start))) empty;
            staged_free_ranges =
                bit_or (header.free_range_index * 2 ^ 32) (pages_for_bytes shift (slots * 8)) ∷ [];
            free_range_index = 0xffff_ffff;
          })
    unfolding begin_existing read_free_range_index free_pages
    begin_existing-IsIndex file header slots by_start count some_range small room i =
        let blob : u32 (slots * 8 - 4 + 4) ≡ slots * 8 = omega arith in
        let fits : u32 (size by_start + 1) ≡ size by_start + 1 = omega arith in
        rw
          (
            eq_false header.free_ranges 0 some_range,
            count,
            i.ranges,
            i.first,
            blob,
            fits,
            ltb-false (length (drop (header.free_range_index * 2 ^ shift) (content file)))
                ((size by_start + 1) * 8) (omega (arith, i.long)),
          )
          refl

    write_free_range_index_lem :
        (file : File) (t t' : Transaction o) (index_page : ℕ)
        → t.free_ranges ≡ size t.free_by_start
        → t.free_ranges ≢ 0
        → (size t.free_by_start + 2) * 8 < 2 ^ 32
        → alloc_pages o shift t (pages_for_bytes shift ((size t.free_by_start + 2) * 8))
          ≡ some (index_page, t')
        → write_free_range_index o d shift file t
          ≡ some (
            write_all_at file
                (index_page * 2 ^ shift)
                (put_words (index_words o (size t.free_by_start + 2) t'.free_by_start)),
            record t' { free_range_index = index_page },
          )
    unfolding write_free_range_index
    write_free_range_index_lem file t t' index_page count some_range small eq =
        let slots : u32 (t.free_ranges + 2) ≡ size t.free_by_start + 2 = omega arith in
        let bytes : u32 ((size t.free_by_start + 2) * 8) ≡ (size t.free_by_start + 2) * 8 =
          omega arith in
        rw (eq_false t.free_ranges 0 some_range, slots, bytes, eq) refl

    -- For a valid state with free ranges, whose index of at most 4 GB less a page fits a segment, with
    -- page numbers that stay below 2 ^ 32, writing the index succeeds, on pages that were not in use.
    -- If there are free ranges still, `begin` on the file with the new header reads back the same free
    -- ranges into both sets, and stages the pages of the index, and nothing else, to be freed.
    pub begin_existing-write_free_range_index :
        (h : shift ≤ 30) (file : File) {t : Transaction o}
        → IsValid o shift t
        → t.free_ranges ≢ 0
        → (size t.free_by_start + 2) * 8 + 2 ^ shift < 2 ^ 32
        → pages_for_bytes shift ((size t.free_by_start + 2) * 8) ≤ pages_per_segment shift
        → t.total_pages
            + pages_per_segment shift
            + pages_for_bytes shift ((size t.free_by_start + 2) * 8)
          < 2 ^ 32
        → (index_page : ℕ) × (file' : File) × (t' : Transaction o) × (write_free_range_index o d
              shift file t
            ≡ some (file', record t' { free_range_index = index_page }))
          × Allocated o shift t
              (pages_for_bytes shift ((size t.free_by_start + 2) * 8))
              index_page
              t'
          × ((t'.free_ranges ≡ 0)
              ⊎ ((t'' : Transaction o) × (begin_existing o d shift file'
                      (record t' { free_range_index = index_page })
                    ≡ some t'')
                  × HasSameRanges o t' t''
                  × (t''.staged_free_ranges
                      ≡ (index_page * 2 ^ 32
                          + pages_for_bytes shift ((size t.free_by_start + 2) * 8))
                        ∷ [])))
    begin_existing-write_free_range_index h file {t} v some_range small fits room =
        let slots = size t.free_by_start + 2 in
        let pages = pages_for_bytes shift (slots * 8) in
        let one : 1 ≤ pages = (pages_for_bytes_lem shift (slots * 8) 0 small).1 (omega arith) in
        let count : t.free_ranges ≡ size t.free_by_start = omega (arith, v.count_start) in
        let (index_page, t', eq, made) = alloc_pages-Allocated o shift h pages v one fits room in
        let (most, least) = alloc_pages-IsClose o shift t t' pages index_page eq in
        let count' : t'.free_ranges ≡ size t'.free_by_start =
          omega (arith, made.valid.count_start) in
        let per = pages_per_segment shift in
        let header = record t' { free_range_index = index_page } in
        let words = put_words (index_words o slots t'.free_by_start) in
        let file' = write_all_at file (index_page * 2 ^ shift) words in
        let (rest, found) = drop-write_all_at d file (index_page * 2 ^ shift) words in
        let r = made.valid.ranges in
        (
          index_page,
          file',
          t',
          write_free_range_index_lem file t t' index_page count some_range (omega arith) eq,
          made,
          elim (ℕ_discrete t'.free_ranges 0) [
            | yes none_left ↦ inl none_left
            | no left ↦
                let i =
                  index_words-IsIndex slots t'.free_by_start rest (omega arith) (omega arith)
                    (omega arith)
                    (keys_small o per t'.total_pages t'.free_by_size t'.free_by_start r) in
                inr (
                  _,
                  begin_existing-IsIndex file' header slots t'.free_by_start count' left
                      (omega arith) (omega arith) (rw found i),
                  record {
                    same_start = start_back o per t'.total_pages t'.free_by_size t'.free_by_start r;
                    same_size = size_back o per t'.total_pages t'.free_by_size t'.free_by_start r;
                  },
                  ap (λ (w : ℕ). w ∷ []) (or_fields 32 index_page pages (narrow shift (slots * 8))),
                )
          ],
        )

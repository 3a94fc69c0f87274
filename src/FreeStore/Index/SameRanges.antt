-- ===== src/FreeStore/Index/SameRanges.antt =====
-- Free ranges that are filled back into the two sets.
use libgeodesk.Common.{ℕ, ◌^◌, ◌<◌, ◌≡◌, sym, ◌∙◌, arith, List, true, All, Bool}
use libgeodesk.OrderedSet.{OrderedSet, mem}
use libgeodesk.FreeStore.{Transaction, size_entry, size_of, start_of}
use libgeodesk.FreeStore.Ranges.{AreRanges, size_key}
use libgeodesk.FreeStore.Encoding.{size_entry-eq}
use libgeodesk.FreeStore.Index.{sort, size_entries, insert_all}
use libgeodesk.FreeStore.Index.Words.{
  mem-sort, mem-size_entries_from, mem-size_entries, All-mem, has-insert_all,
}

both_true : (a b : Bool) → (a ≡ true → b ≡ true) → (b ≡ true → a ≡ true) → a ≡ b
both_true a b to from = ground arith

module _ (o : OrderedSet) where
  open o use {Set, has, insert, elements, empty, size, has-empty, mem-elements, length-elements}

  -- The same free ranges, in both sets.
  pub record HasSameRanges (t t' : Transaction o) : Type 0 where
    pub same_start : (e : ℕ) → has e t'.free_by_start ≡ has e t.free_by_start
    pub same_size : (g : ℕ) → has g t'.free_by_size ≡ has g t.free_by_size

  module _ (per total : ℕ) (by_size by_start : Set)
      (r : AreRanges o per total by_size by_start) where
    abbrev pub keys : List ℕ
    keys = elements by_start

    pub start_back : (e : ℕ) → has e (insert_all o keys empty) ≡ has e by_start
    start_back e =
        has-insert_all o e keys empty ∙ ground (arith, mem-elements e by_start, has-empty e)

    held_size : (e : ℕ) → has e by_start ≡ true → size_entry (size_of e) (start_of e) ≡ size_key e
    held_size e he = size_entry-eq (size_of e) (start_of e) (omega (arith, r.inside e he, r.small))

    pub size_back : (g : ℕ) → has g (insert_all o (sort (size_entries keys)) empty) ≡ has g by_size
    size_back g =
        has-insert_all o g (sort (size_entries keys)) empty
        ∙ both_true _ (has g by_size)
            (λ h.
              let held : mem g (size_entries keys) ≡ true =
                sym (mem-sort g (size_entries keys)) ∙ ground (arith, h, has-empty g) in
              let (e, there, same) = mem-size_entries_from g keys held in
              let he : has e by_start ≡ true = sym (mem-elements e by_start) ∙ there in
              let key : size_key e ≡ g = sym (held_size e he) ∙ same in rw key at (r.sized e he))
            (λ h.
              let (e, he, key) = r.placed g h in
              let there = mem-size_entries e keys (mem-elements e by_start ∙ he) in
              let held : mem g (size_entries keys) ≡ true = rw (held_size e he, key) at there in
              let sorted : mem g (sort (size_entries keys)) ≡ true =
                mem-sort g (size_entries keys) ∙ held in
              ground (arith, sorted))

    pub keys_small : All (λ w. w < 2 ^ 64) keys
    keys_small =
        All-mem keys
          (λ e there. omega (arith, r.small, r.inside e (sym (mem-elements e by_start) ∙ there)))

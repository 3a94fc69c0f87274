-- ===== src/FreeStore/Index/Words.antt =====
-- Arrays of numbers in a file, and lists of keys as sets.
use libgeodesk.Common.{
  ℕ, suc, ◌+◌, ◌*◌, ◌^◌, ◌≤◌, ◌<◌, ◌≡◌, refl, ap, sym, ◌∙◌, arith, List, [], ◌∷◌, ◌++◌, length,
  length-append, drop-append, true, All, Bool-cases, inl, inr, ◌==◌, if◌then◌else◌,
}
use mathlib.Core.List.{append_assoc}
use libgeodesk.OrderedSet.{OrderedSet, mem}
use libgeodesk.Journal.{put_le}
use libgeodesk.Journal.Stream.{length-put_le, get_le-put_le}
use libgeodesk.FreeStore.{size_entry, size_of, start_of}
use libgeodesk.FreeStore.Index.{
  put_words, get_words, zero_slots, insert_sorted, sort, size_entries, insert_all, index_words,
}

pub put_words-append : (xs ys : List ℕ) → put_words (xs ++ ys) ≡ put_words xs ++ put_words ys
unfolding put_words
put_words-append [] ys = refl
put_words-append (x ∷ xs) ys =
    ap (λ (s : List ℕ). put_le 8 x ++ s) (put_words-append xs ys)
    ∙ sym (append_assoc (put_le 8 x) (put_words xs) (put_words ys))

pub length-put_words : (ws : List ℕ) → length (put_words ws) ≡ 8 * length ws
unfolding put_words
length-put_words [] = refl
length-put_words (w ∷ ws) =
    omega (arith, length-append (put_le 8 w) (put_words ws), length-put_le 8 w, length-put_words ws)

-- The numbers that were written are read back, whatever follows.
pub get_words-put_words :
    (ws rest : List ℕ)
    → All (λ w. w < 2 ^ 64) ws
    → get_words (length ws) (put_words ws ++ rest) ≡ ws
unfolding put_words get_words
get_words-put_words [] rest h = refl
get_words-put_words (w ∷ ws) rest (small, h) =
    rw
      (
        append_assoc (put_le 8 w) (put_words ws) rest,
        get_le-put_le 8 w (put_words ws ++ rest) (omega arith),
        drop-append 8 (put_le 8 w) (put_words ws ++ rest) (length-put_le 8 w),
        get_words-put_words ws rest h,
      )
      refl

mem-insert_sorted :
    (j k : ℕ) (xs : List ℕ) → mem j (insert_sorted k xs) ≡ (if k == j then true else mem j xs)
unfolding insert_sorted
mem-insert_sorted j k [] = refl
mem-insert_sorted j k (x ∷ xs) = ground (arith, mem-insert_sorted j k xs)

-- Sorting keeps the keys.
pub mem-sort : (j : ℕ) (xs : List ℕ) → mem j (sort xs) ≡ mem j xs
unfolding sort
mem-sort j [] = refl
mem-sort j (x ∷ xs) = ground (arith, mem-insert_sorted j x (sort xs), mem-sort j xs)

pub mem-size_entries_from :
    (g : ℕ) (keys : List ℕ)
    → mem g (size_entries keys) ≡ true
    → (e : ℕ) × (mem e keys ≡ true) × (size_entry (size_of e) (start_of e) ≡ g)
unfolding size_entries
mem-size_entries_from g [] h = absurd (ground (arith, h))
mem-size_entries_from g (k ∷ keys) h =
    elim (Bool-cases (size_entry (size_of k) (start_of k) == g)) [
      | inl here ↦ (k, ground arith, ground (arith, here))
      | inr other ↦
          let (e, held, same) = mem-size_entries_from g keys (ground (arith, other)) in
          (e, ground (arith, held), same)
    ]

pub mem-size_entries :
    (e : ℕ) (keys : List ℕ)
    → mem e keys ≡ true
    → mem (size_entry (size_of e) (start_of e)) (size_entries keys) ≡ true
unfolding size_entries
mem-size_entries e [] h = absurd (ground (arith, h))
mem-size_entries e (k ∷ keys) h = elim (Bool-cases (k == e)) [
  | inl here ↦ let same : k ≡ e = ground (arith, here) in rw same (ground arith)
  | inr other ↦ ground (arith, mem-size_entries e keys)
]

pub All-mem : {P : ℕ → Type 0} (keys : List ℕ) → ((e : ℕ) → mem e keys ≡ true → P e) → All P keys
All-mem [] h = tt
All-mem (k ∷ keys) h = (h k (ground arith), All-mem keys (λ e m. h e (ground arith)))

module _ (o : OrderedSet) where
  open o use {Set, has, insert, elements, has-insert, size, length-elements}

  pub has-insert_all :
      (j : ℕ) (keys : List ℕ) (s : Set)
      → has j (insert_all o keys s) ≡ (if mem j keys then true else has j s)
  unfolding insert_all
  has-insert_all j [] s = refl
  has-insert_all j (k ∷ keys) s =
      ground (arith, has-insert_all j keys (insert k s), has-insert k j s)

  zero_slots_fill :
      (used slots : ℕ)
      → used ≤ slots
      → slots ≤ used + 2
      → used + length (zero_slots used slots) ≡ slots
  unfolding zero_slots
  zero_slots_fill used slots lo hi = ground arith

  -- The index has as many numbers as slots when one to three slots are over.
  pub length-index_words :
      (slots : ℕ) (s : Set)
      → size s + 1 ≤ slots
      → slots ≤ size s + 3
      → length (index_words o slots s) ≡ slots
  unfolding index_words
  length-index_words slots s lo hi = omega (
    arith,
    length-append (elements s) (zero_slots (suc (length (elements s))) slots),
    length-elements s,
    zero_slots_fill (suc (length (elements s))) slots,
  )

-- ===== src/OrderedSet.antt =====
-- What the allocator uses of an ordered set of 64-bit keys (`BTreeSet` in
-- include/clarisma/data/BTreeSet.h, an alias of a third-party B-tree): the operations, and their
-- laws in terms of membership. An iterator is the key that it points to, `end()` is `none`.
pub mod ListSet
use libgeodesk.Common.{
  ℕ, suc, ◌+◌, ◌≤◌, ◌<◌, ◌≡◌, Bool, true, false, Option, none, some, ◌==◌, if◌then◌else◌, List, [],
  ◌∷◌, length,
}

-- Whether a key is in a list.
abbrev pub mem : ℕ → List ℕ → Bool
mem j [] = false
mem j (x ∷ xs) = if x == j then true else mem j xs

pub record OrderedSet : Type 1 where
  pub Set : Type 0
  pub empty : Set
  pub has : ℕ → Set → Bool
  pub insert : ℕ → Set → Set
  pub erase : ℕ → Set → Set
  -- the first key that is not below the given one
  pub lower_bound : ℕ → Set → Option ℕ
  -- the last key below the given one
  pub before : ℕ → Set → Option ℕ
  -- `*std::prev(end())`
  pub last : Set → Option ℕ
  pub size : Set → ℕ
  -- what an iteration from `begin()` to `end()` meets
  pub elements : Set → List ℕ
  pub has-empty : (j : ℕ) → has j empty ≡ false
  pub has-insert : (k j : ℕ) (s : Set) → has j (insert k s) ≡ (if k == j then true else has j s)
  pub has-erase : (k j : ℕ) (s : Set) → has j (erase k s) ≡ (if k == j then false else has j s)
  pub lower_bound-none : (k j : ℕ) (s : Set) → lower_bound k s ≡ none → k ≤ j → has j s ≡ false
  pub lower_bound-has : (k e : ℕ) (s : Set) → lower_bound k s ≡ some e → (k ≤ e) × (has e s ≡ true)
  pub lower_bound-first :
      (k e j : ℕ) (s : Set) → lower_bound k s ≡ some e → k ≤ j → j < e → has j s ≡ false
  pub before-none : (k j : ℕ) (s : Set) → before k s ≡ none → j < k → has j s ≡ false
  pub before-has : (k e : ℕ) (s : Set) → before k s ≡ some e → (e < k) × (has e s ≡ true)
  pub before-last : (k e j : ℕ) (s : Set) → before k s ≡ some e → e < j → j < k → has j s ≡ false
  pub last-none : (j : ℕ) (s : Set) → last s ≡ none → has j s ≡ false
  pub last-has : (e : ℕ) (s : Set) → last s ≡ some e → has e s ≡ true
  pub last-last : (e j : ℕ) (s : Set) → last s ≡ some e → e < j → has j s ≡ false
  pub size-empty : size empty ≡ 0
  pub size-insert : (k : ℕ) (s : Set) → has k s ≡ false → size (insert k s) ≡ size s + 1
  pub size-erase : (k : ℕ) (s : Set) → has k s ≡ true → size (erase k s) + 1 ≡ size s
  pub size-insert_held : (k : ℕ) (s : Set) → has k s ≡ true → size (insert k s) ≡ size s
  pub mem-elements : (j : ℕ) (s : Set) → mem j (elements s) ≡ has j s
  pub length-elements : (s : Set) → length (elements s) ≡ size s

-- ===== src/OrderedSet/ListSet.antt =====
-- A list of keys fills the interface of an ordered set, so the interface can hold.
use libgeodesk.Common.{
  ℕ, suc, ◌+◌, ◌≤◌, ◌<◌, ◌≡◌, Bool, true, false, Option, none, some, ◌==◌, if◌then◌else◌, refl,
  arith, ltb, List, [], ◌∷◌, Option-cases, Bool-cases, length, inl, inr,
}
use libgeodesk.OrderedSet.{OrderedSet, mem}

unfoldable pub has : ℕ → List ℕ → Bool
has j [] = false
has j (x ∷ xs) = if x == j then true else has j xs

unfoldable pub insert : ℕ → List ℕ → List ℕ
insert k s = if has k s then s else (k ∷ s)

unfoldable pub erase : ℕ → List ℕ → List ℕ
erase k [] = []
erase k (x ∷ xs) = let rest = erase k xs in if x == k then rest else (x ∷ rest)

-- The lower of a key and a key that may be there; the higher.
unfoldable pub lower : ℕ → Option ℕ → ℕ
lower x none = x
lower x (some y) = if ltb x y then x else y

unfoldable pub higher : ℕ → Option ℕ → ℕ
higher x none = x
higher x (some y) = if ltb y x then x else y

unfoldable pub lower_bound : ℕ → List ℕ → Option ℕ
lower_bound k [] = none
lower_bound k (x ∷ xs) =
    let rest = lower_bound k xs in if ltb x k then rest else some (lower x rest)

unfoldable pub before : ℕ → List ℕ → Option ℕ
before k [] = none
before k (x ∷ xs) = let rest = before k xs in if ltb x k then some (higher x rest) else rest

unfoldable pub last : List ℕ → Option ℕ
last [] = none
last (x ∷ xs) = some (higher x (last xs))

unfoldable pub size : List ℕ → ℕ
size [] = 0
size (x ∷ xs) = let rest = size xs in if has x xs then rest else suc rest

pub has-insert : (k j : ℕ) (s : List ℕ) → has j (insert k s) ≡ (if k == j then true else has j s)
unfolding has insert
has-insert k j s = elim (Bool-cases (has k s)) [ inl old ↦ ground arith | inr new ↦ ground arith ]

pub has-erase : (k j : ℕ) (s : List ℕ) → has j (erase k s) ≡ (if k == j then false else has j s)
unfolding has erase
has-erase k j [] = ground arith
has-erase k j (x ∷ xs) = ground (arith, has-erase k j xs)

pub lower_bound-none : (k j : ℕ) (s : List ℕ) → lower_bound k s ≡ none → k ≤ j → has j s ≡ false
unfolding has lower_bound
lower_bound-none k j [] q le = refl
lower_bound-none k j (x ∷ xs) q le = ground (arith, lower_bound-none k j xs)

pub lower_bound-has : (k e : ℕ) (s : List ℕ) → lower_bound k s ≡ some e → (k ≤ e) × (has e s ≡ true)
unfolding has lower_bound lower
lower_bound-has k e [] q = ground arith
lower_bound-has k e (x ∷ xs) q = elim (Option-cases (lower_bound k xs)) [
  | inl r ↦ ground (arith, r)
  | inr (y, r) ↦ ground (arith, r, lower_bound-has k y xs r)
]

pub lower_bound-first :
    (k e j : ℕ) (s : List ℕ) → lower_bound k s ≡ some e → k ≤ j → j < e → has j s ≡ false
unfolding has lower_bound lower
lower_bound-first k e j [] q le lt = refl
lower_bound-first k e j (x ∷ xs) q le lt = elim (Option-cases (lower_bound k xs)) [
  | inl r ↦ ground (arith, r, lower_bound-none k j xs r le)
  | inr (y, r) ↦ ground (arith, r, lower_bound-first k y j xs r le)
]

pub before-none : (k j : ℕ) (s : List ℕ) → before k s ≡ none → j < k → has j s ≡ false
unfolding has before
before-none k j [] q le = refl
before-none k j (x ∷ xs) q le = ground (arith, before-none k j xs)

pub before-has : (k e : ℕ) (s : List ℕ) → before k s ≡ some e → (e < k) × (has e s ≡ true)
unfolding has before higher
before-has k e [] q = ground arith
before-has k e (x ∷ xs) q = elim (Option-cases (before k xs)) [
  | inl r ↦ ground (arith, r)
  | inr (y, r) ↦ ground (arith, r, before-has k y xs r)
]

pub before-last : (k e j : ℕ) (s : List ℕ) → before k s ≡ some e → e < j → j < k → has j s ≡ false
unfolding has before higher
before-last k e j [] q gt lt = refl
before-last k e j (x ∷ xs) q gt lt = elim (Option-cases (before k xs)) [
  | inl r ↦ ground (arith, r, before-none k j xs r lt)
  | inr (y, r) ↦ ground (arith, r, λ (g : y < j). before-last k y j xs r g lt)
]

pub last-none : (j : ℕ) (s : List ℕ) → last s ≡ none → has j s ≡ false
unfolding has last
last-none j [] q = refl
last-none j (x ∷ xs) q = ground arith

pub last-has : (e : ℕ) (s : List ℕ) → last s ≡ some e → has e s ≡ true
unfolding has last higher
last-has e [] q = ground arith
last-has e (x ∷ xs) q = elim (Option-cases (last xs)) [
  | inl r ↦ ground (arith, r)
  | inr (y, r) ↦ ground (arith, r, last-has y xs r)
]

pub last-last : (e j : ℕ) (s : List ℕ) → last s ≡ some e → e < j → has j s ≡ false
unfolding has last higher
last-last e j [] q gt = refl
last-last e j (x ∷ xs) q gt = elim (Option-cases (last xs)) [
  | inl r ↦ ground (arith, r, last-none j xs r)
  | inr (y, r) ↦ ground (arith, r, last-last y j xs r)
]

pub size-insert : (k : ℕ) (s : List ℕ) → has k s ≡ false → size (insert k s) ≡ size s + 1
unfolding insert size
size-insert k s new = ground (arith, new)

erase-new : (k : ℕ) (s : List ℕ) → has k s ≡ false → size (erase k s) ≡ size s
unfolding has erase size
erase-new k [] new = refl
erase-new k (x ∷ xs) new = ground (arith, has-erase k x xs, erase-new k xs)

pub size-erase : (k : ℕ) (s : List ℕ) → has k s ≡ true → size (erase k s) + 1 ≡ size s
unfolding has erase size
size-erase k [] old = ground arith
size-erase k (x ∷ xs) old = elim (Bool-cases (has k xs)) [
  | inl h ↦ ground (arith, h, has-erase k x xs, size-erase k xs h)
  | inr h ↦ ground (arith, h, has-erase k x xs, erase-new k xs h)
]

unfoldable pub elements : List ℕ → List ℕ
elements [] = []
elements (x ∷ xs) = let rest = elements xs in if has x xs then rest else (x ∷ rest)

pub size-insert_held : (k : ℕ) (s : List ℕ) → has k s ≡ true → size (insert k s) ≡ size s
unfolding insert size
size-insert_held k s old = ground (arith, old)

pub mem-elements : (j : ℕ) (s : List ℕ) → mem j (elements s) ≡ has j s
unfolding elements has
mem-elements j [] = refl
mem-elements j (x ∷ xs) = elim (Bool-cases (has x xs)) [
  | inl h ↦ ground (arith, h, mem-elements j xs)
  | inr h ↦ ground (arith, h, mem-elements j xs)
]

pub length-elements : (s : List ℕ) → length (elements s) ≡ size s
unfolding elements size
length-elements [] = refl
length-elements (x ∷ xs) = elim (Bool-cases (has x xs)) [
  | inl h ↦ rw h (length-elements xs)
  | inr h ↦ rw h (omega (arith, length-elements xs))
]

unfoldable pub list_set : OrderedSet
unfolding has size
list_set = record {
  Set = List ℕ;
  empty = [];
  has = has;
  insert = insert;
  erase = erase;
  lower_bound = lower_bound;
  before = before;
  last = last;
  size = size;
  has-empty = λ j. refl;
  has-insert = has-insert;
  has-erase = has-erase;
  lower_bound-none = lower_bound-none;
  lower_bound-has = lower_bound-has;
  lower_bound-first = lower_bound-first;
  before-none = before-none;
  before-has = before-has;
  before-last = before-last;
  last-none = last-none;
  last-has = last-has;
  last-last = last-last;
  size-empty = refl;
  size-insert = size-insert;
  size-erase = size-erase;
  elements = elements;
  size-insert_held = size-insert_held;
  mem-elements = mem-elements;
  length-elements = length-elements;
}

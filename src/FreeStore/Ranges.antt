-- ===== src/FreeStore/Ranges.antt =====
-- The free ranges as the two sets hold them: what keeps the sets in step, and that adding and
-- taking away one range does. `per` is the number of pages in a segment.
use libgeodesk.Common.{
  ℕ, ◌+◌, ◌*◌, ◌%◌, ◌^◌, ◌≤◌, ◌<◌, ◌≡◌, ◌⊎◌, arith, true, ◌≢◌, inl, inr, ap, refl, sym, ◌∙◌,
}
use libgeodesk.OrderedSet.{OrderedSet}
use libgeodesk.FreeStore.{start_of, size_of}

abbrev pub size_key : ℕ → ℕ
size_key e = size_of e * 2 ^ 32 + start_of e

abbrev pub start_key : ℕ → ℕ → ℕ → ℕ
start_key start pages garbage = start * 2 ^ 32 + pages * 2 + garbage

-- Two ranges share no page.
abbrev pub Apart : ℕ → ℕ → ℕ → ℕ → Type 0
Apart start pages start' pages' = (start + pages ≤ start') ⊎ (start' + pages' ≤ start)

pub start_key_decodes :
    (start pages garbage : ℕ)
    → garbage < 2
    → pages < 2 ^ 31
    → (start_of (start_key start pages garbage) ≡ start)
      × (size_of (start_key start pages garbage) ≡ pages)
start_key_decodes start pages garbage g narrow = omega arith

module _ (o : OrderedSet) where
  open o use {Set, has, insert, erase, has-insert, has-erase}

  pub has-erase_true : (k j : ℕ) (s : Set) → has j (erase k s) ≡ true → (has j s ≡ true) × (j ≢ k)
  has-erase_true k j s h = ground (arith, has-erase k j s)

  pub has-erase_ne : (k j : ℕ) (s : Set) → j ≢ k → has j s ≡ true → has j (erase k s) ≡ true
  has-erase_ne k j s ne h = ground (arith, has-erase k j s)

  pub has-insert_true : (k j : ℕ) (s : Set) → has j (insert k s) ≡ true → (j ≡ k) ⊎ (has j s ≡ true)
  has-insert_true k j s h = ground (arith, has-insert k j s)

  pub has-insert_self : (k j : ℕ) (s : Set) → j ≡ k → has j (insert k s) ≡ true
  has-insert_self k j s e = ground (arith, has-insert k j s)

  pub has-insert_old : (k j : ℕ) (s : Set) → has j s ≡ true → has j (insert k s) ≡ true
  has-insert_old k j s h = ground (arith, has-insert k j s)

module _ (o : OrderedSet) (per : ℕ) where
  open o use {Set, has, insert, erase}

  -- Every range has a page, lies behind page 0, ends before the last page of the file, and stays
  -- in its segment; the ranges are apart; and both sets hold the same ranges.
  pub record AreRanges (total : ℕ) (by_size by_start : Set) : Type 0 where
    pub small : total < 2 ^ 32
    pub inside :
        (e : ℕ)
        → has e by_start ≡ true
        → (1 ≤ size_of e) × (1 ≤ start_of e) × (start_of e + size_of e < total)
    pub segment : (e : ℕ) → has e by_start ≡ true → start_of e % per + size_of e ≤ per
    pub apart :
        (e f : ℕ)
        → has e by_start ≡ true
        → has f by_start ≡ true
        → (e ≡ f) ⊎ Apart (start_of e) (size_of e) (start_of f) (size_of f)
    pub sized : (e : ℕ) → has e by_start ≡ true → has (size_key e) by_size ≡ true
    pub placed :
        (g : ℕ) → has g by_size ≡ true → (e : ℕ) × (has e by_start ≡ true) × (size_key e ≡ g)

  module _ {total : ℕ} {by_size by_start : Set} (r : AreRanges total by_size by_start) where
    pub AreRanges-total :
        (total' : ℕ)
        → total' < 2 ^ 32
        → ((e : ℕ) → has e by_start ≡ true → start_of e + size_of e < total')
        → AreRanges total' by_size by_start
    AreRanges-total total' h fits = record {
      small = h;
      inside = λ e he. let (a, b, c) = r.inside e he in (a, b, fits e he);
      segment = r.segment;
      apart = r.apart;
      sized = r.sized;
      placed = r.placed;
    }

    -- Two ranges with one start and one size are one entry.
    pub size_key-injective :
        (e f : ℕ) → has e by_start ≡ true → has f by_start ≡ true → size_key e ≡ size_key f → e ≡ f
    size_key-injective e f he hf same =
        ground (arith, r.small, r.apart e f he hf, r.inside e he, r.inside f hf)

    pub AreRanges-erase :
        (e : ℕ)
        → has e by_start ≡ true
        → AreRanges total (erase (size_key e) by_size) (erase e by_start)
    AreRanges-erase e he = record {
      small = r.small;
      inside = λ f hf. r.inside f (old f hf).0;
      segment = λ f hf. r.segment f (old f hf).0;
      apart = λ f g hf hg. r.apart f g (old f hf).0 (old g hg).0;
      sized = λ f hf.
          let (was, ne) = old f hf in
          has-erase_ne o (size_key e) (size_key f) by_size
            (λ same. ne (size_key-injective f e was he same)) (r.sized f was);
      placed = λ g hg.
          let (was, ne) = has-erase_true o (size_key e) g by_size hg in
          let (f, hf, eq) = r.placed g was in
          (f, has-erase_ne o e f by_start (λ same. ne (sym eq ∙ ap size_key same)) hf, eq);
    }
      where
        old : (f : ℕ) → has f (erase e by_start) ≡ true → (has f by_start ≡ true) × (f ≢ e)
        old f hf = has-erase_true o e f by_start hf

    module _ (start pages garbage : ℕ) (g : garbage < 2) (one : 1 ≤ pages) (pos : 1 ≤ start)
        (fits : start + pages < total) (narrow : pages < 2 ^ 31) (seg : start % per + pages ≤ per)
        (free : (f : ℕ) → has f by_start ≡ true → Apart start pages (start_of f) (size_of f)) where
      abbrev key : ℕ
      key = start_key start pages garbage

      cases :
          (f : ℕ)
          → has f (insert key by_start) ≡ true
          → ((start_of f ≡ start) × (size_of f ≡ pages) × (f ≡ key)) ⊎ (has f by_start ≡ true)
      cases f hf = elim (has-insert_true o key f by_start hf) [
        | inl new ↦
            let (a, b) = start_key_decodes start pages garbage g narrow in
            inl (ap start_of new ∙ a, ap size_of new ∙ b, new)
        | inr old ↦ inr old
      ]

      pub AreRanges-insert :
          AreRanges total (insert (pages * 2 ^ 32 + start) by_size) (insert key by_start)
      AreRanges-insert = record {
        small = r.small;
        inside = λ f hf. elim (cases f hf) [
          | inl (a, b, _) ↦ (omega arith, omega arith, omega arith)
          | inr old ↦ r.inside f old
        ];
        segment =
            λ f hf. elim (cases f hf) [ inl (a, b, _) ↦ rw (a, b) seg | inr old ↦ r.segment f old ];
        apart = λ e f he hf. elim (cases e he) [
          | inl (a, b, new) ↦ elim (cases f hf) [
            | inl (_, _, new') ↦ inl (new ∙ sym new')
            | inr old ↦ inr (rw (a, b) (free f old))
          ]
          | inr old ↦ elim (cases f hf) [
            | inl (a, b, new) ↦ inr (ground (arith, free e old))
            | inr old' ↦ r.apart e f old old'
          ]
        ];
        sized = λ f hf. elim (cases f hf) [
          | inl (a, b, _) ↦ has-insert_self o _ (size_key f) by_size (omega arith)
          | inr old ↦ has-insert_old o _ (size_key f) by_size (r.sized f old)
        ];
        placed = λ k hk. elim (has-insert_true o _ k by_size hk) [
          | inl new ↦ (
            key,
            has-insert_self o key key by_start refl,
            omega (arith, start_key_decodes start pages garbage g narrow),
          )
          | inr old ↦
              let (f, hf, eq) = r.placed k old in (f, has-insert_old o key f by_start hf, eq)
        ];
      }

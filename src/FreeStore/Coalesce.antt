-- ===== src/FreeStore/Coalesce.antt =====
-- Joining a range that is about to be freed with the free ranges on both sides.
use libgeodesk.Common.{
  ℕ, ◌+◌, ◌%◌, ◌≤◌, ◌<◌, ◌≡◌, ◌≢◌, ◌⊎◌, ◌↔◌, sym, ◌∙◌, arith, true, not, inl, inr,
}
use native.Mathlib.Nat.{mod-add-mod, mod_self}
use native.Mathlib.Decide.{dec_lt}
use libgeodesk.OrderedSet.{OrderedSet}
use libgeodesk.FreeStore.{
  Transaction, start_of, size_of, pages_per_segment, is_first_page_of_segment,
}
use libgeodesk.FreeStore.Ranges.{Apart, has-erase_true}
use libgeodesk.FreeStore.Encoding.{
  mod-add_within, pages_per_segment_pos, is_first_page_of_segment-eq,
}
use libgeodesk.FreeStore.Pages.{Within, IsFree-erase}
use libgeodesk.FreeStore.Valid.{IsValid, IsUsed, without, without-IsValid}

-- A range that ends inside its segment, and one behind it, lie in one segment.
joined_segment :
    (per a m n : ℕ)
    → a % per + m ≤ per
    → (a + m) % per ≢ 0
    → (a + m) % per + n ≤ per
    → 0 < per
    → a % per + (m + n) ≤ per
joined_segment per a m n one ne two pos = elim (dec_lt (a % per + m) per) [
  | yes low ↦ omega (arith, mod-add_within per a m low)
  | no full ↦
      let whole : a % per + m ≡ per = omega arith in
      absurd (ne (sym (mod-add-mod a per m) ∙ rw whole (mod_self per)))
]

module _ (o : OrderedSet) (shift : ℕ) (h : shift ≤ 30) where
  open o use {has, before, before-has, lower_bound, lower_bound-has}

  -- A range of `pages` pages from `first` on that can be freed in the state `t`.
  pub record Pending (t : Transaction o) (first pages : ℕ) : Type 0 where
    pub valid : IsValid o shift t
    pub some_page : 1 ≤ pages
    pub behind_header : 1 ≤ first
    pub fits : first + pages < t.total_pages
    pub segment : first % pages_per_segment shift + pages ≤ pages_per_segment shift
    pub apart : (f : ℕ) → has f t.free_by_start ≡ true → Apart first pages (start_of f) (size_of f)

  -- The pages in use without those of the range.
  abbrev pub Remains : Transaction o → ℕ → ℕ → ℕ → Type 0
  Remains t first pages p = IsUsed o shift t p × (¬ Within first pages p)

  -- What joining a neighbour does: the range grows, and the pages that remain are the same.
  abbrev pub Grown : Transaction o → ℕ → ℕ → Transaction o → ℕ → ℕ → Type 0
  Grown t first pages t' first' pages' =
      Pending t' first' pages' × ((p : ℕ) → Remains t' first' pages' p ↔ Remains t first pages p)

  -- Taking in a free range beside the pending one.
  module _ {t : Transaction o} (e : ℕ) (he : has e t.free_by_start ≡ true) (v : IsValid o shift t)
      (first pages first' pages' : ℕ) (c : Pending t first pages)
      (covers : (p : ℕ)
        → Within first' pages' p ↔ (Within first pages p ⊎ Within (start_of e) (size_of e) p)) where
    Remains-join :
        (p : ℕ) → Remains (without o shift v e he) first' pages' p ↔ Remains t first pages p
    Remains-join p =
        let (keep, back) = IsFree-erase o v.ranges e p he in
        (
          λ r. (
            (r.0.0, λ free. r.0.1 (back (free, λ w. r.1 ((covers p).1 (inr w))))),
            λ w. r.1 ((covers p).1 (inl w)),
          ),
          λ r. (
            (r.0.0, λ free. r.0.1 (keep free).0),
            λ w. elim ((covers p).0 w) [ inl a ↦ r.1 a | inr b ↦ r.0.1 (e, he, b) ],
          ),
        )

  module _ {t : Transaction o} (first pages : ℕ) (c : Pending t first pages) where
    pub inside_segment :
        (a : ℕ) → not (is_first_page_of_segment shift a) ≡ true → a % pages_per_segment shift ≢ 0
    inside_segment a e = ground (arith, is_first_page_of_segment-eq shift h a)

    pub right-Grown :
        (e : ℕ) (he : has e t.free_by_start ≡ true)
        → start_of e ≡ first + pages
        → start_of e % pages_per_segment shift ≢ 0
        → Grown t first pages (without o shift c.valid e he) first (pages + size_of e)
    right-Grown e he meets off = (
      record {
        valid = without-IsValid o shift c.valid e he;
        some_page = omega (arith, c.some_page);
        behind_header = c.behind_header;
        fits = omega (arith, c.valid.ranges.inside e he);
        segment =
            joined_segment (pages_per_segment shift) first pages (size_of e) c.segment
              (rw (← meets) off) (rw (← meets) (c.valid.ranges.segment e he))
              (pages_per_segment_pos shift h).0;
        apart = λ f hf.
            let (was, ne) = has-erase_true o e f t.free_by_start hf in
            ground (
              arith,
              c.apart f was,
              c.valid.ranges.apart e f he was,
              c.valid.ranges.inside f was,
              c.some_page,
              meets,
              ne,
            );
      },
      Remains-join e he c.valid first pages first (pages + size_of e) c
          (λ p. ground (arith, meets)),
    )

    pub left-Grown :
        (e : ℕ) (he : has e t.free_by_start ≡ true)
        → start_of e + size_of e ≡ first
        → first % pages_per_segment shift ≢ 0
        → Grown t first pages (without o shift c.valid e he) (start_of e) (pages + size_of e)
    left-Grown e he meets off = (
      record {
        valid = without-IsValid o shift c.valid e he;
        some_page = omega (arith, c.some_page);
        behind_header = (c.valid.ranges.inside e he).1;
        fits = omega (arith, c.fits);
        segment = omega (
          arith,
          joined_segment (pages_per_segment shift) (start_of e) (size_of e) pages
              (c.valid.ranges.segment e he) (rw meets off) (rw meets c.segment)
              (pages_per_segment_pos shift h).0,
        );
        apart = λ f hf.
            let (was, ne) = has-erase_true o e f t.free_by_start hf in
            ground (
              arith,
              c.apart f was,
              c.valid.ranges.apart e f he was,
              c.valid.ranges.inside f was,
              c.some_page,
              meets,
              ne,
            );
      },
      Remains-join e he c.valid first pages (start_of e) (pages + size_of e) c
          (λ p. ground (arith, meets)),
    )

-- ===== src/FreeStore/Free.antt =====
-- `performFreePages`: what is freed, what is joined, and how the file shrinks.
use libgeodesk.Common.{
  ℕ, ◌+◌, ◌*◌, ◌^◌, ◌≤◌, ◌<◌, ◌≡◌, ◌⊎◌, ◌↔◌, refl, arith, true, false, not, ◌&&◌, inl, inr, some,
  Option-cases, ◌==◌, Bool, eq_false,
}
use libgeodesk.OrderedSet.{OrderedSet}
use libgeodesk.FreeStore.{
  Transaction, start_of, size_of, u32, coalesce_right, coalesce_left, is_first_page_of_segment,
  add_range, perform_free_pages,
}
use libgeodesk.FreeStore.Encoding.{start_entry-eq-start_key, size_entry-eq, pages_per_segment_pos}
use libgeodesk.FreeStore.Pages.{IsFree-insert}
use libgeodesk.FreeStore.Trim.{join_entry_lem}
use libgeodesk.FreeStore.Coalesce.{Pending, Remains, Grown, right-Grown, left-Grown, inside_segment}
use libgeodesk.FreeStore.Valid.{IsValid, IsUsed, without, with_range-IsValid}

split_and : (a b : Bool) → ((a ≡ true) × (b ≡ true)) ⊎ ((a && b) ≡ false)
split_and true true = inl (refl, refl)
split_and true false = inr refl
split_and false b = inr refl

module _ (o : OrderedSet) (shift : ℕ) (h : shift ≤ 30) where
  open o use {has, before, before-has, lower_bound, lower_bound-has, insert}

  module _ {t : Transaction o} (first pages : ℕ) (c : Pending o shift h t first pages) where
    unchanged : Grown o shift h t first pages t first pages
    unchanged = (c, λ p. (λ r. r, λ r. r))

    small_sum : (e : ℕ) → has e t.free_by_start ≡ true → u32 (pages + size_of e) ≡ pages + size_of e
    small_sum e he =
        omega (arith, c.segment, c.valid.ranges.segment e he, pages_per_segment_pos shift h)

    coalesce_right-Grown :
        (pages' : ℕ) × (t' : Transaction o) × (coalesce_right o shift t first pages
          ≡ some (pages', t'))
        × Grown o shift h t first pages t' first pages'
    unfolding coalesce_right
    coalesce_right-Grown = elim (Option-cases (lower_bound (first * 2 ^ 32) t.free_by_start)) [
      | inl q ↦ (pages, t, rw (q, coalesce_right) refl, unchanged)
      | inr (e, q) ↦
          let he = (lower_bound-has (first * 2 ^ 32) e t.free_by_start q).1 in
          let end : u32 (first + pages) ≡ first + pages =
            omega (arith, c.fits, c.valid.ranges.small) in
          elim (split_and (start_of e == u32 (first + pages))
            (not (is_first_page_of_segment shift (start_of e)))) [
              | inl (meets, off) ↦ (
                pages + size_of e,
                without o shift c.valid e he,
                rw
                    (
                      q,
                      coalesce_right,
                      meets,
                      off,
                      join_entry_lem o shift c.valid e he,
                      small_sum e he,
                    )
                    refl,
                right-Grown o shift h first pages c e he (ground (arith, end))
                    (inside_segment o shift h first pages c (start_of e) off),
              )
              | inr away ↦ (pages, t, rw (q, coalesce_right, away) refl, unchanged)
            ]
    ]

    coalesce_left-Grown :
        (first' : ℕ) × (pages' : ℕ) × (t' : Transaction o) × (coalesce_left o shift t first pages
          ≡ some (first', pages', t'))
        × Grown o shift h t first pages t' first' pages'
    unfolding coalesce_left
    coalesce_left-Grown = elim (Option-cases (before (first * 2 ^ 32) t.free_by_start)) [
      | inl q ↦ (first, pages, t, rw (q, coalesce_left) refl, unchanged)
      | inr (e, q) ↦
          let he = (before-has (first * 2 ^ 32) e t.free_by_start q).1 in
          let end : u32 (start_of e + size_of e) ≡ start_of e + size_of e =
            omega (arith, c.valid.ranges.small, c.valid.ranges.inside e he) in
          elim (split_and (u32 (start_of e + size_of e) == first)
            (not (is_first_page_of_segment shift first))) [
              | inl (meets, off) ↦ (
                start_of e,
                pages + size_of e,
                without o shift c.valid e he,
                rw
                    (
                      q,
                      coalesce_left,
                      meets,
                      off,
                      join_entry_lem o shift c.valid e he,
                      small_sum e he,
                    )
                    refl,
                left-Grown o shift h first pages c e he (ground (arith, end))
                    (inside_segment o shift h first pages c first off),
              )
              | inr away ↦ (first, pages, t, rw (q, coalesce_left, away) refl, unchanged)
            ]
    ]

    -- The pending range becomes a free range.
    add_range-Freed :
        IsValid o shift (add_range o shift t first pages)
        × ((p : ℕ)
            → IsUsed o shift (add_range o shift t first pages) p
              ↔ Remains o shift h t first pages p)
    unfolding add_range
    add_range-Freed =
        rw
          (
            start_entry-eq-start_key first pages 1 narrow (omega arith),
            size_entry-eq pages first (omega (arith, c.fits, c.valid.ranges.small)),
          )
          (
            with_range-IsValid o shift c.valid first pages 1 (omega arith) c.some_page
                c.behind_header c.fits narrow c.segment c.apart,
            λ p.
                let (to, from) =
                  IsFree-insert o first pages 1 p t.free_by_start (omega arith) narrow in
                (
                  λ u. ((u.0, λ free. u.1 (from (inr free))), λ w. u.1 (from (inl w))),
                  λ r. (r.0.0, λ free. elim (to free) [ inl w ↦ r.1 w | inr f ↦ r.0.1 f ]),
                ),
          )
      where
        narrow : pages < 2 ^ 31
        narrow = omega (arith, c.segment, pages_per_segment_pos shift h)

  -- Freeing pages: the new state is valid, and its pages in use are those of the old one without
  -- the freed.
  abbrev pub Freed : Transaction o → ℕ → ℕ → Transaction o → Type 0
  Freed t first pages t' =
      IsValid o shift t' × ((p : ℕ) → IsUsed o shift t' p ↔ Remains o shift h t first pages p)

  pub joined-Freed :
      {t : Transaction o} (first pages : ℕ)
      → Pending o shift h t first pages
      → ¬ (first + pages ≡ t.total_pages)
      → (t' : Transaction o) × (perform_free_pages o shift t first pages ≡ some t')
        × Freed t first pages t'
  unfolding perform_free_pages
  joined-Freed {t} first pages c inner =
      let (pages', t₁, eq₁, (c₁, same₁)) = coalesce_right-Grown first pages c in
      let (first', all', t₂, eq₂, (c₂, same₂)) = coalesce_left-Grown first pages' c₁ in
      let (valid, freed) = add_range-Freed first' all' c₂ in
      let no_wrap : u32 (first + pages) ≡ first + pages =
        omega (arith, c.fits, c.valid.ranges.small) in
      (
        add_range o shift t₂ first' all',
        rw (no_wrap, eq_false _ _ inner, eq₁, eq₂) refl,
        (
          valid,
          λ p. (
            λ u. (same₁ p).0 ((same₂ p).0 ((freed p).0 u)),
            λ r. (freed p).1 ((same₂ p).1 ((same₁ p).1 r)),
          ),
        ),
      )

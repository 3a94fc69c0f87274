-- ===== src/FreeStore/Commit.antt =====
-- `freePages` and `commit`: the ranges staged by a transaction, and their return to the free ones.
use libgeodesk.Common.{
  ℕ, ◌+◌, ◌-◌, ◌/◌, ◌^◌, ◌≤◌, ◌<◌, ◌≡◌, ◌⊎◌, ◌↔◌, refl, arith, inl, inr, some, List, [], ◌∷◌,
}
use libgeodesk.OrderedSet.{OrderedSet}
use libgeodesk.FreeStore.{
  Transaction, u32, pages_per_segment, alloc_pages, perform_free_pages, free_staged,
}
use libgeodesk.FreeStore.Pages.{Within}
use libgeodesk.FreeStore.Perform.{IsAllocated, perform_free_pages-Freed}
use libgeodesk.FreeStore.Alloc.{alloc_pages-Allocated}
use libgeodesk.FreeStore.Free.{Freed}
use libgeodesk.FreeStore.Valid.{IsValid, IsUsed}

-- The pages of some staged range.
abbrev pub IsStaged : List ℕ → ℕ → Type 0
IsStaged [] p = ⊥
IsStaged (range ∷ ranges) p = Within (range / 2 ^ 32) (u32 range) p ⊎ IsStaged ranges p

module _ (o : OrderedSet) (shift : ℕ) (h : shift ≤ 30) where
  -- Every staged range is in use, and no page is staged twice.
  abbrev pub AreStaged : Transaction o → List ℕ → Type 0
  AreStaged t [] = Unit
  AreStaged t (range ∷ ranges) =
      IsAllocated o shift h t (range / 2 ^ 32) (u32 range)
      × ((p : ℕ) → Within (range / 2 ^ 32) (u32 range) p → ¬ IsStaged ranges p)
      × AreStaged t ranges

  abbrev pub Committed : Transaction o → List ℕ → Transaction o → Type 0
  Committed t ranges t' =
      IsValid o shift t'
      × (t'.staged_free_ranges ≡ [])
      × ((p : ℕ) → IsUsed o shift t' p ↔ (IsUsed o shift t p × (¬ IsStaged ranges p)))

  module _ (t t' : Transaction o) (first pages : ℕ) (f : Freed o shift h t first pages t') where
    IsAllocated-Freed :
        (first' pages' : ℕ)
        → ((p : ℕ) → Within first' pages' p → ¬ Within first pages p)
        → IsAllocated o shift h t first' pages'
        → IsAllocated o shift h t' first' pages'
    IsAllocated-Freed first' pages' apart a = record {
      some_page = a.some_page;
      behind_header = a.behind_header;
      in_file = omega (
        arith,
        a.some_page,
        (still (first' + pages' - 1) (omega (arith, a.some_page), omega (arith, a.some_page))).0,
      );
      in_segment = a.in_segment;
      in_use = still;
    }
      where
        still : (p : ℕ) → Within first' pages' p → IsUsed o shift t' p
        still p w = (f.1 p).1 (a.in_use p w, apart p w)

    AreStaged-Freed :
        (ranges : List ℕ)
        → ((p : ℕ) → Within first pages p → ¬ IsStaged ranges p)
        → AreStaged t ranges
        → AreStaged t' ranges
    AreStaged-Freed [] apart a = tt
    AreStaged-Freed (range ∷ ranges) apart (a, once, rest) = (
      IsAllocated-Freed (range / 2 ^ 32) (u32 range) (λ p w v. apart p v (inl w)) a,
      once,
      AreStaged-Freed ranges (λ p w s. apart p w (inr s)) rest,
    )

  -- On a valid state, for a page size of at most 1 GB, committing staged ranges that are in use, lie
  -- in one segment each behind the header's page and share no page returns a valid state with nothing
  -- staged, whose pages in use are the old ones that were not staged.
  pub free_staged-Committed :
      (ranges : List ℕ) {t : Transaction o}
      → IsValid o shift t
      → AreStaged t ranges
      → (t' : Transaction o) × (free_staged o shift ranges t ≡ some t') × Committed t ranges t'
  unfolding free_staged
  free_staged-Committed [] {t} v a = (
    record t { staged_free_ranges = [] },
    refl,
    (
      record {
        ranges = v.ranges;
        header_page = v.header_page;
        count_start = v.count_start;
        count_size = v.count_size;
      },
      refl,
      λ p. (λ u. (u, λ n. n), λ u. u.0),
    ),
  )
  free_staged-Committed (range ∷ ranges) {t} v (a, once, rest) =
      let (t₁, eq₁, f) = perform_free_pages-Freed o shift h (range / 2 ^ 32) (u32 range) v a in
      let (t₂, eq₂, (valid, empty, same)) =
        free_staged-Committed ranges f.0
          (AreStaged-Freed t t₁ (range / 2 ^ 32) (u32 range) f ranges once rest) in
      (
        t₂,
        rw (free_staged, eq₁) eq₂,
        (
          valid,
          empty,
          λ p. (
            λ u.
                let (u₁, out) = (same p).0 u in
                let (u₀, off) = (f.1 p).0 u₁ in (u₀, λ s. elim s [ inl w ↦ off w | inr s ↦ out s ]),
            λ u. (same p).1 ((f.1 p).1 (u.0, λ w. u.1 (inl w)), λ s. u.1 (inr s)),
          ),
        ),
      )

  -- On a valid state, for a page size of at most 1 GB, a request of at least one page that fits a
  -- segment, with page numbers that stay below 2 ^ 32: the pages that `alloc_pages` returned can be
  -- freed at once; the state is then valid, and its pages in use are those from before the allocation.
  pub perform_free_pages-alloc_pages :
      {t : Transaction o} (pages : ℕ)
      → IsValid o shift t
      → 1 ≤ pages
      → pages ≤ pages_per_segment shift
      → t.total_pages + pages_per_segment shift + pages < 2 ^ 32
      → (first : ℕ) × (t₁ t₂ : Transaction o) × (alloc_pages o shift t pages ≡ some (first, t₁))
        × (perform_free_pages o shift t₁ first pages ≡ some t₂)
        × IsValid o shift t₂
        × ((p : ℕ) → IsUsed o shift t₂ p ↔ IsUsed o shift t p)
  perform_free_pages-alloc_pages {t} pages v one fits room =
      let (first, t₁, eq₁, a) = alloc_pages-Allocated o shift h pages v one fits room in
      let (t₂, eq₂, (valid, same)) =
        perform_free_pages-Freed o shift h first pages a.valid (record {
          some_page = one;
          behind_header = a.behind_header;
          in_file = a.in_file;
          in_segment = a.in_segment;
          in_use = λ p w. (a.used_iff p).1 (inr w);
        }) in
      (
        first,
        t₁,
        t₂,
        eq₁,
        eq₂,
        valid,
        λ p. (
          λ u.
              let (used, out) = (same p).0 u in
              elim ((a.used_iff p).0 used) [ inl before ↦ before | inr w ↦ absurd (out w) ],
          λ u. (same p).1 ((a.used_iff p).1 (inl u), λ w. a.was_unused p w u),
        ),
      )

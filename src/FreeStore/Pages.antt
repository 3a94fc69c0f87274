-- ===== src/FreeStore/Pages.antt =====
-- Which pages of the file are free, and which are in use.
use libgeodesk.Common.{
  ℕ, ◌+◌, ◌*◌, ◌^◌, ◌≤◌, ◌<◌, ◌≡◌, ◌⊎◌, ◌↔◌, arith, true, inl, inr, some, refl, Option-cases, ◌∙◌,
  ap,
}
use native.Mathlib.Decide.{dec_lt}
use libgeodesk.OrderedSet.{OrderedSet}
use libgeodesk.FreeStore.{start_of, size_of}
use libgeodesk.FreeStore.Ranges.{
  start_key, start_key_decodes, AreRanges, has-erase_true, has-erase_ne, has-insert_true,
  has-insert_self, has-insert_old,
}

abbrev pub Within : ℕ → ℕ → ℕ → Type 0
Within first pages p = (first ≤ p) × (p < first + pages)

pub dec_within : (first pages p : ℕ) → Dec (Within first pages p)
dec_within first pages p = elim (dec_lt p first) [
  | yes low ↦ no (λ w. omega arith)
  | no a ↦ elim (dec_lt p (first + pages)) [
    | yes b ↦ yes (omega arith, b)
    | no high ↦ no (λ w. omega arith)
  ]
]

module _ (o : OrderedSet) where
  open o use {
    Set, has, insert, erase, lower_bound, lower_bound-none, lower_bound-has, lower_bound-first,
  }

  abbrev pub IsFree : Set → ℕ → Type 0
  IsFree s p = (e : ℕ) × (has e s ≡ true) × Within (start_of e) (size_of e) p

  pub lower_bound_self : (k : ℕ) (s : Set) → has k s ≡ true → lower_bound k s ≡ some k
  lower_bound_self k s h = elim (Option-cases (lower_bound k s)) [
    | inl e ↦ cc (lower_bound-none k k s e (omega arith))
    | inr (j, e) ↦ ground (arith, e, lower_bound-has k j s e, lower_bound-first k j k s e)
  ]

  module _ {per total : ℕ} {by_size by_start : Set}
      (r : AreRanges o per total by_size by_start) where
    -- A search for a start page finds the range that begins there.
    pub lower_bound_start :
        (e : ℕ) → has e by_start ≡ true → lower_bound (start_of e * 2 ^ 32) by_start ≡ some e
    lower_bound_start e h = elim (Option-cases (lower_bound (start_of e * 2 ^ 32) by_start)) [
      | inl q ↦ cc (lower_bound-none (start_of e * 2 ^ 32) e by_start q (omega arith))
      | inr (f, q) ↦
          let (lo, hf) = lower_bound-has (start_of e * 2 ^ 32) f by_start q in
          ground (
            arith,
            q,
            lower_bound-first (start_of e * 2 ^ 32) f e by_start q (omega arith),
            r.apart e f h hf,
            r.inside e h,
            r.inside f hf,
          )
    ]

    pub IsFree-lt : (p : ℕ) → IsFree by_start p → p < total
    IsFree-lt p (e, h, w) = let (_, _, c) = r.inside e h in omega arith

    -- Taking a range away frees none of its pages, and keeps the others as they were.
    pub IsFree-erase :
        (e p : ℕ)
        → has e by_start ≡ true
        → IsFree (erase e by_start) p ↔ (IsFree by_start p × (¬ Within (start_of e) (size_of e) p))
    IsFree-erase e p h = (to, from)
      where
        to : IsFree (erase e by_start) p → IsFree by_start p × (¬ Within (start_of e) (size_of e) p)
        to (f, hf, w) =
            let (was, ne) = has-erase_true o e f by_start hf in
            (
              (f, was, w),
              λ v. elim (r.apart f e was h) [ inl same ↦ ne same | inr away ↦ omega arith ],
            )

        from :
            IsFree by_start p × (¬ Within (start_of e) (size_of e) p) → IsFree (erase e by_start) p
        from ((f, hf, w), out) =
            (f, has-erase_ne o e f by_start (λ same. out (rw (← same) w)) hf, w)

  pub IsFree-insert :
      (start pages garbage p : ℕ) (s : Set)
      → garbage < 2
      → pages < 2 ^ 31
      → IsFree (insert (start_key start pages garbage) s) p ↔ (Within start pages p ⊎ IsFree s p)
  IsFree-insert start pages garbage p s g narrow = (to, from)
    where
      key : ℕ
      key = start_key start pages garbage

      to : IsFree (insert key s) p → Within start pages p ⊎ IsFree s p
      to (f, hf, w) = elim (has-insert_true o key f s hf) [
        | inl new ↦
            let (a, b) = start_key_decodes start pages garbage g narrow in
            inl (rw (← ap start_of new ∙ a, ← ap size_of new ∙ b) w)
        | inr old ↦ inr (f, old, w)
      ]

      from : Within start pages p ⊎ IsFree s p → IsFree (insert key s) p
      from (inl w) =
          let (a, b) = start_key_decodes start pages garbage g narrow in
          (key, has-insert_self o key key s refl, rw (a, b) w)
      from (inr (f, hf, w)) = (f, has-insert_old o key f s hf, w)

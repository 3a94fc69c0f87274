-- ===== src/FreeStore/Trim.antt =====
-- Taking entries out of both sets, and the loop that gives free ranges at the end of the file back.
use libgeodesk.Common.{
  ℕ, zero, suc, ◌+◌, ◌≤◌, ◌<◌, ◌≡◌, ◌↔◌, refl, sym, arith, true, inl, inr, some, Option-cases,
  eq_true, eq_false,
}
use native.Mathlib.Decide.{ℕ_discrete, dec_lt}
use libgeodesk.OrderedSet.{OrderedSet}
use libgeodesk.FreeStore.{
  Transaction, start_of, size_of, u32, erase_at, trim, join_entry, size_entry,
}
use libgeodesk.FreeStore.Ranges.{size_key, has-erase_true}
use libgeodesk.FreeStore.Encoding.{size_entry-eq}
use libgeodesk.FreeStore.Pages.{IsFree-erase, lower_bound_self}
use libgeodesk.FreeStore.Valid.{IsValid, IsUsed, without, without-IsValid, total-IsValid}

module _ (o : OrderedSet) (shift : ℕ) where
  open o use {has, lower_bound, last, last-none, last-has, last-last, size, size-erase, erase}

  module _ {t : Transaction o} (v : IsValid o shift t) (e : ℕ)
      (he : has e t.free_by_start ≡ true) where
    erase_at_size :
        erase_at o shift (size_entry (size_of e) (start_of e)) t.free_by_size
        ≡ some (erase (size_key e) t.free_by_size)
    unfolding erase_at
    erase_at_size =
        rw
          (
            size_entry-eq (size_of e) (start_of e)
                (omega (arith, v.ranges.small, v.ranges.inside e he)),
            erase_at,
            lower_bound_self o (size_key e) t.free_by_size (v.ranges.sized e he),
          )
          refl

    -- Joining an entry to a range takes it out of both sets.
    pub join_entry_lem : join_entry o shift t e ≡ some (without o shift v e he)
    unfolding join_entry
    join_entry_lem = rw (join_entry, erase_at_size) refl

  -- While the loop runs, a range may reach the end of the file.
  abbrev pub Loose : Transaction o → Type 0
  Loose t = IsValid o shift (record t { total_pages = suc t.total_pages })

  -- The last key is the last range, so the others end before it.
  last_range :
      {t : Transaction o}
      → IsValid o shift t
      → (e f : ℕ) → last t.free_by_start ≡ some e
      → has f t.free_by_start ≡ true
      → start_of f + size_of f ≤ start_of e + size_of e
  last_range {t} v e f q hf =
      let he = last-has e t.free_by_start q in
      ground (
        arith,
        v.ranges.apart e f he hf,
        v.ranges.inside e he,
        v.ranges.inside f hf,
        last-last e f t.free_by_start q,
      )

  tighten :
      (t : Transaction o)
      → Loose t
      → 1 ≤ t.total_pages
      → ((e : ℕ) → has e t.free_by_start ≡ true → start_of e + size_of e < t.total_pages)
      → IsValid o shift t
  tighten t v pos fits =
      total-IsValid o shift v t.total_pages pos (omega (arith, v.ranges.small)) fits

  -- The state behind one round of the loop.
  module _ {t : Transaction o} (v : Loose t) (e : ℕ) (he : has e t.free_by_start ≡ true)
      (ends : start_of e + size_of e ≡ t.total_pages) where
    abbrev shorter : Transaction o
    shorter = record (without o shift v e he) { total_pages = start_of e }

    shorter-Loose : Loose shorter
    shorter-Loose =
        let w = without-IsValid o shift v e he in
        total-IsValid o shift w (suc (start_of e)) (omega arith) (omega (arith, v.ranges.small))
          (λ f hf.
            let (was, ne) = has-erase_true o e f t.free_by_start hf in
            elim (v.ranges.apart e f he was) [
              | inl same ↦ absurd (ne (sym same))
              | inr away ↦ omega (arith, v.ranges.inside f was)
            ])

    IsUsed-shorter : (p : ℕ) → IsUsed o shift shorter p ↔ IsUsed o shift t p
    IsUsed-shorter p =
        let (keep, back) = IsFree-erase o v.ranges e p he in
        (
          λ u. (omega arith, λ free. u.1 (back (free, λ w. omega arith))),
          λ u. (before_range u, λ free. u.1 (keep free).0),
        )
      where
        before_range : IsUsed o shift t p → p < start_of e
        before_range u = elim (dec_lt p (start_of e)) [
          | yes low ↦ low
          | no high ↦ absurd (u.1 (e, he, (omega arith, omega arith)))
        ]

  abbrev pub Trimmed : Transaction o → Transaction o → Type 0
  Trimmed t t' = IsValid o shift t' × ((p : ℕ) → IsUsed o shift t' p ↔ IsUsed o shift t p)

  -- With fuel for every range the loop ends, in a valid state with the same pages in use.
  pub trim-Trimmed :
      (fuel : ℕ) (t : Transaction o)
      → size t.free_by_start < fuel
      → Loose t
      → 1 ≤ t.total_pages
      → (t' : Transaction o) × (trim o shift fuel t ≡ some t') × Trimmed t t'
  unfolding trim
  trim-Trimmed zero t h v pos = absurd (omega arith)
  trim-Trimmed (suc fuel) t h v pos = elim (Option-cases (last t.free_by_start)) [
    | inl q ↦ (
      t,
      rw (q, trim) refl,
      (tighten t v pos (λ e he. cc (last-none e t.free_by_start q)), λ p. (λ u. u, λ u. u)),
    )
    | inr (e, q) ↦
        let he = last-has e t.free_by_start q in
        let no_wrap : u32 (start_of e + size_of e) ≡ start_of e + size_of e =
          omega (arith, v.ranges.small, v.ranges.inside e he) in
        elim (ℕ_discrete (start_of e + size_of e) t.total_pages) [
          | yes ends ↦
              let (t', eq, (valid, same)) =
                trim-Trimmed fuel (shorter v e he ends)
                  (omega (arith, size-erase e t.free_by_start he)) (shorter-Loose v e he ends)
                  (v.ranges.inside e he).1 in
              (
                t',
                rw (q, trim, no_wrap, eq_true _ _ ends, erase_at_size v e he) eq,
                (
                  valid,
                  λ p. (
                    λ u. (IsUsed-shorter v e he ends p).0 ((same p).0 u),
                    λ u. (same p).1 ((IsUsed-shorter v e he ends p).1 u),
                  ),
                ),
              )
          | no ne ↦ (
            t,
            rw (q, trim, no_wrap, eq_false _ _ ne) refl,
            (
              tighten t v pos (λ f hf. omega (arith, last_range v e f q hf, v.ranges.inside e he)),
              λ p. (λ u. u, λ u. u),
            ),
          )
        ]
  ]

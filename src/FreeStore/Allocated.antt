-- ===== src/FreeStore/Allocated.antt =====
-- What an allocation of pages promises.
use libgeodesk.Common.{ℕ, ◌+◌, ◌%◌, ◌≤◌, ◌≡◌, ◌⊎◌, ◌↔◌, arith, inl, inr}
use libgeodesk.OrderedSet.{OrderedSet}
use libgeodesk.FreeStore.{Transaction, pages_per_segment}
use libgeodesk.FreeStore.Pages.{Within, dec_within, IsFree}
use libgeodesk.FreeStore.Valid.{IsValid, IsUsed}

module _ (o : OrderedSet) (shift : ℕ) where
  open o use {has, erase, lower_bound, lower_bound-has}

  -- An allocation of `pages` pages at `first`, which took the allocator from `t` to `t'`.
  pub record Allocated (t : Transaction o) (pages first : ℕ) (t' : Transaction o) : Type 0 where
    pub valid : IsValid o shift t'
    pub behind_header : 1 ≤ first
    pub in_file : first + pages ≤ t'.total_pages
    pub in_segment : first % pages_per_segment shift + pages ≤ pages_per_segment shift
    pub was_unused : (p : ℕ) → Within first pages p → ¬ IsUsed o shift t p
    pub used_iff : (p : ℕ) → IsUsed o shift t' p ↔ (IsUsed o shift t p ⊎ Within first pages p)

  -- An allocation that takes its pages out of the free ones and leaves the file's size alone.
  pub carved-Allocated :
      (t t' : Transaction o) (pages first : ℕ)
      → IsValid o shift t'
      → t'.total_pages ≡ t.total_pages
      → 1 ≤ first
      → first + pages ≤ t.total_pages
      → first % pages_per_segment shift + pages ≤ pages_per_segment shift
      → ((p : ℕ) → Within first pages p → IsFree o t.free_by_start p)
      → ((p : ℕ)
          → IsFree o t'.free_by_start p ↔ (IsFree o t.free_by_start p × (¬ Within first pages p)))
      → Allocated t pages first t'
  carved-Allocated t t' pages first valid same pos fits seg held carved = record {
    valid = valid;
    behind_header = pos;
    in_file = omega arith;
    in_segment = seg;
    was_unused = λ p w used. used.1 (held p w);
    used_iff = λ p. (
      λ u. elim (dec_within first pages p) [
        | yes w ↦ inr w
        | no out ↦ inl (omega arith, λ free. u.1 ((carved p).1 (free, out)))
      ],
      λ c. elim c [
        | inl u ↦ (omega arith, λ free. u.1 ((carved p).0 free).0)
        | inr w ↦ (omega arith, λ free. ((carved p).0 free).1 w)
      ],
    );
  }

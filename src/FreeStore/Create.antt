-- ===== src/FreeStore/Create.antt =====
-- The state of a store that was just created.
use libgeodesk.Common.{ℕ, suc, ◌+◌, ◌-◌, ◌*◌, ◌^◌, ◌≤◌, ◌<◌, ◌≡◌, ◌↔◌, arith}
use native.Mathlib.Nat.{one-le-pow, div-le_self, le-div_iff_mul-le}
use libgeodesk.OrderedSet.{OrderedSet}
use libgeodesk.FreeStore.{
  u32, begin_created, begin_create_store, pages_for_bytes, set_meta_section_size,
}
use libgeodesk.FreeStore.Valid.{IsValid, IsUsed}

-- A page `p` begins below `bytes` exactly when it is one of the pages for `bytes`.
pub pages_for_bytes_lem :
    (shift bytes p : ℕ)
    → bytes + 2 ^ shift < 2 ^ 32
    → (p < pages_for_bytes shift bytes) ↔ (p * 2 ^ shift < bytes)
unfolding pages_for_bytes
pages_for_bytes_lem shift bytes p h =
    let no_wrap : u32 (bytes + 2 ^ shift + 2 ^ 32 - 1) ≡ bytes + 2 ^ shift - 1 =
      omega (arith, one-le-pow shift 2) in
    let (to, from) =
      le-div_iff_mul-le {k = 2 ^ shift} {x = suc p} {y = bytes + 2 ^ shift - 1}
        (omega (arith, one-le-pow shift 2)) in
    rw no_wrap (λ below. omega (arith, to below), λ below. from (omega arith))

pub narrow : (shift bytes : ℕ) → pages_for_bytes shift bytes < 2 ^ 32
unfolding pages_for_bytes
narrow shift bytes = omega (arith, div-le_self (u32 (bytes + 2 ^ shift + 2 ^ 32 - 1)) (2 ^ shift))

module _ (o : OrderedSet) where
  open o use {empty, has, has-empty, size-empty}

  pub bare-IsValid :
      (shift total : ℕ)
      → 1 ≤ total
      → total < 2 ^ 32
      → IsValid o shift (record (begin_created o) { total_pages = total })
  unfolding begin_created
  bare-IsValid shift total pos small = record {
    ranges = record {
      small = small;
      inside = λ e he. cc (has-empty e);
      segment = λ e he. cc (has-empty e);
      apart = λ e f he hf. cc (has-empty e);
      sized = λ e he. cc (has-empty e);
      placed = λ g hg. cc (has-empty g);
    };
    header_page = pos;
    count_start = omega (arith, size-empty);
    count_size = omega (arith, size-empty);
  }

  -- The state behind `beginCreateStore` and `setMetaSectionSize`, for `bytes` bytes of metadata (with
  -- the header's block and one page more, below 2 ^ 32): it is valid, and the pages in use are those
  -- that begin in the header's block or in the metadata.
  pub set_meta_section_size-begin_create_store :
      (shift bytes : ℕ)
      → bytes + 4096 + 2 ^ shift < 2 ^ 32
      → IsValid o shift
          (set_meta_section_size o shift (begin_create_store o (begin_created o)) bytes)
        × ((p : ℕ)
            → IsUsed o shift
                (set_meta_section_size o shift (begin_create_store o (begin_created o)) bytes)
                p
              ↔ (p * 2 ^ shift < bytes + 4096))
  unfolding set_meta_section_size begin_create_store begin_created
  set_meta_section_size-begin_create_store shift bytes h =
      let no_wrap : u32 (bytes + 4096) ≡ bytes + 4096 = omega arith in
      let total = pages_for_bytes_lem shift (bytes + 4096) in
      rw no_wrap (
        bare-IsValid shift (pages_for_bytes shift (bytes + 4096))
            ((total 0 (omega arith)).1 (omega arith)) (narrow shift (bytes + 4096)),
        λ p. (
          λ u. (total p (omega arith)).0 u.0,
          λ below. ((total p (omega arith)).1 below, λ (e, he, w). cc (has-empty e)),
        ),
      )

-- ===== src/Recovery/Written.antt =====
-- The bytes of a store into which blocks were written.
use libgeodesk.Common.{
  ℕ, ◌+◌, ◌*◌, ◌/◌, ◌%◌, ◌^◌, ◌≤◌, ◌≡◌, refl, ap, ◌∙◌, arith, List, [], ◌∷◌, All, length, get_elem?,
  true, false, Bool-cases, inl, inr, ◌==◌, if◌then◌else◌, eq_true, ==_iff,
}
use native.Mathlib.Decide.{dec_lt}
use libgeodesk.DiskFile.{DiskFile}
use libgeodesk.DiskFile.Overwrite.{
  length-overwrite, overwrite_before, overwrite_inside, overwrite_behind, content-overwrite,
}
use libgeodesk.Recovery.{has_offset, write_blocks}
use libgeodesk.Recovery.Crash.{}

-- Where a byte's block begins.
abbrev pub block_of : ℕ → ℕ
block_of i = i / 4096 * 4096

not_equal : (a b : ℕ) → (a == b) ≡ false → ¬ (a ≡ b)
not_equal a b e = ground arith

module _ (d : DiskFile) (memory : ℕ → List ℕ) (whole : (ofs : ℕ) → length (memory ofs) ≡ 4096) where
  open d use {File, content, write_all_at}

  -- A block that lies in a file of n bytes.
  abbrev pub Fits : ℕ → ℕ → Type 0
  Fits n ofs = (ofs % 4096 ≡ 0) × (ofs + 4096 ≤ n)

  write_block_bytes :
      (ofs : ℕ) (store : File) (i : ℕ)
      → Fits (length (content store)) ofs
      → get_elem? (content (write_all_at store ofs (memory ofs))) i ≡ (
          if ofs == block_of i
          then get_elem? (memory (block_of i)) (i % 4096)
          else get_elem? (content store) i)
  write_block_bytes ofs store i (aligned, inside) =
      let c = content store in
      let fits : ofs + length (memory ofs) ≤ length c = omega (arith, whole ofs) in
      rw (content-overwrite d store ofs (memory ofs) (omega arith))
        (elim (Bool-cases (ofs == block_of i)) [
          | inl e ↦ rw e (
              let same : ofs ≡ block_of i = (==_iff ofs (block_of i)).0 e in
              overwrite_inside c ofs (memory ofs) fits i (omega arith) (omega (arith, whole ofs))
              ∙ ap (get_elem? (memory ofs)) (omega arith)
              ∙ ap (λ (k : ℕ). get_elem? (memory k) (i % 4096)) same)
          | inr e ↦ rw e (elim (dec_lt i ofs) [
            | yes low ↦ overwrite_before c ofs (memory ofs) fits i low
            | no from ↦
                overwrite_behind c ofs (memory ofs) fits i
                  (omega (arith, whole ofs, not_equal ofs (block_of i) e))
          ])
        ])

  pub write_blocks_bytes :
      (done : List ℕ) (store : File) (n i : ℕ)
      → length (content store) ≡ n
      → All (Fits n) done
      → (length (content (write_blocks d memory done store)) ≡ n)
        × (get_elem? (content (write_blocks d memory done store)) i ≡ (
            if has_offset (block_of i) done
            then get_elem? (memory (block_of i)) (i % 4096)
            else get_elem? (content store) i))
  unfolding write_blocks has_offset
  write_blocks_bytes [] store n i long fits = (long, refl)
  write_blocks_bytes (ofs ∷ done) store n i long ((aligned, inside), fits) =
      let c = content store in
      let here = write_block_bytes ofs store i (aligned, omega arith) in
      let long' : length (content (write_all_at store ofs (memory ofs))) ≡ n =
        ap length (content-overwrite d store ofs (memory ofs) (omega arith))
        ∙ length-overwrite c ofs (memory ofs) (omega (arith, whole ofs))
        ∙ long in
      let (size, bytes) =
        write_blocks_bytes done (write_all_at store ofs (memory ofs)) n i long' fits in
      (size, bytes ∙ rw here (ground arith))

-- All members of a list are in another, when having them says so.
pub All-has_offset :
    (xs ys : List ℕ)
    → ((ofs : ℕ) → has_offset ofs xs ≡ true → has_offset ofs ys ≡ true)
    → All (λ ofs. has_offset ofs ys ≡ true) xs
unfolding has_offset
All-has_offset [] ys h = tt
All-has_offset (x ∷ xs) ys h = (
  h x (rw (eq_true x x refl) refl),
  All-has_offset xs ys (λ ofs held. h ofs (ground (arith, held))),
)

pub All-map : {P Q : ℕ → Type 0} (xs : List ℕ) → ((x : ℕ) → P x → Q x) → All P xs → All Q xs
All-map [] f h = tt
All-map (x ∷ xs) f (h, hs) = (f x h, All-map xs f hs)

pub next_differs : (n : ℕ) → ¬ (n ≡ (n + 1) % 2 ^ 64)
next_differs n = omega arith

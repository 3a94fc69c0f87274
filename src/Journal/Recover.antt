-- ===== src/Journal/Recover.antt =====
-- Rolling back: applying a journal undoes whatever a commit has done to the blocks it staged.
use libgeodesk.Common.{
  ℕ, zero, suc, ◌+◌, ◌-◌, ◌≤◌, ◌<◌, ◌≡◌, ◌⊎◌, inl, inr, refl, ap, ◌∙◌, arith, List, [], ◌∷◌, ◌++◌,
  length, take, drop, All, get_elem?, length-append, take-append, drop-append, get_elem?-take,
  get_elem?-drop, true,
}
use mathlib.Core.List.{append_assoc}
use native.Mathlib.Decide.{dec_lt}
use libgeodesk.DiskFile.{DiskFile}
use libgeodesk.DiskFile.Overwrite.{
  overwrite, length-overwrite, overwrite_before, overwrite_inside, overwrite_behind,
  content-overwrite, take-overwrite_start,
}
use libgeodesk.Journal.Header.{length-next_header, verify_header-next_header}
use libgeodesk.Crc32C.{soft_raw, initial_crc}
use libgeodesk.Journal.{
  Journal, put_le, reset, seal, end_marker, apply_loop, apply_journal, next_header, verify_header,
}
use libgeodesk.Journal.Stream.{
  Block, stream_of, length-put_le, get_le-put_le, add_blocks, content-seal,
}
use libgeodesk.Journal.Verify.{IsBlock, offset_unmarked, end_marker_marked, length-stream_of}

-- The bytes of a staged block.
abbrev pub InBlocks : List Block → ℕ → Type 0
InBlocks [] i = ⊥
InBlocks ((ofs, block) ∷ blocks) i = ((ofs ≤ i) × (i < ofs + 4096)) ⊎ InBlocks blocks i

-- A block with the content that it has in `old`.
abbrev pub IsSaved : List ℕ → Block → Type 0
IsSaved old (ofs, block) =
    IsBlock (ofs, block) × (ofs + 4096 ≤ length old) × (block ≡ take 4096 (drop ofs old))

-- The bytes behind the header are those of `old`, but those of staged blocks may be any, and the file
-- may have grown.
pub record IsDamaged (old : List ℕ) (blocks : List Block) (c : List ℕ) : Type 0 where
  pub long : length old ≤ length c
  pub kept :
      (i : ℕ) → 512 ≤ i → i < length old → (get_elem? c i ≡ get_elem? old i) ⊎ InBlocks blocks i

module _ (old : List ℕ) (ofs : ℕ) (block : List ℕ) (saved : IsSaved old (ofs, block)) where
  restore-IsDamaged :
      (blocks : List Block) (c : List ℕ)
      → IsDamaged old ((ofs, block) ∷ blocks) c
      → IsDamaged old blocks (overwrite c ofs block)
  restore-IsDamaged blocks c dam =
      let ((_, _, size), inside, same) = saved in
      let fits : ofs + length block ≤ length c = omega (arith, dam.long) in
      record {
        long = omega (arith, dam.long, length-overwrite c ofs block fits);
        kept = λ i lo hi. elim (dec_lt i ofs) [
          | yes low ↦ elim (dam.kept i lo hi) [
            | inl was ↦ inl (overwrite_before c ofs block fits i low ∙ was)
            | inr (inl here) ↦ absurd (omega arith)
            | inr (inr later) ↦ inr later
          ]
          | no from ↦ elim (dec_lt i (ofs + 4096)) [
            | yes within ↦ inl (
                overwrite_inside c ofs block fits i (omega arith) (omega arith)
                ∙ ap (λ (s : List ℕ). get_elem? s (i - ofs)) same
                ∙ get_elem?-take 4096 (drop ofs old) (i - ofs) (omega arith)
                ∙ get_elem?-drop ofs old (i - ofs) i (omega arith))
            | no behind ↦ elim (dam.kept i lo hi) [
              | inl was ↦ inl (overwrite_behind c ofs block fits i (omega arith) ∙ was)
              | inr (inl here) ↦ absurd (omega arith)
              | inr (inr later) ↦ inr later
            ]
          ]
        ];
      }

module _ (d : DiskFile) (old : List ℕ) where
  open d use {File, content, write_all_at, content-write_all_at}

  apply_loop-IsDamaged :
      (blocks : List Block) (fuel crc : ℕ) (rest : List ℕ) (store : File)
      → length blocks < fuel
      → All (IsSaved old) blocks
      → IsDamaged old blocks (content store)
      → IsDamaged old []
          (content (apply_loop d fuel (stream_of blocks ++ (end_marker crc ++ rest)) store))
  unfolding apply_loop
  apply_loop-IsDamaged blocks zero crc rest store few h dam = absurd (omega arith)
  apply_loop-IsDamaged [] (suc fuel) crc rest store few h dam = rw (end_marker_marked crc rest) dam
  apply_loop-IsDamaged ((ofs, block) ∷ blocks) (suc fuel) crc rest store few (saved, h) dam =
      let ((_, small, size), inside, _) = saved in
      let more = stream_of blocks ++ (end_marker crc ++ rest) in
      let shape : (put_le 8 ofs ++ (block ++ stream_of blocks)) ++ (end_marker crc ++ rest)
          ≡ put_le 8 ofs ++ (block ++ more) =
        append_assoc (put_le 8 ofs) (block ++ stream_of blocks) (end_marker crc ++ rest)
        ∙ ap (λ (s : List ℕ). put_le 8 ofs ++ s)
            (append_assoc block (stream_of blocks) (end_marker crc ++ rest)) in
      let written : content (write_all_at store ofs block) ≡ overwrite (content store) ofs block =
        content-overwrite d store ofs block (omega (arith, dam.long)) in
      rw
        (
          shape,
          get_le-put_le 8 ofs (block ++ more) (omega arith),
          offset_unmarked ofs small,
          drop-append 8 (put_le 8 ofs) (block ++ more) (length-put_le 8 ofs),
          take-append 4096 block more size,
          drop-append 4096 block more size,
        )
        (apply_loop-IsDamaged blocks fuel crc rest (write_all_at store ofs block) (omega arith) h
          (rw written (restore-IsDamaged old ofs block saved blocks (content store) dam)))

-- A store with the content `old` behind a header that is valid, and is `header` with the next commit
-- number; it may be longer than `old`.
pub record IsRestored (old header c : List ℕ) : Type 0 where
  pub next : take 512 c ≡ next_header header
  pub valid : verify_header (take 512 c) ≡ true
  pub bytes : (i : ℕ) → 512 ≤ i → i < length old → get_elem? c i ≡ get_elem? old i

finish-IsRestored :
    (old header c : List ℕ)
    → length header ≡ 512
    → 512 ≤ length old
    → IsDamaged old [] c
    → IsRestored old header (overwrite c 0 (next_header header))
finish-IsRestored old header c size long dam =
    let n = length-next_header header size in
    let first : take 512 (overwrite c 0 (next_header header)) ≡ next_header header =
      take-overwrite_start c 512 (next_header header) n in
    record {
      next = first;
      valid = rw first (verify_header-next_header header size);
      bytes = λ i lo hi.
          overwrite_behind c 0 (next_header header) (omega (arith, dam.long)) i (omega arith)
          ∙ elim (dam.kept i lo hi) [ inl was ↦ was | inr never ↦ absurd never ];
    }

module _ (d : DiskFile) where
  open d use {File, content, content-write_all_at}

  pub apply_journal_lem :
      (store : File) (journal : List ℕ)
      → apply_journal d store journal
        ≡ d.write_all_at
            (apply_loop d (suc (length journal)) (drop 520 journal) store)
            0
            (next_header (take 512 (drop 8 journal)))
  unfolding apply_journal
  apply_journal_lem store journal = refl

  apply_journal-IsRestored :
      (marker : ℕ) (header : List ℕ) (blocks : List Block) (crc : ℕ) (rest old : List ℕ)
      (store : File)
      → length header ≡ 512
      → 512 ≤ length old
      → All (IsSaved old) blocks
      → IsDamaged old blocks (content store)
      → IsRestored old header (
          content (
            apply_journal d store
              (((put_le 8 marker ++ header) ++ stream_of blocks) ++ (end_marker crc ++ rest))))
  apply_journal-IsRestored marker header blocks crc rest old store size long h dam =
      let front = put_le 8 marker ++ header in
      let tail = stream_of blocks ++ (end_marker crc ++ rest) in
      let front_size : length front ≡ 520 =
        length-append (put_le 8 marker) header ∙ omega (arith, length-put_le 8 marker) in
      let few : length blocks < suc (length (front ++ tail)) = omega (
        arith,
        length-append front tail,
        length-append (stream_of blocks) (end_marker crc ++ rest),
        length-stream_of blocks,
      ) in
      let done =
        apply_loop-IsDamaged d old blocks (suc (length (front ++ tail))) crc rest store few h dam in
      let store' = apply_loop d (suc (length (front ++ tail))) tail store in
      rw
        (
          append_assoc front (stream_of blocks) (end_marker crc ++ rest),
          apply_journal_lem store (front ++ tail),
          drop-append 520 front tail front_size,
          append_assoc (put_le 8 marker) header tail,
          drop-append 8 (put_le 8 marker) (header ++ tail) (length-put_le 8 marker),
          take-append 512 header tail size,
          ← append_assoc (put_le 8 marker) header tail,
          content-overwrite d store' 0 (next_header header) (omega arith),
        )
        (finish-IsRestored old header (content store') size long done)

  -- Let the blocks be blocks of `old` with its content, `old` at least as long as a header, and the
  -- header 512 bytes. If the bytes of the store behind its header are those of `old`, but for the
  -- staged blocks, which may be torn in any way, and for bytes behind the end of `old`, then applying
  -- the journal that was written with this header and these blocks restores the bytes of `old` behind
  -- the header, and gives the store a valid header, the journal's with the next commit number.
  pub apply_journal-seal :
      (j : Journal d) (marker : ℕ) (header : List ℕ) (blocks : List Block) (old : List ℕ)
      (store : File)
      → length header ≡ 512
      → 512 ≤ length old
      → All (IsSaved old) blocks
      → IsDamaged old blocks (content store)
      → IsRestored old header (
          content (
            apply_journal d store
              (content (seal d (add_blocks d (reset d j marker header) blocks)).file)))
  apply_journal-seal j marker header blocks old store size long h dam =
      let (rest, bytes) = content-seal d j marker header blocks size in
      rw bytes (
        apply_journal-IsRestored marker header blocks
          (soft_raw ((put_le 8 marker ++ header) ++ stream_of blocks) initial_crc) rest old store
          size long h dam)

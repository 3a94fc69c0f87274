-- ===== src/Recovery/Commit.antt =====
-- A whole commit: what the store holds behind it, and what a check then makes of the journal.
use libgeodesk.Common.{
  ℕ, ◌%◌, ◌≤◌, ◌<◌, ◌≡◌, refl, ap, sym, ◌∙◌, arith, List, [], ◌∷◌, All, length, take, drop,
  get_elem?, Bool, true, false, Bool-cases, inl, inr, ◌||◌, if◌then◌else◌,
}
use libgeodesk.DiskFile.{DiskFile}
use libgeodesk.DiskFile.Overwrite.{overwrite_behind, content-overwrite, take-overwrite_start}
use libgeodesk.Journal.{Journal, get_le, next_header, verify_header, reset, seal}
use libgeodesk.Journal.Header.{commit_id-next_header, length-next_header, verify_header-next_header}
use libgeodesk.Journal.Stream.{Block}
use libgeodesk.Journal.Recover.{IsSaved}
use libgeodesk.Recovery.{
  has_offset, write_blocks, stage_block, ensure_integrity, Staging, present, missing, fine, commit,
}
use libgeodesk.Recovery.Staged.{IsLogged, stage_blocks, stage_blocks-IsLogged, empty-IsLogged}
use libgeodesk.Recovery.Crash.{journal_commit}
use libgeodesk.Recovery.Written.{
  block_of, Fits, write_blocks_bytes, All-has_offset, All-map, next_differs,
}

-- The header, the blocks that were edited, and the rest of the old store.
pub record IsCommitted (old header : List ℕ) (memory : ℕ → List ℕ) (edited c : List ℕ)
    : Type 0 where
  pub next : take 512 c ≡ header
  pub bytes :
      (i : ℕ)
      → 512 ≤ i
      → i < length old
      → get_elem? c i ≡ (
          if has_offset (block_of i) edited
          then get_elem? (memory (block_of i)) (i % 4096)
          else get_elem? old i)

module _ (d : DiskFile) where
  open d use {File, content, write_all_at}

  stage_block-aligned :
      (s : Staging d) (ofs : ℕ) (block : List ℕ)
      → ofs % 4096 ≡ 0
      → ((k : ℕ) → has_offset k s.edited ≡ true → k % 4096 ≡ 0)
      → (k : ℕ) → has_offset k (stage_block d s ofs block).edited ≡ true
      → k % 4096 ≡ 0
  unfolding stage_block has_offset
  stage_block-aligned s ofs block here were k held = elim (Bool-cases (has_offset ofs s.edited)) [
    | inl e ↦ were k (rw e at held)
    | inr e ↦ ground (arith, rw e at held, were k)
  ]

  stage_blocks-aligned :
      (old : List ℕ) (requests : List Block) (s : Staging d)
      → All (IsSaved old) requests
      → ((k : ℕ) → has_offset k s.edited ≡ true → k % 4096 ≡ 0)
      → (k : ℕ) → has_offset k (stage_blocks d s requests).edited ≡ true
      → k % 4096 ≡ 0
  stage_blocks-aligned old [] s saved were = were
  stage_blocks-aligned old ((ofs, block) ∷ requests) s (((aligned, _, _), _, _), saved) were =
      stage_blocks-aligned old requests (stage_block d s ofs block) saved
        (stage_block-aligned s ofs block aligned were)

  ensure_integrity_newer :
      (current : List ℕ) (store : File) (bytes : List ℕ) (is_writer lock_free : Bool)
      → (is_writer || lock_free) ≡ true
      → ¬ (get_le 8 (drop 16 bytes) ≡ get_le 8 (drop 8 current))
      → verify_header current ≡ true
      → ensure_integrity d current store (present bytes) is_writer lock_free
        ≡ record { verdict = fine; store = store; journal = missing }
  unfolding ensure_integrity
  ensure_integrity_newer current store bytes is_writer lock_free may differs sound = ground arith

  header-IsCommitted :
      (old header edited : List ℕ) (memory : ℕ → List ℕ) (store : File)
      → length header ≡ 512
      → 512 ≤ length old
      → length (content store) ≡ length old
      → ((i : ℕ)
          → get_elem? (content store) i ≡ (
              if has_offset (block_of i) edited
              then get_elem? (memory (block_of i)) (i % 4096)
              else get_elem? old i))
      → IsCommitted old header memory edited (content (write_all_at store 0 header))
  header-IsCommitted old header edited memory store size long same bytes =
      rw (content-overwrite d store 0 header (omega arith)) (record {
        next = take-overwrite_start (content store) 512 header size;
        bytes = λ i lo hi.
            overwrite_behind (content store) 0 header (omega arith) i (omega arith) ∙ bytes i;
      })

  module _ (j : Journal d) (marker : ℕ) (header changed old : List ℕ) (requests : List Block)
      (memory : ℕ → List ℕ) (order : List ℕ → List ℕ) (exclusive : Bool) (store : File)
      (size : length header ≡ 512) (changed_size : length changed ≡ 512)
      (same_commit : get_le 8 (drop 8 changed) ≡ get_le 8 (drop 8 header)) (long : 512 ≤ length old)
      (same : content store ≡ old) (saved : All (IsSaved old) requests)
      (whole : (ofs : ℕ) → length (memory ofs) ≡ 4096)
      (listed : (ofs : ℕ) (xs : List ℕ) → has_offset ofs (order xs) ≡ has_offset ofs xs) where
    abbrev pub staged : Staging d
    staged = stage_blocks d (record { edited = []; log = reset d j marker header }) requests

    logged : IsLogged d old (reset d j marker header) staged
    logged =
        let start = reset d j marker header in
        stage_blocks-IsLogged d old start requests (record { edited = []; log = start }) saved
          (empty-IsLogged d old start)

    edited_fit : All (Fits d memory whole (length old)) (order staged.edited)
    unfolding has_offset
    edited_fit =
        All-map (order staged.edited)
          (λ ofs held. (
            stage_blocks-aligned old requests _ saved (λ k none. ground (arith, none)) ofs held,
            logged.inside ofs held,
          ))
          (All-has_offset (order staged.edited) staged.edited
            (λ ofs held. sym (listed ofs staged.edited) ∙ held))

    -- Let `old` be the store, `header` the header of 512 bytes that the journal was reset with, whole blocks
    -- of `old` be staged, and `changed` the transaction's header, with the same commit number. A commit
    -- of an existing store then leaves the next header at the front of the store, in every staged block
    -- what the memory holds of it, and elsewhere the bytes of `old`.
    pub commit-IsCommitted :
        IsCommitted old
          (next_header changed)
          memory
          staged.edited
          (content (commit d memory order exclusive false changed store staged).new_store)
    unfolding commit
    commit-IsCommitted =
        let written = λ (i : ℕ).
          write_blocks_bytes d memory whole (order staged.edited) store (length old) i
            (ap length same) edited_fit in
        header-IsCommitted old (next_header changed) staged.edited memory
          (write_blocks d memory (order staged.edited) store)
          (length-next_header changed changed_size) long (written 0).0
          (λ i. (written i).1 ∙ rw (listed, same) refl)

    -- Let a commit be as in the theorem on what it leaves. A check of the store behind the commit that may
    -- write, with the journal still there, finds the store in order, leaves it as it is, and removes the
    -- journal: the commit stays.
    pub ensure_integrity-commit :
        (is_writer lock_free : Bool)
        → (is_writer || lock_free) ≡ true
        → let after = commit d memory order exclusive false changed store staged in
          ensure_integrity d
            (take 512 (content after.new_store))
            after.new_store
            (present (content (seal d staged.log).file))
            is_writer
            lock_free
          ≡ record { verdict = fine; store = after.new_store; journal = missing }
    ensure_integrity-commit is_writer lock_free may =
        let after = commit d memory order exclusive false changed store staged in
        let next = commit-IsCommitted.next in
        let (number, _) = journal_commit d j marker header logged.blocks size in
        let logged_number : get_le 8 (drop 16 (content (seal d staged.log).file))
            ≡ get_le 8 (drop 8 header) =
          rw logged.log_is number in
        let differs : ¬ (
            get_le 8 (drop 16 (content (seal d staged.log).file))
            ≡ get_le 8 (drop 8 (next_header changed))) =
          λ e.
            next_differs (get_le 8 (drop 8 changed))
              (same_commit ∙ sym logged_number ∙ e ∙ commit_id-next_header changed changed_size) in
        rw (next) (
          ensure_integrity_newer (next_header changed) after.new_store
            (content (seal d staged.log).file) is_writer lock_free may differs
            (verify_header-next_header changed changed_size))

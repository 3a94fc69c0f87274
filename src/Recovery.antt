-- ===== src/Recovery.antt =====
-- ensureIntegrity of src/clarisma/libero/FreeStore.cpp, and the blocks that a transaction edits in
-- place (stageBlock and commit of src/clarisma/libero/FreeStore_Transaction.cpp).
pub mod Staged
pub mod Crash
pub mod Verdicts
pub mod Written
pub mod Commit
pub mod Example
mod Tests
use libgeodesk.Common.{
  ℕ, zero, suc, ◌+◌, List, [], ◌∷◌, ◌++◌, length, take, drop, ◌==◌, ◌&&◌, ◌||◌, not, Bool, true,
  false, if◌then◌else◌,
}
use libgeodesk.DiskFile.{DiskFile}
use libgeodesk.Journal.{
  Journal, get_le, add_block, next_header, reset, seal, verify_header, verify_journal,
  apply_journal,
}

-- What opening the journal's file gives.
pub data JournalFile : Type 0 where
  missing unreadable : JournalFile
  present : List ℕ → JournalFile

-- The exceptions: the store's version, a bundle, a wrong checksum, a foreign file, and one of input.
pub data StoreError : Type 0 where
  version_1 bundle checksum_mismatch unrecognized io_error : StoreError

-- The results 0, 1, 2 and -1, and exceptions.
pub data Verdict : Type 0 where
  fine rolled_back blank retry : Verdict
  throws : StoreError → Verdict

-- Without a journal, the header decides.
pub check_header : List ℕ → Bool → Verdict
check_header header is_writer =
    let magic = get_le 4 header in
    if verify_header header
    then fine
    else (if magic == 0
        then (if is_writer then blank else fine)
        else (if magic == 0x7ada_0bb1
            then throws version_1
            else (if magic == 0xe0f6_b060
                then throws bundle
                else (if magic == 0x1ce5_0d6e
                    then throws checksum_mismatch
                    else throws unrecognized))))

pub has_offset : ℕ → List ℕ → Bool
has_offset ofs [] = false
has_offset ofs (x ∷ xs) = if x == ofs then true else has_offset ofs xs

module _ (d : DiskFile) where
  open d use {File, write_all_at}

  -- The verdict, and what is left of the store and of the journal.
  pub record Checked : Type 0 where
    pub verdict : Verdict
    pub store : File
    pub journal : JournalFile

  -- `lock_free` says whether a reader gets the lock for writing.
  pub ensure_integrity : List ℕ → File → JournalFile → Bool → Bool → Checked
  ensure_integrity header store missing is_writer lock_free = record {
    verdict = check_header header is_writer;
    store = store;
    journal = missing;
  }
  ensure_integrity header store unreadable is_writer lock_free = record {
    verdict = throws io_error;
    store = store;
    journal = unreadable;
  }
  ensure_integrity header store (present bytes) is_writer lock_free =
      let all_modified = get_le 8 bytes == 2 in
      let same_commit = get_le 8 (drop 16 bytes) == get_le 8 (drop 8 header) in
      if not is_writer && not lock_free
      then record {
        verdict = if not (verify_header header) || all_modified then retry else fine;
        store = store;
        journal = present bytes;
      }
      else (if (not (length bytes == 0) && (same_commit || not (verify_header header)))
            && verify_journal bytes
          then record {
            verdict = rolled_back;
            store = apply_journal d store bytes;
            journal = missing;
          }
          else record { verdict = fine; store = store; journal = missing })

  -- `editedBlocks_`, by its offsets, and the journal.
  pub record Staging : Type 0 where
    pub edited : List ℕ
    pub log : Journal d

  -- `try_emplace`, and the journal's copy of a block that is staged for the first time.
  pub stage_block : Staging → ℕ → List ℕ → Staging
  stage_block s ofs content =
      if has_offset ofs s.edited
      then s
      else record { edited = ofs ∷ s.edited; log = add_block d s.log ofs content }

  -- The loop of `commit` that writes edited blocks, in the order in which the hash map has them;
  -- `memory` is what their content is by then.
  pub write_blocks : (ℕ → List ℕ) → List ℕ → File → File
  write_blocks memory [] store = store
  write_blocks memory (ofs ∷ rest) store =
      write_blocks memory rest (write_all_at store ofs (memory ofs))

  -- The transaction's header, the store and the staging behind a commit.
  pub record AfterCommit : Type 0 where
    pub new_header : List ℕ
    pub new_store : File
    pub new_staging : Staging

  -- What `commit` does behind freeing pages and, when it is the final one, behind writing the index of
  -- free ranges: `header` is the transaction's header by then, `order` lists
  -- the keys of the hash map of edited blocks. `syncData` has no effect on the model.
  pub commit :
      (ℕ → List ℕ) → (List ℕ → List ℕ) → Bool → Bool → List ℕ → File → Staging → AfterCommit
  unfolding write_blocks
  commit memory order locked_exclusively created header store s =
      let next = next_header header in
      if created
      then record { new_header = next; new_store = write_all_at store 0 next; new_staging = s }
      else record {
        new_header = next;
        new_store = write_all_at (write_blocks memory (order s.edited) store) 0 next;
        new_staging = record {
          edited = [];
          log = reset d (seal d s.log) (if locked_exclusively then 2 else 1) next;
        };
      }

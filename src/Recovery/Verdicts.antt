-- ===== src/Recovery/Verdicts.antt =====
-- What a check of a store may decide, and what it leaves alone.
use libgeodesk.Common.{
  ℕ, ◌≡◌, ◌≢◌, ◌⊎◌, ◌↔◌, inl, inr, refl, arith, List, take, drop, length, length-take, length-drop,
  suc, Bool, true, false,
}
use libgeodesk.DiskFile.{DiskFile}
use libgeodesk.Journal.{
  get_le, verify_header, verify_journal, apply_journal, apply_loop, next_header,
}
use libgeodesk.DiskFile.Overwrite.{content-overwrite, take-overwrite_start}
use libgeodesk.Journal.Header.{length-next_header, verify_header-next_header}
use libgeodesk.Journal.Verify.{verify_journal-length}
use libgeodesk.Journal.Recover.{apply_journal_lem}
use libgeodesk.Recovery.{
  JournalFile, missing, unreadable, present, fine, rolled_back, check_header, ensure_integrity,
}

check_header-fine :
    (header : List ℕ) (is_writer : Bool)
    → (check_header header is_writer ≡ fine)
      ↔ ((verify_header header ≡ true) ⊎ ((get_le 4 header ≡ 0) × (is_writer ≡ false)))
unfolding check_header
check_header-fine header is_writer = ground arith

check_header-not_rolled_back :
    (header : List ℕ) (is_writer : Bool) → check_header header is_writer ≢ rolled_back
unfolding check_header
check_header-not_rolled_back header is_writer = ground arith

module _ (d : DiskFile) where
  open d use {File, content}

  -- Without a journal, a store passes exactly when its header's checksum is right, or when its first
  -- four bytes are zero and it is opened for reading; the store is left as it was.
  pub ensure_integrity_missing :
      (header : List ℕ) (store : File) (is_writer lock_free : Bool)
      → (((ensure_integrity d header store missing is_writer lock_free).verdict ≡ fine)
          ↔ ((verify_header header ≡ true) ⊎ ((get_le 4 header ≡ 0) × (is_writer ≡ false))))
        × ((ensure_integrity d header store missing is_writer lock_free).store ≡ store)
  unfolding ensure_integrity
  ensure_integrity_missing header store is_writer lock_free =
      (check_header-fine header is_writer, refl)

  verify_header-apply_journal :
      (store : File) (bytes : List ℕ)
      → verify_journal bytes ≡ true
      → verify_header (take 512 (content (apply_journal d store bytes))) ≡ true
  verify_header-apply_journal store bytes sound =
      let header = take 512 (drop 8 bytes) in
      let long = verify_journal-length bytes sound in
      let size : length header ≡ 512 =
        length-take 512 (drop 8 bytes) (omega (arith, long, length-drop 8 bytes)) in
      let restored = apply_loop d (suc (length bytes)) (drop 520 bytes) store in
      rw
        (
          apply_journal_lem d store bytes,
          content-overwrite d restored 0 (next_header header) (omega arith),
          take-overwrite_start (content restored) 512 (next_header header)
              (length-next_header header size),
        )
        (verify_header-next_header header size)

  -- Without a journal, a store with a valid header passes.
  pub ensure_integrity_valid :
      (store : File) (is_writer lock_free : Bool)
      → verify_header (take 512 (content store)) ≡ true
      → ensure_integrity d (take 512 (content store)) store missing is_writer lock_free
        ≡ record { verdict = fine; store = store; journal = missing }
  unfolding ensure_integrity check_header
  ensure_integrity_valid store is_writer lock_free valid = rw valid refl

  ensure_integrity_present :
      (header : List ℕ) (store : File) (bytes : List ℕ) (is_writer lock_free : Bool)
      → (((ensure_integrity d header store (present bytes) is_writer lock_free).verdict
            ≢ rolled_back)
          × ((ensure_integrity d header store (present bytes) is_writer lock_free).store ≡ store))
        ⊎ ((verify_journal bytes ≡ true)
            × (ensure_integrity d header store (present bytes) is_writer lock_free ≡ record {
              verdict = rolled_back;
              store = apply_journal d store bytes;
              journal = missing;
            }))
  unfolding ensure_integrity
  ensure_integrity_present header store bytes is_writer lock_free = ground arith

  -- A check changes a store only by applying a journal that is valid, and says so.
  pub ensure_integrity_store :
      (header : List ℕ) (store : File) (journal : JournalFile) (is_writer lock_free : Bool)
      → (((ensure_integrity d header store journal is_writer lock_free).verdict ≢ rolled_back)
          × ((ensure_integrity d header store journal is_writer lock_free).store ≡ store))
        ⊎ ((bytes : List ℕ) × (journal ≡ present bytes)
            × (verify_journal bytes ≡ true)
            × (ensure_integrity d header store journal is_writer lock_free ≡ record {
              verdict = rolled_back;
              store = apply_journal d store bytes;
              journal = missing;
            }))
  unfolding ensure_integrity
  ensure_integrity_store header store missing is_writer lock_free =
      inl (check_header-not_rolled_back header is_writer, refl)
  ensure_integrity_store header store unreadable is_writer lock_free = inl (ground arith, refl)
  ensure_integrity_store header store (present bytes) is_writer lock_free =
      elim (ensure_integrity_present header store bytes is_writer lock_free) [
        | inl kept ↦ inl kept
        | inr (sound, result) ↦ inr (bytes, refl, sound, result)
      ]

  -- A check that rolls a store back leaves it so that the next check, for reading or writing, finds it in
  -- order, and leaves it as it is.
  pub ensure_integrity_again :
      (header : List ℕ) (store : File) (journal : JournalFile)
      (is_writer lock_free is_writer' lock_free' : Bool)
      → (ensure_integrity d header store journal is_writer lock_free).verdict ≡ rolled_back
      → let after = ensure_integrity d header store journal is_writer lock_free in
        ensure_integrity d
          (take 512 (content after.store))
          after.store
          after.journal
          is_writer'
          lock_free'
        ≡ record { verdict = fine; store = after.store; journal = missing }
  ensure_integrity_again header store journal is_writer lock_free is_writer' lock_free' e =
      elim (ensure_integrity_store header store journal is_writer lock_free) [
        | inl (other, kept) ↦ absurd (other e)
        | inr (bytes, there, sound, result) ↦ rw result (
            ensure_integrity_valid (apply_journal d store bytes) is_writer' lock_free'
              (verify_header-apply_journal store bytes sound))
      ]

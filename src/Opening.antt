-- ===== src/Opening.antt =====
-- FreeStore::open of src/clarisma/libero/FreeStore.cpp: the rounds of opening a store. What the system
-- and other processes answer in each round is an argument: whether a lock is granted, and what the
-- store and the journal hold by then. The places of locks are left aside.
pub mod Rollback
pub mod Stale
mod Tests
use libgeodesk.Common.{
  ℕ, ◌+◌, List, [], ◌∷◌, length, take, drop, ltb, ◌==◌, ◌&&◌, ◌||◌, not, Bool, true, false,
  if◌then◌else◌,
}
use libgeodesk.DiskFile.{DiskFile}
use libgeodesk.Journal.{get_le}
use libgeodesk.Recovery.{
  JournalFile, StoreError, Verdict, fine, rolled_back, blank, retry, throws, Checked,
  ensure_integrity,
}

-- `OpenMode`, whose flags open reads and changes.
pub record OpenMode : Type 0 where
  pub write : Bool
  pub create : Bool
  pub exclusive : Bool
  pub try_exclusive : Bool

-- The exceptions of open itself, and those of the check.
pub data OpenError : Type 0 where
  store_locked invalid_store : OpenError
  bad_store : StoreError → OpenError

-- What a reader's attempts give: a mapping of the store, an exception, or none yet.
pub data Snapshot : Type 0 where
  mapped : List ℕ → Snapshot
  refused : OpenError → Snapshot
  pending : Snapshot

-- The inner `for (;;)`, whose `basicHeader` has the given commit number. Each attempt gets a lock or
-- not, and finds the store with the given content.
pub snapshot_loop : ℕ → List (Bool × List ℕ) → Snapshot
snapshot_loop commit_id [] = pending
snapshot_loop commit_id ((granted, content) ∷ attempts) =
    let more = snapshot_loop commit_id attempts in
    if not granted
    then refused store_locked
    else (if ltb (length content) 512
        then refused invalid_store
        else (if get_le 8 (drop 8 content) == commit_id then mapped content else more))

module _ (d : DiskFile) where
  open d use {File, content}

  -- What one round finds.
  pub record Answer : Type 0 where
    pub granted : Bool
    pub basic_header : List ℕ
    pub attempts : List (Bool × List ℕ)
    pub store : File
    pub journal : JournalFile
    pub journal_lock_free : Bool

  -- An open store, or one to be created, each with `lockedExclusively_`; an exception; or none yet.
  pub data Outcome : Type 0 where
    opened : File → Bool → Outcome
    created : Bool → Outcome
    failed : OpenError → Outcome
    waiting : Outcome

  -- The part of a round behind the mapping of the store; `again` is what the other rounds give.
  pub conclude : Checked d → Bool → Outcome → Outcome
  conclude c exclusively again = elim (c.verdict) [
    | fine ↦ opened c.store exclusively
    | rolled_back ↦ again
    | blank ↦ created exclusively
    | retry ↦ again
    | throws e ↦ failed (bad_store e)
  ]

  pub wants_exclusive : OpenMode → Bool
  wants_exclusive mode = mode.exclusive || mode.try_exclusive

  pub writable : OpenMode → Bool
  writable mode = mode.write || mode.create

  -- A round whose lock is for writing or exclusive, and is granted.
  pub check_locked : OpenMode → Bool → Answer → Outcome → Outcome
  unfolding writable conclude
  check_locked mode exclusively a again =
      let size = length (content a.store) in
      let header = take 512 (content a.store) in
      if ltb size 512
      then (if size == 0 then created exclusively else failed invalid_store)
      else conclude
          (ensure_integrity d header a.store a.journal (writable mode) a.journal_lock_free)
          exclusively again

  -- A round of a reader.
  pub check_snapshot : Bool → Answer → Outcome → Outcome
  unfolding conclude snapshot_loop
  check_snapshot exclusively a again =
      elim (snapshot_loop (get_le 8 (drop 8 a.basic_header)) a.attempts) [
        | mapped view ↦
            conclude
              (ensure_integrity d (take 512 view) a.store a.journal false a.journal_lock_free)
              exclusively again
        | refused e ↦ failed e
        | pending ↦ waiting
      ]

  -- The outer `for (;;)`: a round for each answer. The Boolean is `lockedExclusively`.
  pub open_loop : List Answer → OpenMode → Bool → Outcome
  unfolding check_locked check_snapshot wants_exclusive writable
  open_loop [] mode exclusively = waiting
  open_loop (a ∷ answers) mode exclusively =
      let exclusively' = wants_exclusive mode || exclusively in
      let again = open_loop answers mode exclusively' in
      let shared =
        open_loop answers (record mode { exclusive = false; try_exclusive = false }) exclusively in
      if wants_exclusive mode || writable mode
      then (if a.granted
          then check_locked mode exclusively' a again
          else (if wants_exclusive mode && mode.try_exclusive then shared else failed store_locked))
      else check_snapshot exclusively a again

  pub open_store : List Answer → OpenMode → Outcome
  unfolding open_loop
  open_store answers mode = open_loop answers mode false

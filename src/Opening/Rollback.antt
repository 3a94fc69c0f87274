-- ===== src/Opening/Rollback.antt =====
-- Opening a store whose last commit crashed.
use libgeodesk.Common.{
  ℕ, ◌≤◌, ◌≡◌, ◌⊎◌, ◌∙◌, refl, ap, arith, List, [], ◌∷◌, length, take, drop, take_over, All,
  ltb-false, ◌||◌, true, false, Bool,
}
use native.Mathlib.Decide.{dec_le}
use libgeodesk.DiskFile.{DiskFile}
use libgeodesk.Journal.{Journal, get_le, reset, seal, verify_header}
use libgeodesk.Journal.Header.{length-next_header}
use libgeodesk.Journal.Stream.{Block}
use libgeodesk.Journal.Recover.{IsSaved, IsRestored}
use libgeodesk.Recovery.{
  Checked, missing, present, fine, rolled_back, has_offset, write_blocks, ensure_integrity,
}
use libgeodesk.Recovery.Staged.{stage_blocks}
use libgeodesk.Recovery.Verdicts.{ensure_integrity_valid}
use libgeodesk.Recovery.Crash.{ensure_integrity-write_blocks, length-write_blocks}
use libgeodesk.Opening.{
  OpenMode, Answer, Outcome, opened, wants_exclusive, writable, conclude, check_locked, open_loop,
  open_store,
}

-- A file with a whole first header is at least as long.
long_enough : (c : List ℕ) → length (take 512 c) ≡ 512 → 512 ≤ length c
long_enough c h = elim (dec_le (length c) 512) [
  | yes short ↦ omega (arith, ap length (take_over 512 c short))
  | no more ↦ omega arith
]

module _ (d : DiskFile) where
  open d use {File, content}

  check_locked_fine :
      (mode : OpenMode) (exclusively : Bool) (a : Answer d) (again : Outcome d) (store : File)
      → 512 ≤ length (content a.store)
      → ensure_integrity d
          (take 512 (content a.store))
          a.store
          a.journal
          (writable d mode)
          a.journal_lock_free
        ≡ record { verdict = fine; store = store; journal = missing }
      → check_locked d mode exclusively a again ≡ opened store exclusively
  unfolding check_locked conclude
  check_locked_fine mode exclusively a again store long eq =
      rw (ltb-false (length (content a.store)) 512 (omega arith), eq) refl

  check_locked_rolled_back :
      (mode : OpenMode) (exclusively : Bool) (a : Answer d) (again : Outcome d) (store : File)
      → 512 ≤ length (content a.store)
      → ensure_integrity d
          (take 512 (content a.store))
          a.store
          a.journal
          (writable d mode)
          a.journal_lock_free
        ≡ record { verdict = rolled_back; store = store; journal = missing }
      → check_locked d mode exclusively a again ≡ again
  unfolding check_locked conclude
  check_locked_rolled_back mode exclusively a again store long eq =
      rw (ltb-false (length (content a.store)) 512 (omega arith), eq) refl

  open_loop_granted :
      (mode : OpenMode) (exclusively : Bool) (a : Answer d) (answers : List (Answer d))
      → a.granted ≡ true
      → writable d mode ≡ true
      → open_loop d (a ∷ answers) mode exclusively
        ≡ check_locked d mode
            (wants_exclusive d mode || exclusively)
            a
            (open_loop d answers mode (wants_exclusive d mode || exclusively))
  unfolding open_loop
  open_loop_granted mode exclusively a answers granted may =
      let locks : (wants_exclusive d mode || writable d mode) ≡ true = ground (arith, may) in
      rw (locks, granted) refl

  twice : (b : Bool) → (b || (b || false)) ≡ b
  twice b = ground arith

  -- Let a commit have crashed as in the theorem on `ensure_integrity` and `write_blocks`, and let a
  -- writer open the store: in its first round it finds what the commit has left, and in the second
  -- what the first has left, and both grant the lock. Then the store is open after two rounds, and is
  -- restored, whatever would be found later.
  pub open_store-write_blocks :
      (j : Journal d) (marker : ℕ) (header old : List ℕ) (requests : List Block)
      (memory : ℕ → List ℕ) (done : List ℕ) (store : File) (mode : OpenMode) (a₁ a₂ : Answer d)
      (more : List (Answer d))
      → length header ≡ 512
      → 512 ≤ length old
      → content store ≡ old
      → All (IsSaved old) requests
      → ((ofs : ℕ) → length (memory ofs) ≡ 4096)
      → All
          (λ ofs.
            has_offset ofs
              (stage_blocks d
                (record { edited = []; log = reset d j marker header })
                requests).edited
            ≡ true)
          done
      → (get_le 8 (drop 8 header)
          ≡ get_le 8 (drop 8 (take 512 (content (write_blocks d memory done store)))))
        ⊎ (verify_header (take 512 (content (write_blocks d memory done store))) ≡ false)
      → writable d mode ≡ true
      → (a₁.granted ≡ true)
        × (a₁.store ≡ write_blocks d memory done store)
        × (a₁.journal
            ≡ present (
                content
                  (seal d
                    (stage_blocks d
                      (record { edited = []; log = reset d j marker header })
                      requests).log).file))
      → (a₂.granted ≡ true)
        × (a₂.journal ≡ missing)
        × (a₂.store
            ≡ (ensure_integrity d
                (take 512 (content a₁.store))
                a₁.store
                a₁.journal
                true
                a₁.journal_lock_free).store)
      → (store' : File) × (open_store d (a₁ ∷ a₂ ∷ more) mode
          ≡ opened store' (wants_exclusive d mode))
        × IsRestored old header (content store')
  unfolding open_store
  open_store-write_blocks j marker header old requests memory done store mode a₁ a₂ more size long
        same saved whole held commit may (granted₁, store₁, journal₁) (granted₂, journal₂, store₂) =
      let torn = write_blocks d memory done store in
      let (store', rolls, restored) =
        ensure_integrity-write_blocks d j marker header (take 512 (content torn)) old requests
          memory done store true a₁.journal_lock_free size long same saved whole held refl commit in
      let first : ensure_integrity d (take 512 (content a₁.store)) a₁.store a₁.journal true
            a₁.journal_lock_free
          ≡ record { verdict = rolled_back; store = store'; journal = missing } =
        rw (store₁, journal₁) rolls in
      let left : a₂.store ≡ store' = store₂ ∙ ap (λ (c : Checked d). c.store) first in
      let second : ensure_integrity d (take 512 (content a₂.store)) a₂.store a₂.journal
            (writable d mode) a₂.journal_lock_free
          ≡ record { verdict = fine; store = store'; journal = missing } =
        rw (left, journal₂)
          (ensure_integrity_valid d store' (writable d mode) a₂.journal_lock_free restored.valid) in
      let long₁ : 512 ≤ length (content a₁.store) =
        rw store₁ (omega (arith, ap length same, length-write_blocks d memory done store)) in
      let long₂ : 512 ≤ length (content a₂.store) =
        rw left (
          long_enough (content store')
            (ap length restored.next ∙ length-next_header header size)) in
      let exclusively = wants_exclusive d mode || false in
      let again = open_loop d (a₂ ∷ more) mode exclusively in
      (
        store',
        open_loop_granted mode false a₁ (a₂ ∷ more) granted₁ may
            ∙ check_locked_rolled_back mode exclusively a₁ again store' long₁ (rw may first)
            ∙ open_loop_granted mode exclusively a₂ more granted₂ may
            ∙ check_locked_fine mode (wants_exclusive d mode || exclusively) a₂
                (open_loop d more mode (wants_exclusive d mode || exclusively)) store' long₂ second
            ∙ ap (opened store') (twice (wants_exclusive d mode)),
        restored,
      )

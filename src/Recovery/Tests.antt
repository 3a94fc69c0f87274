-- ===== src/Recovery/Tests.antt =====
-- A store of two blocks, of which a commit writes one and crashes.
use libgeodesk.Common.{
  ℕ, ◌≡◌, ◌≢◌, ◌⊎◌, ◌↔◌, refl, ap, arith, List, [], ◌∷◌, take, true, false, inl,
}
use libgeodesk.DiskFile.ListFile.{list_file}
use libgeodesk.Journal.{seal, verify_header, verify_journal, apply_journal, next_header, get_le}
use libgeodesk.Journal.Recover.{IsRestored}
use libgeodesk.Recovery.{
  JournalFile, Checked, missing, present, fine, rolled_back, write_blocks, ensure_integrity, commit,
}
use libgeodesk.Recovery.Commit.{IsCommitted, commit-IsCommitted, ensure_integrity-commit}
use libgeodesk.Recovery.Crash.{ensure_integrity-write_blocks}
use libgeodesk.Recovery.Verdicts.{
  ensure_integrity_again, ensure_integrity_missing, ensure_integrity_store,
}
use libgeodesk.Recovery.Example.{
  header, edited, length-edited, length-header, journal, old, length-old, requests,
  requests-IsSaved, staged, held,
}

ensure_integrity-write_blocks_example :
    (store' : List ℕ) × (ensure_integrity list_file header
        (write_blocks list_file (λ ofs. edited) (4096 ∷ []) old)
        (present (seal list_file staged.log).file)
        false
        true
      ≡ record { verdict = rolled_back; store = store'; journal = missing })
    × IsRestored old header store'
ensure_integrity-write_blocks_example =
    ensure_integrity-write_blocks list_file journal 1 header header old requests (λ ofs. edited)
      (4096 ∷ []) old false true length-header (omega (arith, length-old)) refl requests-IsSaved
      (λ ofs. length-edited) (held, tt) refl (inl refl)

ensure_integrity_missing_example :
    (((ensure_integrity list_file header old missing true false).verdict ≡ fine)
      ↔ ((verify_header header ≡ true) ⊎ ((get_le 4 header ≡ 0) × (true ≡ false))))
    × ((ensure_integrity list_file header old missing true false).store ≡ old)
ensure_integrity_missing_example = ensure_integrity_missing list_file header old true false

abbrev sealed : JournalFile
sealed = present (seal list_file staged.log).file

ensure_integrity_store_example :
    (((ensure_integrity list_file header old sealed true false).verdict ≢ rolled_back)
      × ((ensure_integrity list_file header old sealed true false).store ≡ old))
    ⊎ ((bytes : List ℕ) × (sealed ≡ present bytes)
        × (verify_journal bytes ≡ true)
        × (ensure_integrity list_file header old sealed true false ≡ record {
          verdict = rolled_back;
          store = apply_journal list_file old bytes;
          journal = missing;
        }))
ensure_integrity_store_example = ensure_integrity_store list_file header old sealed true false

-- The store of a commit that crashed, and what a check makes of it.
abbrev crashed : List ℕ
crashed = write_blocks list_file (λ ofs. edited) (4096 ∷ []) old

abbrev checked : Checked list_file
checked = ensure_integrity list_file header crashed sealed false true

checked-IsRolledBack : checked.verdict ≡ rolled_back
checked-IsRolledBack =
    let (store', result, _) =
      ensure_integrity-write_blocks list_file journal 1 header header old requests (λ ofs. edited)
        (4096 ∷ []) old false true length-header (omega (arith, length-old)) refl requests-IsSaved
        (λ ofs. length-edited) (held, tt) refl (inl refl) in
    ap (λ (c : Checked list_file). c.verdict) result

ensure_integrity_again_example :
    ensure_integrity list_file (take 512 checked.store) checked.store checked.journal true false
    ≡ record { verdict = fine; store = checked.store; journal = missing }
ensure_integrity_again_example =
    ensure_integrity_again list_file header crashed sealed false true true false
      checked-IsRolledBack

abbrev order : List ℕ → List ℕ
order xs = xs

abbrev memory : ℕ → List ℕ
memory ofs = edited

commit-IsCommitted_example :
    IsCommitted old
      (next_header header)
      memory
      staged.edited
      (commit list_file memory order false false header old staged).new_store
commit-IsCommitted_example =
    commit-IsCommitted list_file journal 1 header header old requests memory order false old
      length-header length-header refl (omega (arith, length-old)) refl requests-IsSaved
      (λ ofs. length-edited) (λ ofs xs. refl)

ensure_integrity-commit_example :
    let after = commit list_file memory order false false header old staged in
    ensure_integrity list_file
      (take 512 after.new_store)
      after.new_store
      (present (seal list_file staged.log).file)
      false
      true
    ≡ record { verdict = fine; store = after.new_store; journal = missing }
ensure_integrity-commit_example =
    ensure_integrity-commit list_file journal 1 header header old requests memory order false old
      length-header length-header refl (omega (arith, length-old)) refl requests-IsSaved
      (λ ofs. length-edited) (λ ofs xs. refl) false true refl

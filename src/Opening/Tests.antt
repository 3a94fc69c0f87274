-- ===== src/Opening/Tests.antt =====
-- Opening a store behind a crash, and a reader that a commit overtakes.
use libgeodesk.Common.{
  ℕ, ◌≡◌, refl, ap, sym, arith, List, [], ◌∷◌, length, take, drop, replicate, length-replicate,
  drop-append, true, false, inl, Bool, All, ◌↔◌, ◌++◌, length-append,
}
use libgeodesk.DiskFile.ListFile.{list_file}
use libgeodesk.Journal.{get_le, put_le, seal}
use libgeodesk.Journal.Stream.{length-put_le, get_le-put_le}
use libgeodesk.Journal.Recover.{IsRestored}
use libgeodesk.Recovery.{missing, present, ensure_integrity}
use libgeodesk.Recovery.Example.{
  header, edited, length-edited, length-header, journal, old, length-old, requests,
  requests-IsSaved, staged, held, torn, take-torn,
}
use libgeodesk.Opening.{
  OpenMode, Answer, opened, mapped, pending, snapshot_loop, wants_exclusive, writable, open_store,
}
use libgeodesk.Opening.Rollback.{open_store-write_blocks}
use libgeodesk.Opening.Stale.{IsLater, FirstMatch, snapshot_loop-IsLater}

abbrev mode : OpenMode
mode = record { write = true; create = false; exclusive = false; try_exclusive = false }

abbrev first_round : Answer list_file
first_round = record {
  granted = true;
  basic_header = [];
  attempts = [];
  store = torn;
  journal = present (seal list_file staged.log).file;
  journal_lock_free = false;
}

abbrev second_round : Answer list_file
second_round = record {
  granted = true;
  basic_header = [];
  attempts = [];
  store = (ensure_integrity list_file (take 512 torn) torn first_round.journal true false).store;
  journal = missing;
  journal_lock_free = false;
}

mode-writable : writable list_file mode ≡ true
unfolding writable
mode-writable = refl

open_store-write_blocks_example :
    (store' : List ℕ) × (open_store list_file (first_round ∷ second_round ∷ []) mode
      ≡ opened store' (wants_exclusive list_file mode))
    × IsRestored old header store'
open_store-write_blocks_example =
    open_store-write_blocks list_file journal 1 header old requests (λ ofs. edited) (4096 ∷ []) old
      mode first_round second_round [] length-header (omega (arith, length-old)) refl
      requests-IsSaved (λ ofs. length-edited) (held, tt)
      (inl (ap (λ (c : List ℕ). get_le 8 (drop 8 c)) (sym take-torn))) mode-writable
      (refl, refl, refl) (refl, refl, refl)

-- A store whose commit number is 1.
abbrev later : List ℕ
later = put_le 8 0 ++ (put_le 8 1 ++ replicate 496 0)

length-later : length later ≡ 512
length-later = omega (
  arith,
  length-append (put_le 8 0) (put_le 8 1 ++ replicate 496 0),
  length-append (put_le 8 1) (replicate 496 0),
  length-put_le 8 0,
  length-put_le 8 1,
  length-replicate {A = ℕ} 496 0,
)

later_number : get_le 8 (drop 8 later) ≡ 1
later_number =
    rw (drop-append 8 (put_le 8 0) (put_le 8 1 ++ replicate 496 0) (length-put_le 8 0))
      (get_le-put_le 8 1 (replicate 496 0) (omega arith))

abbrev attempts : List (Bool × List ℕ)
attempts = (true, later) ∷ (true, later) ∷ []

attempts-AreLater : All (IsLater 0) attempts
attempts-AreLater =
    let one : IsLater 0 (true, later) =
      (refl, omega (arith, length-later), rw later_number (omega arith)) in
    (one, (one, tt))

later_never : snapshot_loop 0 attempts ≡ pending
later_never = (snapshot_loop-IsLater 0 later attempts).0.1 attempts-AreLater

snapshot_loop-IsLater_example :
    ((snapshot_loop 0 attempts ≡ pending) ↔ All (IsLater 0) attempts)
    × ((snapshot_loop 0 attempts ≡ mapped later) ↔ FirstMatch 0 later attempts)
snapshot_loop-IsLater_example = snapshot_loop-IsLater 0 later attempts

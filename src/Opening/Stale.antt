-- ===== src/Opening/Stale.antt =====
-- What a reader does when a commit comes between its two looks at the header.
use libgeodesk.Common.{
  ℕ, List, [], ◌∷◌, ◌≤◌, ◌≡◌, ◌≢◌, ◌⊎◌, ◌↔◌, arith, All, length, drop, ltb, true, false, Bool,
  Bool-cases, inl, inr, ◌==◌,
}
use libgeodesk.Journal.{get_le}
use libgeodesk.Opening.{mapped, pending, snapshot_loop}

-- An attempt that gets its lock, and finds a store with another commit number.
abbrev pub IsLater : ℕ → Bool × List ℕ → Type 0
IsLater commit_id (granted, content) =
    (granted ≡ true) × (512 ≤ length content) × (get_le 8 (drop 8 content) ≢ commit_id)

-- An attempt that gets its lock, and finds the store `view` with the commit number.
abbrev pub IsMatch : ℕ → List ℕ → Bool × List ℕ → Type 0
IsMatch commit_id view (granted, content) =
    (granted ≡ true)
    × (512 ≤ length content)
    × (get_le 8 (drop 8 content) ≡ commit_id)
    × (content ≡ view)

-- Of the attempts, the first that is not later finds the store `view` with the commit number.
abbrev pub FirstMatch : ℕ → List ℕ → List (Bool × List ℕ) → Type 0
FirstMatch commit_id view [] = ⊥
FirstMatch commit_id view (attempt ∷ attempts) =
    IsMatch commit_id view attempt
    ⊎ (IsLater commit_id attempt × FirstMatch commit_id view attempts)

-- A reader is still attempting to map the store exactly when each of its attempts got its lock and found
-- a store of at least 512 bytes whose commit number differs from the one that it saw first. It has mapped
-- a store exactly when the first attempt that is not so got its lock and found that store, of at least
-- 512 bytes, with that commit number.
pub snapshot_loop-IsLater :
    (commit_id : ℕ) (view : List ℕ) (attempts : List (Bool × List ℕ))
    → ((snapshot_loop commit_id attempts ≡ pending) ↔ All (IsLater commit_id) attempts)
      × ((snapshot_loop commit_id attempts ≡ mapped view) ↔ FirstMatch commit_id view attempts)
unfolding snapshot_loop
snapshot_loop-IsLater commit_id view [] = ground arith
snapshot_loop-IsLater commit_id view ((false, content) ∷ attempts) = ground arith
snapshot_loop-IsLater commit_id view ((true, content) ∷ attempts) =
    let (goes_on, maps) = snapshot_loop-IsLater commit_id view attempts in
    elim (Bool-cases (ltb (length content) 512)) [
      | inl short ↦ rw short (ground arith)
      | inr long ↦ elim (Bool-cases (get_le 8 (drop 8 content) == commit_id)) [
        | inl same ↦ rw (long, same) (ground arith)
        | inr other ↦ rw (long, other) (ground (arith, goes_on, maps))
      ]
    ]

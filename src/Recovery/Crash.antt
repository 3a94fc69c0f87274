-- ===== src/Recovery/Crash.antt =====
-- A crash while a commit writes its blocks, and the rollback at the next opening.
use libgeodesk.Common.{
  ℕ, ◌+◌, ◌≤◌, ◌<◌, ◌≡◌, ◌⊎◌, inl, inr, refl, ap, sym, ◌∙◌, arith, List, [], ◌∷◌, ◌++◌, length,
  drop, All, Bool, true, false, ◌||◌, length-append, drop-append, drop-append_left, drop-drop,
  length-drop,
}
use mathlib.Core.List.{append_assoc}
use native.Mathlib.Decide.{dec_lt}
use libgeodesk.DiskFile.{DiskFile}
use libgeodesk.DiskFile.Overwrite.{
  length-overwrite, overwrite_before, overwrite_behind, content-overwrite, length-write_all_at,
}
use libgeodesk.Journal.{
  Journal, get_le, put_le, reset, seal, apply_journal, verify_journal, verify_header,
}
use libgeodesk.Journal.Stream.{
  Block, stream_of, add_blocks, content-seal, length-put_le, get_le-append,
}
use libgeodesk.Journal.Verify.{verify_journal-add_blocks, IsBlock}
use libgeodesk.Journal.Recover.{IsSaved, IsDamaged, IsRestored, apply_journal-seal}
use libgeodesk.Recovery.{
  Staging, missing, present, rolled_back, has_offset, write_blocks, ensure_integrity,
}
use libgeodesk.Recovery.Staged.{IsLogged, stage_blocks, stage_blocks-IsLogged, empty-IsLogged}

module _ (d : DiskFile) where
  open d use {File, content, write_all_at}

  module _ (old : List ℕ) (start : Journal d) (s : Staging d) (h : IsLogged d old start s)
      (memory : ℕ → List ℕ) (whole : (ofs : ℕ) → length (memory ofs) ≡ 4096) where
    write_block-IsDamaged :
        (ofs : ℕ) (store : File)
        → has_offset ofs s.edited ≡ true
        → IsDamaged old h.blocks (content store)
        → IsDamaged old h.blocks (content (write_all_at store ofs (memory ofs)))
    write_block-IsDamaged ofs store held dam =
        let c = content store in
        let fits : ofs + length (memory ofs) ≤ length c =
          omega (arith, whole ofs, h.inside ofs held, dam.long) in
        rw (content-overwrite d store ofs (memory ofs) (omega arith)) (record {
          long = omega (arith, dam.long, length-overwrite c ofs (memory ofs) fits);
          kept = λ i lo hi. elim (dec_lt i ofs) [
            | yes low ↦ rw (overwrite_before c ofs (memory ofs) fits i low) (dam.kept i lo hi)
            | no from ↦ elim (dec_lt i (ofs + 4096)) [
              | yes within ↦ inr (h.covers ofs i held (omega arith) within)
              | no behind ↦
                  rw (overwrite_behind c ofs (memory ofs) fits i (omega (arith, whole ofs)))
                    (dam.kept i lo hi)
            ]
          ];
        })

    write_blocks-IsDamaged :
        (done : List ℕ) (store : File)
        → All (λ ofs. has_offset ofs s.edited ≡ true) done
        → IsDamaged old h.blocks (content store)
        → IsDamaged old h.blocks (content (write_blocks d memory done store))
    unfolding write_blocks
    write_blocks-IsDamaged [] store held dam = dam
    write_blocks-IsDamaged (ofs ∷ done) store (here, held) dam =
        write_blocks-IsDamaged done _ held (write_block-IsDamaged ofs store here dam)

  pub length-write_blocks :
      (memory : ℕ → List ℕ) (done : List ℕ) (store : File)
      → length (content store) ≤ length (content (write_blocks d memory done store))
  unfolding write_blocks
  length-write_blocks memory [] store = omega arith
  length-write_blocks memory (ofs ∷ done) store = omega (
    arith,
    length-write_all_at d store ofs (memory ofs),
    length-write_blocks memory done (write_all_at store ofs (memory ofs)),
  )

  commit_behind_mode :
      (mode header more : List ℕ)
      → length mode ≡ 8
      → length header ≡ 512
      → (get_le 8 (drop 16 (mode ++ (header ++ more))) ≡ get_le 8 (drop 8 header))
        × (0 < length (mode ++ (header ++ more)))
  commit_behind_mode mode header more m h = (
    ap (get_le 8) (sym (drop-drop 8 8 16 (mode ++ (header ++ more)) refl))
        ∙ rw (drop-append 8 mode (header ++ more) m, drop-append_left 8 header more (omega arith))
            (get_le-append 8 (drop 8 header) more (omega (arith, length-drop 8 header))),
    omega (arith, length-append mode (header ++ more)),
  )

  -- The number of the commit in a journal is that in its header.
  pub journal_commit :
      (j : Journal d) (marker : ℕ) (header : List ℕ) (blocks : List Block)
      → length header ≡ 512
      → (get_le 8 (drop 16 (content (seal d (add_blocks d (reset d j marker header) blocks)).file))
          ≡ get_le 8 (drop 8 header))
        × (0 < length (content (seal d (add_blocks d (reset d j marker header) blocks)).file))
  journal_commit j marker header blocks size =
      let (rest, bytes) = content-seal d j marker header blocks size in
      rw
        (
          bytes,
          append_assoc (put_le 8 marker ++ header) (stream_of blocks) _,
          append_assoc (put_le 8 marker) header _,
        )
        (commit_behind_mode (put_le 8 marker) header _ (length-put_le 8 marker) size)

  IsSaved-IsBlock :
      (old : List ℕ) (blocks : List Block) → All (IsSaved old) blocks → All IsBlock blocks
  IsSaved-IsBlock old [] h = tt
  IsSaved-IsBlock old ((ofs, block) ∷ blocks) ((h, _, _), hs) = (h, IsSaved-IsBlock old blocks hs)

  rolls_back :
      (current : List ℕ) (store : File) (bytes : List ℕ) (is_writer lock_free : Bool)
      → (is_writer || lock_free) ≡ true
      → 0 < length bytes
      → (get_le 8 (drop 16 bytes) ≡ get_le 8 (drop 8 current)) ⊎ (verify_header current ≡ false)
      → verify_journal bytes ≡ true
      → ensure_integrity d current store (present bytes) is_writer lock_free
        ≡ record { verdict = rolled_back; store = apply_journal d store bytes; journal = missing }
  unfolding ensure_integrity
  rolls_back current store bytes is_writer lock_free may some_bytes commit sound = ground arith

  -- Let `old` be the store, `header` its header of 512 bytes, with which the journal is reset, and let
  -- whole blocks of `old` be staged. Let a commit seal the journal, write any of the staged blocks in
  -- any order, and crash. A check of the store that may write, of a header with the journal's commit
  -- number or a wrong checksum, then rolls back: the store is restored, and the journal removed.
  pub ensure_integrity-write_blocks :
      (j : Journal d) (marker : ℕ) (header current old : List ℕ) (requests : List Block)
      (memory : ℕ → List ℕ) (done : List ℕ) (store : File) (is_writer lock_free : Bool)
      → length header ≡ 512
      → 512 ≤ length old
      → content store ≡ old
      → All (IsSaved old) requests
      → ((ofs : ℕ) → length (memory ofs) ≡ 4096)
      → All
          (λ ofs.
            has_offset ofs
              (stage_blocks d
                (record { edited = []; log = reset d j marker header })
                requests).edited
            ≡ true)
          done
      → (is_writer || lock_free) ≡ true
      → (get_le 8 (drop 8 header) ≡ get_le 8 (drop 8 current)) ⊎ (verify_header current ≡ false)
      → (store' : File) × (ensure_integrity d current
            (write_blocks d memory done store)
            (present (
              content
                (seal d
                  (stage_blocks d
                    (record { edited = []; log = reset d j marker header })
                    requests).log).file))
            is_writer
            lock_free
          ≡ record { verdict = rolled_back; store = store'; journal = missing })
        × IsRestored old header (content store')
  ensure_integrity-write_blocks j marker header current old requests memory done store is_writer
        lock_free size long same saved whole held may commit =
      let start = reset d j marker header in
      let logged =
        stage_blocks-IsLogged d old start requests (record { edited = []; log = start }) saved
          (empty-IsLogged d old start) in
      let s = stage_blocks d (record { edited = []; log = start }) requests in
      let bytes = content (seal d (add_blocks d start logged.blocks)).file in
      let torn = write_blocks d memory done store in
      let whole_at_first : IsDamaged old logged.blocks (content store) =
        rw same (record { long = omega arith; kept = λ i lo hi. inl refl }) in
      let dam =
        write_blocks-IsDamaged old start s logged memory whole done store held whole_at_first in
      let (number, some_bytes) = journal_commit j marker header logged.blocks size in
      (
        apply_journal d torn bytes,
        rw logged.log_is (
            rolls_back current torn bytes is_writer lock_free may some_bytes
              (elim commit [ inl e ↦ inl (number ∙ e) | inr bad ↦ inr bad ])
              (verify_journal-add_blocks d j marker header logged.blocks size
                (IsSaved-IsBlock old logged.blocks logged.saved))),
        apply_journal-seal d j marker header logged.blocks old torn size long logged.saved dam,
      )

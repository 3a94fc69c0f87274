-- ===== src/Journal/Unreset.antt =====
-- A journal that is opened and gets blocks before it is reset.
use libgeodesk.Common.{
  ℕ, zero, suc, ◌+◌, ◌%◌, ◌^◌, ◌<◌, ◌≡◌, ◌≢◌, refl, sym, ◌∙◌, arith, List, [], ◌∷◌, ◌++◌, length,
  drop, take, length-drop, drop-append, drop-append_left, drop-drop, false, Bool-cases, inl, inr,
  eq_false, ltb,
}
use mathlib.Core.List.{append_assoc}
use libgeodesk.DiskFile.{DiskFile}
use libgeodesk.Crc32C.{soft_raw, initial_crc}
use libgeodesk.Crc32C.Chunks.{soft_raw-nil}
use libgeodesk.Journal.{
  open_journal, put_le, get_le, seal, end_marker, verify_loop, verify_journal, accepts,
}
use libgeodesk.Journal.Stream.{
  Block, Holds, stream_of, length-put_le, get_le-append, add_blocks, add_blocks-Holds,
  content-seal-Holds,
}
use libgeodesk.Journal.Verify.{offset_unmarked}

verify_loop-misaligned :
    (fuel crc : ℕ) (p : List ℕ)
    → get_le 8 p < 2 ^ 63
    → get_le 8 p % 4096 ≢ 0
    → accepts (verify_loop fuel p crc) ≡ false
unfolding verify_loop
verify_loop-misaligned zero crc p small off = refl
verify_loop-misaligned (suc fuel) crc p small off = elim (Bool-cases (ltb (length p) (4104 + 8))) [
  | inl short ↦ rw (offset_unmarked (get_le 8 p) small, short) refl
  | inr long ↦
      rw (offset_unmarked (get_le 8 p) small, long, eq_false (get_le 8 p % 4096) 0 off) refl
]

verify_journal-misaligned :
    (ofs : ℕ) (block more : List ℕ)
    → length block ≡ 4096
    → get_le 8 (drop 512 block) < 2 ^ 63
    → get_le 8 (drop 512 block) % 4096 ≢ 0
    → verify_journal (put_le 8 ofs ++ (block ++ more)) ≡ false
unfolding verify_journal
verify_journal-misaligned ofs block more size small off =
    let journal = put_le 8 ofs ++ (block ++ more) in
    let rest : drop 520 journal ≡ drop 512 block ++ more =
      sym (drop-drop 8 512 520 journal refl)
      ∙ rw (drop-append 8 (put_le 8 ofs) (block ++ more) (length-put_le 8 ofs))
          (drop-append_left 512 block more (omega arith)) in
    let word : get_le 8 (drop 512 block ++ more) ≡ get_le 8 (drop 512 block) =
      get_le-append 8 (drop 512 block) more (omega (arith, length-drop 512 block)) in
    let failed = λ (fuel crc : ℕ).
      verify_loop-misaligned fuel crc (drop 512 block ++ more) (omega (arith, word))
        (rw word off) in
    elim (Bool-cases (ltb (length journal) (512 + 16))) [
      | inl short ↦ rw short refl
      | inr long ↦
          rw (long, rest) (failed (suc (length journal)) (soft_raw (take 520 journal) initial_crc))
    ]

module _ (d : DiskFile) where
  open d use {File, content}

  open_journal-Holds : (file : File) (buf_size : ℕ) → Holds d (open_journal d file buf_size) []
  unfolding open_journal
  open_journal-Holds file buf_size = record {
    written = [];
    rest = content file;
    in_file = refl;
    position = refl;
    summed = sym (soft_raw-nil initial_crc);
    all_bytes = refl;
  }

  -- A journal that was opened and not reset before its first block is rejected, unless the eight bytes
  -- at offset 512 of that block happen to be the offset of a block or an end marker.
  pub verify_journal-open_journal :
      (file : File) (buf_size ofs : ℕ) (block : List ℕ) (blocks : List Block)
      → length block ≡ 4096
      → get_le 8 (drop 512 block) < 2 ^ 63
      → get_le 8 (drop 512 block) % 4096 ≢ 0
      → verify_journal (
          content
            (seal d (add_blocks d (open_journal d file buf_size) ((ofs, block) ∷ blocks))).file)
        ≡ false
  verify_journal-open_journal file buf_size ofs block blocks size small off =
      let start = open_journal d file buf_size in
      let all = (ofs, block) ∷ blocks in
      let held = add_blocks-Holds d all start [] (open_journal-Holds file buf_size) in
      let (rest, bytes) = content-seal-Holds d (add_blocks d start all) (stream_of all) held in
      let end = end_marker (soft_raw (stream_of all) initial_crc) ++ rest in
      rw
        (
          bytes,
          append_assoc (put_le 8 ofs) (block ++ stream_of blocks) end,
          append_assoc block (stream_of blocks) end,
        )
        (verify_journal-misaligned ofs block (stream_of blocks ++ end) size small off)

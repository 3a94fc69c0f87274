-- ===== src/Journal/Verify.antt =====
-- The journal's reader accepts what its writer wrote.
use libgeodesk.Common.{
  ℕ, zero, suc, ◌+◌, ◌%◌, ◌^◌, ◌≤◌, ◌<◌, ◌≡◌, refl, ap, sym, ◌∙◌, some, arith, List, [], ◌∷◌, ◌++◌,
  length, All, length-append, take-append, drop-append, true, false, not, ltb, ◌==◌, bit_and,
  bit_or, eq_true, ltb-false, ltb_false→le, Bool-cases, inl, inr,
}
use libgeodesk.Common.Bits.{and_bit, or_fields}
use mathlib.Core.List.{append_assoc}
use libgeodesk.DiskFile.{DiskFile}
use libgeodesk.Crc32C.{soft_raw, initial_crc, finalize}
use libgeodesk.Crc32C.Chunks.{soft_raw-append, soft_raw-nil, finalize-lt}
use libgeodesk.Journal.{
  Journal, put_le, get_le, reset, seal, end_marker, end_marker_flag, verify_loop, verify_journal,
  accepts,
}
use libgeodesk.Journal.Buffer.{HasRoom, add_blocks-HasRoom}
use libgeodesk.Journal.Stream.{
  Block, stream_of, length-put_le, get_le-put_le, add_blocks, content-seal,
}

-- Whole blocks at block boundaries.
abbrev pub IsBlock : Block → Type 0
IsBlock (ofs, block) = (ofs % 4096 ≡ 0) × (ofs < 2 ^ 63) × (length block ≡ 4096)

pub offset_unmarked : (ofs : ℕ) → ofs < 2 ^ 63 → not (bit_and ofs end_marker_flag == 0) ≡ false
offset_unmarked ofs h = ground (arith, and_bit 63 ofs)

marker_word : (crc : ℕ) → bit_or end_marker_flag (finalize crc) ≡ 2 ^ 63 + finalize crc
marker_word crc = or_fields 63 1 (finalize crc) (omega (arith, finalize-lt crc))

pub length-end_marker : (crc : ℕ) → length (end_marker crc) ≡ 8
unfolding end_marker
length-end_marker crc = length-put_le 8 (bit_or end_marker_flag (finalize crc))

end_marker_read :
    (crc : ℕ) (rest : List ℕ) → get_le 8 (end_marker crc ++ rest) ≡ 2 ^ 63 + finalize crc
unfolding end_marker
end_marker_read crc rest =
    get_le-put_le 8 _ rest (omega (arith, marker_word crc, finalize-lt crc)) ∙ marker_word crc

pub end_marker_marked :
    (crc : ℕ) (rest : List ℕ)
    → not (bit_and (get_le 8 (end_marker crc ++ rest)) end_marker_flag == 0) ≡ true
end_marker_marked crc rest =
    rw (end_marker_read crc rest)
      (ground (arith, and_bit 63 (2 ^ 63 + finalize crc), finalize-lt crc))

low_word : (v : ℕ) (rest : List ℕ) → get_le 4 (put_le 8 v ++ rest) ≡ v % 2 ^ 32
unfolding put_le get_le
low_word v rest = omega arith

end_marker_checksum : (crc : ℕ) (rest : List ℕ) → get_le 4 (end_marker crc ++ rest) ≡ finalize crc
unfolding end_marker
end_marker_checksum crc rest = low_word _ rest ∙ omega (arith, marker_word crc, finalize-lt crc)

verify_loop-end_marker :
    (fuel crc : ℕ) (rest : List ℕ) → verify_loop (suc fuel) (end_marker crc ++ rest) crc ≡ some true
unfolding verify_loop
verify_loop-end_marker fuel crc rest =
    rw (end_marker_marked crc rest, end_marker_checksum crc rest)
      (ap some (eq_true (finalize crc) _ refl))

verify_loop-block :
    (fuel ofs crc : ℕ) (block tail : List ℕ)
    → IsBlock (ofs, block)
    → 8 ≤ length tail
    → verify_loop (suc fuel) ((put_le 8 ofs ++ block) ++ tail) crc
      ≡ verify_loop fuel tail (soft_raw (put_le 8 ofs ++ block) crc)
unfolding verify_loop
verify_loop-block fuel ofs crc block tail (aligned, small, whole) room =
    let entry = put_le 8 ofs ++ block in
    let size : length entry ≡ 4104 =
      length-append (put_le 8 ofs) block ∙ omega (arith, length-put_le 8 ofs) in
    let read : get_le 8 (entry ++ tail) ≡ ofs =
      rw (append_assoc (put_le 8 ofs) block tail)
        (get_le-put_le 8 ofs (block ++ tail) (omega arith)) in
    let enough : ltb (length (entry ++ tail)) (4104 + 8) ≡ false =
      ltb-false _ _ (λ short. omega (arith, length-append entry tail)) in
    rw
      (
        read,
        offset_unmarked ofs small,
        enough,
        eq_true (ofs % 4096) 0 aligned,
        take-append 4104 entry tail size,
        drop-append 4104 entry tail size,
      )
      refl

verify_loop-stream_of :
    (blocks : List Block) (fuel crc : ℕ) (rest : List ℕ)
    → All IsBlock blocks
    → length blocks < fuel
    → verify_loop fuel
        (stream_of blocks ++ (end_marker (soft_raw (stream_of blocks) crc) ++ rest))
        crc
      ≡ some true
verify_loop-stream_of blocks zero crc rest h few = absurd (omega arith)
verify_loop-stream_of [] (suc fuel) crc rest h few =
    rw (soft_raw-nil crc) (verify_loop-end_marker fuel crc rest)
verify_loop-stream_of ((ofs, block) ∷ blocks) (suc fuel) crc rest (h, hs) few =
    let entry = put_le 8 ofs ++ block in
    let sum = soft_raw entry crc in
    let tail = stream_of blocks ++ (end_marker (soft_raw (stream_of blocks) sum) ++ rest) in
    let shape : put_le 8 ofs ++ (block ++ stream_of blocks) ≡ entry ++ stream_of blocks =
      sym (append_assoc (put_le 8 ofs) block (stream_of blocks)) in
    rw
      (
        shape,
        soft_raw-append entry (stream_of blocks) crc,
        append_assoc entry (stream_of blocks)
            (end_marker (soft_raw (stream_of blocks) sum) ++ rest),
        verify_loop-block fuel ofs crc block tail h (
            omega (
              arith,
              length-append (stream_of blocks)
                  (end_marker (soft_raw (stream_of blocks) sum) ++ rest),
              length-append (end_marker (soft_raw (stream_of blocks) sum)) rest,
              length-end_marker (soft_raw (stream_of blocks) sum),
            )),
      )
      (verify_loop-stream_of blocks fuel sum rest hs (omega arith))

pub length-stream_of : (blocks : List Block) → length blocks ≤ length (stream_of blocks)
length-stream_of [] = omega arith
length-stream_of ((ofs, block) ∷ blocks) = omega (
  arith,
  length-append (put_le 8 ofs) (block ++ stream_of blocks),
  length-append block (stream_of blocks),
  length-put_le 8 ofs,
  length-stream_of blocks,
)

pub verify_journal-length : (bytes : List ℕ) → verify_journal bytes ≡ true → 528 ≤ length bytes
unfolding verify_journal
verify_journal-length bytes sound = elim (Bool-cases (ltb (length bytes) (512 + 16))) [
  | inl short ↦ let clash : false ≡ true = rw short at sound in absurd (cc)
  | inr long ↦ ltb_false→le (length bytes) (512 + 16) long
]

-- The journal as its file holds it: a front of 520 bytes, the blocks, the marker, and what is left of
-- an older journal.
pub verify_journal-stream_of :
    (front : List ℕ) (blocks : List Block) (rest : List ℕ)
    → length front ≡ 520
    → All IsBlock blocks
    → verify_journal (
        (front ++ stream_of blocks)
        ++ (end_marker (soft_raw (front ++ stream_of blocks) initial_crc) ++ rest))
      ≡ true
unfolding verify_journal
verify_journal-stream_of front blocks rest size h =
    let body = stream_of blocks in
    let crc = soft_raw front initial_crc in
    let tail = body ++ (end_marker (soft_raw body crc) ++ rest) in
    let sizes : length (front ++ tail) ≡ 520 + length body + 8 + length rest = omega (
      arith,
      length-append front tail,
      length-append body (end_marker (soft_raw body crc) ++ rest),
      length-append (end_marker (soft_raw body crc)) rest,
      length-end_marker (soft_raw body crc),
    ) in
    let long : ltb (length (front ++ tail)) (512 + 16) ≡ false =
      ltb-false _ _ (λ short. omega (arith, sizes)) in
    rw
      (
        soft_raw-append front body initial_crc,
        append_assoc front body (end_marker (soft_raw body crc) ++ rest),
        long,
        take-append 520 front tail size,
        drop-append 520 front tail size,
      )
      (ap accepts (
        verify_loop-stream_of blocks (suc (length (front ++ tail))) crc rest h
          (omega (arith, sizes, length-stream_of blocks))))

each_whole :
    (blocks : List Block) → All IsBlock blocks → All (λ (ofs, block). length block ≡ 4096) blocks
each_whole [] h = tt
each_whole ((ofs, block) ∷ blocks) ((aligned, small, whole), h) = (whole, each_whole blocks h)

module _ (d : DiskFile) where
  open d use {content}

  pub verify_journal-add_blocks :
      (j : Journal d) (marker : ℕ) (header : List ℕ) (blocks : List Block)
      → length header ≡ 512
      → All IsBlock blocks
      → verify_journal (content (seal d (add_blocks d (reset d j marker header) blocks)).file)
        ≡ true
  verify_journal-add_blocks j marker header blocks size h =
      let (rest, bytes) = content-seal d j marker header blocks size in
      let front : length (put_le 8 marker ++ header) ≡ 520 =
        length-append (put_le 8 marker) header ∙ omega (arith, length-put_le 8 marker) in
      rw bytes (verify_journal-stream_of (put_le 8 marker ++ header) blocks rest front h)

  -- For a header of 512 bytes, whole blocks at block boundaries, and a buffer whose size is a multiple
  -- of 4096 and at least 8192: from its reset to the last block a journal leaves room in its buffer for
  -- the marker of the seal, and what it has written by its seal is valid, whatever its file held before.
  pub verify_journal-seal :
      (j : Journal d) (marker : ℕ) (header : List ℕ) (blocks : List Block)
      → length header ≡ 512
      → All IsBlock blocks
      → j.buf_size % 4096 ≡ 0
      → 8192 ≤ j.buf_size
      → HasRoom d (add_blocks d (reset d j marker header) blocks)
        × (verify_journal (content (seal d (add_blocks d (reset d j marker header) blocks)).file)
            ≡ true)
  verify_journal-seal j marker header blocks size h whole_pages big = (
    add_blocks-HasRoom d j marker header blocks size (omega arith) big (each_whole blocks h),
    verify_journal-add_blocks j marker header blocks size h,
  )

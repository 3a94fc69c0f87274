-- ===== src/Journal/Buffer.antt =====
-- The journal's buffer is never written past its end.
use libgeodesk.Common.{
  ℕ, ◌+◌, ◌-◌, ◌%◌, ◌≤◌, ◌<◌, ◌≡◌, arith, List, [], ◌∷◌, ◌++◌, length, take, All, length-append,
  length-take, length-drop, leb, false, inl, inr, Bool-cases, refl,
}
use libgeodesk.DiskFile.{DiskFile}
use libgeodesk.Journal.{Journal, reset, add_block, put_le}
use libgeodesk.Journal.Stream.{Block, length-put_le, add_blocks}

leb-false : (a b : ℕ) → leb a b ≡ false → b < a
leb-false a b h = ground arith

module _ (d : DiskFile) where
  -- There is room for a number of 8 bytes, and all sizes are multiples of 8.
  pub record HasRoom (j : Journal d) : Type 0 where
    pub buf_aligned : length j.buf % 8 ≡ 0
    pub end_aligned : j.buf_size % 8 ≡ 0
    pub two_blocks : 8192 ≤ j.buf_size
    pub room : length j.buf + 8 ≤ j.buf_size

  reset-HasRoom :
      (j : Journal d) (marker : ℕ) (header : List ℕ)
      → length header ≡ 512
      → j.buf_size % 8 ≡ 0
      → 8192 ≤ j.buf_size
      → HasRoom (reset d j marker header)
  unfolding reset
  reset-HasRoom j marker header size aligned big =
      let n : length (put_le 8 marker ++ take 512 header) ≡ 520 = omega (
        arith,
        length-append (put_le 8 marker) (take 512 header),
        length-put_le 8 marker,
        length-take 512 header (omega arith),
      ) in
      record {
        buf_aligned = rw n refl;
        end_aligned = aligned;
        two_blocks = big;
        room = omega (arith, n);
      }

  add_block-HasRoom :
      (j : Journal d) (ofs : ℕ) (block : List ℕ)
      → length block ≡ 4096
      → HasRoom j
      → HasRoom (add_block d j ofs block)
  unfolding add_block
  add_block-HasRoom j ofs block size h =
      let n = j.buf_size - (length j.buf + 8) in
      elim (Bool-cases (leb j.buf_size (length j.buf + 8 + length block))) [
        | inl full ↦
            let left = length-drop n block in
            rw full (record {
              buf_aligned = omega (arith, left, h.buf_aligned, h.end_aligned, h.room);
              end_aligned = h.end_aligned;
              two_blocks = h.two_blocks;
              room = omega (arith, left, h.two_blocks);
            })
        | inr fits ↦
            let longer : length ((j.buf ++ put_le 8 ofs) ++ block) ≡ length j.buf + 4104 = omega (
              arith,
              length-append (j.buf ++ put_le 8 ofs) block,
              length-append j.buf (put_le 8 ofs),
              length-put_le 8 ofs,
            ) in
            rw fits (record {
              buf_aligned = omega (arith, longer, h.buf_aligned);
              end_aligned = h.end_aligned;
              two_blocks = h.two_blocks;
              room = omega (
                arith,
                longer,
                h.buf_aligned,
                h.end_aligned,
                leb-false j.buf_size (length j.buf + 8 + length block) fits,
              );
            })
      ]

  -- With a buffer of two blocks at least, whose size is a multiple of 8, a header of 512 bytes and
  -- whole blocks, there is room for 8 bytes more after a reset and after every block, so each marker
  -- is written inside the buffer.
  pub add_blocks-HasRoom :
      (j : Journal d) (marker : ℕ) (header : List ℕ) (blocks : List Block)
      → length header ≡ 512
      → j.buf_size % 8 ≡ 0
      → 8192 ≤ j.buf_size
      → All (λ (ofs, block). length block ≡ 4096) blocks
      → HasRoom (add_blocks d (reset d j marker header) blocks)
  add_blocks-HasRoom j marker header blocks size aligned big h =
      each blocks _ h (reset-HasRoom j marker header size aligned big)
    where
      each :
          (bs : List Block) (k : Journal d)
          → All (λ (ofs, block). length block ≡ 4096) bs
          → HasRoom k
          → HasRoom (add_blocks d k bs)
      each [] k hs r = r
      each ((ofs, block) ∷ bs) k (whole, hs) r =
          each bs _ hs (add_block-HasRoom k ofs block whole r)

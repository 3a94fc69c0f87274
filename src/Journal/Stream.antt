-- ===== src/Journal/Stream.antt =====
-- The bytes that the journal's writer puts into its file.
use libgeodesk.Common.{
  ℕ, zero, suc, ◌+◌, ◌-◌, ◌/◌, ◌^◌, ◌≤◌, ◌<◌, ◌≡◌, refl, ap, sym, ◌∙◌, arith, List, [], ◌∷◌, ◌++◌,
  length, take, drop, length-append, take-append, take-append-drop, take_all, inl, inr, Bool-cases,
  leb,
}
use mathlib.Core.List.{append_assoc, append-nil}
use native.Mathlib.Nat.{pow-succ'}
use libgeodesk.DiskFile.{DiskFile}
use libgeodesk.Crc32C.{soft_raw, initial_crc}
use libgeodesk.Crc32C.Chunks.{soft_raw-append, soft_raw-nil}
use libgeodesk.Journal.{
  Journal, put_le, get_le, reset, compute_checksum, write_to_file, add_block, seal, end_marker,
}

pub length-put_le : (n v : ℕ) → length (put_le n v) ≡ n
unfolding put_le
length-put_le zero v = refl
length-put_le (suc n) v = ap suc (length-put_le n (v / 256))

-- Reading back the number that was written, and leaving what follows.
pub get_le-put_le : (n v : ℕ) (rest : List ℕ) → v < 256 ^ n → get_le n (put_le n v ++ rest) ≡ v
unfolding put_le get_le
get_le-put_le zero v rest h = omega arith
get_le-put_le (suc n) v rest h =
    omega (arith, get_le-put_le n (v / 256) rest (omega (arith, pow-succ' 256 n)))

pub get_le-append : (n : ℕ) (p q : List ℕ) → n ≤ length p → get_le n (p ++ q) ≡ get_le n p
unfolding get_le
get_le-append zero p q h = refl
get_le-append (suc n) [] q h = absurd (omega arith)
get_le-append (suc n) (b ∷ p) q h = omega (arith, get_le-append n p q (omega arith))

-- A block of the store and its offset.
abbrev pub Block : Type 0
Block = ℕ × List ℕ

abbrev pub stream_of : List Block → List ℕ
stream_of [] = []
stream_of ((ofs, block) ∷ blocks) = put_le 8 ofs ++ (block ++ stream_of blocks)

regroup : (a b c : List ℕ) (n : ℕ) → a ++ (b ++ c) ≡ ((a ++ b) ++ take n c) ++ drop n c
regroup a b c n =
    sym (append_assoc a b c)
    ∙ ap (λ (s : List ℕ). (a ++ b) ++ s) (sym (take-append-drop n c))
    ∙ sym (append_assoc (a ++ b) (take n c) (drop n c))

module _ (d : DiskFile) where
  open d use {File, content, write_all_at, content-write_all_at}

  abbrev pub add_blocks : Journal d → List Block → Journal d
  add_blocks j [] = j
  add_blocks j ((ofs, block) ∷ blocks) = add_blocks (add_block d j ofs block) blocks

  -- What has been written so far is in the file, in the checksum, and, its end, in the buffer.
  pub record Holds (j : Journal d) (stream : List ℕ) : Type 0 where
    pub written : List ℕ
    pub rest : List ℕ
    pub in_file : content j.file ≡ written ++ rest
    pub position : length written ≡ j.file_pos
    pub summed : j.checksum ≡ soft_raw written initial_crc
    pub all_bytes : written ++ j.buf ≡ stream

  reset-Holds :
      (j : Journal d) (marker : ℕ) (header : List ℕ)
      → Holds (reset d j marker header) (put_le 8 marker ++ take 512 header)
  unfolding reset
  reset-Holds j marker header = record {
    written = [];
    rest = content j.file;
    in_file = refl;
    position = refl;
    summed = sym (soft_raw-nil initial_crc);
    all_bytes = refl;
  }

  -- Bytes that go to the end of the buffer.
  append-Holds :
      (j : Journal d) (stream more : List ℕ)
      → Holds j stream
      → Holds (record j { buf = j.buf ++ more }) (stream ++ more)
  append-Holds j stream more h = record {
    written = h.written;
    rest = h.rest;
    in_file = h.in_file;
    position = h.position;
    summed = h.summed;
    all_bytes =
        sym (append_assoc h.written j.buf more) ∙ ap (λ (s : List ℕ). s ++ more) h.all_bytes;
  }

  -- Writing the buffer to the file, when the checksum has taken it in.
  flush-Holds :
      (j : Journal d) (stream : List ℕ)
      → Holds j stream
      → (h' : Holds (write_to_file d (compute_checksum d j)) stream) × (h'.written ≡ stream)
  unfolding write_to_file compute_checksum
  flush-Holds j stream h = (
    record {
      written = stream;
      rest = drop (j.file_pos + length j.buf) (content j.file);
      in_file =
          content-write_all_at j.file j.file_pos j.buf
            (rw h.in_file (omega (arith, length-append h.written h.rest, h.position)))
          ∙ rw h.in_file (
              rw (take-append j.file_pos h.written h.rest h.position) (
                sym (append_assoc h.written j.buf _)
                ∙ ap (λ (s : List ℕ). s ++ drop (j.file_pos + length j.buf) (h.written ++ h.rest))
                    h.all_bytes));
      position =
          ap length (sym h.all_bytes) ∙ length-append h.written j.buf ∙ omega (arith, h.position);
      summed =
          ap (soft_raw j.buf) h.summed
          ∙ sym (soft_raw-append h.written j.buf initial_crc)
          ∙ ap (λ (s : List ℕ). soft_raw s initial_crc) h.all_bytes;
      all_bytes = append-nil stream;
    },
    refl,
  )

  add_block-Holds :
      (j : Journal d) (stream : List ℕ) (ofs : ℕ) (block : List ℕ)
      → Holds j stream
      → Holds (add_block d j ofs block) (stream ++ (put_le 8 ofs ++ block))
  unfolding add_block
  add_block-Holds j stream ofs block h =
      let marked = append-Holds j stream (put_le 8 ofs) h in
      let n = j.buf_size - (length j.buf + 8) in
      elim (Bool-cases (leb j.buf_size (length j.buf + 8 + length block))) [
        | inl full ↦
            let (flushed, _) = flush-Holds _ _ (append-Holds _ _ (take n block) marked) in
            rw (full, regroup stream (put_le 8 ofs) block n)
              (append-Holds _ _ (drop n block) flushed)
        | inr room ↦
            rw (room, ← append_assoc stream (put_le 8 ofs) block) (append-Holds _ _ block marked)
      ]

  pub add_blocks-Holds :
      (blocks : List Block) (j : Journal d) (stream : List ℕ)
      → Holds j stream
      → Holds (add_blocks j blocks) (stream ++ stream_of blocks)
  add_blocks-Holds [] j stream h = rw (append-nil stream) h
  add_blocks-Holds ((ofs, block) ∷ blocks) j stream h =
      let more = add_blocks-Holds blocks _ _ (add_block-Holds j stream ofs block h) in
      rw
        (
          ← append_assoc (put_le 8 ofs) block (stream_of blocks),
          ← append_assoc stream (put_le 8 ofs ++ block) (stream_of blocks),
        )
        more

  pub content-seal-Holds :
      (j : Journal d) (stream : List ℕ)
      → Holds j stream
      → (rest : List ℕ) × (content (seal d j).file
          ≡ stream ++ (end_marker (soft_raw stream initial_crc) ++ rest))
  unfolding seal compute_checksum write_to_file
  content-seal-Holds j stream h =
      let crc = soft_raw j.buf j.checksum in
      let bytes = j.buf ++ end_marker crc in
      let rest = drop (j.file_pos + length bytes) (h.written ++ h.rest) in
      let sum : crc ≡ soft_raw stream initial_crc =
        ap (soft_raw j.buf) h.summed
        ∙ sym (soft_raw-append h.written j.buf initial_crc)
        ∙ ap (λ (s : List ℕ). soft_raw s initial_crc) h.all_bytes in
      (
        rest,
        content-write_all_at j.file j.file_pos bytes
              (rw h.in_file (omega (arith, length-append h.written h.rest, h.position)))
            ∙ rw h.in_file (
                ap (λ (s : List ℕ). s ++ (bytes ++ rest))
                  (take-append j.file_pos h.written h.rest h.position))
            ∙ ap (λ (s : List ℕ). h.written ++ s) (append_assoc j.buf (end_marker crc) rest)
            ∙ sym (append_assoc h.written j.buf (end_marker crc ++ rest))
            ∙ rw (h.all_bytes, sum) refl,
      )

  -- For a header of 512 bytes, the file of a journal that is reset, given blocks and sealed begins with
  -- the mode, the header, each block behind its offset, and the marker with the checksum of these.
  pub content-seal :
      (j : Journal d) (marker : ℕ) (header : List ℕ) (blocks : List Block)
      → length header ≡ 512
      → (rest : List ℕ) × (content (seal d (add_blocks (reset d j marker header) blocks)).file
          ≡ ((put_le 8 marker ++ header) ++ stream_of blocks)
            ++ (end_marker (soft_raw ((put_le 8 marker ++ header) ++ stream_of blocks) initial_crc)
                ++ rest))
  content-seal j marker header blocks h =
      let held =
        add_blocks-Holds blocks (reset d j marker header) _ (reset-Holds j marker header) in
      rw (take_all 512 header h) at (content-seal-Holds _ _ held)

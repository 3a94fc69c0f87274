-- ===== src/Journal/Header.antt =====
-- The header that a rollback writes.
use libgeodesk.Common.{
  ℕ, ◌+◌, ◌%◌, ◌^◌, ◌<◌, ◌≡◌, refl, sym, ap, ◌∙◌, arith, take-append-drop, drop-append_left, List,
  ◌++◌, length, take, drop, length-append, length-take, length-drop, take-append, drop-append, true,
  eq_true,
}
use libgeodesk.Crc32C.{soft_raw, initial_crc, finalize}
use libgeodesk.Crc32C.Chunks.{finalize-lt}
use libgeodesk.Journal.{put_le, get_le, next_header, verify_header}
use libgeodesk.Journal.Stream.{length-put_le, get_le-put_le, get_le-append}

-- `applyJournal` writes a header of 512 bytes whose checksum is right.
module _ (header : List ℕ) (size : length header ≡ 512) where
  counted : List ℕ
  counted = take 8 header ++ (put_le 8 ((get_le 8 (drop 8 header) + 1) % 2 ^ 64) ++ drop 16 header)

  length-counted : length counted ≡ 512
  unfolding counted
  length-counted = omega (
    arith,
    length-append (take 8 header)
        (put_le 8 ((get_le 8 (drop 8 header) + 1) % 2 ^ 64) ++ drop 16 header),
    length-append (put_le 8 ((get_le 8 (drop 8 header) + 1) % 2 ^ 64)) (drop 16 header),
    length-take 8 header (omega arith),
    length-put_le 8 ((get_le 8 (drop 8 header) + 1) % 2 ^ 64),
    length-drop 16 header,
  )

  sum : ℕ
  sum = finalize (soft_raw (take 504 counted) initial_crc)

  next_header_parts : next_header header ≡ take 504 counted ++ (put_le 4 sum ++ drop 508 counted)
  unfolding next_header sum counted
  next_header_parts = refl

  pub length-next_header : length (next_header header) ≡ 512
  length-next_header = rw next_header_parts (
      omega (
        arith,
        length-counted,
        length-append (take 504 counted) (put_le 4 sum ++ drop 508 counted),
        length-append (put_le 4 sum) (drop 508 counted),
        length-take 504 counted (omega (arith, length-counted)),
        length-put_le 4 sum,
        length-drop 508 counted,
      ))

  pub verify_header-next_header : verify_header (next_header header) ≡ true
  unfolding verify_header
  verify_header-next_header =
      let front = length-take 504 counted (omega (arith, length-counted)) in
      let bound : sum < 2 ^ 32 =
        (unfold sum in finalize-lt (soft_raw (take 504 counted) initial_crc)) in
      rw
        (
          next_header_parts,
          take-append 504 (take 504 counted) (put_le 4 sum ++ drop 508 counted) front,
          drop-append 504 (take 504 counted) (put_le 4 sum ++ drop 508 counted) front,
          get_le-put_le 4 sum (drop 508 counted) (omega arith),
        )
        (eq_true _ sum (unfold sum in refl))

  -- The number of the next commit.
  pub commit_id-next_header :
      get_le 8 (drop 8 (next_header header)) ≡ (get_le 8 (drop 8 header) + 1) % 2 ^ 64
  unfolding counted
  commit_id-next_header =
      let next = (get_le 8 (drop 8 header) + 1) % 2 ^ 64 in
      let front = length-take 8 header (omega arith) in
      let cut = length-take 504 counted (omega (arith, length-counted)) in
      let behind = length-drop 8 (take 504 counted) in
      let rest : List ℕ = put_le 4 sum ++ drop 508 counted in
      let whole : drop 8 counted ≡ drop 8 (take 504 counted) ++ drop 504 counted =
        ap (drop 8) (sym (take-append-drop 504 counted))
        ∙ drop-append_left 8 (take 504 counted) (drop 504 counted) (omega (arith, cut)) in
      ap (λ (h : List ℕ). get_le 8 (drop 8 h)) next_header_parts
      ∙ ap (get_le 8) (drop-append_left 8 (take 504 counted) rest (omega (arith, cut)))
      ∙ get_le-append 8 (drop 8 (take 504 counted)) rest (omega (arith, cut, behind))
      ∙ sym (
          get_le-append 8 (drop 8 (take 504 counted)) (drop 504 counted)
            (omega (arith, cut, behind)))
      ∙ ap (get_le 8) (sym whole)
      ∙ ap (get_le 8) (drop-append 8 (take 8 header) (put_le 8 next ++ drop 16 header) front)
      ∙ get_le-put_le 8 next (drop 16 header) (omega arith)

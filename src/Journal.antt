-- ===== src/Journal.antt =====
-- src/clarisma/libero/FreeStore_Journal.cpp, and verifyHeader, verifyJournal, applyJournal and
-- ensureIntegrity of src/clarisma/libero/FreeStore.cpp: the rollback journal of a store.
-- A number in a file is little-endian. `buf` holds the first `bufPos_` bytes of the buffer, and
-- `buf_size` is its size: at least 8192, as `open` asserts, and a multiple of 4096, as the comment in
-- `addBlock` says. With a smaller or an uneven buffer the source could write behind its end, which the
-- definitions do not show: `buf` has no end of its own.
pub mod Stream
pub mod Verify
pub mod Header
pub mod Recover
pub mod Buffer
pub mod Unreset
pub mod Fuel
mod Tests
use libgeodesk.Common.{
  ℕ, zero, suc, ◌+◌, ◌-◌, ◌*◌, ◌/◌, ◌%◌, ◌^◌, List, [], ◌∷◌, ◌++◌, length, take, drop, bit_and,
  bit_or, ltb, leb, ◌==◌, ◌&&◌, ◌||◌, not, Bool, true, false, if◌then◌else◌, Option, none, some,
}
use libgeodesk.DiskFile.{DiskFile}
use libgeodesk.Crc32C.{soft_raw, initial_crc, finalize}

-- `n` bytes of a number, and the number in the next `n` bytes.
pub put_le : ℕ → ℕ → List ℕ
put_le zero v = []
put_le (suc n) v = v % 256 ∷ put_le n (v / 256)

pub get_le : ℕ → List ℕ → ℕ
get_le zero p = 0
get_le (suc n) [] = 0
get_le (suc n) (b ∷ p) = b + 256 * get_le n p

-- `JOURNAL_END_MARKER_FLAG`
abbrev pub end_marker_flag : ℕ
end_marker_flag = 2 ^ 63

-- What `seal` puts behind the blocks.
pub end_marker : ℕ → List ℕ
unfolding put_le
end_marker crc = put_le 8 (bit_or end_marker_flag (finalize crc))

module _ (d : DiskFile) where
  open d use {File, write_all_at}

  pub record Journal : Type 0 where
    pub file : File
    pub buf : List ℕ
    pub buf_size : ℕ
    pub file_pos : ℕ
    pub checksum : ℕ

  pub open_journal : File → ℕ → Journal
  open_journal file buf_size = record {
    file = file;
    buf = [];
    buf_size = buf_size;
    file_pos = 0;
    checksum = initial_crc;
  }

  pub reset : Journal → ℕ → List ℕ → Journal
  unfolding put_le
  reset j marker header = record j {
    file_pos = 0;
    buf = put_le 8 marker ++ take 512 header;
    checksum = initial_crc;
  }

  pub compute_checksum : Journal → Journal
  compute_checksum j = record j { checksum = soft_raw j.buf j.checksum }

  pub write_to_file : Journal → Journal
  write_to_file j = record j {
    file = write_all_at j.file j.file_pos j.buf;
    file_pos = j.file_pos + length j.buf;
    buf = [];
  }

  pub add_block : Journal → ℕ → List ℕ → Journal
  unfolding put_le compute_checksum write_to_file
  add_block j marker content =
      let marked = j.buf ++ put_le 8 marker in
      let p = length j.buf + 8 in
      let remaining = j.buf_size - p in
      if leb j.buf_size (p + length content)
      then record (write_to_file
          (compute_checksum (record j { buf = marked ++ take remaining content }))) {
            buf = drop remaining content;
          }
      else record j { buf = marked ++ content }

  pub seal : Journal → Journal
  unfolding compute_checksum write_to_file end_marker
  seal j =
      let j' = compute_checksum j in
      write_to_file (record j' { buf = j'.buf ++ end_marker j'.checksum })

-- The checksum of a header's first 504 bytes against the one behind them.
pub verify_header : List ℕ → Bool
unfolding get_le
verify_header header =
    finalize (soft_raw (take 504 header) initial_crc) == get_le 4 (drop 504 header)

-- `for (;;)` over the rest of the journal, with fuel; `none` when that runs out.
pub verify_loop : ℕ → List ℕ → ℕ → Option Bool
unfolding get_le
verify_loop zero p crc = none
verify_loop (suc fuel) p crc =
    let ofs = get_le 8 p in
    let more = verify_loop fuel (drop 4104 p) (soft_raw (take 4104 p) crc) in
    if not (bit_and ofs end_marker_flag == 0)
    then some (finalize crc == get_le 4 p)
    else (if ltb (length p) (4104 + 8)
        then some false
        else (if ofs % 4096 == 0 then more else some false))

abbrev pub accepts : Option Bool → Bool
accepts none = false
accepts (some sound) = sound

pub verify_journal : List ℕ → Bool
unfolding verify_loop
verify_journal journal =
    if ltb (length journal) (512 + 16)
    then false
    else accepts (
        verify_loop (suc (length journal)) (drop 520 journal)
          (soft_raw (take 520 journal) initial_crc))

-- `++header.commitId`, and the new checksum.
pub next_header : List ℕ → List ℕ
unfolding put_le get_le
next_header header =
    let counted =
      take 8 header ++ (put_le 8 ((get_le 8 (drop 8 header) + 1) % 2 ^ 64) ++ drop 16 header) in
    take 504 counted
    ++ (put_le 4 (finalize (soft_raw (take 504 counted) initial_crc)) ++ drop 508 counted)

module _ (d : DiskFile) where
  open d use {File, write_all_at}

  pub apply_loop : ℕ → List ℕ → File → File
  unfolding get_le
  apply_loop zero p store = store
  apply_loop (suc fuel) p store =
      let ofs = get_le 8 p in
      let more =
        apply_loop fuel (drop 4096 (drop 8 p)) (write_all_at store ofs (take 4096 (drop 8 p))) in
      if not (bit_and ofs end_marker_flag == 0) then store else more

  pub apply_journal : File → List ℕ → File
  unfolding apply_loop next_header
  apply_journal store journal =
      write_all_at (apply_loop (suc (length journal)) (drop 520 journal) store) 0
        (next_header (take 512 (drop 8 journal)))

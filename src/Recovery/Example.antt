-- ===== src/Recovery/Example.antt =====
-- A store of two blocks, its header and its journal.
use libgeodesk.Common.{
  ℕ, ◌≡◌, refl, ap, sym, ◌∙◌, arith, List, [], ◌∷◌, ◌++◌, length, take, length-append, drop-append,
  take_all, take-append, replicate, length-replicate, true, All,
}
use mathlib.Core.List.{append_assoc}
use libgeodesk.DiskFile.ListFile.{list_file}
use libgeodesk.Journal.{Journal, open_journal, reset}
use libgeodesk.Journal.Stream.{Block}
use libgeodesk.Journal.Recover.{IsSaved}
use libgeodesk.Recovery.{Staging, has_offset, stage_block, write_blocks}
use libgeodesk.Recovery.Staged.{stage_blocks}

pub header : List ℕ
header = replicate 512 28

pub padding : List ℕ
padding = replicate 3584 0

pub block : List ℕ
block = replicate 4096 7

pub edited : List ℕ
edited = replicate 4096 9

pub length-block : length block ≡ 4096
unfolding block
length-block = length-replicate 4096 7

pub length-edited : length edited ≡ 4096
unfolding edited
length-edited = length-replicate 4096 9

pub length-header : length header ≡ 512
unfolding header
length-header = length-replicate 512 28

length-padding : length padding ≡ 3584
unfolding padding
length-padding = length-replicate 3584 0

abbrev pub first : List ℕ
first = header ++ padding

length-first : length first ≡ 4096
length-first = omega (arith, length-append header padding, length-header, length-padding)

abbrev pub journal : Journal list_file
journal = open_journal list_file [] 65536

abbrev pub old : List ℕ
old = first ++ block

pub length-old : length old ≡ 8192
length-old = omega (arith, length-append first block, length-first, length-block)

abbrev pub requests : List Block
requests = (4096, block) ∷ []

pub requests-IsSaved : All (IsSaved old) requests
requests-IsSaved = (
  (
    (refl, omega arith, length-block),
    omega (arith, length-old),
    sym (
        ap (take 4096) (drop-append 4096 first block length-first)
        ∙ take_all 4096 block length-block),
  ),
  tt,
)

abbrev pub staged : Staging list_file
staged =
    stage_blocks list_file (record { edited = []; log = reset list_file journal 1 header }) requests

pub held : has_offset 4096 staged.edited ≡ true
unfolding has_offset stage_block
held = refl

-- What a crash leaves behind the write of the second block.
abbrev pub torn : List ℕ
torn = write_blocks list_file (λ ofs. edited) (4096 ∷ []) old

pub take-torn : take 512 torn ≡ header
unfolding write_blocks
take-torn =
    rw (take-append 4096 first block length-first, append_assoc header padding _)
      (take-append 512 header _ length-header)

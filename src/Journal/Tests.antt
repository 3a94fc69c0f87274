-- ===== src/Journal/Tests.antt =====
-- A journal with two blocks, in files that are lists.
use libgeodesk.Common.{
  ℕ, ◌≡◌, refl, ap, sym, ◌∙◌, arith, List, [], ◌∷◌, ◌++◌, length, take, drop, length-append,
  drop-append, take-append, take_all, replicate, length-replicate, true, false, All, inl, some,
  Bool,
}
use libgeodesk.DiskFile.ListFile.{list_file}
use libgeodesk.Journal.{
  Journal, get_le, open_journal, reset, seal, verify_journal, verify_loop, apply_journal,
}
use libgeodesk.Journal.Stream.{Block, add_blocks}
use libgeodesk.Journal.Verify.{IsBlock, verify_journal-seal}
use libgeodesk.Journal.Recover.{IsSaved, IsDamaged, IsRestored, apply_journal-seal}
use libgeodesk.Journal.Buffer.{HasRoom, add_blocks-HasRoom}
use libgeodesk.Journal.Fuel.{verify_loop_enough}
use libgeodesk.Journal.Unreset.{verify_journal-open_journal}

header : List ℕ
header = replicate 512 28

block : List ℕ
block = replicate 4096 7

length-block : length block ≡ 4096
unfolding block
length-block = length-replicate 4096 7

length-header : length header ≡ 512
unfolding header
length-header = length-replicate 512 28

abbrev journal : Journal list_file
journal = open_journal list_file (replicate 99 1) 65536

abbrev two_blocks : List Block
two_blocks = (4096, block) ∷ (0, block) ∷ []

two_blocks-IsBlock : All IsBlock two_blocks
two_blocks-IsBlock = ((refl, omega arith, length-block), ((refl, omega arith, length-block), tt))

verify_journal-seal_example :
    HasRoom list_file (add_blocks list_file (reset list_file journal 1 header) two_blocks)
    × (verify_journal
          (seal list_file (add_blocks list_file (reset list_file journal 1 header) two_blocks)).file
        ≡ true)
unfolding open_journal
verify_journal-seal_example =
    verify_journal-seal list_file journal 1 header two_blocks length-header two_blocks-IsBlock refl
      (omega arith)

add_blocks-HasRoom_example :
    HasRoom list_file (add_blocks list_file (reset list_file journal 1 header) two_blocks)
unfolding open_journal
add_blocks-HasRoom_example =
    add_blocks-HasRoom list_file journal 1 header two_blocks length-header refl (omega arith)
      (length-block, (length-block, tt))

abbrev old : List ℕ
old = block ++ block

two_blocks-IsSaved : All (IsSaved old) two_blocks
two_blocks-IsSaved =
    let whole = two_blocks-IsBlock in
    let size = length-append block block in
    let b = length-block in
    (
      (
        whole.0,
        omega (arith, size, b),
        sym (ap (take 4096) (drop-append 4096 block block b) ∙ take_all 4096 block b),
      ),
      ((whole.1.0, omega (arith, size, b), sym (take-append 4096 block block b)), tt),
    )

old-IsDamaged : IsDamaged old two_blocks old
old-IsDamaged = record { long = omega arith; kept = λ i lo hi. inl refl }

apply_journal-seal_example : IsRestored old header (
    apply_journal list_file old
      (seal list_file (add_blocks list_file (reset list_file journal 1 header) two_blocks)).file)
apply_journal-seal_example =
    apply_journal-seal list_file journal 1 header two_blocks old old length-header
      (omega (arith, length-append block block, length-block)) two_blocks-IsSaved old-IsDamaged

-- A block whose bytes at 512 are no offset of a block.
odd_block : List ℕ
odd_block = replicate 512 0 ++ (1 ∷ 0 ∷ 0 ∷ 0 ∷ 0 ∷ 0 ∷ 0 ∷ 0 ∷ replicate 3576 0)

odd_word : get_le 8 (drop 512 odd_block) ≡ 1
unfolding odd_block get_le
odd_word = ap (get_le 8) (drop-append 512 (replicate 512 0) _ (length-replicate 512 0))

length-odd_block : length odd_block ≡ 4096
unfolding odd_block
length-odd_block = omega (
  arith,
  length-append {A = ℕ} (replicate 512 0) (1 ∷ 0 ∷ 0 ∷ 0 ∷ 0 ∷ 0 ∷ 0 ∷ 0 ∷ replicate 3576 0),
  length-replicate {A = ℕ} 512 0,
  length-replicate {A = ℕ} 3576 0,
)

verify_journal-open_journal_example :
    verify_journal
      (seal list_file (
        add_blocks list_file
          (open_journal list_file [] 65536)
          ((4096, odd_block) ∷ two_blocks))).file
    ≡ false
verify_journal-open_journal_example =
    verify_journal-open_journal list_file [] 65536 4096 odd_block two_blocks length-odd_block
      (omega (arith, odd_word)) (rw odd_word (omega arith))

verify_loop_enough_example :
    (sound : Bool) × (verify_loop 4097 block 5 ≡ some sound)
    × (verify_loop 5000 block 5 ≡ some sound)
verify_loop_enough_example =
    verify_loop_enough 4097 5000 block 5 (omega (arith, length-block)) (omega (arith, length-block))

-- ===== src/DiskFile/ListFile.antt =====
-- A list of bytes fills the interface of a file.
use libgeodesk.Common.{
  ℕ, ◌+◌, ◌-◌, ◌≤◌, ◌≡◌, List, ◌++◌, length, take, drop, replicate, take_over, drop_over,
  replicate_none, refl, arith,
}
use mathlib.Core.List.{append-nil}
use libgeodesk.DiskFile.{DiskFile}

abbrev pub write_list : List ℕ → ℕ → List ℕ → List ℕ
write_list f pos bytes =
    take pos f ++ (replicate (pos - length f) 0 ++ (bytes ++ drop (pos + length bytes) f))

pub write_inside :
    (f : List ℕ) (pos : ℕ) (bytes : List ℕ)
    → pos ≤ length f
    → write_list f pos bytes ≡ take pos f ++ (bytes ++ drop (pos + length bytes) f)
write_inside f pos bytes h = rw (replicate_none {A = ℕ} (pos - length f) 0 (omega arith)) refl

pub write_behind :
    (f : List ℕ) (pos : ℕ) (bytes : List ℕ)
    → length f ≤ pos
    → write_list f pos bytes ≡ f ++ (replicate (pos - length f) 0 ++ bytes)
write_behind f pos bytes h =
    rw (take_over pos f h, drop_over (pos + length bytes) f (omega arith), append-nil bytes) refl

abbrev pub list_file : DiskFile
list_file = record {
  File = List ℕ;
  content = λ f. f;
  write_all_at = write_list;
  content-write_all_at = write_inside;
  content-write_all_at_behind = write_behind;
}

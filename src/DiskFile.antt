-- ===== src/DiskFile.antt =====
-- What the store and its journal use of a file (`FileHandle` in include/clarisma/io/FileHandle.h, whose
-- calls the operating system answers): its bytes, and a write at an offset. A write behind the end leaves zeros
-- between. Writes that fail throw, and are left aside.
pub mod ListFile
pub mod Overwrite
use libgeodesk.Common.{ℕ, ◌+◌, ◌-◌, ◌≤◌, ◌≡◌, List, ◌++◌, length, take, drop, replicate}

pub record DiskFile : Type 1 where
  pub File : Type 0
  pub content : File → List ℕ
  pub write_all_at : File → ℕ → List ℕ → File
  pub content-write_all_at :
      (f : File) (pos : ℕ) (bytes : List ℕ)
      → pos ≤ length (content f)
      → content (write_all_at f pos bytes)
        ≡ take pos (content f) ++ (bytes ++ drop (pos + length bytes) (content f))
  pub content-write_all_at_behind :
      (f : File) (pos : ℕ) (bytes : List ℕ)
      → length (content f) ≤ pos
      → content (write_all_at f pos bytes)
        ≡ content f ++ (replicate (pos - length (content f)) 0 ++ bytes)

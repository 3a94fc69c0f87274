-- ===== src/DiskFile/Overwrite.antt =====
-- A write inside a file, byte by byte.
use libgeodesk.Common.{
  ℕ, ◌+◌, ◌-◌, ◌≤◌, ◌<◌, ◌≡◌, refl, ◌∙◌, arith, List, ◌++◌, length, take, drop, get_elem?,
  length-append, length-take, length-drop, take-append, get_elem?-append_left,
  get_elem?-append_right, get_elem?-take, get_elem?-drop, drop-append, replicate, length-replicate,
  ap, sym, [],
}
use mathlib.Core.List.{append_assoc, append-nil}
use native.Mathlib.Decide.{dec_le}
use libgeodesk.DiskFile.{DiskFile}

-- The bytes of a file after a write inside it.
pub overwrite : List ℕ → ℕ → List ℕ → List ℕ
overwrite c pos bytes = take pos c ++ (bytes ++ drop (pos + length bytes) c)

pub length-overwrite :
    (c : List ℕ) (pos : ℕ) (bytes : List ℕ)
    → pos + length bytes ≤ length c
    → length (overwrite c pos bytes) ≡ length c
unfolding overwrite
length-overwrite c pos bytes fits = omega (
  arith,
  length-append (take pos c) (bytes ++ drop (pos + length bytes) c),
  length-append bytes (drop (pos + length bytes) c),
  length-take pos c (omega arith),
  length-drop (pos + length bytes) c,
)

module _ (c : List ℕ) (pos : ℕ) (bytes : List ℕ) (fits : pos + length bytes ≤ length c)
    (i : ℕ) where
  tail : List ℕ
  tail = bytes ++ drop (pos + length bytes) c

  pub overwrite_before : i < pos → get_elem? (overwrite c pos bytes) i ≡ get_elem? c i
  unfolding overwrite tail
  overwrite_before low =
      get_elem?-append_left (take pos c) tail i (omega (arith, length-take pos c (omega arith)))
      ∙ get_elem?-take pos c i low

  pub overwrite_inside :
      pos ≤ i
      → i < pos + length bytes
      → get_elem? (overwrite c pos bytes) i ≡ get_elem? bytes (i - pos)
  unfolding overwrite tail
  overwrite_inside lo hi =
      get_elem?-append_right (take pos c) tail pos i (i - pos) (length-take pos c (omega arith))
        (omega arith)
      ∙ get_elem?-append_left bytes (drop (pos + length bytes) c) (i - pos) (omega arith)

  pub overwrite_behind :
      pos + length bytes ≤ i → get_elem? (overwrite c pos bytes) i ≡ get_elem? c i
  unfolding overwrite tail
  overwrite_behind hi =
      get_elem?-append_right (take pos c) tail pos i (i - pos) (length-take pos c (omega arith))
        (omega arith)
      ∙ get_elem?-append_right bytes (drop (pos + length bytes) c) (length bytes) (i - pos)
          (i - pos - length bytes) refl (omega arith)
      ∙ get_elem?-drop (pos + length bytes) c (i - pos - length bytes) i (omega arith)

pub take-overwrite_start :
    (c : List ℕ) (n : ℕ) (bytes : List ℕ) → length bytes ≡ n → take n (overwrite c 0 bytes) ≡ bytes
unfolding overwrite
take-overwrite_start c n bytes h = take-append n bytes (drop (0 + length bytes) c) h

module _ (d : DiskFile) where
  open d use {File, content, write_all_at, content-write_all_at, content-write_all_at_behind}

  pub content-overwrite :
      (f : File) (pos : ℕ) (bytes : List ℕ)
      → pos ≤ length (content f)
      → content (write_all_at f pos bytes) ≡ overwrite (content f) pos bytes
  unfolding overwrite
  content-overwrite f pos bytes h = content-write_all_at f pos bytes h

  -- What a file holds from the place of a write on.
  pub drop-write_all_at :
      (f : File) (pos : ℕ) (bytes : List ℕ)
      → (rest : List ℕ) × (drop pos (content (write_all_at f pos bytes)) ≡ bytes ++ rest)
  drop-write_all_at f pos bytes = elim (dec_le pos (length (content f))) [
    | yes inside ↦ (
      drop (pos + length bytes) (content f),
      ap (drop pos) (content-write_all_at f pos bytes inside)
          ∙ drop-append pos (take pos (content f)) _ (length-take pos (content f) inside),
    )
    | no behind ↦
        let gap : List ℕ = replicate (pos - length (content f)) 0 in
        (
          [],
          ap (drop pos) (
                content-write_all_at_behind f pos bytes (omega arith)
                ∙ sym (append_assoc (content f) gap bytes))
              ∙ drop-append pos (content f ++ gap) bytes (
                  omega (
                    arith,
                    length-append (content f) gap,
                    length-replicate {A = ℕ} (pos - length (content f)) 0,
                  ))
              ∙ sym (append-nil bytes),
        )
  ]

  -- A write leaves a file at least as long as it was.
  pub length-write_all_at :
      (f : File) (pos : ℕ) (bytes : List ℕ)
      → length (content f) ≤ length (content (write_all_at f pos bytes))
  length-write_all_at f pos bytes = elim (dec_le pos (length (content f))) [
    | yes inside ↦
        let c = content f in
        omega (
          arith,
          ap length (content-write_all_at f pos bytes inside),
          length-append (take pos c) (bytes ++ drop (pos + length bytes) c),
          length-append bytes (drop (pos + length bytes) c),
          length-take pos c inside,
          length-drop (pos + length bytes) c,
        )
    | no behind ↦
        let c = content f in
        omega (
          arith,
          ap length (content-write_all_at_behind f pos bytes (omega arith)),
          length-append c (replicate (pos - length c) 0 ++ bytes),
        )
  ]

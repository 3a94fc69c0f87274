-- ===== src/Varint/SafeRead.antt =====
-- The bounded reads of varint_safe.h against the unbounded ones, and against `write_varint`.
use libgeodesk.Common.{
  ℕ, zero, suc, ◌+◌, ◌*◌, ◌/◌, ◌%◌, ◌^◌, ◌≤◌, ◌<◌, ◌≡◌, refl, arith, List, [], ◌∷◌, ◌++◌, none,
  some, lt_wf, bit_and, false, inl, inr, Bool-cases, ltb, lt→ltb, ◌==◌,
}
use mathlib.Core.WellFounded.{Acc}
use native.Mathlib.Decide.{dec_lt}
use libgeodesk.Varint.{
  Reader, Safe, ok, throws, too_long, past_end, add_group, read_groups, read_varint64, safe_loop,
  safe_read_varint64, safe_read_varint32, write_loop, write_varint,
}
use libgeodesk.Varint.Bytes.{top_bit, add_group_lem}
use libgeodesk.Varint.Write.{write_loop_more, write_loop_done}
use libgeodesk.Varint.Read.{pow-seven_more, split_group, grow}

-- The bytes begin with `n` that have their top bit set.
abbrev pub GoesOn : ℕ → List ℕ → Type 0
GoesOn zero p = Unit
GoesOn (suc n) [] = ⊥
GoesOn (suc n) (b ∷ p) = ((bit_and b 0x80 == 0) ≡ false) × GoesOn n p

-- What the unbounded read gives where the bounded one returns or throws, and the bytes that are
-- rejected as too long.
abbrev pub Agrees : ℕ → List ℕ → Safe (ℕ × List ℕ) → Reader ℕ → Type 0
Agrees n p (ok r) m = m ≡ some r
Agrees n p (throws past_end) m = m ≡ none
Agrees n p (throws too_long) m = GoesOn n p × (r : ℕ × List ℕ) × (m ≡ some r)

Agrees-suc :
    (n b : ℕ) (p : List ℕ) (s : Safe (ℕ × List ℕ)) (m : Reader ℕ)
    → (bit_and b 0x80 == 0) ≡ false
    → Agrees n p s m
    → Agrees (suc n) (b ∷ p) s m
Agrees-suc n b p (ok r) m more h = h
Agrees-suc n b p (throws past_end) m more h = h
Agrees-suc n b p (throws too_long) m more (on, r, e) = ((more, on), r, e)

safe_loop-Agrees :
    (left val shift : ℕ) (p : List ℕ)
    → shift + 7 * left ≡ 63
    → Agrees (suc left) p (safe_loop 64 63 val shift p) (read_groups left shift val p)
unfolding safe_loop read_groups
safe_loop-Agrees zero val shift [] e = refl
safe_loop-Agrees (suc left) val shift [] e = refl
safe_loop-Agrees zero val shift (b ∷ p) e = elim (Bool-cases (bit_and b 0x80 == 0)) [
  | inl last ↦ rw last refl
  | inr more ↦ rw (more, lt→ltb 63 (shift + 7) (omega arith)) ((more, tt), _, refl)
]
safe_loop-Agrees (suc left) val shift (b ∷ p) e = elim (Bool-cases (bit_and b 0x80 == 0)) [
  | inl last ↦ rw last refl
  | inr more ↦
      let goes_on : ltb 63 (shift + 7) ≡ false = ground arith in
      rw (more, goes_on)
        (Agrees-suc (suc left) b p _ _ more
          (safe_loop-Agrees left (add_group 64 val b shift) (shift + 7) p (omega arith)))
]

-- On every input, well formed or not, the bounded read returns what the unbounded one does, reports the
-- end of the buffer only where the unbounded one would read past it, and rejects a number as too long
-- only when each of its first ten bytes has its top bit set, where the unbounded one returns.
pub safe_read_varint64-Agrees : (p : List ℕ) → Agrees 10 p (safe_read_varint64 p) (read_varint64 p)
unfolding safe_read_varint64 read_varint64
safe_read_varint64-Agrees p = safe_loop-Agrees 9 0 0 p refl

module _ (width limit : ℕ) where
  safe_loop-last :
      (w val shift : ℕ) (rest : List ℕ)
      → w < 128
      → val < 2 ^ shift
      → w * 2 ^ shift < 2 ^ width
      → safe_loop width limit val shift (w ∷ rest) ≡ ok (val + w * 2 ^ shift, rest)
  unfolding safe_loop
  safe_loop-last w val shift rest small below fits =
      ground (arith, add_group_lem width val w shift, top_bit w)

  safe_loop-inner :
      (g val shift : ℕ) (rest : List ℕ)
      → g < 128
      → val < 2 ^ shift
      → g * 2 ^ shift < 2 ^ width
      → shift + 7 ≤ limit
      → safe_loop width limit val shift ((g + 128) ∷ rest)
        ≡ safe_loop width limit (val + g * 2 ^ shift) (shift + 7) rest
  unfolding safe_loop
  safe_loop-inner g val shift rest small below fits room =
      ground (arith, add_group_lem width val (g + 128) shift, top_bit (g + 128))

  safe_loop-write_loop :
      (left w val shift : ℕ) (rest : List ℕ) (a : Acc ◌<◌ w)
      → shift + 7 * left ≤ limit
      → w < 128 ^ suc left
      → val < 2 ^ shift
      → w * 2 ^ shift < 2 ^ width
      → safe_loop width limit val shift (write_loop w a ++ rest) ≡ ok (val + w * 2 ^ shift, rest)
  safe_loop-write_loop zero w val shift rest a room wide below fits =
      rw (write_loop_done w a wide) (safe_loop-last w val shift rest wide below fits)
  safe_loop-write_loop (suc left) w val shift rest a room wide below fits = elim (dec_lt 127 w) [
    | yes more ↦
        let (a', e) = write_loop_more w a more in
        rw e (
          ground (
            arith,
            split_group w shift,
            pow-seven_more shift,
            safe_loop-inner (w % 128) val shift (write_loop (w / 128) a' ++ rest),
            safe_loop-write_loop left (w / 128) (val + w % 128 * 2 ^ shift) (shift + 7) rest a'
                (omega arith) (omega arith),
            grow (w % 128) val shift,
          ))
    | no last ↦
        rw (write_loop_done w a (omega arith))
          (safe_loop-last w val shift rest (omega arith) below fits)
  ]

module _ (v : ℕ) (rest : List ℕ) where
  -- `safe_read_varint64` decodes every value below 2 ^ 64 that `write_varint` wrote.
  pub safe_read_varint64-write_varint :
      v < 2 ^ 64 → safe_read_varint64 (write_varint v ++ rest) ≡ ok (v, rest)
  unfolding safe_read_varint64 write_varint
  safe_read_varint64-write_varint h =
      ground (arith, safe_loop-write_loop 64 63 9 v 0 0 rest (lt_wf.apply v))

  -- `safe_read_varint32` decodes every value below 2 ^ 32 that `write_varint` wrote.
  pub safe_read_varint32-write_varint :
      v < 2 ^ 32 → safe_read_varint32 (write_varint v ++ rest) ≡ ok (v, rest)
  unfolding safe_read_varint32 write_varint
  safe_read_varint32-write_varint h =
      ground (arith, safe_loop-write_loop 32 28 4 v 0 0 rest (lt_wf.apply v))

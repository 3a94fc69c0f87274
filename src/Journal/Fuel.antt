-- ===== src/Journal/Fuel.antt =====
-- The rounds of the check of a journal.
use libgeodesk.Common.{
  ℕ, zero, suc, ◌+◌, ◌<◌, ◌≡◌, refl, arith, List, length, drop, take, length-drop, ltb, not, ◌==◌,
  ◌%◌, bit_and, Bool, Bool-cases, ltb_false→le, inl, inr, some,
}
use libgeodesk.Crc32C.{soft_raw}
use libgeodesk.Journal.{get_le, end_marker_flag, verify_loop}

-- With a fuel above the number of bytes that are left, the loop of verifyJournal ends by one of its own
-- conditions and never by its fuel: it accepts or rejects, and every such fuel gives the same answer.
pub verify_loop_enough :
    (f g : ℕ) (p : List ℕ) (crc : ℕ)
    → length p < f
    → length p < g
    → (sound : Bool) × (verify_loop f p crc ≡ some sound) × (verify_loop g p crc ≡ some sound)
unfolding verify_loop
verify_loop_enough zero g p crc h k = absurd (omega arith)
verify_loop_enough (suc f) zero p crc h k = absurd (omega arith)
verify_loop_enough (suc f) (suc g) p crc h k =
    elim (Bool-cases (not (bit_and (get_le 8 p) end_marker_flag == 0))) [
      | inl marked ↦ rw marked (_, refl, refl)
      | inr offset ↦ elim (Bool-cases (ltb (length p) (4104 + 8))) [
        | inl short ↦ rw (offset, short) (_, refl, refl)
        | inr long ↦ elim (Bool-cases (get_le 8 p % 4096 == 0)) [
          | inl aligned ↦
              let above = ltb_false→le (length p) (4104 + 8) long in
              let less = length-drop 4104 p in
              rw (offset, long, aligned)
                (verify_loop_enough f g (drop 4104 p) (soft_raw (take 4104 p) crc)
                  (omega (arith, less, above)) (omega (arith, less, above)))
          | inr off ↦ rw (offset, long, off) (_, refl, refl)
        ]
      ]
    ]

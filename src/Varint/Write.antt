-- ===== src/Varint/Write.antt =====
-- The bytes that `write_varint` writes, and the two-byte form.
use libgeodesk.Common.{ℕ, ◌+◌, ◌/◌, ◌%◌, ◌<◌, ◌≡◌, arith, [], ◌∷◌, All, lt_wf}
use mathlib.Core.WellFounded.{Acc}
use mathlib.Core.Logic.{dif_pos}
use native.Mathlib.Bridge.{le_prop}
use native.Mathlib.Decide.{dec_lt}
use libgeodesk.Varint.{write_loop, write_varint, write_varint14, shr-lt}
use libgeodesk.Varint.Bytes.{inner_byte}

abbrev pub IsByte : ℕ → Type 0
IsByte b = b < 256

-- One round of the loop.
pub write_loop_more :
    (val : ℕ) (w : Acc ◌<◌ val)
    → 127 < val
    → (w' : Acc ◌<◌ (val / 128)) × (write_loop val w
        ≡ (val % 128 + 128) ∷ write_loop (val / 128) w')
unfolding write_loop
write_loop_more val (Acc.intro _ smaller) more = (
  smaller (val / 128) (shr-lt val more),
  rw (dif_pos (dec_lt 127 val) le_prop more, inner_byte val),
)

pub write_loop_done : (val : ℕ) (w : Acc ◌<◌ val) → val < 128 → write_loop val w ≡ val ∷ []
unfolding write_loop
write_loop_done val (Acc.intro _ smaller) small = ground arith

write_loop-IsByte : (val : ℕ) (w : Acc ◌<◌ val) → All IsByte (write_loop val w)
unfolding write_loop
write_loop-IsByte val (Acc.intro _ smaller) =
    grind (arith, λ (p : val / 128 < val). write_loop-IsByte (val / 128) (smaller (val / 128) p))

pub write_varint-IsByte : (val : ℕ) → All IsByte (write_varint val)
unfolding write_varint
write_varint-IsByte val = write_loop-IsByte val (lt_wf.apply val)

-- Below 0x4000 the two-byte form writes what the loop writes.
pub write_varint14-eq-write_varint :
    (val : ℕ) → val < 0x4000 → write_varint14 val ≡ write_varint val
unfolding write_varint14 write_varint
write_varint14-eq-write_varint val h = elim (dec_lt 127 val) [
  | yes more ↦
      let (w, e) = write_loop_more val (lt_wf.apply val) more in
      ground (arith, e, inner_byte val, write_loop_done (val / 128) w)
  | no done ↦ ground (arith, write_loop_done val (lt_wf.apply val))
]

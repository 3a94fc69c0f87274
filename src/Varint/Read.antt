-- ===== src/Varint/Read.antt =====
-- Reading back what `write_varint` wrote.
use libgeodesk.Common.{
  ℕ, zero, suc, ◌+◌, ◌*◌, ◌/◌, ◌%◌, ◌^◌, ◌<◌, ◌≡◌, ap, arith, List, ◌∷◌, ◌++◌, some, lt_wf,
}
use mathlib.Core.WellFounded.{Acc}
use native.Mathlib.Nat.{div-add-mod}
use native.Mathlib.Decide.{dec_lt}
use native.Mathlib.Numerals.{towards_suc}
use libgeodesk.Varint.{
  read_groups, read_varint35, read_varint64, read_varint32, write_loop, write_varint,
}
use libgeodesk.Varint.Write.{write_loop_more, write_loop_done}
use libgeodesk.Varint.Bytes.{top_bit, add_group_lem}

pub pow-seven_more : (s : ℕ) → 2 ^ (s + 7) ≡ 128 * 2 ^ s
pow-seven_more s = simp towards_suc (omega arith)

-- The lowest group of `w` and the groups above it, shifted by `s`.
pub split_group : (w s : ℕ) → w % 128 * 2 ^ s + w / 128 * 2 ^ (s + 7) ≡ w * 2 ^ s
split_group w s =
    let scaled = ap (λ (t : ℕ). t * 2 ^ s) (div-add-mod w 128) in
    rw (pow-seven_more s) (omega (arith, scaled))

pub grow : (g val s : ℕ) → g < 128 → val < 2 ^ s → val + g * 2 ^ s < 128 * 2 ^ s
grow g val s small below = grind arith

read_groups-last :
    (left w val shift : ℕ) (rest : List ℕ)
    → w < 128
    → val < 2 ^ shift
    → w * 2 ^ shift < 2 ^ 64
    → read_groups left shift val (w ∷ rest) ≡ some (val + w * 2 ^ shift, rest)
unfolding read_groups
read_groups-last zero w val shift rest small below fits =
    ground (arith, add_group_lem 64 val w shift)
read_groups-last (suc left) w val shift rest small below fits =
    ground (arith, add_group_lem 64 val w shift, top_bit w)

read_groups-inner :
    (left g val shift : ℕ) (rest : List ℕ)
    → g < 128
    → val < 2 ^ shift
    → g * 2 ^ shift < 2 ^ 64
    → read_groups (suc left) shift val ((g + 128) ∷ rest)
      ≡ read_groups left (shift + 7) (val + g * 2 ^ shift) rest
unfolding read_groups
read_groups-inner left g val shift rest small below fits =
    ground (arith, add_group_lem 64 val (g + 128) shift, top_bit (g + 128))

-- `w` is what is still to be read, and it stands `shift` bits up.
read_groups-write_loop :
    (left w val shift : ℕ) (rest : List ℕ) (a : Acc ◌<◌ w)
    → w < 128 ^ suc left
    → val < 2 ^ shift
    → w * 2 ^ shift < 2 ^ 64
    → read_groups left shift val (write_loop w a ++ rest) ≡ some (val + w * 2 ^ shift, rest)
read_groups-write_loop zero w val shift rest a room below fits =
    rw (write_loop_done w a room) (read_groups-last 0 w val shift rest room below fits)
read_groups-write_loop (suc left) w val shift rest a room below fits = elim (dec_lt 127 w) [
  | yes more ↦
      let (a', e) = write_loop_more w a more in
      rw e (
        ground (
          arith,
          split_group w shift,
          pow-seven_more shift,
          read_groups-inner left (w % 128) val shift (write_loop (w / 128) a' ++ rest),
          read_groups-write_loop left (w / 128) (val + w % 128 * 2 ^ shift) (shift + 7) rest a'
              (omega arith),
          grow (w % 128) val shift,
        ))
  | no last ↦
      rw (write_loop_done w a (omega arith))
        (read_groups-last (suc left) w val shift rest (omega arith) below fits)
]

module _ (v : ℕ) (rest : List ℕ) where
  -- `read_varint64` reads back every value below 2 ^ 64 that `write_varint` wrote, and leaves what
  -- follows.
  pub read_varint64-write_varint :
      v < 2 ^ 64 → read_varint64 (write_varint v ++ rest) ≡ some (v, rest)
  unfolding read_varint64 write_varint
  read_varint64-write_varint h = ground (arith, read_groups-write_loop 9 v 0 0 rest (lt_wf.apply v))

  -- `read_varint35` reads back every value below 2 ^ 35 that `write_varint` wrote.
  pub read_varint35-write_varint :
      v < 2 ^ 35 → read_varint35 (write_varint v ++ rest) ≡ some (v, rest)
  unfolding read_varint35 write_varint
  read_varint35-write_varint h = ground (arith, read_groups-write_loop 4 v 0 0 rest (lt_wf.apply v))

  -- `read_varint32` reads what `write_varint` wrote of a value below 2 ^ 35, and keeps its lowest
  -- 32 bits.
  pub read_varint32-write_varint :
      v < 2 ^ 35 → read_varint32 (write_varint v ++ rest) ≡ some (v % 2 ^ 32, rest)
  unfolding read_varint32
  read_varint32-write_varint h = rw (read_varint35-write_varint h)

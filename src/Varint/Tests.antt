-- ===== src/Varint/Tests.antt =====
-- Varints at concrete inputs.
use libgeodesk.Common.{ℕ, ◌-◌, lt_wf, All, ◌^◌, ◌≡◌, refl, arith, List, [], ◌∷◌, ◌++◌, some}
use native.Mathlib.Decide.{dec_lt}
use libgeodesk.Varint.{
  write_loop, read_groups, add_group, sign_mask, read_varint64, write_varint, to_zigzag,
  safe_read_varint64,
}
use libgeodesk.Varint.Read.{read_varint64-write_varint}
use libgeodesk.Varint.SafeRead.{Agrees, safe_read_varint64-Agrees}
use libgeodesk.Varint.Skip.{IsVarint}

write_300 : write_varint 300 ≡ 172 ∷ 2 ∷ []
unfolding write_varint write_loop lt_wf dec_lt
write_300 = refl

read_300 : read_varint64 (172 ∷ 2 ∷ 9 ∷ []) ≡ some (300, 9 ∷ [])
unfolding read_varint64 read_groups add_group
read_300 = refl

zigzag_minus_one : to_zigzag 63 (2 ^ 64 - 1) ≡ 1
unfolding to_zigzag sign_mask
zigzag_minus_one = refl

read_varint64-write_varint_example :
    read_varint64 (write_varint 9_876_543_210 ++ (7 ∷ [])) ≡ some (9_876_543_210, 7 ∷ [])
read_varint64-write_varint_example = read_varint64-write_varint 9_876_543_210 (7 ∷ []) (omega arith)

safe_read_varint64-Agrees_example :
    Agrees 10 (172 ∷ 2 ∷ []) (safe_read_varint64 (172 ∷ 2 ∷ [])) (read_varint64 (172 ∷ 2 ∷ []))
safe_read_varint64-Agrees_example = safe_read_varint64-Agrees (172 ∷ 2 ∷ [])

-- Two varints.
abbrev two : List (List ℕ)
two = (172 ∷ 2 ∷ []) ∷ (5 ∷ []) ∷ []

two-AreVarints : All IsVarint two
two-AreVarints = ((omega arith, omega arith, omega arith), (omega arith, tt))

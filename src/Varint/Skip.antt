-- ===== src/Varint/Skip.antt =====
-- Counting and skipping: any byte strings that are well-formed varints, canonical or not.
use libgeodesk.Common.{
  ℕ, zero, suc, ◌-◌, ◌/◌, ◌^◌, ◌≤◌, ◌<◌, ◌≡◌, refl, ◌∙◌, ap, arith, List, [], ◌∷◌, ◌++◌, some, All,
  length, lt_wf, if◌then◌else◌, ◌==◌,
}
use mathlib.Core.List.{append_assoc}
use mathlib.Core.WellFounded.{Acc}
use native.Mathlib.Decide.{dec_lt}
use libgeodesk.Varint.{count_varints, skip_varints, write_loop, write_varint, safe_skip_varints, ok}
use libgeodesk.Varint.Bytes.{count_down_lem}
use libgeodesk.Varint.Write.{write_loop_more, write_loop_done}

-- Bytes with the top bit set, then one without.
abbrev pub IsVarint : List ℕ → Type 0
IsVarint [] = ⊥
IsVarint (b ∷ []) = b < 128
IsVarint (b ∷ c ∷ p) = (128 ≤ b) × (b < 256) × IsVarint (c ∷ p)

-- The strings of `ps`, one after the other.
abbrev pub concat : List (List ℕ) → List ℕ
concat [] = []
concat (p ∷ ps) = p ++ concat ps

IsVarint-cons : (b : ℕ) (p : List ℕ) → 128 ≤ b → b < 256 → IsVarint p → IsVarint (b ∷ p)
IsVarint-cons b [] lo hi v = absurd v
IsVarint-cons b (c ∷ p) lo hi v = (lo, hi, v)

write_loop-IsVarint : (k val : ℕ) (w : Acc ◌<◌ val) → val < k → IsVarint (write_loop val w)
write_loop-IsVarint zero val w h = absurd (omega arith)
write_loop-IsVarint (suc k) val w h = elim (dec_lt 127 val) [
  | yes more ↦
      let (w', e) = write_loop_more val w more in
      rw e (
        IsVarint-cons _ _ (omega arith) (omega arith)
          (write_loop-IsVarint k (val / 128) w' (omega arith)))
  | no last ↦ rw (write_loop_done val w (omega arith)) (omega arith)
]

pub write_varint-IsVarint : (val : ℕ) → IsVarint (write_varint val)
unfolding write_varint
write_varint-IsVarint val = write_loop-IsVarint (suc val) val (lt_wf.apply val) (omega arith)

count_varints-append :
    (p rest : List ℕ) → IsVarint p → count_varints (p ++ rest) ≡ suc (count_varints rest)
unfolding count_varints
count_varints-append [] rest v = absurd v
count_varints-append (b ∷ []) rest v = ground arith
count_varints-append (b ∷ c ∷ p) rest (lo, hi, v) =
    ground (arith, count_varints-append (c ∷ p) rest v)

-- In a sequence of well-formed varints, `count_varints` counts them.
pub count_varints-concat :
    (ps : List (List ℕ)) → All IsVarint ps → count_varints (concat ps) ≡ length ps
count_varints-concat [] v = unfold count_varints in refl
count_varints-concat (p ∷ ps) (v, vs) =
    count_varints-append p (concat ps) v ∙ ap suc (count_varints-concat ps vs)

-- One varint takes one off the count.
skip_varints-append :
    (p rest : List ℕ) (count : ℕ)
    → IsVarint p
    → 0 < count
    → count < 2 ^ 31
    → skip_varints (p ++ rest) count
      ≡ (if count == 1 then some rest else skip_varints rest (count - 1))
unfolding skip_varints
skip_varints-append [] rest count v pos small = absurd v
skip_varints-append (b ∷ []) rest count v pos small = ground (arith, count_down_lem count b)
skip_varints-append (b ∷ c ∷ p) rest count (lo, hi, v) pos small =
    ground (arith, count_down_lem count b, skip_varints-append (c ∷ p) rest count v)

-- Told to skip as many varints as a sequence of well-formed ones has (one at least, fewer than
-- 2 ^ 31), `skip_varints` stops right behind the last.
pub skip_varints-concat :
    (p : List ℕ) (ps : List (List ℕ)) (rest : List ℕ)
    → All IsVarint (p ∷ ps)
    → length (p ∷ ps) < 2 ^ 31
    → skip_varints (concat (p ∷ ps) ++ rest) (length (p ∷ ps)) ≡ some rest
skip_varints-concat p [] rest (v, _) h =
    ground (arith, append_assoc p [] rest, skip_varints-append p rest 1 v)
skip_varints-concat p (q ∷ qs) rest (v, vs) h = ground (
  arith,
  append_assoc p (concat (q ∷ qs)) rest,
  skip_varints-append p (concat (q ∷ qs) ++ rest) (suc (suc (length qs))) v,
  skip_varints-concat q qs rest vs,
)

safe_skip_varints-append :
    (p rest : List ℕ) (count : ℕ)
    → IsVarint p
    → 0 < count
    → count < 2 ^ 31
    → safe_skip_varints (p ++ rest) count ≡ safe_skip_varints rest (count - 1)
unfolding safe_skip_varints
safe_skip_varints-append [] rest count v pos small = absurd v
safe_skip_varints-append (b ∷ []) rest count v pos small = ground (arith, count_down_lem count b)
safe_skip_varints-append (b ∷ c ∷ p) rest count (lo, hi, v) pos small =
    ground (arith, count_down_lem count b, safe_skip_varints-append (c ∷ p) rest count v)

safe_skip_varints-zero : (p : List ℕ) → safe_skip_varints p 0 ≡ ok p
unfolding safe_skip_varints
safe_skip_varints-zero [] = refl
safe_skip_varints-zero (b ∷ p) = refl

-- Told to skip as many varints as a sequence of well-formed ones has (fewer than 2 ^ 31, perhaps
-- none), `safe_skip_varints` returns the position right behind the last.
pub safe_skip_varints-concat :
    (ps : List (List ℕ)) (rest : List ℕ)
    → All IsVarint ps
    → length ps < 2 ^ 31
    → safe_skip_varints (concat ps ++ rest) (length ps) ≡ ok rest
safe_skip_varints-concat [] rest v h = safe_skip_varints-zero rest
safe_skip_varints-concat (p ∷ ps) rest (v, vs) h = ground (
  arith,
  append_assoc p (concat ps) rest,
  safe_skip_varints-append p (concat ps ++ rest) (suc (length ps)) v,
  safe_skip_varints-concat ps rest vs,
)

-- ===== src/Varint/SkipBack.antt =====
-- Skipping backward over well-formed varints.
use libgeodesk.Common.{
  ℕ, suc, ◌-◌, ◌^◌, ◌≤◌, ◌<◌, ◌≡◌, refl, ap, arith, List, [], ◌∷◌, ◌++◌, some, All, length,
  if◌then◌else◌, ◌==◌,
}
use mathlib.Core.List.{append_assoc, reverse, reverse-cons, map}
use libgeodesk.Varint.{skip_varints_backward}
use libgeodesk.Varint.Bytes.{count_down_lem}
use libgeodesk.Varint.Skip.{IsVarint, concat}

abbrev IsInner : ℕ → Type 0
IsInner b = (128 ≤ b) × (b < 256)

-- A varint read from its last byte.
abbrev Reversed : List ℕ → Type 0
Reversed [] = ⊥
Reversed (a ∷ inner) = (a < 128) × All IsInner inner

All-snoc : (p : List ℕ) (b : ℕ) → All IsInner p → IsInner b → All IsInner (p ++ (b ∷ []))
All-snoc [] b h k = (k, tt)
All-snoc (x ∷ p) b h k = (h.0, All-snoc p b h.1 k)

Reversed-snoc : (p : List ℕ) (b : ℕ) → Reversed p → IsInner b → Reversed (p ++ (b ∷ []))
Reversed-snoc [] b h k = absurd h
Reversed-snoc (x ∷ p) b h k = (h.0, All-snoc p b h.1 k)

IsVarint-reverse : (p : List ℕ) → IsVarint p → Reversed (reverse p)
IsVarint-reverse [] v = absurd v
IsVarint-reverse (b ∷ []) v = (v, tt)
IsVarint-reverse (b ∷ c ∷ p) (lo, hi, v) =
    rw (reverse-cons b (c ∷ p))
      (Reversed-snoc (reverse (c ∷ p)) b (IsVarint-reverse (c ∷ p) v) (lo, hi))

module _ (t : ℕ) (before : List ℕ) (ends : t < 128) where
  step_back :
      (a : ℕ) (inner : List ℕ) (count : ℕ)
      → All IsInner inner
      → 0 < count
      → count < 2 ^ 31
      → skip_varints_backward (a ∷ (inner ++ (t ∷ before))) count
        ≡ (if count == 1 then some (t ∷ before) else skip_varints_backward (t ∷ before) (count - 1))
  unfolding skip_varints_backward
  step_back a [] count v pos small = ground (arith, count_down_lem count t)
  step_back a (b ∷ inner) count (h, v) pos small =
      ground (arith, count_down_lem count b, step_back b inner count v)

  skip_varint_backward :
      (p : List ℕ) (count : ℕ)
      → Reversed p
      → 0 < count
      → count < 2 ^ 31
      → skip_varints_backward (p ++ (t ∷ before)) count
        ≡ (if count == 1 then some (t ∷ before) else skip_varints_backward (t ∷ before) (count - 1))
  skip_varint_backward [] count v pos small = absurd v
  skip_varint_backward (a ∷ inner) count v pos small = step_back a inner count v.1 pos small

skip-Reversed :
    (p : List ℕ) (ps : List (List ℕ)) (t : ℕ) (before : List ℕ)
    → t < 128
    → All Reversed (p ∷ ps)
    → length (p ∷ ps) < 2 ^ 31
    → skip_varints_backward (concat (p ∷ ps) ++ (t ∷ before)) (length (p ∷ ps)) ≡ some (t ∷ before)
skip-Reversed p [] t before ends (v, _) h =
    ground (arith, append_assoc p [] (t ∷ before), skip_varint_backward t before ends p 1 v)
skip-Reversed p ([] ∷ qs) t before ends (v, (w, vs)) h = absurd w
skip-Reversed p ((a ∷ inner) ∷ qs) t before ends (v, (w, vs)) h = ground (
  arith,
  append_assoc p (concat ((a ∷ inner) ∷ qs)) (t ∷ before),
  skip_varint_backward a ((inner ++ concat qs) ++ (t ∷ before)) w.0 p (suc (suc (length qs))) v,
  skip-Reversed (a ∷ inner) qs t before ends (w, vs),
)

All-Reversed : (ps : List (List ℕ)) → All IsVarint ps → All Reversed (map reverse ps)
All-Reversed [] v = tt
All-Reversed (p ∷ ps) (v, vs) = (IsVarint-reverse p v, All-Reversed ps vs)

length-map-reverse : (ps : List (List ℕ)) → length (map reverse ps) ≡ length ps
length-map-reverse [] = refl
length-map-reverse (p ∷ ps) = ap suc (length-map-reverse ps)

-- Before the well-formed varints `p ∷ ps`, given nearest first and fewer than 2 ^ 31, stands the
-- last byte `t` of one more: skipping them backward leaves the pointer right behind `t`.
pub skip_varints_backward-concat :
    (p : List ℕ) (ps : List (List ℕ)) (t : ℕ) (before : List ℕ)
    → All IsVarint (p ∷ ps)
    → t < 128
    → length (p ∷ ps) < 2 ^ 31
    → skip_varints_backward (concat (map reverse (p ∷ ps)) ++ (t ∷ before)) (length (p ∷ ps))
      ≡ some (t ∷ before)
skip_varints_backward-concat p ps t before v ends h = rw (← length-map-reverse ps) (
    skip-Reversed (reverse p) (map reverse ps) t before ends (All-Reversed (p ∷ ps) v)
      (omega (arith, length-map-reverse ps)))

-- ===== src/TileIndexWalker/Ranges.antt =====
-- The columns and rows that a box spans on a level are those that it meets.
use mathlib.Core.Path.{fun_ext}
use native.Mathlib.Decide.{dec_lt}
use libgeodesk.Common.{
  ℕ, zero, suc, ◌+◌, ◌-◌, ◌^◌, ◌<◌, ◌≤◌, ◌≡◌, refl, sym, ap, ap₂, ◌∙◌, arith, min, max, leb, ltb,
  ◌&&◌, Bool, true, false, Bool-cases, inl, inr, if◌then◌else◌, List, [], ◌∷◌,
}
use libgeodesk.Tile.{column_from_xz, row_from_yz}
use libgeodesk.TileIndex.{Query}
use libgeodesk.TileIndexWalker.Tour.{
  Trace, Stop, Shape, done, ◌▹◌, done-then, each, block_of, child, tour, ranged_tour, meets_column,
  meets_row,
}
use libgeodesk.TileIndexWalker.Cells.{each_cons, each_none}

both : (a s e : ℕ) → (leb a s && ltb s e) ≡ true → (a ≤ s) × (s < e)
both a s e h = ground arith

not_both : (a s e : ℕ) → (leb a s && ltb s e) ≡ false → a ≤ s → e ≤ s
not_both a s e h = ground arith

shift {ℓ} :
    {A : Type ℓ} (f : ℕ → Trace A) (a e s n : ℕ)
    → (a ≤ s → e ≤ s)
    → each f (max (suc s) a) (min (suc s + n) e - max (suc s) a)
      ≡ each f (max s a) (min (s + suc n) e - max s a)
shift f a e s n past = elim (dec_lt s a) [
  | yes h ↦ ap₂ (each f) (omega arith) (omega arith)
  | no h ↦
      let over : e ≤ s = past (omega arith) in
      each_none f (max (suc s) a) (min (suc s + n) e - max (suc s) a) (omega arith)
      ∙ sym (each_none f (max s a) (min (s + suc n) e - max s a) (omega arith))
]

-- The numbers below s + n that lie from a to e.
select {ℓ} :
    {A : Type ℓ} (f : ℕ → Trace A) (p : ℕ → Bool) (a e s n : ℕ)
    → ((c : ℕ) → c < s + n → p c ≡ (leb a c && ltb c e))
    → each (λ c. if p c then f c else done) s n ≡ each f (max s a) (min (s + n) e - max s a)
unfolding each
select f p a e s zero same = sym (each_none f (max s a) (min (s + 0) e - max s a) (omega arith))
select f p a e s (suc n) same =
    let rest = select f p a e (suc s) n (λ c h. same c (omega arith)) in
    let here = same s (omega arith) in
    elim (Bool-cases (leb a s && ltb s e)) [
      | inl h ↦
          let (low, high) = both a s e h in
          rw (here, h)
            (ap (◌▹◌ (f s)) rest
              ∙ ap (λ (b : ℕ). f s ▹ each f b (min (suc s + n) e - b)) (omega arith)
              ∙ sym (
                  each_cons f s (min (s + suc n) e - s) (suc s) (min (suc s + n) e - suc s)
                    (omega arith) refl)
              ∙ ap (λ (b : ℕ). each f b (min (s + suc n) e - b)) (omega arith))
      | inr h ↦
          let past : a ≤ s → e ≤ s = not_both a s e h in
          rw (here, h) (done-then _ ∙ rest ∙ shift f a e s n past)
    ]

select_all {ℓ} :
    {A : Type ℓ} (f : ℕ → Trace A) (p : ℕ → Bool) (a e first n count : ℕ)
    → ((c : ℕ) → p c ≡ (leb a (first + c) && leb (first + c) e))
    → min (e + 1 - first) n - (a - first) ≡ count
    → each (λ c. if p c then f c else done) 0 n ≡ each f (a - first) count
select_all f p a e first n count same span =
    select f p (a - first) (min (e + 1 - first) n) 0 n (λ c h. same c ∙ inside c a e first n h)
    ∙ ap₂ (each f) (omega arith) (omega (arith, span))
  where
    inside :
        (c a e first n : ℕ)
        → c < 0 + n
        → (leb a (first + c) && leb (first + c) e)
          ≡ (leb (a - first) c && ltb c (min (e + 1 - first) n))
    inside c a e first n h = ground arith

-- The tour over the columns and rows that the box spans on a level is the tour over all children that
-- it meets.
pub tour-ranged_tour :
    (q : Query) (ss : List Shape) (t tip : ℕ) → tour q ss t tip ≡ ranged_tour q ss t tip
unfolding tour ranged_tour meets_column meets_row
tour-ranged_tour q [] t tip = refl
tour-ranged_tour q (s ∷ deeper) t tip =
    let below : tour q deeper ≡ ranged_tour q deeper =
      fun_ext λ u. fun_ext λ i. tour-ranged_tour q deeper u i in
    let b = block_of q s t tip in
    let z = s.level_zoom in
    let extent = 2 ^ s.level_step in
    let west = column_from_xz q.box.min_x z in
    let east = column_from_xz q.box.max_x z in
    let cols : (r : ℕ)
        → each (λ c. if meets_column q b c then child q (ranged_tour q deeper) b c r else done) 0
            extent
          ≡ each (λ c. child q (ranged_tour q deeper) b c r) (west - b.left)
              (min (east + 1 - b.left) extent - (west - b.left)) =
      λ r.
        select_all (λ c. child q (ranged_tour q deeper) b c r) (meets_column q b) west east b.left
          extent (min (east + 1 - b.left) extent - (west - b.left)) (λ c. refl) refl in
    let north = row_from_yz q.box.max_y z in
    let south = row_from_yz q.box.min_y z in
    let span = min (east + 1 - b.left) extent - (west - b.left) in
    rw below (
      ap (λ (g : ℕ → Trace Stop). each (λ r. if meets_row q b r then g r else done) 0 extent)
        (fun_ext cols)
      ∙ select_all (λ r. each (λ c. child q (ranged_tour q deeper) b c r) (west - b.left) span)
          (meets_row q b) north south b.top extent
          (min (south + 1 - b.top) extent - (north - b.top)) (λ r. refl) refl)

-- ===== src/Box/Buffer.antt =====
-- The points around a box, and those deep inside it.
use libgeodesk.Common.{
  ℕ, ◌+◌, ◌-◌, ◌%◌, ◌^◌, ◌≤◌, ◌<◌, ◌≡◌, ◌↔◌, arith, true, false, Bool-cases, inl, inr,
}
use libgeodesk.Box.{
  Box, flip, lt, empty_box, is_empty, contains_simple, trimmed_add, trimmed_subtract, buffer,
}
use libgeodesk.Box.Order.{lt_iff}
use libgeodesk.Box.Contains.{IsInside, contains_simple_iff}
use libgeodesk.Box.Combine.{IsInside-empty_box, flip-lt}
use libgeodesk.Box.Trimmed.{flip-trimmed_add, flip-trimmed_subtract}

-- The numbers of a box are 32-bit patterns.
pub record IsWord (b : Box) : Type 0 where
  pub min_x : b.min_x < 2 ^ 32
  pub min_y : b.min_y < 2 ^ 32
  pub max_x : b.max_x < 2 ^ 32
  pub max_y : b.max_y < 2 ^ 32

flip-sum : (x d : ℕ) → x < 2 ^ 32 → flip x + d < 2 ^ 32 → flip ((x + d) % 2 ^ 32) ≡ flip x + d
unfolding flip
flip-sum x d h k = omega arith

flip-difference :
    (x d : ℕ) → x < 2 ^ 32 → d ≤ flip x → flip ((x + 2 ^ 32 - d) % 2 ^ 32) ≡ flip x - d
unfolding flip
flip-difference x d h k = omega arith

small-lt : (d : ℕ) → d < 2 ^ 31 → lt d 0 ≡ false
unfolding lt flip
small-lt d h = ground arith

negative-lt : (k : ℕ) → 0 < k → k < 2 ^ 31 → lt (2 ^ 32 - k) 0 ≡ true
unfolding lt flip
negative-lt k h l = ground arith

-- For a box that is not empty and a distance `d` that is not negative and does not take the left and
-- the right edge over the antimeridian, `buffer` gives the box of the points that are at most `d` away
-- from the box, in x and in y; the lowest and the highest y stop it.
pub contains_simple-buffer :
    (b : Box) (d x y : ℕ)
    → IsWord b
    → is_empty b ≡ false
    → d < 2 ^ 31
    → d ≤ flip b.min_x
    → flip b.max_x + d < 2 ^ 32
    → (contains_simple (buffer b d) x y ≡ true) ↔ (
        (flip b.min_x ≤ flip x + d)
        × (flip x ≤ flip b.max_x + d)
        × (flip b.min_y ≤ flip y + d)
        × (flip y ≤ flip b.max_y + d))
unfolding buffer
contains_simple-buffer b d x y w some_y small left right =
    let x₁ = flip-difference b.min_x d w.min_x left in
    let x₂ = flip-sum b.max_x d w.max_x right in
    let y₁ = flip-trimmed_subtract b.min_y d w.min_y small in
    let y₂ = flip-trimmed_add b.max_y d w.max_y small in
    let high = flip-lt y in
    rw (some_y, small-lt d small)
      (let (to, from) = contains_simple_iff _ x y in
        (
          λ h. let (p, q, r, s) = to h in (omega arith, omega arith, omega arith, omega arith),
          λ (p, q, r, s). from (omega arith, omega arith, omega arith, omega arith),
        ))

module _ (b : Box) (k : ℕ) (w : IsWord b) (pos : 0 < k) (small : k < 2 ^ 31)
    (left : flip b.min_x + k < 2 ^ 32) (right : k ≤ flip b.max_x) where
  abbrev shrunk : Box
  shrunk = record {
    min_x = (b.min_x + 2 ^ 32 - (2 ^ 32 - k)) % 2 ^ 32;
    min_y = trimmed_add b.min_y k;
    max_x = (b.max_x + (2 ^ 32 - k)) % 2 ^ 32;
    max_y = trimmed_subtract b.max_y k;
  }

  shrunk_left : flip shrunk.min_x ≡ flip b.min_x + k
  unfolding flip
  shrunk_left = omega (arith, w.min_x)

  shrunk_right : flip shrunk.max_x ≡ flip b.max_x - k
  unfolding flip
  shrunk_right = omega (arith, w.max_x)

  abbrev IsDeep : ℕ → ℕ → Type 0
  IsDeep x y =
      (flip b.min_x + k ≤ flip x)
      × (flip x + k ≤ flip b.max_x)
      × (flip b.min_y + k ≤ flip y)
      × (flip y + k ≤ flip b.max_y)

  IsInside-shrunk : (x y : ℕ) → IsInside shrunk x y ↔ IsDeep x y
  IsInside-shrunk x y =
      let y₁ = flip-trimmed_add b.min_y k w.min_y small in
      let y₂ = flip-trimmed_subtract b.max_y k w.max_y small in
      let high = flip-lt y in
      let top = flip-lt b.max_y in
      let x₁ = shrunk_left in
      let x₂ = shrunk_right in
      (
        λ (p, q, r, s). (omega arith, omega arith, omega arith, omega arith),
        λ (p, q, r, s). (omega arith, omega arith, omega arith, omega arith),
      )

-- For a box that is not empty and a distance `k` that is positive and does not take the left and the
-- right edge over the antimeridian, `buffer` by minus `k` gives the box of the points that are at least
-- `k` away from the four edges, inside.
pub contains_simple-buffer_negative :
    (b : Box) (k x y : ℕ)
    → IsWord b
    → is_empty b ≡ false
    → 0 < k
    → k < 2 ^ 31
    → flip b.min_x + k < 2 ^ 32
    → k ≤ flip b.max_x
    → (contains_simple (buffer b (2 ^ 32 - k)) x y ≡ true) ↔ (
        (flip b.min_x + k ≤ flip x)
        × (flip x + k ≤ flip b.max_x)
        × (flip b.min_y + k ≤ flip y)
        × (flip y + k ≤ flip b.max_y))
unfolding buffer
contains_simple-buffer_negative b k x y w some_y pos small left right =
    let minus : (2 ^ 32 - (2 ^ 32 - k)) % 2 ^ 32 ≡ k = omega arith in
    let s = shrunk b k w pos small left right in
    let (to, from) = IsInside-shrunk b k w pos small left right x y in
    rw (some_y, negative-lt k pos small, minus)
      (elim (Bool-cases (lt s.max_y s.min_y)) [
        | inl none_left ↦ rw none_left (
          λ h. absurd (IsInside-empty_box x y ((contains_simple_iff empty_box x y).0 h)),
          λ deep.
              let (_, _, r, t) = from deep in
              absurd (omega (arith, (lt_iff s.max_y s.min_y).0 none_left)),
        )
        | inr left_over ↦
            let (inside, back) = contains_simple_iff s x y in
            rw left_over (λ h. to (inside h), λ deep. back (from deep))
      ])

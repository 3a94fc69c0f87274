-- ===== src/Box/Order.antt =====
-- The order of signed numbers as an order of the flipped ones.
use libgeodesk.Common.{ℕ, ◌≤◌, ◌<◌, ◌≡◌, ◌↔◌, arith, true, false, min, max}
use libgeodesk.Box.{flip, lt, lower, higher}

pub lt_iff : (a b : ℕ) → (lt a b ≡ true) ↔ (flip a < flip b)
unfolding lt
lt_iff a b = ground arith

pub lt-false : (a b : ℕ) → (lt a b ≡ false) ↔ (flip b ≤ flip a)
unfolding lt
lt-false a b = ground arith

pub flip-lower : (a b : ℕ) → flip (lower a b) ≡ min (flip a) (flip b)
unfolding lower lt
flip-lower a b = ground arith

pub flip-higher : (a b : ℕ) → flip (higher a b) ≡ max (flip a) (flip b)
unfolding higher lt
flip-higher a b = ground arith

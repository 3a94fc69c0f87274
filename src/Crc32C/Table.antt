-- ===== src/Crc32C/Table.antt =====
-- The table-driven checksum against the division of polynomials, bit by bit.
use libgeodesk.Common.{
  ℕ, zero, suc, ◌*◌, ◌/◌, ◌%◌, ◌^◌, ◌<◌, ◌≡◌, refl, ap, sym, ◌∙◌, arith, List, [], ◌∷◌, All, Bool,
  true, ◌==◌, ◌&&◌, bit_and, bit_xor,
}
use libgeodesk.Common.Bits.{and_ones, xor-half, xor-shr, xor-zero}
use libgeodesk.Common.Xor.{xor_comm, xor_assoc, xor_fields, xor_parity}
use Prim.Native.Nat.{differ}
use native.Mathlib.Nat.{pow-succ'}
use libgeodesk.Crc32C.{crc32c_table, entry, soft_raw}

-- The reflected polynomial of the source's comment.
abbrev polynomial : ℕ
polynomial = 0x82f6_3b78

abbrev carry : ℕ → ℕ
carry zero = 0
carry (suc b) = polynomial

-- One bit, and `k` bits, of the division.
pub bit_step : ℕ → ℕ
bit_step x = bit_xor (x / 2) (carry (x % 2))

pub bit_steps : ℕ → ℕ → ℕ
bit_steps zero x = x
bit_steps (suc k) x = bit_steps k (bit_step x)

pub crc_bits : List ℕ → ℕ → ℕ
unfolding bit_steps
crc_bits [] crc = crc
crc_bits (b ∷ p) crc = crc_bits p (bit_steps 8 (bit_xor crc b))

xor-swap : (a b c d : ℕ) → bit_xor (bit_xor a b) (bit_xor c d) ≡ bit_xor (bit_xor a c) (bit_xor b d)
xor-swap a b c d =
    xor_assoc a b (bit_xor c d)
    ∙ ap (λ (x : ℕ). bit_xor a x)
        (sym (xor_assoc b c d) ∙ ap (λ (x : ℕ). bit_xor x d) (xor_comm b c) ∙ xor_assoc c b d)
    ∙ sym (xor_assoc a c (bit_xor b d))

carry-differ : (a b : ℕ) → a < 2 → b < 2 → carry (differ a b) ≡ bit_xor (carry a) (carry b)
carry-differ zero zero p q = refl
carry-differ zero (suc zero) p q = refl
carry-differ (suc zero) zero p q = refl
carry-differ (suc zero) (suc zero) p q = refl
carry-differ (suc (suc a)) b p q = absurd (omega arith)
carry-differ a (suc (suc b)) p q = absurd (omega arith)

bit_step-xor : (a b : ℕ) → bit_step (bit_xor a b) ≡ bit_xor (bit_step a) (bit_step b)
unfolding bit_step
bit_step-xor a b =
    rw (xor-half a b, xor_parity a b, carry-differ (a % 2) (b % 2) (omega arith) (omega arith))
      (xor-swap (a / 2) (b / 2) (carry (a % 2)) (carry (b % 2)))

bit_steps-xor : (k a b : ℕ) → bit_steps k (bit_xor a b) ≡ bit_xor (bit_steps k a) (bit_steps k b)
unfolding bit_steps
bit_steps-xor zero a b = refl
bit_steps-xor (suc k) a b = rw (bit_step-xor a b) (bit_steps-xor k (bit_step a) (bit_step b))

bit_steps-shl : (k h : ℕ) → bit_steps k (h * 2 ^ k) ≡ h
unfolding bit_steps bit_step
bit_steps-shl zero h = omega arith
bit_steps-shl (suc k) h =
    let even : h * 2 ^ suc k ≡ 2 * (h * 2 ^ k) =
      omega (arith, ap (λ (t : ℕ). h * t) (pow-succ' 2 k)) in
    let half : 2 * (h * 2 ^ k) / 2 ≡ h * 2 ^ k = omega arith in
    let low : 2 * (h * 2 ^ k) % 2 ≡ 0 = omega arith in
    rw (even, half, low, xor-zero (h * 2 ^ k)) (bit_steps-shl k h)

-- The first `n` entries of the table.
entries_agree : ℕ → Bool
entries_agree zero = true
entries_agree (suc n) = entry crc32c_table n == bit_steps 8 n && entries_agree n

whole_table : entries_agree 256 ≡ true
unfolding entries_agree entry crc32c_table bit_steps bit_step
whole_table = refl

entry-eq : (n i : ℕ) → entries_agree n ≡ true → i < n → entry crc32c_table i ≡ bit_steps 8 i
unfolding entries_agree
entry-eq zero i h lt = absurd (omega arith)
entry-eq (suc n) i h lt = ground (arith, entry-eq n i)

byte_step : (x : ℕ) → bit_steps 8 x ≡ bit_xor (entry crc32c_table (x % 2 ^ 8)) (x / 2 ^ 8)
byte_step x =
    let parts : x ≡ bit_xor (x / 2 ^ 8 * 2 ^ 8) (x % 2 ^ 8) =
      omega (arith, xor_fields 8 (x / 2 ^ 8) (x % 2 ^ 8) (omega arith)) in
    ap (bit_steps 8) parts
    ∙ bit_steps-xor 8 (x / 2 ^ 8 * 2 ^ 8) (x % 2 ^ 8)
    ∙ rw (bit_steps-shl 8 (x / 2 ^ 8), ← entry-eq 256 (x % 2 ^ 8) whole_table (omega arith))
        (xor_comm (x / 2 ^ 8) (entry crc32c_table (x % 2 ^ 8)))

-- The table-driven loop is the division by the reflected polynomial 0x82F63B78, on every sequence of
-- bytes and from every start value.
pub soft_raw-eq-crc_bits :
    (p : List ℕ) (crc : ℕ) → All (λ b. b < 256) p → soft_raw p crc ≡ crc_bits p crc
unfolding soft_raw crc_bits
soft_raw-eq-crc_bits [] crc h = refl
soft_raw-eq-crc_bits (b ∷ p) crc (small, h) =
    let low : bit_and (bit_xor crc b) 0xff ≡ bit_xor crc b % 2 ^ 8 = and_ones 8 (bit_xor crc b) in
    let zero_b : b / 2 ^ 8 ≡ 0 = omega arith in
    let high : bit_xor crc b / 2 ^ 8 ≡ crc / 2 ^ 8 =
      xor-shr 8 crc b ∙ rw (zero_b, xor-zero (crc / 2 ^ 8)) refl in
    rw (low, byte_step (bit_xor crc b), high) (soft_raw-eq-crc_bits p _ h)

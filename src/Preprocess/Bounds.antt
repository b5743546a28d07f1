-- ===== src/Preprocess/Bounds.antt =====
-- Powers of two and 64-bit arithmetic, for the tables of pairing/src/lib.rs.
use native.Mathlib.Nat.{pow-le-pow_right, two-pow-succ, mul-add}
use native.Mathlib.Decide.{dec_lt}
use aws_dpid.Prelude.{ℕ, zero, suc, ◌+◌, ◌*◌, ◌^◌, ◌<◌, ◌≤◌, ◌≡◌, sym, ap, ap₂, ◌∙◌, some, arith}
use aws_dpid.Preprocess.{checked}

pub checked-some : (n : ℕ) → n < 18446744073709551616 → checked n ≡ some n
unfolding checked
checked-some n h = ground arith

pub pow-add : (m n : ℕ) → 2 ^ (m + n) ≡ 2 ^ m * 2 ^ n
pow-add m zero = omega (arith, ap (λ k. 2 ^ k) {x = m + 0} {y = m} (omega arith))
pow-add m (suc n) =
    ap (λ k. 2 ^ k) {x = m + suc n} {y = suc (m + n)} (omega arith)
    ∙ two-pow-succ (m + n)
    ∙ ap₂ (λ a b. a + b) (pow-add m n) (pow-add m n)
    ∙ sym (mul-add (2 ^ m) (2 ^ n) (2 ^ n))
    ∙ ap (λ a. 2 ^ m * a) (sym (two-pow-succ n))

pub pow_pos : (n : ℕ) → 0 < 2 ^ n
pow_pos zero = omega arith
pow_pos (suc n) = omega (arith, two-pow-succ n, pow_pos n)

pub pow-le : (m n : ℕ) → m ≤ n → 2 ^ m ≤ 2 ^ n
pow-le m n h = pow-le-pow_right (pow_pos 1) {i = m} {j = n} h

-- The exponents of powers are in the order of the powers.
pub lt_of_pow-lt : (m n : ℕ) → 2 ^ m < 2 ^ n → m < n
lt_of_pow-lt m n h = elim (dec_lt m n) [
  | yes lt ↦ lt
  | no ge ↦ absurd (omega (arith, pow-le n m (omega arith)))
]

-- ===== src/Radix/Recenter.antt =====
-- One digit of `to_radix_2w` (pairing/src/lib.rs): the coefficient is moved between -2^w/2 and 2^w/2,
-- and the conversion to `i8` keeps it.
use aws_dpid.Prelude.{ℕ, zero, suc, ◌+◌, ◌*◌, ◌/◌, ◌^◌, ◌<◌, ◌≤◌, ◌≡◌, arith}
use aws_dpid.Wnaf.{ℤ, pos, negsuc}
use aws_dpid.Wnaf.Digits.{pos_part, neg_part}
use aws_dpid.Radix.{as_i8, sub_ℕ, new_carry}

-- The widths that the code takes.
pub width-cases {ℓ} : (P : ℕ → Type ℓ) → P 6 → P 7 → P 8 → (w : ℕ) → 6 ≤ w → w ≤ 8 → P w
width-cases P a b c (suc (suc (suc (suc (suc (suc zero)))))) h k = a
width-cases P a b c (suc (suc (suc (suc (suc (suc (suc zero))))))) h k = b
width-cases P a b c (suc (suc (suc (suc (suc (suc (suc (suc zero)))))))) h k = c
width-cases P a b c (suc (suc (suc (suc (suc (suc (suc (suc (suc w))))))))) h k =
    absurd (omega arith)
width-cases P a b c zero h k = absurd (omega arith)
width-cases P a b c (suc zero) h k = absurd (omega arith)
width-cases P a b c (suc (suc zero)) h k = absurd (omega arith)
width-cases P a b c (suc (suc (suc zero))) h k = absurd (omega arith)
width-cases P a b c (suc (suc (suc (suc zero)))) h k = absurd (omega arith)
width-cases P a b c (suc (suc (suc (suc (suc zero))))) h k = absurd (omega arith)

abbrev pub recentered : ℕ → ℕ → ℤ
recentered w coef = as_i8 (sub_ℕ coef (new_carry w coef * 2 ^ w))

-- What a digit and its carry are worth, and how large they are.
pub record IsRecentered (w coef : ℕ) : Type 0 where
  pub carry-le : new_carry w coef ≤ 1
  pub worth :
      pos_part (recentered w coef) + new_carry w coef * 2 ^ w ≡ coef + neg_part (recentered w coef)
  pub pos-lt : pos_part (recentered w coef) < 2 ^ w / 2
  pub size-le : pos_part (recentered w coef) + neg_part (recentered w coef) ≤ 2 ^ w / 2

at_6 : (coef : ℕ) → coef ≤ 2 ^ 6 → IsRecentered 6 coef
unfolding as_i8 sub_ℕ new_carry
at_6 coef h = record {
  carry-le = omega arith;
  worth = ground arith;
  pos-lt = ground arith;
  size-le = ground arith;
}

at_7 : (coef : ℕ) → coef ≤ 2 ^ 7 → IsRecentered 7 coef
unfolding as_i8 sub_ℕ new_carry
at_7 coef h = record {
  carry-le = omega arith;
  worth = ground arith;
  pos-lt = ground arith;
  size-le = ground arith;
}

at_8 : (coef : ℕ) → coef ≤ 2 ^ 8 → IsRecentered 8 coef
unfolding as_i8 sub_ℕ new_carry
at_8 coef h = record {
  carry-le = omega arith;
  worth = ground arith;
  pos-lt = ground arith;
  size-le = ground arith;
}

pub recenter_lem : (w : ℕ) → 6 ≤ w → w ≤ 8 → (coef : ℕ) → coef ≤ 2 ^ w → IsRecentered w coef
recenter_lem w h k =
    width-cases (λ v. (coef : ℕ) → coef ≤ 2 ^ v → IsRecentered v coef) at_6 at_7 at_8 w h k

-- A digit in the range of `i8` stays as it is when nothing is added.
pub add_nothing :
    (d : ℤ)
    → pos_part d ≤ 127
    → neg_part d ≤ 128
    → as_i8 (sub_ℕ (pos_part d + 0) (neg_part d + 0)) ≡ d
unfolding as_i8 sub_ℕ
add_nothing (pos n) h k = ground arith
add_nothing (negsuc n) h k = ground arith

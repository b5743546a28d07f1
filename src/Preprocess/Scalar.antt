-- ===== src/Preprocess/Scalar.antt =====
-- The scalars of `PyFr` (pairing/src/lib.rs): what the code relies on of the crate `ff`, and the
-- conversion of a Python integer.
use mathlib.Core.Path.{subst}
use native.Mathlib.Nat.{mod-lt, div-add-mod, mul-suc}
use aws_dpid.Prelude.{
  ℕ, zero, suc, ◌+◌, ◌-◌, ◌*◌, ◌/◌, ◌%◌, ◌^◌, ◌<◌, ◌≡◌, ap, sym, refl, ◌∙◌, Option, some, ◌>>=◌,
  List, [], ◌∷◌, arith,
}
use aws_dpid.Wnaf.{ℤ, pos, negsuc}
use aws_dpid.Hex.Text.{fr_text}
use aws_dpid.Preprocess.{ScalarOps, checked}
use aws_dpid.Preprocess.Bounds.{checked-some}

-- The modulus of `Fr`.
abbrev pub fr_modulus : ℕ
fr_modulus = 0x73eda753299d7d483339d80809a1d80553bda402fffe5bfeffffffff00000001

-- The number in limbs of 64 bits, the lowest first.
unfoldable pub limbs_value : List ℕ → ℕ
limbs_value [] = 0
limbs_value (l ∷ ls) = l + 18446744073709551616 * limbs_value ls

pub record IsFr {S : Type 0} (F : ScalarOps S) (number : S → ℕ) : Type 0 where
  pub from_repr_lem :
      (l : List ℕ)
      → limbs_value l < fr_modulus
      → (s : S) × (F.from_repr l ≡ some s) × (number s ≡ limbs_value l)
  pub print_lem : (s : S) → F.print s ≡ fr_text (number s)
  pub number-lt : (s : S) → number s < fr_modulus

unfoldable pub negated : ℕ → ℤ
negated zero = pos 0
negated (suc k) = negsuc k

-- `BigInt`'s `%` keeps the sign of its left side.
unfoldable pub remainder : ℤ → ℕ → ℤ
unfolding negated
remainder (pos n) m = pos (n % m)
remainder (negsuc n) m = negated (suc n % m)

-- `if uint < 0 { uint += r }`.
unfoldable pub wrapped : ℤ → ℕ → ℕ
wrapped (pos u) m = u
wrapped (negsuc k) m = m - suc k

-- The four limbs of 64 bits.
unfoldable pub to_limbs : ℕ → Option (List ℕ)
unfolding checked
to_limbs uint = do
  s1 ← checked (uint % 2 ^ 64)
  s2 ← checked (uint / 2 ^ 64 % 2 ^ 64)
  s3 ← checked (uint / 2 ^ 128 % 2 ^ 64)
  s4 ← checked (uint / 2 ^ 192)
  some (s1 ∷ s2 ∷ s3 ∷ s4 ∷ [])

unfoldable pub bigint_to_pyfr : {S : Type 0} → ScalarOps S → ℤ → Option S
unfolding remainder wrapped to_limbs
bigint_to_pyfr F bint =
    to_limbs (wrapped (remainder bint fr_modulus) fr_modulus) >>= λ limbs. F.from_repr limbs

-- The number is the integer up to a multiple of the modulus.
pub data IsResidue (m : ℕ) (n : ℕ) : ℤ → Type 0 where
  above : (k q : ℕ) → k ≡ n + m * q → IsResidue m n (pos k)
  below : (k q : ℕ) → n + suc k ≡ m * q → IsResidue m n (negsuc k)

wrapped-negated :
    (m n q x : ℕ)
    → x < m
    → suc n ≡ x + m * q
    → IsResidue m (wrapped (negated x) m) (negsuc n) × (wrapped (negated x) m < m)
unfolding wrapped negated
wrapped-negated m n q zero lt e = (below n q (omega arith), lt)
wrapped-negated m n q (suc k) lt e = (below n (suc q) (omega (arith, mul-suc m q)), omega arith)

wrapped-IsResidue :
    (z : ℤ) (m : ℕ)
    → 0 < m
    → IsResidue m (wrapped (remainder z m) m) z × (wrapped (remainder z m) m < m)
unfolding wrapped remainder
wrapped-IsResidue (pos n) m h = (above n (n / m) (omega (arith, div-add-mod n m)), mod-lt n h)
wrapped-IsResidue (negsuc n) m h =
    wrapped-negated m n (suc n / m) (suc n % m) (mod-lt (suc n) h)
      (omega (arith, div-add-mod (suc n) m))

to_limbs_lem : (u : ℕ) → u < fr_modulus → (l : List ℕ) × (to_limbs u ≡ some l) × (limbs_value l ≡ u)
unfolding to_limbs limbs_value
to_limbs_lem u h = (
  u % 2 ^ 64 ∷ u / 2 ^ 64 % 2 ^ 64 ∷ u / 2 ^ 128 % 2 ^ 64 ∷ u / 2 ^ 192 ∷ [],
  rw
      (
        checked-some (u % 2 ^ 64) (omega arith),
        checked-some (u / 2 ^ 64 % 2 ^ 64) (omega arith),
        checked-some (u / 2 ^ 128 % 2 ^ 64) (omega arith),
        checked-some (u / 2 ^ 192) (omega arith),
      )
      refl,
  omega arith,
)

-- Every integer is a scalar: the one that it is congruent to.
pub bigint_to_pyfr_lem :
    {S : Type 0} (F : ScalarOps S) {number : S → ℕ}
    → IsFr F number
    → (z : ℤ) → (s : S) × (bigint_to_pyfr F z ≡ some s) × IsResidue fr_modulus (number s) z
unfolding bigint_to_pyfr
bigint_to_pyfr_lem F R z =
    let u = wrapped (remainder z fr_modulus) fr_modulus in
    let (r, lt) = wrapped-IsResidue z fr_modulus (omega arith) in
    let (l, split, v) = to_limbs_lem u lt in
    let (s, made, n) = R.from_repr_lem l (omega arith) in
    (
      s,
      ap (λ o. o >>= λ limbs. F.from_repr limbs) split ∙ made,
      subst (λ m. IsResidue fr_modulus m z) (sym (n ∙ v)) r,
    )

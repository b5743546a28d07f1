-- ===== src/Tower/Fq2/Sqrt.antt =====
-- The order, the Legendre symbol and the square root of `Fq2`, pairing/src/bls12_381/fq2.rs. `pow`
-- is `ff::Field::pow`; the two exponents, the coefficient of Frobenius and NEGATIVE_ONE are the
-- constants of the code, as arguments.
pub mod Powers
pub mod Correct
use Prim.Native.Nat.{Ordering}
use aws_dpid.Prelude.{
  ℕ, ◌+◌, ◌≡◌, ◌≢◌, ◌⊎◌, inl, inr, refl, sym, ap, ap₂, ◌∙◌, Bool, true, false, Bool-cases, if-elim,
  if◌then◌else◌, Option, none, some, List, [], ◌∷◌, get_or,
}
use mathlib.Core.Option.{some-injective, none-ne-some}
use aws_dpid.Ring.{
  RingOps, FieldOps, IsField, IsCommRing, 𝟘, 𝟙, ◌⊕◌, ◌⊗◌, ◌⊖◌, ◌=?◌, negate as neg, square as sqr,
}
use aws_dpid.Ring.Laws.{eq_of_add-negate, sub-zero→eq, eq-negate}
use aws_dpid.Ring.Field.{eq-zero_of_mul, mul-eq-zero}
use aws_dpid.Ring.Poly.{is_nil}
use aws_dpid.Ring.Solver.{Expr, expr_ops, norm as normal, env, solve}
use aws_dpid.Tower.Fq2.{
  Fq2, zero, one, square, double, negate, add_assign, sub_assign, mul_assign, norm, fq2_ops,
  fq2_field, is_zero, eq, frobenius_map,
}

-- `Ord::cmp`: by the second coordinate, then by the first; `compare` is the order of `Fq`.
unfoldable pub cmp : {A : Type 0} → (A → A → Ordering) → Fq2 A → Fq2 A → Ordering
cmp compare self other = elim (compare self.c1 other.c1) [
  | Ordering.gt ↦ Ordering.gt
  | Ordering.lt ↦ Ordering.lt
  | Ordering.eq ↦ compare self.c0 other.c0
]

-- The Legendre symbol of the norm, by that of `Fq`.
unfoldable pub legendre : {A L : Type 0} ⦃F : RingOps A⦄ → (A → L) → Fq2 A → L
unfolding norm
legendre fq_legendre self = fq_legendre (norm self)

-- The last step: the root, from `a1 = self^((q - 3) / 4)` and `alpha`.
unfoldable pub root_of :
    {A : Type 0} ⦃F : RingOps A⦄ ⦃K : FieldOps A⦄
    → (Fq2 A → ℕ → Fq2 A)
    → ℕ
    → A
    → Fq2 A
    → Fq2 A
    → Fq2 A
    → Fq2 A
root_of {A} pow half negative_one self a1 alpha =
    let neg1 : Fq2 A = record { c0 = negative_one; c1 = 𝟘 } in
    let a1 = a1 ⊗ self in
    if alpha =? neg1 then a1 ⊗ record { c0 = 𝟘; c1 = 𝟙 } else a1 ⊗ pow (alpha ⊕ 𝟙) half

module _ {A : Type 0} ⦃F : RingOps A⦄ ⦃K : FieldOps A⦄ (pow : Fq2 A → ℕ → Fq2 A) (quarter half : ℕ)
    (coeffs : List A) (negative_one : A) where
  unfoldable pub sqrt : Fq2 A → Option (Fq2 A)
  unfolding root_of is_zero zero frobenius_map
  sqrt self =
      let neg1 : Fq2 A = record { c0 = negative_one; c1 = 𝟘 } in
      let a1 = pow self quarter in
      let alpha = sqr a1 ⊗ self in
      let a0 = frobenius_map coeffs 1 alpha ⊗ alpha in
      if is_zero self
      then some zero
      else if a0 =? neg1
      then none
      else some (root_of pow half negative_one self a1 alpha)

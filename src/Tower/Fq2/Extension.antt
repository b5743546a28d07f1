-- ===== src/Tower/Fq2/Extension.antt =====
-- `Fq2` is the extension of `Fq` by a root `u` of -1: products, norm, nonresidue and inverse.
use aws_dpid.Prelude.{◌≡◌, refl, [], ◌∷◌}
use aws_dpid.Ring.{RingOps, IsCommRing, 𝟘, 𝟙, ◌⊕◌, ◌⊖◌, ◌⊗◌}
use aws_dpid.Ring.{negate as neg, square as sqr}
use aws_dpid.Ring.Solver.{Expr, expr_ops, solve}
use aws_dpid.Tower.Fq2.{
  Fq2, zero, one, square, negate, mul_assign, mul_by_nonresidue, norm, fq2_ops, fq2_field,
}
use aws_dpid.Tower.Fq2.Ring.{same, symbol, values, solve_fq2}

module _ {A : Type 0} ⦃F : RingOps A⦄ where
  unfoldable pub u : Fq2 A
  u = record { c0 = 𝟘; c1 = 𝟙 }

  -- `1 + u`.
  unfoldable pub nonresidue : Fq2 A
  nonresidue = record { c0 = 𝟙; c1 = 𝟙 }

  unfoldable pub embed : A → Fq2 A
  embed a = record { c0 = a; c1 = 𝟘 }

  unfoldable pub conjugate : Fq2 A → Fq2 A
  conjugate a = record { c0 = a.c0; c1 = neg a.c1 }

module _ {A : Type 0} ⦃F : RingOps A⦄ (R : IsCommRing F) where
  -- The three multiplications of the code give the schoolbook product with `u^2 = -1`.
  pub mul_assign-complex :
      (a b : Fq2 A)
      → ((a ⊗ b).c0 ≡ a.c0 ⊗ b.c0 ⊖ a.c1 ⊗ b.c1) × ((a ⊗ b).c1 ≡ a.c0 ⊗ b.c1 ⊕ a.c1 ⊗ b.c0)
  unfolding same mul_assign
  mul_assign-complex a b =
      let s : ◌≡◌ {A = Fq2 A} (a ⊗ b)
          (record { c0 = a.c0 ⊗ b.c0 ⊖ a.c1 ⊗ b.c1; c1 = a.c0 ⊗ b.c1 ⊕ a.c1 ⊗ b.c0 }) =
        solve_fq2 R (values (a ∷ b ∷ [])) (symbol 0 ⊗ symbol 1)
          (record {
            c0 = Expr.var 0 ⊗ Expr.var 2 ⊖ Expr.var 1 ⊗ Expr.var 3;
            c1 = Expr.var 0 ⊗ Expr.var 3 ⊕ Expr.var 1 ⊗ Expr.var 2;
          })
          refl in
      (λ i. (s i).c0, λ i. (s i).c1)

  pub square-u : sqr (u {A = A}) ≡ neg 𝟙
  unfolding same square negate one u zero
  square-u = solve_fq2 R (values []) (sqr u) (neg 𝟙) refl

  -- `mul_by_nonresidue` multiplies by `1 + u`.
  pub mul_by_nonresidue_lem : (a : Fq2 A) → mul_by_nonresidue a ≡ nonresidue ⊗ a
  unfolding same mul_assign mul_by_nonresidue nonresidue
  mul_by_nonresidue_lem a =
      solve_fq2 R (values (a ∷ [])) (mul_by_nonresidue (symbol 0)) (nonresidue ⊗ symbol 0) refl

  -- The norm is the product with the conjugate, and it is multiplicative.
  pub embed-norm : (a : Fq2 A) → embed (norm a) ≡ a ⊗ conjugate a
  unfolding same mul_assign norm embed conjugate
  embed-norm a =
      solve_fq2 R (values (a ∷ [])) (embed (norm (symbol 0))) (symbol 0 ⊗ conjugate (symbol 0)) refl

  pub norm-mul : (a b : Fq2 A) → norm (a ⊗ b) ≡ norm a ⊗ norm b
  unfolding same mul_assign norm
  norm-mul a b =
      solve R (values (a ∷ b ∷ [])) (norm (symbol 0 ⊗ symbol 1)) (norm (symbol 0) ⊗ norm (symbol 1))
        refl

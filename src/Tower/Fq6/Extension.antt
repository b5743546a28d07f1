-- ===== src/Tower/Fq6/Extension.antt =====
-- `Fq6` is the extension of `Fq2` by a cube root `v` of the nonresidue; the sparse products.
use aws_dpid.Prelude.{◌≡◌, refl, ◌∙◌, [], ◌∷◌}
use aws_dpid.Ring.{RingOps, NonresidueOps, IsCommRing, 𝟘, 𝟙, ◌⊕◌, ◌⊗◌, twist}
use aws_dpid.Ring.Laws.{mul-one}
use aws_dpid.Ring.Poly.{is_nil}
use aws_dpid.Ring.Solver.{Expr, expr_ops, expr_nonresidue, norm, env, solve_twisted}
use aws_dpid.Tower.Fq6.{
  Fq6, mul_assign, mul_by_nonresidue, mul_by_1, mul_by_01, adjoint, denominator, fq6_ops,
}
use aws_dpid.Tower.Fq6.Ring.{same, symbol, values, solve_fq6}

module _ {B : Type 0} ⦃F : RingOps B⦄ where
  unfoldable pub v : Fq6 B
  v = record { c0 = 𝟘; c1 = 𝟙; c2 = 𝟘 }

  unfoldable pub embed : B → Fq6 B
  embed b = record { c0 = b; c1 = 𝟘; c2 = 𝟘 }

module _ {B : Type 0} ⦃F : RingOps B⦄ ⦃N : NonresidueOps B⦄ (R : IsCommRing F) (ξ : B)
    (twists : (b : B) → N.mul_by_nonresidue b ≡ ξ ⊗ b) where
  -- Where `mul_by_nonresidue` multiplies by some `ξ`, the six multiplications of the code give the
  -- schoolbook product with `v^3 = ξ`.
  pub mul_assign-cubic :
      (a b : Fq6 B)
      → a ⊗ b ≡ record {
        c0 = a.c0 ⊗ b.c0 ⊕ twist (a.c1 ⊗ b.c2 ⊕ a.c2 ⊗ b.c1);
        c1 = a.c0 ⊗ b.c1 ⊕ a.c1 ⊗ b.c0 ⊕ twist (a.c2 ⊗ b.c2);
        c2 = a.c0 ⊗ b.c2 ⊕ a.c1 ⊗ b.c1 ⊕ a.c2 ⊗ b.c0;
      }
  unfolding same mul_assign
  mul_assign-cubic a b =
      solve_fq6 R ξ twists (values (a ∷ b ∷ [])) (symbol 0 ⊗ symbol 1)
        (record {
          c0 = Expr.var 0 ⊗ Expr.var 3 ⊕ twist (Expr.var 1 ⊗ Expr.var 5 ⊕ Expr.var 2 ⊗ Expr.var 4);
          c1 = Expr.var 0 ⊗ Expr.var 4 ⊕ Expr.var 1 ⊗ Expr.var 3 ⊕ twist (Expr.var 2 ⊗ Expr.var 5);
          c2 = Expr.var 0 ⊗ Expr.var 5 ⊕ Expr.var 1 ⊗ Expr.var 4 ⊕ Expr.var 2 ⊗ Expr.var 3;
        })
        refl

  -- `mul_by_nonresidue` multiplies by `v`.
  pub mul_by_nonresidue_lem : (a : Fq6 B) → mul_by_nonresidue a ≡ v ⊗ a
  unfolding same mul_assign mul_by_nonresidue v
  mul_by_nonresidue_lem a =
      solve_fq6 R ξ twists (values (a ∷ [])) (mul_by_nonresidue (symbol 0)) (v ⊗ symbol 0) refl

  pub mul_by_1_lem : (a : Fq6 B) (b : B) → mul_by_1 a b ≡ a ⊗ record { c0 = 𝟘; c1 = b; c2 = 𝟘 }
  unfolding same mul_assign mul_by_1
  mul_by_1_lem a b =
      solve_fq6 R ξ twists (env (a.c0 ∷ a.c1 ∷ a.c2 ∷ b ∷ [])) (mul_by_1 (symbol 0) (Expr.var 3))
        (symbol 0 ⊗ record { c0 = 𝟘; c1 = Expr.var 3; c2 = 𝟘 }) refl

  -- Where `mul_by_nonresidue` multiplies by some `ξ`, the sparse product `mul_by_01` is the full
  -- product with an element whose last coordinate is zero.
  pub mul_by_01_lem :
      (a : Fq6 B) (b c : B) → mul_by_01 a b c ≡ a ⊗ record { c0 = b; c1 = c; c2 = 𝟘 }
  unfolding same mul_assign mul_by_01
  mul_by_01_lem a b c =
      solve_fq6 R ξ twists (env (a.c0 ∷ a.c1 ∷ a.c2 ∷ b ∷ c ∷ []))
        (mul_by_01 (symbol 0) (Expr.var 3) (Expr.var 4))
        (symbol 0 ⊗ record { c0 = Expr.var 3; c1 = Expr.var 4; c2 = 𝟘 }) refl

  -- What `inverse` multiplies by brings `a` down to the base.
  pub mul-adjoint : (a : Fq6 B) → a ⊗ adjoint a ≡ embed (denominator a)
  unfolding same mul_assign adjoint denominator embed
  mul-adjoint a =
      solve_fq6 R ξ twists (values (a ∷ [])) (symbol 0 ⊗ adjoint (symbol 0))
        (embed (denominator (symbol 0))) refl

  -- Twice over, the adjoint is the element again, up to its denominator.
  pub adjoint-adjoint : (a : Fq6 B) → adjoint (adjoint a) ≡ embed (denominator a) ⊗ a
  unfolding same mul_assign adjoint denominator embed
  adjoint-adjoint a =
      solve_fq6 R ξ twists (values (a ∷ [])) (adjoint (adjoint (symbol 0)))
        (embed (denominator (symbol 0)) ⊗ symbol 0) refl

  -- The denominator is the norm of `Fq6` over `Fq2`: multiplicative, and `ξ` at `v`.
  pub denominator-mul : (a b : Fq6 B) → denominator (a ⊗ b) ≡ denominator a ⊗ denominator b
  unfolding is_nil norm mul_assign adjoint denominator
  denominator-mul a b =
      solve_twisted R N.mul_by_nonresidue ξ twists (values (a ∷ b ∷ []))
        (denominator (symbol 0 ⊗ symbol 1)) (denominator (symbol 0) ⊗ denominator (symbol 1)) refl

  pub denominator-v : denominator v ≡ ξ
  unfolding is_nil norm adjoint denominator v
  denominator-v =
      solve_twisted R N.mul_by_nonresidue ξ twists (values []) (denominator v) (twist 𝟙) refl
      ∙ twists 𝟙
      ∙ mul-one R ξ

-- ===== src/Tower/Fq12/Extension.antt =====
-- `Fq12` is the extension of `Fq6` by a square root `w` of `v`; the sparse product of the Miller
-- loop.
use aws_dpid.Prelude.{◌≡◌, refl, [], ◌∷◌, ap, ◌∙◌, true}
use aws_dpid.Ring.{RingOps, NonresidueOps, IsCommRing, 𝟘, 𝟙, ◌⊕◌, ◌⊗◌, twist}
use aws_dpid.Ring.Laws.{mul-one}
use aws_dpid.Ring.Solver.{Expr, expr_ops, expr_nonresidue, env}
use aws_dpid.Tower.Fq6.{Fq6, fq6_ops, fq6_nonresidue, mul_by_1, mul_by_01}
use aws_dpid.Tower.Fq6.Ring as Fq6Ring
use aws_dpid.Tower.Fq6 as Fq6Mod
use aws_dpid.Tower.Fq12.{Fq12, one, mul_assign, conjugate, mul_by_014, fq12_ops}
use aws_dpid.Tower.Fq12.Ring.{same, symbol, values, solve_fq12, Fq12-ext}

module _ {C : Type 0} ⦃F : RingOps C⦄ where
  unfoldable pub w : Fq12 C
  w = record { c0 = 𝟘; c1 = 𝟙 }

  unfoldable pub embed : C → Fq12 C
  embed c = record { c0 = c; c1 = 𝟘 }

module _ {C : Type 0} ⦃F : RingOps C⦄ ⦃N : NonresidueOps C⦄ (R : IsCommRing F) (β : C)
    (twists : (c : C) → N.mul_by_nonresidue c ≡ β ⊗ c) where
  -- The three multiplications of the code give the schoolbook product with `w^2 = β`.
  pub mul_assign-quadratic :
      (a b : Fq12 C)
      → a ⊗ b ≡ record { c0 = a.c0 ⊗ b.c0 ⊕ twist (a.c1 ⊗ b.c1); c1 = a.c0 ⊗ b.c1 ⊕ a.c1 ⊗ b.c0 }
  unfolding same mul_assign
  mul_assign-quadratic a b =
      solve_fq12 R β twists (values (a ∷ b ∷ [])) (symbol 0 ⊗ symbol 1)
        (record {
          c0 = Expr.var 0 ⊗ Expr.var 2 ⊕ twist (Expr.var 1 ⊗ Expr.var 3);
          c1 = Expr.var 0 ⊗ Expr.var 3 ⊕ Expr.var 1 ⊗ Expr.var 2;
        })
        refl

  pub square-w : w ⊗ w ≡ embed β
  unfolding same mul_assign w embed
  square-w =
      solve_fq12 R β twists (values []) (w ⊗ w) (embed (twist 𝟙)) refl
      ∙ ap embed (twists 𝟙 ∙ mul-one R β)

  -- Where `mul_by_nonresidue` of `Fq6` multiplies by some `β`, `conjugate` is multiplicative: the
  -- conjugate of a product is the product of the conjugates.
  pub conjugate-mul : (a b : Fq12 C) → conjugate (a ⊗ b) ≡ conjugate a ⊗ conjugate b
  unfolding same mul_assign conjugate
  conjugate-mul a b =
      solve_fq12 R β twists (values (a ∷ b ∷ [])) (conjugate (symbol 0 ⊗ symbol 1))
        (conjugate (symbol 0) ⊗ conjugate (symbol 1)) refl

  pub conjugate-conjugate : (a : Fq12 C) → conjugate (conjugate a) ≡ a
  unfolding same conjugate
  conjugate-conjugate a =
      solve_fq12 R β twists (values (a ∷ [])) (conjugate (conjugate (symbol 0))) (symbol 0) refl

  pub conjugate_one : conjugate (𝟙 {A = Fq12 C}) ≡ 𝟙
  unfolding same conjugate one
  conjugate_one = solve_fq12 R β twists (values []) (conjugate 𝟙) 𝟙 refl

-- The element of `Fq12` by which `mul_by_014` multiplies.
unfoldable pub sparse : {B : Type 0} ⦃F : RingOps B⦄ → B → B → B → Fq12 (Fq6 B)
sparse c0 c1 c4 = record {
  c0 = record { c0 = c0; c1 = c1; c2 = 𝟘 };
  c1 = record { c0 = 𝟘; c1 = c4; c2 = 𝟘 };
}

abbrev symbol12 : Fq12 (Fq6 Expr)
symbol12 = record { c0 = Fq6Ring.symbol 0; c1 = Fq6Ring.symbol 1 }

module _ {B : Type 0} ⦃F : RingOps B⦄ ⦃N : NonresidueOps B⦄ (R : IsCommRing F) (ξ : B)
    (twists : (b : B) → N.mul_by_nonresidue b ≡ ξ ⊗ b) where
  -- Where `mul_by_nonresidue` of `Fq2` multiplies by some `ξ`, the sparse product is the full product
  -- with the element that has the three coordinates and zero elsewhere.
  pub mul_by_014_lem :
      (f : Fq12 (Fq6 B)) (c0 c1 c4 : B) → mul_by_014 f c0 c1 c4 ≡ f ⊗ sparse c0 c1 c4
  unfolding Fq6Ring.same mul_assign mul_by_014 sparse Fq6Mod.add_assign Fq6Mod.sub_assign
      Fq6Mod.mul_assign Fq6Mod.mul_by_nonresidue
  mul_by_014_lem f c0 c1 c4 =
      Fq12-ext (coordinates (left.c0) (right.c0) refl) (coordinates (left.c1) (right.c1) refl)
    where
      coordinates :
          (a b : Fq6 Expr)
          → Fq6Ring.same a b ≡ true
          → Fq6Ring.at N.mul_by_nonresidue
              (env (f.c0.c0 ∷ f.c0.c1 ∷ f.c0.c2 ∷ f.c1.c0 ∷ f.c1.c1 ∷ f.c1.c2 ∷ c0 ∷ c1 ∷ c4 ∷ []))
              a
            ≡ Fq6Ring.at N.mul_by_nonresidue
                (env
                  (f.c0.c0 ∷ f.c0.c1 ∷ f.c0.c2 ∷ f.c1.c0 ∷ f.c1.c1 ∷ f.c1.c2 ∷ c0 ∷ c1 ∷ c4 ∷ []))
                b
      coordinates =
          Fq6Ring.solve_fq6 R ξ twists
            (env (f.c0.c0 ∷ f.c0.c1 ∷ f.c0.c2 ∷ f.c1.c0 ∷ f.c1.c1 ∷ f.c1.c2 ∷ c0 ∷ c1 ∷ c4 ∷ []))

      left : Fq12 (Fq6 Expr)
      left = mul_by_014 symbol12 (Expr.var 6) (Expr.var 7) (Expr.var 8)

      right : Fq12 (Fq6 Expr)
      right = symbol12 ⊗ sparse (Expr.var 6) (Expr.var 7) (Expr.var 8)

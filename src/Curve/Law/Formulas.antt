-- ===== src/Curve/Law/Formulas.antt =====
-- The formulas of `double` and `add_assign` (pairing/src/bls12_381/ec.rs) at Jacobian coordinates
-- of affine points give Jacobian coordinates of the third point of the line.
use aws_dpid.Prelude.{◌≡◌, refl, ap, ◌∙◌, [], ◌∷◌}
use aws_dpid.Ring.{RingOps, IsCommRing, ◌⊕◌, ◌⊖◌, ◌⊗◌, square as sqr, double as dbl}
use aws_dpid.Ring.Poly.{is_nil}
use aws_dpid.Ring.Solver.{Expr, expr_ops, norm, env, solve}
use aws_dpid.Curve.{Projective, Scaled, double_formula, add_formula, add_scaled, scaled}
use aws_dpid.Curve.Equation.{same, solve_point, add_formula_lem}
use aws_dpid.Curve.Law.{third_x, third_y, thrice_square}

-- Coordinates of the affine point (x, y) at this z.
abbrev pub jacobian : {B : Type 0} ⦃F : RingOps B⦄ → B → B → B → Projective B
jacobian x y z = record { x = x ⊗ sqr z; y = y ⊗ (sqr z ⊗ z); z = z }

-- `double_formula` with its E as an argument.
abbrev pub double_at : {B : Type 0} ⦃F : RingOps B⦄ → Projective B → B → Projective B
double_at p e =
    let a = sqr p.x in
    let b = sqr p.y in
    let c = sqr b in
    let d = dbl (sqr (p.x ⊕ b) ⊖ a ⊖ c) in
    let f = sqr e in
    let x3 = f ⊖ d ⊖ d in
    record { x = x3; y = (d ⊖ x3) ⊗ e ⊖ dbl (dbl (dbl c)); z = dbl (p.z ⊗ p.y) }

-- The products of `add_assign` at Jacobian coordinates, with the product of the two z.
abbrev pub scaled_by : {B : Type 0} ⦃F : RingOps B⦄ → B → B → B → B → B → Scaled B
scaled_by x1 y1 x2 y2 w = record {
  u1 = x1 ⊗ sqr w;
  u2 = x2 ⊗ sqr w;
  s1 = y1 ⊗ (sqr w ⊗ w);
  s2 = y2 ⊗ (sqr w ⊗ w);
}

Scaled-ext :
    {B : Type 0} {p q : Scaled B} → p.u1 ≡ q.u1 → p.u2 ≡ q.u2 → p.s1 ≡ q.s1 → p.s2 ≡ q.s2 → p ≡ q
Scaled-ext e f g h i = record { u1 = e i; u2 = f i; s1 = g i; s2 = h i }

abbrev pub v0 : Expr
v0 = Expr.var 0

abbrev pub v1 : Expr
v1 = Expr.var 1

abbrev pub v2 : Expr
v2 = Expr.var 2

abbrev pub v3 : Expr
v3 = Expr.var 3

abbrev v4 : Expr
v4 = Expr.var 4

module _ {B : Type 0} ⦃F : RingOps B⦄ (R : IsCommRing F) where
  pub scaled-jacobian :
      (x1 y1 x2 y2 z1 z2 : B)
      → scaled (jacobian x1 y1 z1) (jacobian x2 y2 z2) ≡ scaled_by x1 y1 x2 y2 (z1 ⊗ z2)
  unfolding is_nil norm scaled
  scaled-jacobian x1 y1 x2 y2 z1 z2 =
      Scaled-ext
        (solve R (env (x1 ∷ z1 ∷ z2 ∷ [])) (v0 ⊗ sqr v1 ⊗ sqr v2) (v0 ⊗ sqr (v1 ⊗ v2)) refl)
        (solve R (env (x2 ∷ z1 ∷ z2 ∷ [])) (v0 ⊗ sqr v2 ⊗ sqr v1) (v0 ⊗ sqr (v1 ⊗ v2)) refl)
        (solve R (env (y1 ∷ z1 ∷ z2 ∷ [])) (v0 ⊗ (sqr v1 ⊗ v1) ⊗ v2 ⊗ sqr v2)
          (v0 ⊗ (sqr (v1 ⊗ v2) ⊗ (v1 ⊗ v2))) refl)
        (solve R (env (y2 ∷ z1 ∷ z2 ∷ [])) (v0 ⊗ (sqr v2 ⊗ v2) ⊗ v1 ⊗ sqr v1)
          (v0 ⊗ (sqr (v1 ⊗ v2) ⊗ (v1 ⊗ v2))) refl)

  -- The third point of a chord.
  chord_scaled :
      (x1 y1 x2 slope w : B)
      → add_scaled (scaled_by x1 y1 x2 (y1 ⊕ slope ⊗ (x2 ⊖ x1)) w) (dbl w)
        ≡ jacobian (third_x x1 x2 slope) (third_y x1 y1 x2 slope) (dbl w ⊗ ((x2 ⊖ x1) ⊗ sqr w))
  unfolding same add_scaled
  chord_scaled x1 y1 x2 slope w =
      solve_point R (env (x1 ∷ y1 ∷ x2 ∷ slope ∷ w ∷ []))
        (add_scaled (scaled_by v0 v1 v2 (v1 ⊕ v3 ⊗ (v2 ⊖ v0)) v4) (dbl v4))
        (jacobian (third_x v0 v2 v3) (third_y v0 v1 v2 v3) (dbl v4 ⊗ ((v2 ⊖ v0) ⊗ sqr v4))) refl

  pub chord_lem :
      (x1 y1 x2 y2 slope z1 z2 : B)
      → y2 ≡ y1 ⊕ slope ⊗ (x2 ⊖ x1)
      → add_formula (jacobian x1 y1 z1) (jacobian x2 y2 z2)
        ≡ jacobian
            (third_x x1 x2 slope)
            (third_y x1 y1 x2 slope)
            (dbl (z1 ⊗ z2) ⊗ ((x2 ⊖ x1) ⊗ sqr (z1 ⊗ z2)))
  chord_lem x1 y1 x2 y2 slope z1 z2 h =
      ap (λ y. add_formula (jacobian x1 y1 z1) (jacobian x2 y z2)) h
      ∙ add_formula_lem R x1 (jacobian x1 y1 z1) (jacobian x2 (y1 ⊕ slope ⊗ (x2 ⊖ x1)) z2)
      ∙ ap (λ s. add_scaled s (dbl (z1 ⊗ z2)))
          (scaled-jacobian x1 y1 x2 (y1 ⊕ slope ⊗ (x2 ⊖ x1)) z1 z2)
      ∙ chord_scaled x1 y1 x2 slope (z1 ⊗ z2)

  double_formula_lem :
      (x y z : B)
      → double_formula (jacobian x y z)
        ≡ double_at (jacobian x y z) (thrice_square x ⊗ (sqr z ⊗ sqr z))
  unfolding is_nil norm double_formula
  double_formula_lem x y z = ap (double_at (jacobian x y z)) (
      solve R (env (x ∷ z ∷ [])) (dbl (sqr (v0 ⊗ sqr v1)) ⊕ sqr (v0 ⊗ sqr v1))
        (thrice_square v0 ⊗ (sqr v1 ⊗ sqr v1)) refl)

  -- The third point of a tangent.
  pub tangent_lem :
      (x y slope z : B)
      → thrice_square x ≡ slope ⊗ dbl y
      → double_formula (jacobian x y z)
        ≡ jacobian (third_x x x slope) (third_y x y x slope) (dbl (z ⊗ (y ⊗ (sqr z ⊗ z))))
  unfolding same
  tangent_lem x y slope z h =
      double_formula_lem x y z
      ∙ ap (λ t. double_at (jacobian x y z) (t ⊗ (sqr z ⊗ sqr z))) h
      ∙ solve_point R (env (x ∷ y ∷ slope ∷ z ∷ []))
          (double_at (jacobian v0 v1 v3) (v2 ⊗ dbl v1 ⊗ (sqr v3 ⊗ sqr v3)))
          (jacobian (third_x v0 v0 v2) (third_y v0 v1 v0 v2) (dbl (v3 ⊗ (v1 ⊗ (sqr v3 ⊗ v3))))) refl

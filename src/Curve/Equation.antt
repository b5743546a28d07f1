-- ===== src/Curve/Equation.antt =====
-- The equation of the curve, y^2 = x^3 + b, in Jacobian coordinates, and the formulas by which
-- `curve_impl!` (pairing/src/bls12_381/ec.rs) doubles and adds.
use aws_dpid.Prelude.{ℕ, ◌&&◌, ◌≡◌, refl, ap, ap₂, ◌∙◌, Bool, true, false, [], ◌∷◌, arith}
use aws_dpid.Ring.{RingOps, IsCommRing, 𝟘, 𝟙, ◌⊕◌, ◌⊖◌, ◌⊗◌}
use aws_dpid.Ring.{square as sqr, double as dbl}
use aws_dpid.Ring.Laws.{mul-zero}
use aws_dpid.Ring.Poly.{is_nil}
use aws_dpid.Ring.Solver.{Expr, expr_ops, norm, eval, env, solve}
use aws_dpid.Curve.{
  Affine, Projective, double_formula, Scaled, add_formula, add_scaled, mixed_formula, scaled,
}

-- What vanishes on the curve.
abbrev pub defect : {B : Type 0} ⦃F : RingOps B⦄ → B → Projective B → B
defect b p = p.y ⊗ p.y ⊖ (p.x ⊗ p.x ⊗ p.x ⊕ b ⊗ ((p.z ⊗ p.z) ⊗ (p.z ⊗ p.z) ⊗ (p.z ⊗ p.z)))

abbrev pub OnCurve : {B : Type 0} ⦃F : RingOps B⦄ → B → Projective B → Type 0
OnCurve b p = defect b p ≡ 𝟘

abbrev p_ : Projective Expr
p_ = record { x = Expr.var 1; y = Expr.var 2; z = Expr.var 3 }

abbrev q_ : Projective Expr
q_ = record { x = Expr.var 4; y = Expr.var 5; z = Expr.var 6 }

pub Projective-ext : {B : Type 0} {p q : Projective B} → p.x ≡ q.x → p.y ≡ q.y → p.z ≡ q.z → p ≡ q
Projective-ext e f g i = record { x = e i; y = f i; z = g i }

abbrev pub at : {B : Type 0} ⦃F : RingOps B⦄ → (ℕ → B) → Projective Expr → Projective B
at ρ p = record {
  x = eval (λ t. 𝟙 ⊗ t) ρ p.x;
  y = eval (λ t. 𝟙 ⊗ t) ρ p.y;
  z = eval (λ t. 𝟙 ⊗ t) ρ p.z;
}

unfoldable pub same : Projective Expr → Projective Expr → Bool
unfolding is_nil norm
same p q =
    is_nil (norm (Expr.sub p.x q.x))
    && is_nil (norm (Expr.sub p.y q.y))
    && is_nil (norm (Expr.sub p.z q.z))

pub solve_point :
    {B : Type 0} ⦃F : RingOps B⦄ (R : IsCommRing F) (ρ : ℕ → B) (p q : Projective Expr)
    → same p q ≡ true
    → at ρ p ≡ at ρ q
unfolding same
solve_point R ρ p q h =
    Projective-ext (solve R ρ p.x q.x (ground arith)) (solve R ρ p.y q.y (ground arith))
      (solve R ρ p.z q.z (ground arith))

abbrev sixth : {B : Type 0} ⦃F : RingOps B⦄ → B → B
sixth z = (z ⊗ z) ⊗ (z ⊗ z) ⊗ (z ⊗ z)

abbrev times64 : {B : Type 0} ⦃F : RingOps B⦄ → B → B
times64 a = dbl (dbl (dbl (dbl (dbl (dbl a)))))

-- The curve equation for the products that `add_assign` works with, at `w = z1 z2`.
abbrev defect_scaled : {B : Type 0} ⦃F : RingOps B⦄ → B → B → B → B → B
defect_scaled b w u s = s ⊗ s ⊖ (u ⊗ u ⊗ u ⊕ b ⊗ sixth w)

-- The defect of a sum, as a combination of those of the summands.
abbrev combination : {B : Type 0} ⦃F : RingOps B⦄ → Scaled B → B → B → B
combination p e1 e2 =
    let h = p.u2 ⊖ p.u1 in
    let s = p.s2 ⊖ p.s1 in
    let x = s ⊗ s ⊖ h ⊗ h ⊗ h ⊖ dbl (p.u1 ⊗ (h ⊗ h)) in
    times64 ((h ⊗ h ⊗ h) ⊗ (x ⊖ p.u1 ⊗ (h ⊗ h)) ⊗ (e2 ⊖ e1) ⊕ sixth h ⊗ e1)

abbrev s_ : Scaled Expr
s_ = record { u1 = Expr.var 1; u2 = Expr.var 2; s1 = Expr.var 3; s2 = Expr.var 4 }

module _ {B : Type 0} ⦃F : RingOps B⦄ (R : IsCommRing F) (b : B) where
  pub double_formula-OnCurve : (p : Projective B) → OnCurve b p → OnCurve b (double_formula p)
  unfolding is_nil norm double_formula
  double_formula-OnCurve p h =
      solve R (env (b ∷ p.x ∷ p.y ∷ p.z ∷ [])) (defect (Expr.var 0) (double_formula p_))
        (times64 (sixth (Expr.var 2)) ⊗ defect (Expr.var 0) p_) refl
      ∙ ap (λ t. times64 (sixth p.y) ⊗ t) h
      ∙ solve R (env (b ∷ p.x ∷ p.y ∷ [])) (times64 (sixth (Expr.var 2)) ⊗ 𝟘) 𝟘 refl

  add_scaled-OnCurve :
      (p : Scaled B) (w : B)
      → defect_scaled b w p.u1 p.s1 ≡ 𝟘
      → defect_scaled b w p.u2 p.s2 ≡ 𝟘
      → OnCurve b (add_scaled p (dbl w))
  unfolding is_nil norm add_scaled
  add_scaled-OnCurve p w h k =
      solve R (env (b ∷ p.u1 ∷ p.u2 ∷ p.s1 ∷ p.s2 ∷ w ∷ []))
        (defect (Expr.var 0) (add_scaled s_ (dbl (Expr.var 5))))
        (combination s_ (defect_scaled (Expr.var 0) (Expr.var 5) (Expr.var 1) (Expr.var 3))
          (defect_scaled (Expr.var 0) (Expr.var 5) (Expr.var 2) (Expr.var 4)))
        refl
      ∙ ap₂ (combination p) h k
      ∙ solve R (env (b ∷ p.u1 ∷ p.u2 ∷ p.s1 ∷ p.s2 ∷ [])) (combination s_ 𝟘 𝟘) 𝟘 refl

  -- Scaling by the other point's z keeps the equation, on either side.
  scaled_left :
      (p q : Projective B)
      → OnCurve b p
      → defect_scaled b (p.z ⊗ q.z) (scaled p q).u1 (scaled p q).s1 ≡ 𝟘
  unfolding is_nil norm scaled
  scaled_left p q h =
      solve R (env (b ∷ p.x ∷ p.y ∷ p.z ∷ q.x ∷ q.y ∷ q.z ∷ []))
        (defect_scaled (Expr.var 0) (p_.z ⊗ q_.z) (scaled p_ q_).u1 (scaled p_ q_).s1)
        (sixth q_.z ⊗ defect (Expr.var 0) p_) refl
      ∙ ap (λ t. sixth q.z ⊗ t) h
      ∙ mul-zero R (sixth q.z)

  scaled_right :
      (p q : Projective B)
      → OnCurve b q
      → defect_scaled b (p.z ⊗ q.z) (scaled p q).u2 (scaled p q).s2 ≡ 𝟘
  unfolding is_nil norm scaled
  scaled_right p q h =
      solve R (env (b ∷ p.x ∷ p.y ∷ p.z ∷ q.x ∷ q.y ∷ q.z ∷ []))
        (defect_scaled (Expr.var 0) (p_.z ⊗ q_.z) (scaled p_ q_).u2 (scaled p_ q_).s2)
        (sixth p_.z ⊗ defect (Expr.var 0) q_) refl
      ∙ ap (λ t. sixth p.z ⊗ t) h
      ∙ mul-zero R (sixth p.z)

  pub add_formula_lem :
      (p q : Projective B) → add_formula p q ≡ add_scaled (scaled p q) (dbl (p.z ⊗ q.z))
  unfolding is_nil norm add_formula
  add_formula_lem p q = ap (add_scaled (scaled p q)) (
      solve R (env (p.z ∷ q.z ∷ []))
        (sqr (Expr.var 0 ⊕ Expr.var 1) ⊖ sqr (Expr.var 0) ⊖ sqr (Expr.var 1))
        (dbl (Expr.var 0 ⊗ Expr.var 1)) refl)

  pub add_formula-OnCurve :
      (p q : Projective B) → OnCurve b p → OnCurve b q → OnCurve b (add_formula p q)
  add_formula-OnCurve p q h k =
      ap (defect b) (add_formula_lem p q)
      ∙ add_scaled-OnCurve (scaled p q) (p.z ⊗ q.z) (scaled_left p q h) (scaled_right p q k)

  -- The mixed addition is the general one at a point with z = 1, as coordinates too.
  pub mixed_formula_lem :
      (p : Projective B) (q : Affine B)
      → mixed_formula p q ≡ add_formula p (record { x = q.x; y = q.y; z = 𝟙 })
  unfolding same mixed_formula add_formula
  mixed_formula_lem p q =
      solve_point R (env (𝟘 ∷ p.x ∷ p.y ∷ p.z ∷ q.x ∷ q.y ∷ []))
        (mixed_formula p_ (record { x = Expr.var 4; y = Expr.var 5; infinity = false }))
        (add_formula p_ (record { x = Expr.var 4; y = Expr.var 5; z = 𝟙 })) refl

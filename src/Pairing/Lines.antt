-- ===== src/Pairing/Lines.antt =====
-- The two steps of `G2Prepared::from_affine` (pairing/src/bls12_381/mod.rs): the point that each
-- leaves in `r`, and the line whose coefficients it gives.
use aws_dpid.Prelude.{◌≡◌, refl, false, [], ◌∷◌}
use aws_dpid.Ring.{RingOps, IsCommRing, 𝟘, 𝟙, ◌⊕◌, ◌⊗◌, negate as neg}
use aws_dpid.Ring.Poly.{is_nil}
use aws_dpid.Ring.Solver.{Expr, expr_ops, norm, env, solve}
use aws_dpid.Curve.{Affine, Projective, double_formula, mixed_formula}
use aws_dpid.Curve.Equation.{same, solve_point}
use aws_dpid.Pairing.{Line, doubling_step, addition_step}

-- The line at the affine point of `p`, cleared of denominators.
unfoldable pub line_at : {B : Type 0} ⦃F : RingOps B⦄ → Line B → Projective B → B
line_at l p = l.y_coeff ⊗ p.y ⊕ l.x_coeff ⊗ p.x ⊗ p.z ⊕ l.constant ⊗ (p.z ⊗ p.z ⊗ p.z)

abbrev pub finite : {B : Type 0} ⦃F : RingOps B⦄ → Affine B → Projective B
finite q = record { x = q.x; y = q.y; z = 𝟙 }

abbrev pub opposite : {B : Type 0} ⦃F : RingOps B⦄ → Projective B → Projective B
opposite p = record p { y = neg p.y }

abbrev r_ : Projective Expr
r_ = record { x = Expr.var 0; y = Expr.var 1; z = Expr.var 2 }

abbrev q_ : Affine Expr
q_ = record { x = Expr.var 3; y = Expr.var 4; infinity = false }

module _ {B : Type 0} ⦃F : RingOps B⦄ (R : IsCommRing F) where
  -- `doubling_step` moves `r` as the doubling formula of the curve does.
  pub doubling_step-point : (r : Projective B) → (doubling_step r).1 ≡ double_formula r
  unfolding doubling_step double_formula same
  doubling_step-point r =
      solve_point R (env (r.x ∷ r.y ∷ r.z ∷ [])) (doubling_step r_).1 (double_formula r_) refl

  -- `addition_step` moves `r` as the mixed addition formula of the curve does.
  pub addition_step-point :
      (r : Projective B) (q : Affine B) → (addition_step r q).1 ≡ mixed_formula r q
  unfolding addition_step mixed_formula same
  addition_step-point r q =
      solve_point R (env (r.x ∷ r.y ∷ r.z ∷ q.x ∷ q.y ∷ [])) (addition_step r_ q_).1
        (mixed_formula r_ q_) refl

  -- The line of `doubling_step` is the tangent: it passes through `r`, and through the opposite
  -- of the doubled point.
  pub doubling_step-line :
      (r : Projective B)
      → (line_at (doubling_step r).0 r ≡ 𝟘)
        × (line_at (doubling_step r).0 (opposite (doubling_step r).1) ≡ 𝟘)
  unfolding doubling_step line_at is_nil norm
  doubling_step-line r = (
    solve R (env (r.x ∷ r.y ∷ r.z ∷ [])) (line_at (doubling_step r_).0 r_) 𝟘 refl,
    solve R (env (r.x ∷ r.y ∷ r.z ∷ []))
        (line_at (doubling_step r_).0 (opposite (doubling_step r_).1)) 𝟘 refl,
  )

  -- The line of `addition_step` is the chord: it passes through `r`, through `q`, and through the
  -- opposite of the sum.
  pub addition_step-line :
      (r : Projective B) (q : Affine B)
      → (line_at (addition_step r q).0 r ≡ 𝟘)
        × (line_at (addition_step r q).0 (finite q) ≡ 𝟘)
        × (line_at (addition_step r q).0 (opposite (addition_step r q).1) ≡ 𝟘)
  unfolding addition_step line_at is_nil norm
  addition_step-line r q = (
    solve R (env (r.x ∷ r.y ∷ r.z ∷ q.x ∷ q.y ∷ [])) (line_at (addition_step r_ q_).0 r_) 𝟘 refl,
    solve R (env (r.x ∷ r.y ∷ r.z ∷ q.x ∷ q.y ∷ [])) (line_at (addition_step r_ q_).0 (finite q_)) 𝟘
        refl,
    solve R (env (r.x ∷ r.y ∷ r.z ∷ q.x ∷ q.y ∷ []))
        (line_at (addition_step r_ q_).0 (opposite (addition_step r_ q_).1)) 𝟘 refl,
  )

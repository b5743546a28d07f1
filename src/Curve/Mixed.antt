-- ===== src/Curve/Mixed.antt =====
-- `add_assign_mixed` against `add_assign`, on every branch.
use aws_dpid.Prelude.{
  ◌≡◌, refl, sym, ap, ap₂, ◌∙◌, Bool, false, ◌&&◌, ◌⊎◌, inl, inr, Bool-cases, if◌then◌else◌, [],
  ◌∷◌,
}
use aws_dpid.Ring.{RingOps, FieldOps, IsField, 𝟙, ◌⊗◌, ◌=?◌, square as sqr}
use aws_dpid.Ring.Poly.{is_nil}
use aws_dpid.Ring.Solver.{Expr, expr_ops, norm, env, solve}
use aws_dpid.Curve.{
  Affine, Projective, is_zero, zero, double, add_assign, add_assign_mixed, into_projective,
  add_formula, mixed_formula, scaled,
}
use aws_dpid.Curve.Equation.{mixed_formula_lem}
use aws_dpid.Curve.Points.{
  finite, into_projective_infinity, into_projective-finite, zero-is_zero, finite-is_zero,
}

module _ {B : Type 0} ⦃F : RingOps B⦄ ⦃K : FieldOps B⦄ (D : IsField F K) where
  -- The branches that follow once the second summand is known to be finite.
  abbrev branches : Projective B → Affine B → Bool → Bool → Projective B → Projective B
  branches p q infinite same sum =
      if is_zero p then finite D q else if infinite then p else if same then double p else sum

  same_mixed : Projective B → Affine B → Bool
  same_mixed p q = (p.x =? q.x ⊗ sqr p.z) && (p.y =? q.y ⊗ p.z ⊗ sqr p.z)

  mixed_branches :
      (p : Projective B) (q : Affine B)
      → add_assign_mixed p q
        ≡ (if q.infinity then p else branches p q false (same_mixed p q) (mixed_formula p q))
  unfolding add_assign_mixed same_mixed
  mixed_branches p q = refl

  same_general : (p : Projective B) (q : Affine B) → Bool
  same_general p q = let s = scaled p (finite D q) in (s.u1 =? s.u2) && (s.s1 =? s.s2)

  general_branches :
      (p : Projective B) (q : Affine B)
      → add_assign p (finite D q)
        ≡ branches p q (is_zero (finite D q)) (same_general p q) (add_formula p (finite D q))
  unfolding add_assign same_general
  general_branches p q = refl

  same_lem : (p : Projective B) (q : Affine B) → same_mixed p q ≡ same_general p q
  unfolding same_mixed same_general scaled is_nil norm
  same_lem p q =
      ap₂ (λ a b. (a =? q.x ⊗ sqr p.z) && (b =? q.y ⊗ p.z ⊗ sqr p.z))
        (solve D.ring (env (p.x ∷ [])) (Expr.var 0) (Expr.var 0 ⊗ sqr 𝟙) refl)
        (solve D.ring (env (p.y ∷ [])) (Expr.var 0) (Expr.var 0 ⊗ 𝟙 ⊗ sqr 𝟙) refl)

  mixed_finite :
      (p : Projective B) (q : Affine B)
      → q.infinity ≡ false
      → add_assign_mixed p q ≡ add_assign p (into_projective q)
  mixed_finite p q e =
      mixed_branches p q
      ∙ ap (λ c. if c then p else branches p q false (same_mixed p q) (mixed_formula p q)) e
      ∙ ap₂ (branches p q false) (same_lem p q) (mixed_formula_lem D.ring 𝟙 p q)
      ∙ ap (λ c. branches p q c (same_general p q) (add_formula p (finite D q)))
          (sym (finite-is_zero D q))
      ∙ sym (general_branches p q)
      ∙ ap (add_assign p) (sym (into_projective-finite D q e))

  add-zero : (p : Projective B) → is_zero p ≡ false → add_assign p zero ≡ p
  unfolding add_assign
  add-zero p e = rw (e, zero-is_zero D) refl

  -- Mixed addition is addition of the projective form, unless both summands are infinity.
  pub add_assign_mixed_lem :
      (p : Projective B) (q : Affine B)
      → (q.infinity ≡ false) ⊎ (is_zero p ≡ false)
      → add_assign_mixed p q ≡ add_assign p (into_projective q)
  add_assign_mixed_lem p q (inl e) = mixed_finite p q e
  add_assign_mixed_lem p q (inr f) = elim (Bool-cases q.infinity) [
    | inl e ↦
        mixed_branches p q
        ∙ ap (λ c. if c then p else branches p q false (same_mixed p q) (mixed_formula p q)) e
        ∙ sym (add-zero p f)
        ∙ ap (add_assign p) (sym (into_projective_infinity D q e))
    | inr e ↦ mixed_finite p q e
  ]

-- ===== src/Curve/Valid.antt =====
-- Points of the curve, of `curve_impl!` (pairing/src/bls12_381/ec.rs), under `double`, `add_assign`,
-- `add_assign_mixed`, `negate`, `mul_bits`, `mul_assign` and `into_projective`, and the test
-- `is_on_curve`.
use aws_dpid.Prelude.{
  ◌≡◌, sym, ap, ◌∙◌, Bool, true, false, ◌⊎◌, inl, inr, if-elim, if◌then◌else◌, not, Bool-cases,
  List, [], ◌∷◌, refl, ◌↔◌,
}
use aws_dpid.Ring.{RingOps, FieldOps, IsField, 𝟘, 𝟙, ◌⊕◌, ◌⊖◌, ◌⊗◌}
use aws_dpid.Ring.{negate as neg, square as sqr, ◌=?◌}
use aws_dpid.Ring.Laws.{eq→sub-zero, sub-zero→eq}
use aws_dpid.Ring.Poly.{is_nil}
use aws_dpid.Ring.Solver.{Expr, expr_ops, norm, env, solve}
use aws_dpid.Curve.{
  Affine, Projective, is_zero, zero, double, add_assign, add_assign_mixed, negate, mul_loop,
  mul_assign, mul_bits, mul_bits_loop, into_projective, is_on_curve,
}
use aws_dpid.Curve.Equation.{
  defect, OnCurve, double_formula-OnCurve, add_formula-OnCurve, mixed_formula_lem,
}

module _ {B : Type 0} ⦃F : RingOps B⦄ ⦃K : FieldOps B⦄ where
  -- Infinity, or a solution of the equation in Jacobian coordinates.
  abbrev pub IsValid : B → Projective B → Type 0
  IsValid b p = (is_zero p ≡ true) ⊎ OnCurve b p

  abbrev pub IsValidAffine : B → Affine B → Type 0
  IsValidAffine b q = (q.infinity ≡ true) ⊎ OnCurve b (record { x = q.x; y = q.y; z = 𝟙 })

  module _ (D : IsField F K) (b : B) where
    on_curve : {p : Projective B} → IsValid b p → is_zero p ≡ false → OnCurve b p
    on_curve (inl h) e = cc
    on_curve (inr h) e = h

    double-IsValid : (p : Projective B) → IsValid b p → IsValid b (double p)
    unfolding double
    double-IsValid p h =
        if-elim (IsValid b) (is_zero p) (λ _. h)
          (λ e. inr (double_formula-OnCurve D.ring b p (on_curve h e)))

    -- The sum of two points of the curve is a point of the curve, on every branch of `add_assign`.
    pub add_assign-IsValid :
        (p q : Projective B) → IsValid b p → IsValid b q → IsValid b (add_assign p q)
    unfolding add_assign
    add_assign-IsValid p q h k =
        if-elim (IsValid b) (is_zero p) (λ _. k)
          (λ e.
            if-elim (IsValid b) (is_zero q) (λ _. h)
              (λ f.
                if-elim (IsValid b) _ (λ _. double-IsValid p h)
                  (λ _. inr (add_formula-OnCurve D.ring b p q (on_curve h e) (on_curve k f)))))

    affine-OnCurve :
        {q : Affine B}
        → IsValidAffine b q
        → q.infinity ≡ false
        → OnCurve b (record { x = q.x; y = q.y; z = 𝟙 })
    affine-OnCurve (inl h) e = cc
    affine-OnCurve (inr h) e = h

    -- The mixed sum of a point of the curve and an affine point of the curve is a point of the curve,
    -- on every branch of `add_assign_mixed`.
    pub add_assign_mixed-IsValid :
        (p : Projective B) (q : Affine B)
        → IsValid b p
        → IsValidAffine b q
        → IsValid b (add_assign_mixed p q)
    unfolding add_assign_mixed
    add_assign_mixed-IsValid p q h k =
        if-elim (IsValid b) q.infinity (λ _. h)
          (λ e.
            if-elim (IsValid b) (is_zero p) (λ _. inr (affine-OnCurve k e))
              (λ f.
                if-elim (IsValid b) _ (λ _. double-IsValid p h)
                  (λ _. inr (
                    ap (defect b) (mixed_formula_lem D.ring b p q)
                    ∙ add_formula-OnCurve D.ring b p (record { x = q.x; y = q.y; z = 𝟙 })
                        (on_curve h f) (affine-OnCurve k e)))))

    zero-IsValid : IsValid b zero
    unfolding is_zero zero
    zero-IsValid = inl ((D.is_zero_iff 𝟘).1 refl)

    mul_bits_loop-IsValid :
        (q : Affine B) (bits : List Bool) (r : Projective B)
        → IsValidAffine b q
        → IsValid b r
        → IsValid b (mul_bits_loop q bits r)
    unfolding mul_bits_loop
    mul_bits_loop-IsValid q [] r k h = h
    mul_bits_loop-IsValid q (i ∷ bits) r k h = mul_bits_loop-IsValid q bits _ k (
        if-elim (IsValid b) i (λ _. add_assign_mixed-IsValid (double r) q (double-IsValid r h) k)
          (λ _. double-IsValid r h))

    mul_loop-IsValid :
        (p : Projective B) (bits : List Bool) (found : Bool) (r : Projective B)
        → IsValid b p
        → IsValid b r
        → IsValid b (mul_loop p bits found r)
    unfolding mul_loop
    mul_loop-IsValid p [] found r k h = h
    mul_loop-IsValid p (i ∷ bits) found r k h =
        let doubled = if found then double r else r in
        let v : IsValid b doubled = if-elim (IsValid b) found (λ _. double-IsValid r h) (λ _. h) in
        mul_loop-IsValid p bits _ _ k
          (if-elim (IsValid b) i (λ _. add_assign-IsValid doubled p v k) (λ _. v))

    mul-IsValid :
        (q : Affine B) (p : Projective B) (bits : List Bool)
        → IsValidAffine b q
        → IsValid b p
        → IsValid b (mul_bits q bits) × IsValid b (mul_assign p bits)
    unfolding mul_bits mul_assign
    mul-IsValid q p bits k h = (
      mul_bits_loop-IsValid q bits zero k zero-IsValid,
      mul_loop-IsValid p bits false zero h zero-IsValid,
    )

    negated :
        (p : Projective B) → IsValid b p → IsValid b (record { x = p.x; y = neg p.y; z = p.z })
    unfolding is_zero is_nil norm
    negated p (inl e) = inl e
    negated p (inr e) = inr (
        solve D.ring (env (b ∷ p.x ∷ p.y ∷ p.z ∷ []))
          (defect (Expr.var 0) (record { x = Expr.var 1; y = neg (Expr.var 2); z = Expr.var 3 }))
          (defect (Expr.var 0) (record { x = Expr.var 1; y = Expr.var 2; z = Expr.var 3 })) refl
        ∙ e)

    pub negate-IsValid : (p : Projective B) → IsValid b p → IsValid b (negate p)
    unfolding negate
    negate-IsValid p h = if-elim (IsValid b) (not (is_zero p)) (λ _. negated p h) (λ _. h)

    affine_defect :
        (q : Affine B)
        → defect b (record { x = q.x; y = q.y; z = 𝟙 }) ≡ sqr q.y ⊖ (sqr q.x ⊗ q.x ⊕ b)
    unfolding is_nil norm
    affine_defect q =
        solve D.ring (env (b ∷ q.x ∷ q.y ∷ []))
          (defect (Expr.var 0) (record { x = Expr.var 1; y = Expr.var 2; z = 𝟙 }))
          (sqr (Expr.var 2) ⊖ (sqr (Expr.var 1) ⊗ Expr.var 1 ⊕ Expr.var 0)) refl

    finite-OnCurve_iff :
        (q : Affine B)
        → ((sqr q.y =? sqr q.x ⊗ q.x ⊕ b) ≡ true) ↔ (OnCurve b (record { x = q.x; y = q.y; z = 𝟙 }))
    finite-OnCurve_iff q = (
      λ h. affine_defect q ∙ eq→sub-zero D.ring ((D.eq_iff _ _).0 h),
      λ h. (D.eq_iff _ _).1 (sub-zero→eq D.ring (sym (affine_defect q) ∙ h)),
    )

    -- `is_on_curve` holds exactly at infinity and at the solutions of the equation of the curve.
    pub is_on_curve_iff : (q : Affine B) → (is_on_curve b q ≡ true) ↔ IsValidAffine b q
    unfolding is_on_curve
    is_on_curve_iff q = elim (Bool-cases q.infinity) [
      | inl e ↦ (λ _. inl e, λ _. rw e refl)
      | inr e ↦ (
        λ h. inr ((finite-OnCurve_iff q).0 (rw e at h)),
        λ h. rw e ((finite-OnCurve_iff q).1 (affine-OnCurve h e)),
      )
    ]

    pub into_projective-IsValid : (q : Affine B) → IsValidAffine b q → IsValid b (into_projective q)
    unfolding into_projective
    into_projective-IsValid q h =
        if-elim (IsValid b) q.infinity (λ _. zero-IsValid) (λ e. inr (affine-OnCurve h e))

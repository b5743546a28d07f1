-- ===== src/Curve/Law/Coordinates.antt =====
-- Jacobian coordinates of affine points, over a field: what `into_affine` of `curve_impl!`
-- (pairing/src/bls12_381/ec.rs) makes of them, and how their products compare.
use aws_dpid.Prelude.{
  ◌≡◌, ◌≢◌, refl, sym, ap, ◌∙◌, false, inl, inr, Bool-cases, some, [], ◌∷◌, Option,
}
use aws_dpid.Ring.{RingOps, FieldOps, IsField, 𝟘, 𝟙, ◌⊖◌, ◌⊗◌, ◌=?◌}
use aws_dpid.Ring.{square as sqr, is_zero as is_zero?}
use aws_dpid.Ring.Laws.{eq→sub-zero, sub-zero→eq}
use aws_dpid.Ring.Field.{eq-zero_of_mul, mul-eq-zero}
use aws_dpid.Ring.Poly.{is_nil}
use aws_dpid.Ring.Solver.{expr_ops, norm, env, solve}
use aws_dpid.Curve.{Affine, Projective, is_zero, into_affine}
use aws_dpid.Curve.Equation.{Projective-ext}
use aws_dpid.Curve.Points.{Affine-ext, into_affine_finite, ne_zero}
use aws_dpid.Curve.Law.Formulas.{jacobian, v0, v1, v2}

abbrev pub at : {B : Type 0} → B → B → Affine B
at x y = record { x = x; y = y; infinity = false }

module _ {B : Type 0} ⦃F : RingOps B⦄ ⦃K : FieldOps B⦄ (D : IsField F K) where
  pub mul-ne_zero : {a b : B} → a ≢ 𝟘 → b ≢ 𝟘 → a ⊗ b ≢ 𝟘
  mul-ne_zero {a} {b} h k e = elim (mul-eq-zero D a b e) [ inl f ↦ h f | inr f ↦ k f ]

  pub is_zero_false : {a : B} → a ≢ 𝟘 → is_zero? a ≡ false
  is_zero_false {a} h = elim (Bool-cases (is_zero? a)) [
    | inl e ↦ absurd (h ((D.is_zero_iff a).0 e))
    | inr e ↦ e
  ]

  cancel : (a b c : B) → c ≢ 𝟘 → a ⊗ c ≡ b ⊗ c → a ≡ b
  unfolding is_nil norm
  cancel a b c h e = sub-zero→eq D.ring (
      eq-zero_of_mul D (a ⊖ b) c h (
        solve D.ring (env (a ∷ b ∷ c ∷ [])) ((v0 ⊖ v1) ⊗ v2) (v0 ⊗ v2 ⊖ v1 ⊗ v2) refl
        ∙ eq→sub-zero D.ring e))

  -- A test is not changed by a factor.
  pub test-scaled : (a b c : B) → c ≢ 𝟘 → (a ⊗ c =? b ⊗ c) ≡ (a =? b)
  test-scaled a b c h = elim (Bool-cases (a =? b)) [
    | inl e ↦ (D.eq_iff _ _).1 (ap (λ x. x ⊗ c) ((D.eq_iff a b).0 e)) ∙ sym e
    | inr e ↦ elim (Bool-cases (a ⊗ c =? b ⊗ c)) [
      | inl f ↦ f ∙ sym ((D.eq_iff a b).1 (cancel a b c h ((D.eq_iff _ _).0 f)))
      | inr f ↦ f ∙ sym e
    ]
  ]

  pub sqr-ne_zero : {z : B} → z ≢ 𝟘 → sqr z ≢ 𝟘
  sqr-ne_zero {z} h e = mul-ne_zero h h (sym (D.ring.square-eq z) ∙ e)

  pub cube-ne_zero : {z : B} → z ≢ 𝟘 → sqr z ⊗ z ≢ 𝟘
  cube-ne_zero h = mul-ne_zero (sqr-ne_zero h) h

  pub jacobian-is_zero : (x y : B) {z : B} → z ≢ 𝟘 → is_zero (jacobian x y z) ≡ false
  unfolding is_zero
  jacobian-is_zero x y h = is_zero_false h

  pub into_affine-jacobian :
      (x y : B) {z : B} → z ≢ 𝟘 → into_affine (jacobian x y z) ≡ some (at x y)
  unfolding is_nil norm
  into_affine-jacobian x y {z} h =
      let (t, _, k) = D.inverse-ne_zero z h in
      into_affine_finite D (jacobian x y z) t (jacobian-is_zero x y h) k
      ∙ ap {B = Option (Affine B)} some (
          Affine-ext
            (solve D.ring (env (x ∷ z ∷ t ∷ [])) (v0 ⊗ sqr v1 ⊗ sqr v2)
                (v0 ⊗ ((v1 ⊗ v2) ⊗ (v1 ⊗ v2))) refl
              ∙ ap (λ r. x ⊗ (r ⊗ r)) k
              ∙ solve D.ring (env (x ∷ [])) (v0 ⊗ (𝟙 ⊗ 𝟙)) v0 refl)
            (solve D.ring (env (y ∷ z ∷ t ∷ [])) (v0 ⊗ (sqr v1 ⊗ v1) ⊗ (sqr v2 ⊗ v2))
                (v0 ⊗ ((v1 ⊗ v2) ⊗ (v1 ⊗ v2) ⊗ (v1 ⊗ v2))) refl
              ∙ ap (λ r. y ⊗ (r ⊗ r ⊗ r)) k
              ∙ solve D.ring (env (y ∷ [])) (v0 ⊗ (𝟙 ⊗ 𝟙 ⊗ 𝟙)) v0 refl)
            refl)

  -- A finite point has the coordinates of an affine one.
  pub coordinates :
      (p : Projective B) → is_zero p ≡ false → (x y : B) × (p ≡ jacobian x y p.z) × (p.z ≢ 𝟘)
  unfolding is_zero is_nil norm
  coordinates p h =
      let (t, _, k) = D.inverse-ne_zero p.z (ne_zero D h) in
      (
        p.x ⊗ sqr t,
        p.y ⊗ (sqr t ⊗ t),
        Projective-ext
            (solve D.ring (env (p.x ∷ [])) v0 (v0 ⊗ (𝟙 ⊗ 𝟙)) refl
              ∙ ap (λ r. p.x ⊗ (r ⊗ r)) (sym k)
              ∙ solve D.ring (env (p.x ∷ p.z ∷ t ∷ [])) (v0 ⊗ ((v1 ⊗ v2) ⊗ (v1 ⊗ v2)))
                  (v0 ⊗ sqr v2 ⊗ sqr v1) refl)
            (solve D.ring (env (p.y ∷ [])) v0 (v0 ⊗ (𝟙 ⊗ 𝟙 ⊗ 𝟙)) refl
              ∙ ap (λ r. p.y ⊗ (r ⊗ r ⊗ r)) (sym k)
              ∙ solve D.ring (env (p.y ∷ p.z ∷ t ∷ [])) (v0 ⊗ ((v1 ⊗ v2) ⊗ (v1 ⊗ v2) ⊗ (v1 ⊗ v2)))
                  (v0 ⊗ (sqr v2 ⊗ v2) ⊗ (sqr v1 ⊗ v1)) refl)
            refl,
        ne_zero D h,
      )

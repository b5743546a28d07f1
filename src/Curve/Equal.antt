-- ===== src/Curve/Equal.antt =====
-- The equality test of Jacobian points, `PartialEq::eq` of `curve_impl!`.
use mathlib.Core.Option.{some-injective}
use aws_dpid.Prelude.{
  ◌≡◌, ◌≢◌, ◌↔◌, refl, sym, ap, ap₂, ◌∙◌, Bool, true, false, ◌&&◌, inl, inr, not, Bool-cases, some,
  if◌then◌else◌, [], ◌∷◌, and-left, and-right, Option,
}
use aws_dpid.Ring.{RingOps, FieldOps, IsField, 𝟙, ◌⊗◌, ◌=?◌}
use aws_dpid.Ring.{square as sqr}
use aws_dpid.Ring.Laws.{mul-one}
use aws_dpid.Ring.Poly.{is_nil}
use aws_dpid.Ring.Solver.{Expr, expr_ops, norm, env, solve}
use aws_dpid.Curve.{Affine, Projective, is_zero, eq, into_affine, affine_zero}
use aws_dpid.Curve.Points.{Affine-ext, at_inverse, into_affine_finite, into_affine_zero, ne_zero}

module _ {B : Type 0} ⦃F : RingOps B⦄ ⦃K : FieldOps B⦄ (D : IsField F K) where
  -- The comparison of `eq` on two finite points.
  cross : Projective B → Projective B → Bool
  cross p q =
      let z1 = sqr p.z in
      let z2 = sqr q.z in
      if not (p.x ⊗ z2 =? q.x ⊗ z1)
      then false
      else if not (z1 ⊗ p.z ⊗ q.y =? z2 ⊗ q.z ⊗ p.y)
      then false
      else true

  eq_lem :
      (p q : Projective B)
      → eq p q ≡ (if is_zero p then is_zero q else if is_zero q then false else cross p q)
  unfolding eq cross
  eq_lem p q = refl

  if-not : (c d : Bool) → (if not c then false else if not d then false else true) ≡ (c && d)
  if-not true true = refl
  if-not true false = refl
  if-not false d = refl

  cross_lem :
      (p q : Projective B)
      → cross p q ≡ (p.x ⊗ sqr q.z =? q.x ⊗ sqr p.z) && (sqr p.z ⊗ p.z ⊗ q.y =? sqr q.z ⊗ q.z ⊗ p.y)
  unfolding cross
  cross_lem p q = if-not _ _

  -- Cross-multiplied coordinates agree exactly when the affine ones do.
  cleared : {a c z w s t : B} → z ⊗ s ≡ 𝟙 → w ⊗ t ≡ 𝟙 → a ⊗ w ≡ c ⊗ z → a ⊗ s ≡ c ⊗ t
  unfolding is_nil norm
  cleared {a} {c} {z} {w} {s} {t} h k e =
      sym (mul-one D.ring (a ⊗ s))
      ∙ ap (λ r. (a ⊗ s) ⊗ r) (sym k)
      ∙ solve D.ring (env (a ∷ s ∷ w ∷ t ∷ []))
          ((Expr.var 0 ⊗ Expr.var 1) ⊗ (Expr.var 2 ⊗ Expr.var 3))
          ((Expr.var 0 ⊗ Expr.var 2) ⊗ (Expr.var 1 ⊗ Expr.var 3)) refl
      ∙ ap (λ r. r ⊗ (s ⊗ t)) e
      ∙ solve D.ring (env (c ∷ z ∷ s ∷ t ∷ []))
          ((Expr.var 0 ⊗ Expr.var 1) ⊗ (Expr.var 2 ⊗ Expr.var 3))
          ((Expr.var 0 ⊗ Expr.var 3) ⊗ (Expr.var 1 ⊗ Expr.var 2)) refl
      ∙ ap (λ r. (c ⊗ t) ⊗ r) h
      ∙ mul-one D.ring (c ⊗ t)

  square_unit : {z s : B} → z ⊗ s ≡ 𝟙 → sqr z ⊗ sqr s ≡ 𝟙
  unfolding is_nil norm
  square_unit {z} {s} h =
      solve D.ring (env (z ∷ s ∷ [])) (sqr (Expr.var 0) ⊗ sqr (Expr.var 1))
        ((Expr.var 0 ⊗ Expr.var 1) ⊗ (Expr.var 0 ⊗ Expr.var 1)) refl
      ∙ ap (λ r. r ⊗ r) h
      ∙ D.ring.one-mul 𝟙

  cube_unit : {z s : B} → z ⊗ s ≡ 𝟙 → (sqr z ⊗ z) ⊗ (sqr s ⊗ s) ≡ 𝟙
  unfolding is_nil norm
  cube_unit {z} {s} h =
      solve D.ring (env (z ∷ s ∷ []))
        ((sqr (Expr.var 0) ⊗ Expr.var 0) ⊗ (sqr (Expr.var 1) ⊗ Expr.var 1))
        ((Expr.var 0 ⊗ Expr.var 1) ⊗ (Expr.var 0 ⊗ Expr.var 1) ⊗ (Expr.var 0 ⊗ Expr.var 1)) refl
      ∙ ap (λ r. r ⊗ r ⊗ r) h
      ∙ ap (λ r. r ⊗ 𝟙) (D.ring.one-mul 𝟙)
      ∙ D.ring.one-mul 𝟙

  inverse_comm : {z s : B} → z ⊗ s ≡ 𝟙 → s ⊗ z ≡ 𝟙
  inverse_comm {z} {s} h = D.ring.mul_comm s z ∙ h

  cross_iff :
      (p q : Projective B) (s t : B)
      → p.z ⊗ s ≡ 𝟙
      → q.z ⊗ t ≡ 𝟙
      → (cross p q ≡ true) ↔ (at_inverse D p s ≡ at_inverse D q t)
  cross_iff p q s t h k = (
    λ e.
        let f = sym (cross_lem p q) ∙ e in
        Affine-ext (cleared (square_unit h) (square_unit k) ((D.eq_iff _ _).0 (and-left _ _ f)))
          (cleared (cube_unit h) (cube_unit k) (
            D.ring.mul_comm p.y (sqr q.z ⊗ q.z)
            ∙ sym ((D.eq_iff _ _).0 (and-right _ _ f))
            ∙ D.ring.mul_comm (sqr p.z ⊗ p.z) q.y))
          refl,
    λ e.
        cross_lem p q
        ∙ ap₂ ◌&&◌
            ((D.eq_iff _ _).1 (
              cleared (inverse_comm (square_unit k)) (inverse_comm (square_unit h)) (λ i. (e i).x)))
            ((D.eq_iff _ _).1 (
              D.ring.mul_comm (sqr p.z ⊗ p.z) q.y
              ∙ sym
                  (cleared (inverse_comm (cube_unit k)) (inverse_comm (cube_unit h)) (λ i. (e i).y))
              ∙ D.ring.mul_comm p.y (sqr q.z ⊗ q.z))),
  )

  eq_finite : (p q : Projective B) → is_zero p ≡ false → is_zero q ≡ false → eq p q ≡ cross p q
  eq_finite p q e f =
      eq_lem p q ∙ ap₂ (λ c d. if c then is_zero q else if d then false else cross p q) e f

  eq_infinite : (p q : Projective B) → is_zero p ≡ true → eq p q ≡ is_zero q
  eq_infinite p q e =
      eq_lem p q ∙ ap (λ c. if c then is_zero q else if is_zero q then false else cross p q) e

  eq_half : (p q : Projective B) → is_zero p ≡ false → is_zero q ≡ true → eq p q ≡ false
  eq_half p q e f =
      eq_lem p q ∙ ap₂ (λ c d. if c then is_zero q else if d then false else cross p q) e f

  ne-zero-at : (p : Projective B) (t : B) → some affine_zero ≢ some (at_inverse D p t)
  unfolding affine_zero
  ne-zero-at p t e = cc (ap (λ (q : Affine B). q.infinity) (some-injective _ _ e))

  -- Over a field, `eq` holds exactly of the projective points with the same affine point.
  pub eq_iff : (p q : Projective B) → (eq p q ≡ true) ↔ (into_affine p ≡ into_affine q)
  unfolding is_zero
  eq_iff p q = elim (Bool-cases (is_zero p)) [
    | inl e ↦ elim (Bool-cases (is_zero q)) [
      | inl f ↦
          (λ _. into_affine_zero D p e ∙ sym (into_affine_zero D q f), λ _. eq_infinite p q e ∙ f)
      | inr f ↦
          let (t, _, k) = D.inverse-ne_zero q.z (ne_zero D f) in
          (
            λ h. absurd (clash (sym h ∙ eq_infinite p q e ∙ f)),
            λ h.
                absurd (
                  ne-zero-at q t (sym (into_affine_zero D p e) ∙ h ∙ into_affine_finite D q t f k)),
          )
    ]
    | inr e ↦
        let (s, _, j) = D.inverse-ne_zero p.z (ne_zero D e) in
        elim (Bool-cases (is_zero q)) [
          | inl f ↦ (
            λ h. absurd (clash (sym h ∙ eq_half p q e f)),
            λ h. absurd (
                ne-zero-at p s
                  (sym (into_affine_zero D q f) ∙ sym h ∙ into_affine_finite D p s e j)),
          )
          | inr f ↦
              let (t, _, k) = D.inverse-ne_zero q.z (ne_zero D f) in
              let (there, back) = cross_iff p q s t j k in
              (
                λ h.
                    into_affine_finite D p s e j
                    ∙ ap {B = Option (Affine B)} some (there (sym (eq_finite p q e f) ∙ h))
                    ∙ sym (into_affine_finite D q t f k),
                λ h.
                    eq_finite p q e f
                    ∙ back (
                        some-injective _ _
                          (sym (into_affine_finite D p s e j) ∙ h ∙ into_affine_finite D q t f k)),
              )
        ]
  ]
    where
      clash : true ≡ false → ⊥
      clash h = cc

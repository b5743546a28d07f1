-- ===== src/Curve/Points.antt =====
-- Jacobian points as representatives of affine points: the two conversions of `curve_impl!`.
use mathlib.Core.Option
use mathlib.Core.Option.{some-injective}
use aws_dpid.Prelude.{
  ◌≡◌, ◌≢◌, refl, sym, ap, ◌∙◌, true, false, inl, inr, if-elim, Bool-cases, some, if◌then◌else◌, [],
  ◌∷◌, Option,
}
use aws_dpid.Ring.{RingOps, FieldOps, IsField, 𝟘, 𝟙, ◌⊗◌, ◌=?◌}
use aws_dpid.Ring.{square as sqr, is_zero as is_zero?}
use aws_dpid.Ring.Laws.{mul-one}
use aws_dpid.Ring.Poly.{is_nil}
use aws_dpid.Ring.Solver.{Expr, expr_ops, norm, env, solve}
use aws_dpid.Curve.{Affine, Projective, is_zero, zero, into_projective, into_affine, affine_zero}

pub Affine-ext :
    {B : Type 0} {p q : Affine B} → p.x ≡ q.x → p.y ≡ q.y → p.infinity ≡ q.infinity → p ≡ q
Affine-ext e f g i = record { x = e i; y = f i; infinity = g i }

module _ {B : Type 0} ⦃F : RingOps B⦄ ⦃K : FieldOps B⦄ (D : IsField F K) where
  pub is_zero-𝟙 : is_zero? (𝟙 {A = B}) ≡ false
  is_zero-𝟙 = elim (Bool-cases (is_zero? (𝟙 {A = B}))) [
    | inl e ↦ absurd (D.one-ne-zero ((D.is_zero_iff 𝟙).0 e))
    | inr e ↦ e
  ]

  pub is_zero-𝟘 : is_zero? (𝟘 {A = B}) ≡ true
  is_zero-𝟘 = (D.is_zero_iff 𝟘).1 refl

  pub ne_zero : {a : B} → is_zero? a ≡ false → a ≢ 𝟘
  ne_zero {a} h e = cc (h, (D.is_zero_iff a).1 e)

  -- The affine point of `p`, given the inverse of its z.
  abbrev pub at_inverse : Projective B → B → Affine B
  at_inverse p t = record { x = p.x ⊗ sqr t; y = p.y ⊗ (sqr t ⊗ t); infinity = false }

  at_inverse-one :
      (p : Projective B) → at_inverse p 𝟙 ≡ record { x = p.x; y = p.y; infinity = false }
  unfolding is_nil norm
  at_inverse-one p =
      Affine-ext (solve D.ring (env (p.x ∷ [])) (Expr.var 0 ⊗ sqr 𝟙) (Expr.var 0) refl)
        (solve D.ring (env (p.y ∷ [])) (Expr.var 0 ⊗ (sqr 𝟙 ⊗ 𝟙)) (Expr.var 0) refl) refl

  pub inverse_unique : {a s t : B} → a ⊗ s ≡ 𝟙 → a ⊗ t ≡ 𝟙 → s ≡ t
  inverse_unique {a} {s} {t} h k =
      sym (mul-one D.ring s)
      ∙ ap (λ r. s ⊗ r) (sym k)
      ∙ sym (D.ring.mul_assoc s a t)
      ∙ ap (λ r. r ⊗ t) (D.ring.mul_comm s a ∙ h)
      ∙ D.ring.one-mul t

  -- `into_affine` on a finite point, on both of its branches.
  pub into_affine_finite :
      (p : Projective B) (t : B)
      → is_zero p ≡ false
      → p.z ⊗ t ≡ 𝟙
      → into_affine p ≡ some (at_inverse p t)
  unfolding into_affine is_zero
  into_affine_finite p t h k = rw h (
      if-elim (λ o. o ≡ some (at_inverse p t)) (p.z =? 𝟙)
        (λ e. ap {B = Option (Affine B)} some (sym (ap (at_inverse p) (unit e) ∙ at_inverse-one p)))
        (λ _.
          let (s, e, f) = D.inverse-ne_zero p.z (ne_zero h) in
          ap (Option.map (at_inverse p)) (e ∙ ap {B = Option B} some (inverse_unique f k))))
    where
      unit : (p.z =? 𝟙) ≡ true → t ≡ 𝟙
      unit e = sym (D.ring.one-mul t) ∙ ap (λ r. r ⊗ t) (sym ((D.eq_iff p.z 𝟙).0 e)) ∙ k

  pub into_affine_zero : (p : Projective B) → is_zero p ≡ true → into_affine p ≡ some affine_zero
  unfolding into_affine
  into_affine_zero p h = rw h refl

  -- `into_affine` never panics.
  pub into_affine_total : (p : Projective B) → (q : Affine B) × (into_affine p ≡ some q)
  unfolding is_zero
  into_affine_total p = elim (Bool-cases (is_zero p)) [
    | inl e ↦ (affine_zero, into_affine_zero p e)
    | inr e ↦
        let (t, _, k) = D.inverse-ne_zero p.z (ne_zero e) in
        (at_inverse p t, into_affine_finite p t e k)
  ]

  abbrev pub finite : Affine B → Projective B
  finite q = record { x = q.x; y = q.y; z = 𝟙 }

  pub into_projective_infinity : (q : Affine B) → q.infinity ≡ true → into_projective q ≡ zero
  unfolding into_projective
  into_projective_infinity q e = ap (λ c. if c then zero else finite q) e

  pub into_projective-finite : (q : Affine B) → q.infinity ≡ false → into_projective q ≡ finite q
  unfolding into_projective
  into_projective-finite q e = ap (λ c. if c then zero else finite q) e

  pub zero-is_zero : is_zero (zero {B = B}) ≡ true
  unfolding is_zero zero
  zero-is_zero = is_zero-𝟘

  pub finite-is_zero : (q : Affine B) → is_zero (finite q) ≡ false
  unfolding is_zero
  finite-is_zero q = is_zero-𝟙

  -- An affine point comes back from its projective form; infinity comes back as the one `zero`.
  pub into_affine-into_projective :
      (q : Affine B)
      → into_affine (into_projective q) ≡ some (if q.infinity then affine_zero else q)
  into_affine-into_projective q = elim (Bool-cases q.infinity) [
    | inl e ↦
        ap into_affine (into_projective_infinity q e)
        ∙ into_affine_zero zero zero-is_zero
        ∙ sym (ap (λ c. some (if c then affine_zero else q)) e)
    | inr e ↦
        ap into_affine (into_projective-finite q e)
        ∙ into_affine_finite (finite q) 𝟙 (finite-is_zero q) (D.ring.one-mul 𝟙)
        ∙ ap {B = Option (Affine B)} some (at_inverse-one (finite q) ∙ Affine-ext refl refl (sym e))
        ∙ sym (ap (λ c. some (if c then affine_zero else q)) e)
  ]

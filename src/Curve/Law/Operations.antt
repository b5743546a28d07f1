-- ===== src/Curve/Law/Operations.antt =====
-- The three operations that add points (pairing/src/bls12_381/ec.rs) by the one law.
use aws_dpid.Prelude.{
  ◌≡◌, ◌≢◌, refl, sym, ap, ◌∙◌, true, false, inl, inr, Bool-cases, if◌then◌else◌, ◌>>=◌, some,
}
use aws_dpid.Ring.{RingOps, FieldOps, IsField, ◌⊗◌, ◌=?◌, square as sqr}
use aws_dpid.Curve.{
  Affine, Projective, is_zero, double, add_assign, add_assign_mixed, scaled, into_affine,
  into_projective, affine_zero,
}
use aws_dpid.Curve.Mixed.{add_assign_mixed_lem}
use aws_dpid.Curve.Points.{into_affine-into_projective}
use aws_dpid.Curve.Law.{chord_tangent}
use aws_dpid.Curve.Law.Correct.{add_assign_lem}

module _ {B : Type 0} ⦃F : RingOps B⦄ ⦃K : FieldOps B⦄ (D : IsField F K)
    (two : F.double F.one ≢ F.zero) where
  -- A point added to itself is doubled.
  add_assign_self : (p : Projective B) → add_assign p p ≡ double p
  unfolding add_assign double scaled
  add_assign_self p = elim (Bool-cases (is_zero p)) [
    | inl e ↦ rw e refl
    | inr e ↦
        let same_x : (p.x ⊗ sqr p.z =? p.x ⊗ sqr p.z) ≡ true = (D.eq_iff _ _).1 refl in
        let same_y : (p.y ⊗ p.z ⊗ sqr p.z =? p.y ⊗ p.z ⊗ sqr p.z) ≡ true = (D.eq_iff _ _).1 refl in
        rw (e, same_x, same_y) refl
  ]

  mixed_law :
      (p : Projective B) (q : Affine B)
      → q.infinity ≡ false
      → into_affine (add_assign_mixed p q) ≡ (into_affine p >>= λ a. chord_tangent a q)
  mixed_law p q e =
      ap into_affine (add_assign_mixed_lem D p q (inl e))
      ∙ (add_assign_lem D two) p (into_projective q)
      ∙ ap (λ o. into_affine p >>= λ a. o >>= λ c. chord_tangent a c)
          (into_affine-into_projective D q ∙ ap (λ c. some (if c then affine_zero else q)) e)

  -- Over a field in which two is not zero, `add_assign`, `double` and, at a finite point,
  -- `add_assign_mixed` are the law of chord and tangent: the affine point of what they return is the sum
  -- of the affine points.
  pub chord_tangent_law :
      (p r : Projective B) (q : Affine B)
      → q.infinity ≡ false
      → (into_affine (add_assign p r)
          ≡ (into_affine p >>= λ a. into_affine r >>= λ c. chord_tangent a c))
        × (into_affine (double p)
            ≡ (into_affine p >>= λ a. into_affine p >>= λ c. chord_tangent a c))
        × (into_affine (add_assign_mixed p q) ≡ (into_affine p >>= λ a. chord_tangent a q))
  chord_tangent_law p r q e = (
    (add_assign_lem D two) p r,
    ap into_affine (sym (add_assign_self p)) ∙ (add_assign_lem D two) p p,
    mixed_law p q e,
  )

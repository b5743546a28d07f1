-- ===== src/Tower/Fq6/Inverse.antt =====
-- `Fq6` is a field: its tests, and `inverse` on every element.
use aws_dpid.Prelude.{
  ◌≡◌, ◌≢◌, ◌↔◌, refl, sym, ap, ap₂, ◌∙◌, true, Option, none, some, [], ◌∷◌, arith,
}
use mathlib.Core.Option.{some-injective}
use aws_dpid.Ring.{RingOps, FieldOps, NonresidueOps, IsField, 𝟘, 𝟙, ◌⊕◌, ◌⊖◌, ◌⊗◌, twist}
use aws_dpid.Ring.{negate as neg, inverse as inverse?}
use aws_dpid.Ring.Solver.{Expr, expr_ops, expr_nonresidue, norm, env, solve, solve_twisted}
use aws_dpid.Ring.Laws.{eq_of_add-negate, zero-mul}
use aws_dpid.Ring.Poly.{is_nil}
use aws_dpid.Ring.Field.{noncube_form, inverse-some, eq-zero_of_square}
use aws_dpid.Tower.Fq6.{
  Fq6, zero, one, mul_assign, adjoint, denominator, rescale, is_zero, eq, inverse, fq6_ops,
  fq6_field,
}
use aws_dpid.Tower.Fq6.Ring.{Fq6-ext, same, symbol, solve_fq6, ring}
use aws_dpid.Tower.Fq6.Extension.{embed, adjoint-adjoint}

abbrev Y : Expr
Y = Expr.var 1

abbrev Z : Expr
Z = Expr.var 2

module _ {B : Type 0} ⦃F : RingOps B⦄ ⦃K : FieldOps B⦄ ⦃N : NonresidueOps B⦄ (D : IsField F K)
    (ξ : B) (twists : (b : B) → N.mul_by_nonresidue b ≡ ξ ⊗ b) where
  is_zero_iff : (a : Fq6 B) → (is_zero a ≡ true) ↔ (a ≡ 𝟘)
  unfolding is_zero zero
  is_zero_iff a = (
    λ h.
        Fq6-ext ((D.is_zero_iff a.c0).0 (ground arith)) ((D.is_zero_iff a.c1).0 (ground arith))
          ((D.is_zero_iff a.c2).0 (ground arith)),
    λ h. rw (
      (D.is_zero_iff a.c0).1 (λ i. (h i).c0),
      (D.is_zero_iff a.c1).1 (λ i. (h i).c1),
      (D.is_zero_iff a.c2).1 (λ i. (h i).c2),
    ),
  )

  eq_iff : (a b : Fq6 B) → (eq a b ≡ true) ↔ (a ≡ b)
  unfolding eq
  eq_iff a b = (
    λ h.
        Fq6-ext ((D.eq_iff a.c0 b.c0).0 (ground arith)) ((D.eq_iff a.c1 b.c1).0 (ground arith))
          ((D.eq_iff a.c2 b.c2).0 (ground arith)),
    λ h. rw (
      (D.eq_iff a.c0 b.c0).1 (λ i. (h i).c0),
      (D.eq_iff a.c1 b.c1).1 (λ i. (h i).c1),
      (D.eq_iff a.c2 b.c2).1 (λ i. (h i).c2),
    ),
  )

  scaled : (a : Fq6 B) (t : B) → Fq6 B
  scaled a t = record { c0 = t ⊗ (adjoint a).c0; c1 = t ⊗ (adjoint a).c1; c2 = t ⊗ (adjoint a).c2 }

  mul-scaled : (a : Fq6 B) (t : B) → a ⊗ scaled a t ≡ embed (denominator a ⊗ t)
  unfolding same mul_assign scaled adjoint denominator embed
  mul-scaled a t =
      solve_fq6 D.ring ξ twists (env (a.c0 ∷ a.c1 ∷ a.c2 ∷ t ∷ []))
        (symbol 0 ⊗ record {
          c0 = Expr.var 3 ⊗ (adjoint (symbol 0)).c0;
          c1 = Expr.var 3 ⊗ (adjoint (symbol 0)).c1;
          c2 = Expr.var 3 ⊗ (adjoint (symbol 0)).c2;
        })
        (embed (denominator (symbol 0) ⊗ Expr.var 3)) refl

  inverse-zero : inverse (zero {B = B}) ≡ none
  unfolding inverse zero denominator adjoint rescale is_nil norm
  inverse-zero =
      ap (rescale (adjoint (zero {B = B}))) (ap (λ x. inverse? x) vanishes ∙ D.inverse-zero)
    where
      vanishes : denominator (zero {B = B}) ≡ 𝟘
      vanishes =
          solve_twisted D.ring N.mul_by_nonresidue ξ twists (env []) (denominator zero) 𝟘 refl

  inverse-eq-some :
      (a : Fq6 B) {t : B} → inverse? (denominator a) ≡ some t → inverse a ≡ some (scaled a t)
  unfolding inverse scaled rescale
  inverse-eq-some a h = ap (rescale (adjoint a)) h

  rescale-some :
      (a : Fq6 B) (o : Option B) {b : Fq6 B}
      → rescale (adjoint a) o ≡ some b
      → (t : B) × (o ≡ some t) × (scaled a t ≡ b)
  unfolding rescale scaled
  rescale-some a (some t) h = (t, refl, some-injective _ _ h)
  rescale-some a none h = cc

  -- Where `inverse` returns, it returns an inverse, whatever the nonresidue is.
  pub inverse-mul : (a : Fq6 B) {b : Fq6 B} → inverse a ≡ some b → a ⊗ b ≡ 𝟙
  unfolding inverse embed one
  inverse-mul a h =
      let (t, p, q) = rescale-some a (inverse? (denominator a)) h in
      ap (λ x. a ⊗ x) (sym q) ∙ mul-scaled a t ∙ ap embed (inverse-some D (denominator a) p)

  -- The elements that the adjoint sends to zero.
  module _ (no_root : (b : B) → b ⊗ b ⊗ b ≢ ξ) where
    cubes : (b : Fq6 B) → adjoint b ≡ 𝟘 → b.c1 ⊗ b.c1 ⊗ b.c1 ≡ ξ ⊗ (b.c2 ⊗ b.c2 ⊗ b.c2)
    unfolding adjoint zero is_nil norm
    cubes b h =
        eq_of_add-negate D.ring _ _ (
          solve_twisted D.ring N.mul_by_nonresidue ξ twists (env (b.c0 ∷ b.c1 ∷ b.c2 ∷ []))
            (Y ⊗ Y ⊗ Y ⊕ neg (twist (Z ⊗ Z ⊗ Z)))
            (Y ⊗ (adjoint (symbol 0)).c2 ⊖ Z ⊗ (adjoint (symbol 0)).c1) refl
          ∙ ap₂ (λ s t. b.c1 ⊗ s ⊖ b.c2 ⊗ t) (λ i. (h i).c2) (λ i. (h i).c1)
          ∙ solve D.ring (env (b.c0 ∷ b.c1 ∷ b.c2 ∷ [])) (Y ⊗ 𝟘 ⊖ Z ⊗ 𝟘) 𝟘 refl)
        ∙ twists (b.c2 ⊗ b.c2 ⊗ b.c2)

    adjoint-eq_zero : (b : Fq6 B) → adjoint b ≡ 𝟘 → b ≡ 𝟘
    unfolding adjoint zero is_nil norm
    adjoint-eq_zero b h =
        let (y0, z0) = noncube_form D ξ no_root b.c1 b.c2 (cubes b h) in
        Fq6-ext
          (eq-zero_of_square D b.c0 (
            solve_twisted D.ring N.mul_by_nonresidue ξ twists (env (b.c0 ∷ b.c1 ∷ b.c2 ∷ []))
              (Expr.var 0 ⊗ Expr.var 0) ((adjoint (symbol 0)).c0 ⊕ twist Z ⊗ Y) refl
            ∙ ap₂ (λ s t. s ⊕ twist b.c2 ⊗ t) (λ i. (h i).c0) y0
            ∙ solve_twisted D.ring N.mul_by_nonresidue ξ twists (env (b.c0 ∷ b.c1 ∷ b.c2 ∷ []))
                (𝟘 ⊕ twist Z ⊗ 𝟘) 𝟘 refl))
          y0 z0

    denominator-eq_zero : (a : Fq6 B) → denominator a ≡ 𝟘 → a ≡ 𝟘
    unfolding embed zero
    denominator-eq_zero a h = adjoint-eq_zero a (
        adjoint-eq_zero (adjoint a) (
          adjoint-adjoint D.ring ξ twists a
          ∙ ap (λ x. embed x ⊗ a) h
          ∙ zero-mul (ring D.ring ξ twists) a))

    inverse-ne_zero : (a : Fq6 B) → a ≢ 𝟘 → (b : Fq6 B) × (inverse a ≡ some b) × (a ⊗ b ≡ 𝟙)
    inverse-ne_zero a n =
        let (t, p, _) = D.inverse-ne_zero (denominator a) (λ e. n (denominator-eq_zero a e)) in
        let e : inverse a ≡ some (scaled a t) = inverse-eq-some a p in
        (scaled a t, e, inverse-mul a e)

    -- Where the nonresidue is no cube in `Fq2`, the operations of `Fq6` are those of a field.
    pub fq6-IsField : IsField (fq6_ops {B = B}) fq6_field
    unfolding zero one
    fq6-IsField = record {
      ring = ring D.ring ξ twists;
      is_zero_iff = is_zero_iff;
      eq_iff = eq_iff;
      one-ne-zero = λ e. D.one-ne-zero (λ i. (e i).c0);
      inverse-zero = inverse-zero;
      inverse-ne_zero = inverse-ne_zero;
    }

-- ===== src/Tower/Fq12/Inverse.antt =====
-- `Fq12` is a field: its tests, and `inverse` on every element.
use mathlib.Core.Option
use aws_dpid.Prelude.{◌≡◌, ◌≢◌, ◌↔◌, refl, sym, ap, ◌∙◌, true, none, some, [], ◌∷◌, arith}
use aws_dpid.Ring.{RingOps, FieldOps, NonresidueOps, IsField, 𝟘, 𝟙, ◌⊕◌, ◌⊖◌, ◌⊗◌, twist}
use aws_dpid.Ring.{negate as neg, square as sqr, inverse as inverse?}
use aws_dpid.Ring.Solver.{Expr, expr_ops, expr_nonresidue, norm, env, solve_twisted}
use aws_dpid.Ring.Laws.{eq_of_add-negate}
use aws_dpid.Ring.Poly.{is_nil}
use aws_dpid.Ring.Field.{nonsquare_form, inverse-some}
use aws_dpid.Tower.Fq12.{Fq12, zero, one, mul_assign, is_zero, eq, inverse, fq12_ops, fq12_field}
use aws_dpid.Tower.Fq12.Ring.{Fq12-ext, same, symbol, solve_fq12, ring}

module _ {C : Type 0} ⦃F : RingOps C⦄ ⦃K : FieldOps C⦄ ⦃N : NonresidueOps C⦄ (D : IsField F K)
    (β : C) (twists : (c : C) → N.mul_by_nonresidue c ≡ β ⊗ c) where
  is_zero_iff : (a : Fq12 C) → (is_zero a ≡ true) ↔ (a ≡ 𝟘)
  unfolding is_zero zero
  is_zero_iff a = (
    λ h. Fq12-ext ((D.is_zero_iff a.c0).0 (ground arith)) ((D.is_zero_iff a.c1).0 (ground arith)),
    λ h. rw ((D.is_zero_iff a.c0).1 (λ i. (h i).c0), (D.is_zero_iff a.c1).1 (λ i. (h i).c1)),
  )

  eq_iff : (a b : Fq12 C) → (eq a b ≡ true) ↔ (a ≡ b)
  unfolding eq
  eq_iff a b = (
    λ h. Fq12-ext ((D.eq_iff a.c0 b.c0).0 (ground arith)) ((D.eq_iff a.c1 b.c1).0 (ground arith)),
    λ h. rw ((D.eq_iff a.c0 b.c0).1 (λ i. (h i).c0), (D.eq_iff a.c1 b.c1).1 (λ i. (h i).c1)),
  )

  -- What `inverse` inverts in `Fq6`.
  norm_of : Fq12 C → C
  norm_of a = sqr a.c0 ⊖ twist (sqr a.c1)

  scaled : Fq12 C → C → Fq12 C
  scaled a t = record { c0 = t ⊗ a.c0; c1 = neg (t ⊗ a.c1) }

  inverse_lem : (a : Fq12 C) → inverse a ≡ Option.map (scaled a) (inverse? (norm_of a))
  unfolding inverse scaled norm_of
  inverse_lem a = refl

  mul-scaled : (a : Fq12 C) (t : C) → a ⊗ scaled a t ≡ record { c0 = norm_of a ⊗ t; c1 = 𝟘 }
  unfolding same mul_assign scaled norm_of
  mul-scaled a t =
      solve_fq12 D.ring β twists (env (a.c0 ∷ a.c1 ∷ t ∷ []))
        (symbol 0 ⊗ record { c0 = Expr.var 2 ⊗ Expr.var 0; c1 = neg (Expr.var 2 ⊗ Expr.var 1) })
        (record { c0 = (sqr (Expr.var 0) ⊖ twist (sqr (Expr.var 1))) ⊗ Expr.var 2; c1 = 𝟘 }) refl

  inverse-zero : inverse (zero {C = C}) ≡ none
  unfolding zero norm_of is_nil norm
  inverse-zero =
      inverse_lem zero
      ∙ ap (Option.map (scaled zero)) (ap (λ x. inverse? x) vanishes ∙ D.inverse-zero)
    where
      vanishes : norm_of (zero {C = C}) ≡ 𝟘
      vanishes =
          solve_twisted D.ring N.mul_by_nonresidue β twists (env []) (sqr 𝟘 ⊖ twist (sqr 𝟘)) 𝟘 refl

  -- Where `inverse` returns, it returns an inverse, whatever the nonresidue is.
  pub inverse-mul : (a : Fq12 C) {b : Fq12 C} → inverse a ≡ some b → a ⊗ b ≡ 𝟙
  unfolding one
  inverse-mul a h =
      let (t, p, q) =
        (Option.map-eq-some_iff (scaled a) (inverse? (norm_of a))).0 (sym (inverse_lem a) ∙ h) in
      ap (λ x. a ⊗ x) (sym q) ∙ mul-scaled a t ∙ Fq12-ext (inverse-some D (norm_of a) p) refl

  module _ (no_root : (c : C) → c ⊗ c ≢ β) where
    norm-eq_zero : (a : Fq12 C) → norm_of a ≡ 𝟘 → a ≡ 𝟘
    unfolding zero norm_of is_nil norm
    norm-eq_zero a h =
        let (p, q) = nonsquare_form D β no_root a.c0 a.c1 (
          eq_of_add-negate D.ring (a.c0 ⊗ a.c0) (twist (a.c1 ⊗ a.c1)) (
            solve_twisted D.ring N.mul_by_nonresidue β twists (env (a.c0 ∷ a.c1 ∷ []))
              (Expr.var 0 ⊗ Expr.var 0 ⊕ neg (twist (Expr.var 1 ⊗ Expr.var 1)))
              (sqr (Expr.var 0) ⊖ twist (sqr (Expr.var 1))) refl
            ∙ h)
          ∙ twists (a.c1 ⊗ a.c1)) in
        Fq12-ext p q

    inverse-ne_zero : (a : Fq12 C) → a ≢ 𝟘 → (b : Fq12 C) × (inverse a ≡ some b) × (a ⊗ b ≡ 𝟙)
    inverse-ne_zero a n =
        let (t, p, _) = D.inverse-ne_zero (norm_of a) (λ e. n (norm-eq_zero a e)) in
        let e : inverse a ≡ some (scaled a t) = inverse_lem a ∙ ap (Option.map (scaled a)) p in
        (scaled a t, e, inverse-mul a e)

    -- Where `v` is no square in `Fq6`, the operations of `Fq12` are those of a field.
    pub fq12-IsField : IsField (fq12_ops {C = C}) fq12_field
    unfolding zero one
    fq12-IsField = record {
      ring = ring D.ring β twists;
      is_zero_iff = is_zero_iff;
      eq_iff = eq_iff;
      one-ne-zero = λ e. D.one-ne-zero (λ i. (e i).c0);
      inverse-zero = inverse-zero;
      inverse-ne_zero = inverse-ne_zero;
    }

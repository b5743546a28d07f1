-- ===== src/Tower/Fq2/Inverse.antt =====
-- `Fq2` is a field: its tests, and `inverse` on every element.
use mathlib.Core.Option
use aws_dpid.Prelude.{◌≡◌, ◌≢◌, ◌↔◌, refl, sym, ap, ◌∙◌, true, none, some, [], ◌∷◌, arith}
use aws_dpid.Ring.{RingOps, FieldOps, IsField, 𝟘, 𝟙, ◌⊕◌, ◌⊗◌}
use aws_dpid.Ring.{negate as neg, square as sqr, inverse as inverse?}
use aws_dpid.Ring.Solver.{Expr, expr_ops, norm as normal, env, solve}
use aws_dpid.Ring.Laws.{eq_of_add-negate}
use aws_dpid.Ring.Poly.{is_nil}
use aws_dpid.Ring.Field.{nonsquare_form, inverse-some}
use aws_dpid.Tower.Fq2.{Fq2, zero, one, mul_assign, is_zero, eq, inverse, fq2_ops, fq2_field}
use aws_dpid.Tower.Fq2.Ring.{Fq2-ext, same, symbol, solve_fq2, ring}

module _ {A : Type 0} ⦃F : RingOps A⦄ ⦃K : FieldOps A⦄ (D : IsField F K) where
  is_zero_iff : (a : Fq2 A) → (is_zero a ≡ true) ↔ (a ≡ 𝟘)
  unfolding is_zero zero
  is_zero_iff a = (
    λ h. Fq2-ext ((D.is_zero_iff a.c0).0 (ground arith)) ((D.is_zero_iff a.c1).0 (ground arith)),
    λ h. rw ((D.is_zero_iff a.c0).1 (λ i. (h i).c0), (D.is_zero_iff a.c1).1 (λ i. (h i).c1)),
  )

  eq_iff : (a b : Fq2 A) → (eq a b ≡ true) ↔ (a ≡ b)
  unfolding eq
  eq_iff a b = (
    λ h. Fq2-ext ((D.eq_iff a.c0 b.c0).0 (ground arith)) ((D.eq_iff a.c1 b.c1).0 (ground arith)),
    λ h. rw ((D.eq_iff a.c0 b.c0).1 (λ i. (h i).c0), (D.eq_iff a.c1 b.c1).1 (λ i. (h i).c1)),
  )

  inverse-zero : inverse (zero {A = A}) ≡ none
  unfolding inverse zero is_nil normal
  inverse-zero =
      ap (Option.map (λ t. record { c0 = 𝟘 ⊗ t; c1 = neg (𝟘 ⊗ t) }))
        (ap (λ x. inverse? x) (solve D.ring (env []) (sqr 𝟘 ⊕ sqr 𝟘) 𝟘 refl) ∙ D.inverse-zero)

  -- Where `inverse` returns, it returns an inverse, whatever -1 is.
  pub inverse-mul : (a : Fq2 A) {b : Fq2 A} → inverse a ≡ some b → a ⊗ b ≡ 𝟙
  unfolding inverse same mul_assign one
  inverse-mul a {b} h =
      let (t, p, q) = (Option.map-eq-some_iff _ (inverse? (sqr a.c0 ⊕ sqr a.c1))).0 h in
      ap (λ x. a ⊗ x) (sym q)
      ∙ solve_fq2 D.ring (env (a.c0 ∷ a.c1 ∷ t ∷ []))
          (symbol 0 ⊗ record { c0 = Expr.var 0 ⊗ Expr.var 2; c1 = neg (Expr.var 1 ⊗ Expr.var 2) })
          (record { c0 = (sqr (Expr.var 0) ⊕ sqr (Expr.var 1)) ⊗ Expr.var 2; c1 = Expr.zero }) refl
      ∙ Fq2-ext (inverse-some D (sqr a.c0 ⊕ sqr a.c1) p) refl

  module _ (no_root : (a : A) → a ⊗ a ≢ neg 𝟙) where
    norm-eq_zero : (a : Fq2 A) → sqr a.c0 ⊕ sqr a.c1 ≡ 𝟘 → a ≡ 𝟘
    unfolding zero is_nil normal
    norm-eq_zero a h =
        let (p, q) = nonsquare_form D (neg 𝟙) no_root a.c0 a.c1 (
          eq_of_add-negate D.ring (a.c0 ⊗ a.c0) (neg 𝟙 ⊗ (a.c1 ⊗ a.c1)) (
            solve D.ring (env (a.c0 ∷ a.c1 ∷ []))
              (Expr.var 0 ⊗ Expr.var 0 ⊕ neg (neg 𝟙 ⊗ (Expr.var 1 ⊗ Expr.var 1)))
              (sqr (Expr.var 0) ⊕ sqr (Expr.var 1)) refl
            ∙ h)) in
        Fq2-ext p q

    inverse-ne_zero : (a : Fq2 A) → a ≢ 𝟘 → (b : Fq2 A) × (inverse a ≡ some b) × (a ⊗ b ≡ 𝟙)
    unfolding inverse
    inverse-ne_zero a n =
        let (t, p, _) = D.inverse-ne_zero (sqr a.c0 ⊕ sqr a.c1) (λ e. n (norm-eq_zero a e)) in
        let b : Fq2 A = record { c0 = a.c0 ⊗ t; c1 = neg (a.c1 ⊗ t) } in
        let e : inverse a ≡ some b =
          ap (Option.map (λ t. record { c0 = a.c0 ⊗ t; c1 = neg (a.c1 ⊗ t) })) p in
        (b, e, inverse-mul a e)

    -- Where -1 is no square in `Fq`, the operations of `Fq2` are those of a field.
    pub fq2-IsField : IsField (fq2_ops {A = A}) fq2_field
    unfolding zero one
    fq2-IsField = record {
      ring = ring D.ring;
      is_zero_iff = is_zero_iff;
      eq_iff = eq_iff;
      one-ne-zero = λ e. D.one-ne-zero (λ i. (e i).c0);
      inverse-zero = inverse-zero;
      inverse-ne_zero = inverse-ne_zero;
    }

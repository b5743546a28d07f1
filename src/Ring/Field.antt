-- ===== src/Ring/Field.antt =====
-- Consequences of the field laws: no zero divisors, and what a nonresidue gives.
use aws_dpid.Prelude.{◌≡◌, ◌≢◌, ◌⊎◌, inl, inr, refl, sym, ap, ◌∙◌, Bool-cases, some, [], ◌∷◌}
use aws_dpid.Ring.{RingOps, FieldOps, IsField, 𝟘, 𝟙, ◌⊗◌}
use aws_dpid.Ring.Laws.{mul-zero, zero-mul, mul-one}
use aws_dpid.Ring.Poly.{is_nil}
use aws_dpid.Ring.Solver.{Expr, expr_ops, norm, env, solve}

module _ {A : Type 0} ⦃F : RingOps A⦄ ⦃K : FieldOps A⦄ (D : IsField F K) where
  pub zero-cases : (a : A) → (a ≡ 𝟘) ⊎ (a ≢ 𝟘)
  zero-cases a = elim (Bool-cases (K.is_zero a)) [
    | inl e ↦ inl ((D.is_zero_iff a).0 e)
    | inr e ↦ inr (λ z. cc (e, (D.is_zero_iff a).1 z))
  ]

  -- A field has no zero divisors.
  pub eq-zero_of_mul : (a b : A) → b ≢ 𝟘 → a ⊗ b ≡ 𝟘 → a ≡ 𝟘
  unfolding is_nil norm
  eq-zero_of_mul a b n h =
      let (t, _, e) = D.inverse-ne_zero b n in
      sym (mul-one D.ring a)
      ∙ ap (λ x. a ⊗ x) (sym e)
      ∙ sym (D.ring.mul_assoc a b t)
      ∙ ap (λ x. x ⊗ t) h
      ∙ zero-mul D.ring t

  pub mul-eq-zero : (a b : A) → a ⊗ b ≡ 𝟘 → (a ≡ 𝟘) ⊎ (b ≡ 𝟘)
  mul-eq-zero a b h = elim (zero-cases b) [ inl e ↦ inr e | inr n ↦ inl (eq-zero_of_mul a b n h) ]

  pub eq-zero_of_square : (a : A) → a ⊗ a ≡ 𝟘 → a ≡ 𝟘
  eq-zero_of_square a h = elim (mul-eq-zero a a h) [ inl e ↦ e | inr e ↦ e ]

  pub eq-zero_of_cube : (a : A) → a ⊗ a ⊗ a ≡ 𝟘 → a ≡ 𝟘
  eq-zero_of_cube a h = elim (mul-eq-zero (a ⊗ a) a h) [ inl e ↦ eq-zero_of_square a e | inr e ↦ e ]

  -- Where `β` is no square, `a^2 - β b^2` vanishes at zero only.
  pub nonsquare_form :
      (β : A) → ((a : A) → a ⊗ a ≢ β) → (a b : A) → a ⊗ a ≡ β ⊗ (b ⊗ b) → (a ≡ 𝟘) × (b ≡ 𝟘)
  unfolding is_nil norm
  nonsquare_form β no_root a b h = elim (zero-cases b) [
    | inl e ↦ (
      eq-zero_of_square a
          (h ∙ ap (λ x. β ⊗ (x ⊗ x)) e ∙ ap (λ x. β ⊗ x) (mul-zero D.ring 𝟘) ∙ mul-zero D.ring β),
      e,
    )
    | inr n ↦
        let (t, _, e) = D.inverse-ne_zero b n in
        absurd (
          no_root (a ⊗ t) (
            solve D.ring (env (a ∷ t ∷ [])) ((Expr.var 0 ⊗ Expr.var 1) ⊗ (Expr.var 0 ⊗ Expr.var 1))
              ((Expr.var 0 ⊗ Expr.var 0) ⊗ (Expr.var 1 ⊗ Expr.var 1)) refl
            ∙ ap (λ x. x ⊗ (t ⊗ t)) h
            ∙ solve D.ring (env (β ∷ b ∷ t ∷ []))
                ((Expr.var 0 ⊗ (Expr.var 1 ⊗ Expr.var 1)) ⊗ (Expr.var 2 ⊗ Expr.var 2))
                (Expr.var 0 ⊗ ((Expr.var 1 ⊗ Expr.var 2) ⊗ (Expr.var 1 ⊗ Expr.var 2))) refl
            ∙ ap (λ x. β ⊗ (x ⊗ x)) e
            ∙ ap (λ x. β ⊗ x) (D.ring.one-mul 𝟙)
            ∙ mul-one D.ring β))
  ]

  -- Where `ξ` is no cube, `a^3 - ξ b^3` vanishes at zero only.
  pub noncube_form :
      (ξ : A)
      → ((a : A) → a ⊗ a ⊗ a ≢ ξ)
      → (a b : A) → a ⊗ a ⊗ a ≡ ξ ⊗ (b ⊗ b ⊗ b)
      → (a ≡ 𝟘) × (b ≡ 𝟘)
  unfolding is_nil norm
  noncube_form ξ no_root a b h = elim (zero-cases b) [
    | inl e ↦ (
      eq-zero_of_cube a (
          h
          ∙ ap (λ x. ξ ⊗ (x ⊗ x ⊗ x)) e
          ∙ ap (λ x. ξ ⊗ x) (mul-zero D.ring (𝟘 ⊗ 𝟘))
          ∙ mul-zero D.ring ξ),
      e,
    )
    | inr n ↦
        let (t, _, e) = D.inverse-ne_zero b n in
        let s = Expr.var 0 ⊗ Expr.var 1 in
        let r = Expr.var 1 ⊗ Expr.var 2 in
        absurd (
          no_root (a ⊗ t) (
            solve D.ring (env (a ∷ t ∷ [])) (s ⊗ s ⊗ s)
              ((Expr.var 0 ⊗ Expr.var 0 ⊗ Expr.var 0) ⊗ (Expr.var 1 ⊗ Expr.var 1 ⊗ Expr.var 1)) refl
            ∙ ap (λ x. x ⊗ (t ⊗ t ⊗ t)) h
            ∙ solve D.ring (env (ξ ∷ b ∷ t ∷ []))
                ((Expr.var 0 ⊗ (Expr.var 1 ⊗ Expr.var 1 ⊗ Expr.var 1))
                  ⊗ (Expr.var 2 ⊗ Expr.var 2 ⊗ Expr.var 2))
                (Expr.var 0 ⊗ (r ⊗ r ⊗ r)) refl
            ∙ ap (λ x. ξ ⊗ (x ⊗ x ⊗ x)) e
            ∙ ap (λ x. ξ ⊗ x) (ap (λ x. x ⊗ 𝟙) (D.ring.one-mul 𝟙) ∙ D.ring.one-mul 𝟙)
            ∙ mul-one D.ring ξ))
  ]

  -- What `inverse` returns is an inverse, and it returns at everything but zero.
  pub inverse-some : (a : A) {b : A} → K.inverse a ≡ some b → a ⊗ b ≡ 𝟙
  inverse-some a {b} h = elim (zero-cases a) [
    | inl e ↦ cc (h, D.inverse-zero, e)
    | inr n ↦ let (c, p, q) = D.inverse-ne_zero a n in cc (h, p, q)
  ]

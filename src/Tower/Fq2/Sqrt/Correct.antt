-- ===== src/Tower/Fq2/Sqrt/Correct.antt =====
-- `sqrt` of pairing/src/bls12_381/fq2.rs returns a square root wherever there is one.
use aws_dpid.Prelude.{
  ℕ, ◌≡◌, ◌≢◌, inl, inr, refl, sym, ap, ap₂, ◌∙◌, false, Bool-cases, if-elim, if◌then◌else◌, Option,
  none, some, List, [], ◌∷◌,
}
use mathlib.Core.Option.{some-injective, none-ne-some}
use aws_dpid.Ring.{
  RingOps, FieldOps, IsField, IsSqrt, 𝟘, 𝟙, ◌⊕◌, ◌⊗◌, ◌=?◌, negate as neg, square as sqr,
}
use aws_dpid.Ring.Laws.{zero-mul, eq-negate}
use aws_dpid.Ring.Poly.{is_nil}
use aws_dpid.Ring.Solver.{Expr, expr_ops, norm as normal, env, solve}
use aws_dpid.Tower.Fq2.{Fq2, zero, one, square, fq2_ops, fq2_field, is_zero, frobenius_map}
use aws_dpid.Tower.Fq2.Ring.{same, values, solve_fq2}
use aws_dpid.Tower.Fq2.Extension.{u, conjugate, square-u}
use aws_dpid.Tower.Fq2.Sqrt.{sqrt, root_of}
use aws_dpid.Ring.Field.{zero-cases}
use aws_dpid.Tower.Fq2.Sqrt.Powers.{
  IsPow, R2, D2, conjugate-mul_fq2, conjugate-conjugate_fq2, conjugate-suc, frobenius-conjugate,
  minus, minus_lem, fixes, alpha-half, fermat, square-a0, plus_or_minus,
}

module _ {A : Type 0} ⦃F : RingOps A⦄ ⦃K : FieldOps A⦄ (D : IsField F K)
    (minus_one : (a : A) → a ⊗ a ≢ neg 𝟙) {pow : Fq2 A → ℕ → Fq2 A} {quarter half : ℕ}
    {coeffs : List A} {negative_one : A} (P : IsPow F pow quarter half coeffs negative_one) where
  -- Where `alpha` is -1, the factor `u` turns the sign.
  root-minus : (a a1 : Fq2 A) → sqr a1 ⊗ a ≡ neg 𝟙 → sqr (a1 ⊗ a ⊗ u) ≡ a
  unfolding is_nil normal
  root-minus a a1 h =
      solve (R2 D minus_one P) (env (a1 ∷ a ∷ u ∷ [])) (sqr (Expr.var 0 ⊗ Expr.var 1 ⊗ Expr.var 2))
        ((sqr (Expr.var 0) ⊗ Expr.var 1) ⊗ Expr.var 1 ⊗ sqr (Expr.var 2)) refl
      ∙ ap₂ (λ x y. x ⊗ a ⊗ y) h (square-u D.ring)
      ∙ solve (R2 D minus_one P) (env (a ∷ [])) (neg 𝟙 ⊗ Expr.var 0 ⊗ neg 𝟙) (Expr.var 0) refl

  -- Elsewhere the power of `alpha + 1` does.
  root-other :
      (a a1 : Fq2 A)
      → let alpha = sqr a1 ⊗ a in
        conjugate alpha ⊗ alpha ≡ 𝟙 → alpha ⊕ 𝟙 ≢ 𝟘 → sqr (a1 ⊗ a ⊗ pow (alpha ⊕ 𝟙) half) ≡ a
  unfolding is_nil normal
  root-other a a1 h n =
      solve (R2 D minus_one P) (env (a1 ∷ a ∷ b ∷ [])) (sqr (Expr.var 0 ⊗ Expr.var 1 ⊗ Expr.var 2))
        ((sqr (Expr.var 0) ⊗ Expr.var 1 ⊗ (Expr.var 2 ⊗ Expr.var 2)) ⊗ Expr.var 1) refl
      ∙ ap (λ x. x ⊗ a) ((fixes D minus_one P) n fixed)
      ∙ (R2 D minus_one P).one-mul a
    where
      alpha : Fq2 A
      alpha = sqr a1 ⊗ a

      b : Fq2 A
      b = pow (alpha ⊕ 𝟙) half

      fixed : alpha ⊗ (b ⊗ b) ⊗ (alpha ⊕ 𝟙) ≡ alpha ⊕ 𝟙
      fixed =
          (R2 D minus_one P).mul_assoc alpha (b ⊗ b) (alpha ⊕ 𝟙)
          ∙ ap (λ x. alpha ⊗ x)
              ((fermat D minus_one P) (alpha ⊕ 𝟙) ∙ (conjugate-suc D minus_one P) alpha)
          ∙ solve (R2 D minus_one P) (env (alpha ∷ conjugate alpha ∷ []))
              (Expr.var 0 ⊗ (Expr.var 1 ⊕ 𝟙)) (Expr.var 1 ⊗ Expr.var 0 ⊕ Expr.var 0) refl
          ∙ ap (λ x. x ⊕ alpha) h
          ∙ (R2 D minus_one P).add_comm 𝟙 alpha

  root_of-square :
      (a a1 : Fq2 A)
      → let alpha = sqr a1 ⊗ a in
        conjugate alpha ⊗ alpha ≡ 𝟙 → sqr (root_of pow half negative_one a a1 alpha) ≡ a
  unfolding root_of u minus
  root_of-square a a1 h =
      if-elim (λ r. sqr r ≡ a) (sqr a1 ⊗ a =? minus_)
        (λ e. root-minus a a1 (((D2 D minus_one P).eq_iff _ _).0 e ∙ (minus_lem D minus_one P)))
        (λ e. root-other a a1 h (λ z.
          let f =
            eq-negate (R2 D minus_one P) 𝟙 (sqr a1 ⊗ a)
              ((R2 D minus_one P).add_comm 𝟙 (sqr a1 ⊗ a) ∙ z)
            ∙ sym (minus_lem D minus_one P) in
          cc (e, ((D2 D minus_one P).eq_iff (sqr a1 ⊗ a) minus_).1 f)))
    where
      minus_ : Fq2 A
      minus_ = record { c0 = negative_one; c1 = 𝟘 }

  module _ (a : Fq2 A) where
    alpha : Fq2 A
    alpha = sqr (pow a quarter) ⊗ a

    result : Option (Fq2 A)
    result = sqrt pow quarter half coeffs negative_one a

    a0 : Fq2 A
    a0 = frobenius_map coeffs 1 alpha ⊗ alpha

    root : Fq2 A
    root = root_of pow half negative_one a (pow a quarter) alpha

    sqrt_branches :
        result
        ≡ (if is_zero a then some zero else if a0 =? (minus D minus_one P) then none else some root)
    unfolding sqrt alpha result a0 root minus
    sqrt_branches = refl

    a0_lem : a0 ≡ conjugate (pow a half) ⊗ pow a half
    unfolding a0 alpha
    a0_lem =
        ap₂ ◌⊗◌
          ((frobenius-conjugate D minus_one P) alpha ∙ ap conjugate ((alpha-half D minus_one P) a))
          ((alpha-half D minus_one P) a)

    -- Where `a0` is not -1 it is 1, and the root is a root.
    root-square : a ≢ 𝟘 → (a0 =? (minus D minus_one P)) ≡ false → sqr root ≡ a
    unfolding root alpha
    root-square n e = root_of-square a (pow a quarter) (
        ap (λ x. conjugate x ⊗ x) ((alpha-half D minus_one P) a)
        ∙ elim ((plus_or_minus D minus_one P) (conjugate (pow a half) ⊗ pow a half)
            ((square-a0 D minus_one P) a n)) [
              | inl f ↦ f
              | inr f ↦ absurd (
                  cc (
                    e,
                    ((D2 D minus_one P).eq_iff a0 (minus D minus_one P)).1
                        (a0_lem ∙ f ∙ sym (minus_lem D minus_one P)),
                  ))
            ])

    conjugate_zero : conjugate (𝟘 {A = Fq2 A}) ≡ 𝟘
    unfolding same conjugate zero
    conjugate_zero = solve_fq2 D.ring (values []) (conjugate 𝟘) 𝟘 refl

    -- The conjugate of a root is the root times `alpha`, so `a0` is 1 where there is a root.
    a0-one : (b : Fq2 A) → b ≢ 𝟘 → sqr b ≡ a → a0 ≡ 𝟙
    unfolding is_nil normal
    a0-one b n h =
        a0_lem
        ∙ (fixes D minus_one P) conjugate-ne_zero (
            solve (R2 D minus_one P) (env (conjugate alpha_b ∷ alpha_b ∷ conjugate b ∷ []))
              ((Expr.var 0 ⊗ Expr.var 1) ⊗ Expr.var 2) (Expr.var 1 ⊗ (Expr.var 0 ⊗ Expr.var 2)) refl
            ∙ ap (λ x. alpha_b ⊗ x)
                (sym ((conjugate-mul_fq2 D minus_one P) alpha_b b)
                  ∙ ap conjugate turned
                  ∙ (conjugate-conjugate_fq2 D minus_one P) b)
            ∙ turned)
      where
        alpha_b : Fq2 A
        alpha_b = pow a half

        turned : alpha_b ⊗ b ≡ conjugate b
        turned =
            ap (λ x. x ⊗ b)
              (ap (λ x. pow x half) (sym h ∙ (R2 D minus_one P).square-eq b) ∙ P.pow-mul b b half)
            ∙ (fermat D minus_one P) b

        conjugate-ne_zero : conjugate b ≢ 𝟘
        conjugate-ne_zero z =
            n (sym ((conjugate-conjugate_fq2 D minus_one P) b) ∙ ap conjugate z ∙ conjugate_zero)

    sqrt_zero : a ≡ 𝟘 → result ≡ some zero
    sqrt_zero e =
        sqrt_branches
        ∙ ap (λ c. if c then some zero else if a0 =? (minus D minus_one P) then none else some root)
            (((D2 D minus_one P).is_zero_iff a).1 e)

    sqrt-ne_zero : a ≢ 𝟘 → result ≡ (if a0 =? (minus D minus_one P) then none else some root)
    sqrt-ne_zero n =
        sqrt_branches
        ∙ ap (λ c. if c then some zero else if a0 =? (minus D minus_one P) then none else some root)
            not_zero
      where
        not_zero : is_zero a ≡ false
        not_zero = elim (Bool-cases (is_zero a)) [
          | inl e ↦ absurd (n (((D2 D minus_one P).is_zero_iff a).0 e))
          | inr e ↦ e
        ]

    sqrt-square : (r : Fq2 A) → result ≡ some r → sqr r ≡ a
    unfolding zero same square
    sqrt-square r h = elim (zero-cases (D2 D minus_one P) a) [
      | inl e ↦
          ap sqr (sym (some-injective _ _ (sym (sqrt_zero e) ∙ h)))
          ∙ solve_fq2 D.ring (values []) (sqr 𝟘) 𝟘 refl
          ∙ sym e
      | inr n ↦ elim (Bool-cases (a0 =? (minus D minus_one P))) [
        | inl e ↦
            absurd (
              none-ne-some r (sym (sqrt-ne_zero n ∙ ap (λ c. if c then none else some root) e) ∙ h))
        | inr e ↦
            ap sqr (
              sym (
                some-injective _ _
                  (sym (sqrt-ne_zero n ∙ ap (λ c. if c then none else some root) e) ∙ h)))
            ∙ root-square n e
      ]
    ]

    sqrt_exists : (b : Fq2 A) → sqr b ≡ a → (r : Fq2 A) × (result ≡ some r)
    unfolding minus one
    sqrt_exists b h = elim (zero-cases (D2 D minus_one P) a) [
      | inl e ↦ (zero, sqrt_zero e)
      | inr n ↦ elim (Bool-cases (a0 =? (minus D minus_one P))) [
        | inl e ↦
            let one : a0 ≡ 𝟙 = a0-one b (λ z. n (sym h ∙ ap sqr z ∙ square_zero)) h in
            let f : ◌≡◌ {A = Fq2 A} 𝟙 (minus D minus_one P) =
              sym one ∙ ((D2 D minus_one P).eq_iff a0 (minus D minus_one P)).0 e in
            absurd (minus_one 𝟙 (D.ring.one-mul 𝟙 ∙ ap (λ (x : Fq2 A). x.c0) f ∙ P.constant))
        | inr e ↦ (root, sqrt-ne_zero n ∙ ap (λ c. if c then none else some root) e)
      ]
    ]
      where
        square_zero : sqr (𝟘 {A = Fq2 A}) ≡ 𝟘
        square_zero = (R2 D minus_one P).square-eq 𝟘 ∙ zero-mul (R2 D minus_one P) 𝟘

  -- Over a field in which -1 is no square, where `pow` and the constants are what the code means,
  -- `sqrt` returns a square root of every square of `Fq2`, and nothing else.
  pub sqrt-IsSqrt : IsSqrt (fq2_ops {A = A}) (sqrt pow quarter half coeffs negative_one)
  unfolding result
  sqrt-IsSqrt = record { square-root = sqrt-square; root_exists = sqrt_exists }

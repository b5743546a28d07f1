-- ===== src/Tower/Fq2/Sqrt/Powers.antt =====
-- The powers that `sqrt` of pairing/src/bls12_381/fq2.rs takes: `alpha` and `a0`.
use aws_dpid.Prelude.{
  ℕ, ◌+◌, ◌≡◌, ◌≢◌, ◌⊎◌, inl, inr, refl, sym, ap, ap₂, ◌∙◌, List, [], ◌∷◌, get_or,
}
use aws_dpid.Ring.{
  RingOps, FieldOps, IsField, IsCommRing, 𝟘, 𝟙, ◌⊕◌, ◌⊗◌, ◌⊖◌, negate as neg, square as sqr,
}
use aws_dpid.Ring.Laws.{eq_of_add-negate, sub-zero→eq, eq-negate}
use aws_dpid.Ring.Field.{eq-zero_of_mul, mul-eq-zero}
use aws_dpid.Ring.Poly.{is_nil}
use aws_dpid.Ring.Solver.{Expr, expr_ops, norm as normal, env, solve}
use aws_dpid.Tower.Fq2.{Fq2, one, negate, add_assign, mul_assign, fq2_ops, fq2_field, frobenius_map}
use aws_dpid.Tower.Fq2.Ring.{ring, same, symbol, values, solve_fq2, Fq2-ext}
use aws_dpid.Tower.Fq2.Extension.{conjugate}
use aws_dpid.Tower.Fq2.Inverse.{fq2-IsField}

-- What `Field::pow` documents, with the theorem of Fermat in `Fq2`: the power by q conjugates. The
-- exponents are (q - 3) / 4 and (q - 1) / 2, and the constants stand for -1.
pub record IsPow {A : Type 0} (F : RingOps A) (pow : Fq2 A → ℕ → Fq2 A) (quarter half : ℕ)
    (coeffs : List A) (negative_one : A) : Type 0 where
  pub pow-one : (a : Fq2 A) → pow a 1 ≡ a
  pub pow-add : (a : Fq2 A) (m n : ℕ) → pow a (m + n) ≡ mul_assign ⦃F = F⦄ (pow a m) (pow a n)
  pub pow-mul :
      (a b : Fq2 A) (n : ℕ)
      → pow (mul_assign ⦃F = F⦄ a b) n ≡ mul_assign ⦃F = F⦄ (pow a n) (pow b n)
  pub pow-q : (a : Fq2 A) → pow a (half + half + 1) ≡ conjugate ⦃F = F⦄ a
  pub exponents : quarter + quarter + 1 ≡ half
  pub coefficient : get_or coeffs 1 F.zero ≡ F.negate F.one
  pub constant : negative_one ≡ F.negate F.one

module _ {A : Type 0} ⦃F : RingOps A⦄ ⦃K : FieldOps A⦄ (D : IsField F K)
    (minus_one : (a : A) → a ⊗ a ≢ neg 𝟙) {pow : Fq2 A → ℕ → Fq2 A} {quarter half : ℕ}
    {coeffs : List A} {negative_one : A} (P : IsPow F pow quarter half coeffs negative_one) where
  pub R2 : IsCommRing (fq2_ops {A = A})
  R2 = ring D.ring

  pub D2 : IsField (fq2_ops {A = A}) fq2_field
  D2 = fq2-IsField D minus_one

  pub conjugate-mul_fq2 : (a b : Fq2 A) → conjugate (a ⊗ b) ≡ conjugate a ⊗ conjugate b
  unfolding same mul_assign conjugate
  conjugate-mul_fq2 a b =
      solve_fq2 D.ring (values (a ∷ b ∷ [])) (conjugate (symbol 0 ⊗ symbol 1))
        (conjugate (symbol 0) ⊗ conjugate (symbol 1)) refl

  pub conjugate-conjugate_fq2 : (a : Fq2 A) → conjugate (conjugate a) ≡ a
  unfolding same conjugate
  conjugate-conjugate_fq2 a =
      solve_fq2 D.ring (values (a ∷ [])) (conjugate (conjugate (symbol 0))) (symbol 0) refl

  pub conjugate-suc : (a : Fq2 A) → conjugate (a ⊕ 𝟙) ≡ conjugate a ⊕ 𝟙
  unfolding same conjugate add_assign one
  conjugate-suc a =
      solve_fq2 D.ring (values (a ∷ [])) (conjugate (symbol 0 ⊕ 𝟙)) (conjugate (symbol 0) ⊕ 𝟙) refl

  pub frobenius-conjugate : (a : Fq2 A) → frobenius_map coeffs 1 a ≡ conjugate a
  unfolding frobenius_map conjugate is_nil normal
  frobenius-conjugate a = Fq2-ext refl (
      ap (λ k. a.c1 ⊗ k) P.coefficient
      ∙ solve D.ring (env (a.c1 ∷ [])) (Expr.var 0 ⊗ neg 𝟙) (neg (Expr.var 0)) refl)

  unfoldable pub minus : Fq2 A
  minus = record { c0 = negative_one; c1 = 𝟘 }

  pub minus_lem : minus ≡ neg 𝟙
  unfolding minus negate one is_nil normal
  minus_lem = Fq2-ext P.constant (solve D.ring (env []) 𝟘 (neg 𝟘) refl)

  -- A factor that fixes an element other than zero is one.
  pub fixes : {z b : Fq2 A} → b ≢ 𝟘 → z ⊗ b ≡ b → z ≡ 𝟙
  unfolding is_nil normal
  fixes {z} {b} n h = eq_of_add-negate R2 z 𝟙 (
      eq-zero_of_mul D2 _ b n (
        solve R2 (env (z ∷ b ∷ [])) ((Expr.var 0 ⊕ neg 𝟙) ⊗ Expr.var 1)
          (Expr.var 0 ⊗ Expr.var 1 ⊖ Expr.var 1) refl
        ∙ ap (λ x. x ⊖ b) h
        ∙ solve R2 (env (b ∷ [])) (Expr.var 0 ⊖ Expr.var 0) 𝟘 refl))

  -- `alpha` is the power by (q - 1) / 2.
  pub alpha-half : (a : Fq2 A) → sqr (pow a quarter) ⊗ a ≡ pow a half
  alpha-half a =
      ap₂ ◌⊗◌ (R2.square-eq (pow a quarter) ∙ sym (P.pow-add a quarter quarter)) (sym (P.pow-one a))
      ∙ sym (P.pow-add a (quarter + quarter) 1)
      ∙ ap (pow a) P.exponents

  pub fermat : (a : Fq2 A) → pow a half ⊗ pow a half ⊗ a ≡ conjugate a
  fermat a =
      ap₂ ◌⊗◌ (sym (P.pow-add a half half)) (sym (P.pow-one a))
      ∙ sym (P.pow-add a (half + half) 1)
      ∙ P.pow-q a

  -- `a0` of an element other than zero is a square root of one.
  pub square-a0 : (a : Fq2 A) → a ≢ 𝟘 → let z = conjugate (pow a half) ⊗ pow a half in z ⊗ z ≡ 𝟙
  unfolding is_nil normal
  square-a0 a n = fixes n (
      solve R2 (env (h ∷ conjugate h ∷ a ∷ []))
        ((Expr.var 1 ⊗ Expr.var 0) ⊗ (Expr.var 1 ⊗ Expr.var 0) ⊗ Expr.var 2)
        (Expr.var 1 ⊗ Expr.var 1 ⊗ (Expr.var 0 ⊗ Expr.var 0 ⊗ Expr.var 2)) refl
      ∙ ap₂ ◌⊗◌ (sym (conjugate-mul_fq2 h h)) (fermat a)
      ∙ sym (conjugate-mul_fq2 (h ⊗ h) a)
      ∙ ap conjugate (fermat a)
      ∙ conjugate-conjugate_fq2 a)
    where
      h : Fq2 A
      h = pow a half

  pub plus_or_minus : (z : Fq2 A) → z ⊗ z ≡ 𝟙 → (z ≡ 𝟙) ⊎ (z ≡ neg 𝟙)
  unfolding is_nil normal
  plus_or_minus z h =
      elim (mul-eq-zero D2 (z ⊖ 𝟙) (z ⊕ 𝟙) (
        solve R2 (env (z ∷ [])) ((Expr.var 0 ⊖ 𝟙) ⊗ (Expr.var 0 ⊕ 𝟙)) (Expr.var 0 ⊗ Expr.var 0 ⊖ 𝟙)
          refl
        ∙ ap (λ x. x ⊖ 𝟙) h
        ∙ solve R2 (env []) (𝟙 ⊖ 𝟙) 𝟘 refl)) [
          | inl e ↦ inl (sub-zero→eq R2 e)
          | inr e ↦ inr (eq-negate R2 𝟙 z (R2.add_comm 𝟙 z ∙ e))
        ]

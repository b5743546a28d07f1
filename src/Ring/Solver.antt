-- ===== src/Ring/Solver.antt =====
-- A decision procedure for identities of commutative rings, by reflection. Code that is generic
-- in its ring runs on expressions too, so the two sides of an identity about it are reified by
-- the code itself.
use aws_dpid.Prelude.{ℕ, suc, ◌≡◌, refl, sym, ap, ap₂, ◌∙◌, true, ◌+◌, arith, List, [], ◌∷◌}
use aws_dpid.Ring.{RingOps, NonresidueOps, IsCommRing, 𝟘, 𝟙, ◌⊕◌, ◌⊖◌, ◌⊗◌, negate, square, double}
use aws_dpid.Ring.Laws.{negate-mul, eq_of_add-negate}
use aws_dpid.Ring.Times.{coef-one, coef-negate}
use aws_dpid.Ring.Poly.{
  Poly, con, nil, variable, plus, scale, across, product, is_nil, value, value-variable, value-plus,
  value-scale, value-product, value-is_nil, value-nil, value-one,
}

-- `twist` is one more operation, for multiplication by a fixed element.
pub data Expr : Type 0 where
  var : ℕ → Expr
  zero one : Expr
  add sub mul : Expr → Expr → Expr
  neg sqr dbl twist : Expr → Expr

instance abbrev pub expr_ops : RingOps Expr
expr_ops = record {
  zero = Expr.zero;
  one = Expr.one;
  add = Expr.add;
  sub = Expr.sub;
  mul = Expr.mul;
  negate = Expr.neg;
  square = Expr.sqr;
  double = Expr.dbl;
}

instance abbrev pub expr_nonresidue : NonresidueOps Expr
expr_nonresidue = record { mul_by_nonresidue = Expr.twist }

-- The variable 0 stands for the fixed element of `twist`; `var i` is variable `i + 1`.
unfoldable pub norm : Expr → Poly
unfolding product plus scale across variable
norm (Expr.var i) = variable (suc i)
norm Expr.zero = nil
norm Expr.one = con 1 0
norm (Expr.add a b) = plus (norm a) (norm b)
norm (Expr.sub a b) = plus (norm a) (scale 0 1 (norm b))
norm (Expr.mul a b) = product (norm a) (norm b)
norm (Expr.neg a) = scale 0 1 (norm a)
norm (Expr.sqr a) = let p = norm a in product p p
norm (Expr.dbl a) = let p = norm a in plus p p
norm (Expr.twist a) = product (variable 0) (norm a)

module _ {A : Type 0} ⦃F : RingOps A⦄ (g : A → A) (ρ : ℕ → A) where
  abbrev pub eval : Expr → A
  eval (Expr.var i) = ρ i
  eval Expr.zero = 𝟘
  eval Expr.one = 𝟙
  eval (Expr.add a b) = eval a ⊕ eval b
  eval (Expr.sub a b) = eval a ⊖ eval b
  eval (Expr.mul a b) = eval a ⊗ eval b
  eval (Expr.neg a) = negate (eval a)
  eval (Expr.sqr a) = square (eval a)
  eval (Expr.dbl a) = double (eval a)
  eval (Expr.twist a) = g (eval a)

abbrev pub extend : {A : Type 0} → A → (ℕ → A) → ℕ → A
extend x ρ ℕ.zero = x
extend x ρ (suc i) = ρ i

module _ {A : Type 0} ⦃F : RingOps A⦄ (R : IsCommRing F) (g : A → A) (ξ : A)
    (twists : (a : A) → g a ≡ ξ ⊗ a) where
  value-scale_neg : (ρ : ℕ → A) (p : Poly) → value ρ 0 (scale 0 1 p) ≡ negate (value ρ 0 p)
  value-scale_neg ρ p =
      value-scale ρ R 0 0 1 p
      ∙ ap (λ t. t ⊗ value ρ 0 p) (coef-negate R 1 0 ∙ ap (λ t. negate t) (coef-one R))
      ∙ negate-mul R 𝟙 (value ρ 0 p)
      ∙ ap (λ t. negate t) (R.one-mul (value ρ 0 p))

  norm_sound : (ρ : ℕ → A) (e : Expr) → value (extend ξ ρ) 0 (norm e) ≡ eval g ρ e
  unfolding norm
  norm_sound ρ (Expr.var i) =
      value-variable (extend ξ ρ) R 0 (suc i)
      ∙ ap (extend ξ ρ) {x = 0 + suc i} {y = suc i} (omega arith)
  norm_sound ρ Expr.zero = value-nil (extend ξ ρ) R 0
  norm_sound ρ Expr.one = value-one (extend ξ ρ) R 0
  norm_sound ρ (Expr.add a b) =
      value-plus (extend ξ ρ) R 0 (norm a) (norm b) ∙ ap₂ ◌⊕◌ (norm_sound ρ a) (norm_sound ρ b)
  norm_sound ρ (Expr.sub a b) =
      value-plus (extend ξ ρ) R 0 (norm a) (scale 0 1 (norm b))
      ∙ ap₂ ◌⊕◌ (norm_sound ρ a)
          (value-scale_neg (extend ξ ρ) (norm b) ∙ ap (λ t. negate t) (norm_sound ρ b))
      ∙ sym (R.sub-eq (eval g ρ a) (eval g ρ b))
  norm_sound ρ (Expr.mul a b) =
      value-product (extend ξ ρ) R 0 (norm a) (norm b) ∙ ap₂ ◌⊗◌ (norm_sound ρ a) (norm_sound ρ b)
  norm_sound ρ (Expr.neg a) =
      value-scale_neg (extend ξ ρ) (norm a) ∙ ap (λ t. negate t) (norm_sound ρ a)
  norm_sound ρ (Expr.sqr a) =
      value-product (extend ξ ρ) R 0 (norm a) (norm a)
      ∙ ap₂ ◌⊗◌ (norm_sound ρ a) (norm_sound ρ a)
      ∙ sym (R.square-eq (eval g ρ a))
  norm_sound ρ (Expr.dbl a) =
      value-plus (extend ξ ρ) R 0 (norm a) (norm a)
      ∙ ap₂ ◌⊕◌ (norm_sound ρ a) (norm_sound ρ a)
      ∙ sym (R.double-eq (eval g ρ a))
  norm_sound ρ (Expr.twist a) =
      value-product (extend ξ ρ) R 0 (variable 0) (norm a)
      ∙ ap₂ ◌⊗◌ (value-variable (extend ξ ρ) R 0 0) (norm_sound ρ a)
      ∙ sym (twists (eval g ρ a))

  -- Two expressions are equal in the ring when their difference has the zero normal form.
  pub solve_twisted :
      (ρ : ℕ → A) (a b : Expr) → is_nil (norm (Expr.sub a b)) ≡ true → eval g ρ a ≡ eval g ρ b
  solve_twisted ρ a b h = eq_of_add-negate R (eval g ρ a) (eval g ρ b) (
      sym (R.sub-eq (eval g ρ a) (eval g ρ b))
      ∙ sym (norm_sound ρ (Expr.sub a b))
      ∙ value-is_nil (extend ξ ρ) R 0 (norm (Expr.sub a b)) h)

module _ {A : Type 0} ⦃F : RingOps A⦄ (R : IsCommRing F) where
  pub solve :
      (ρ : ℕ → A) (a b : Expr)
      → is_nil (norm (Expr.sub a b)) ≡ true
      → eval (λ x. 𝟙 ⊗ x) ρ a ≡ eval (λ x. 𝟙 ⊗ x) ρ b
  solve = solve_twisted R (λ x. 𝟙 ⊗ x) 𝟙 (λ x. refl)

-- The variables of an identity, as a list.
abbrev pub env : {A : Type 0} ⦃F : RingOps A⦄ → List A → ℕ → A
env [] i = 𝟘
env (x ∷ xs) ℕ.zero = x
env (x ∷ xs) (suc i) = env xs i

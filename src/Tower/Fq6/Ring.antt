-- ===== src/Tower/Fq6/Ring.antt =====
-- The operations of `Fq6` are those of a commutative ring, over a commutative ring in which
-- `mul_by_nonresidue` multiplies by a fixed element.
use aws_dpid.Prelude.{ℕ, ◌+◌, ◌*◌, ◌≡◌, refl, true, Bool, ◌&&◌, List, [], ◌∷◌, arith}
use aws_dpid.Ring.{
  RingOps, NonresidueOps, IsCommRing, ◌⊕◌, ◌⊖◌, ◌⊗◌, negate as neg, square as sqr, double as dbl,
}
use aws_dpid.Ring.Poly.{is_nil}
use aws_dpid.Ring.Solver.{Expr, expr_ops, expr_nonresidue, norm, eval, env, solve_twisted}
use aws_dpid.Tower.Fq6.{
  Fq6, zero, one, square, double, negate, add_assign, sub_assign, mul_assign, fq6_ops,
}

-- The element whose coordinates are the variables from `3 i` on.
abbrev pub symbol : ℕ → Fq6 Expr
symbol i = record { c0 = Expr.var (3 * i); c1 = Expr.var (3 * i + 1); c2 = Expr.var (3 * i + 2) }

pub Fq6-ext : {A : Type 0} {a b : Fq6 A} → a.c0 ≡ b.c0 → a.c1 ≡ b.c1 → a.c2 ≡ b.c2 → a ≡ b
Fq6-ext p q r i = record { c0 = p i; c1 = q i; c2 = r i }

unfoldable pub same : Fq6 Expr → Fq6 Expr → Bool
unfolding is_nil norm
same a b =
    is_nil (norm (Expr.sub a.c0 b.c0))
    && is_nil (norm (Expr.sub a.c1 b.c1))
    && is_nil (norm (Expr.sub a.c2 b.c2))

abbrev pub at : {A : Type 0} ⦃F : RingOps A⦄ → (A → A) → (ℕ → A) → Fq6 Expr → Fq6 A
at g ρ a = record { c0 = eval g ρ a.c0; c1 = eval g ρ a.c1; c2 = eval g ρ a.c2 }

abbrev coordinates : {A : Type 0} → List (Fq6 A) → List A
coordinates [] = []
coordinates (x ∷ xs) = x.c0 ∷ x.c1 ∷ x.c2 ∷ coordinates xs

abbrev pub values : {A : Type 0} ⦃F : RingOps A⦄ → List (Fq6 A) → ℕ → A
values xs = env (coordinates xs)

module _ {A : Type 0} ⦃F : RingOps A⦄ ⦃N : NonresidueOps A⦄ (R : IsCommRing F) (ξ : A)
    (twists : (a : A) → N.mul_by_nonresidue a ≡ ξ ⊗ a) where
  pub solve_fq6 :
      (ρ : ℕ → A) (a b : Fq6 Expr)
      → same a b ≡ true
      → at N.mul_by_nonresidue ρ a ≡ at N.mul_by_nonresidue ρ b
  unfolding same
  solve_fq6 ρ a b h =
      Fq6-ext (solve_twisted R N.mul_by_nonresidue ξ twists ρ a.c0 b.c0 (ground arith))
        (solve_twisted R N.mul_by_nonresidue ξ twists ρ a.c1 b.c1 (ground arith))
        (solve_twisted R N.mul_by_nonresidue ξ twists ρ a.c2 b.c2 (ground arith))

  pub ring : IsCommRing (fq6_ops {B = A})
  unfolding same zero one square double negate add_assign sub_assign mul_assign
  ring = record {
    add_assoc = λ a b c.
        solve_fq6 (values (a ∷ b ∷ c ∷ [])) (symbol 0 ⊕ symbol 1 ⊕ symbol 2)
          (symbol 0 ⊕ (symbol 1 ⊕ symbol 2)) refl;
    add_comm =
        λ a b. solve_fq6 (values (a ∷ b ∷ [])) (symbol 0 ⊕ symbol 1) (symbol 1 ⊕ symbol 0) refl;
    zero-add = λ a. solve_fq6 (values (a ∷ [])) (zero ⊕ symbol 0) (symbol 0) refl;
    add-negate = λ a. solve_fq6 (values (a ∷ [])) (symbol 0 ⊕ neg (symbol 0)) (zero) refl;
    mul_assoc = λ a b c.
        solve_fq6 (values (a ∷ b ∷ c ∷ [])) (symbol 0 ⊗ symbol 1 ⊗ symbol 2)
          (symbol 0 ⊗ (symbol 1 ⊗ symbol 2)) refl;
    mul_comm =
        λ a b. solve_fq6 (values (a ∷ b ∷ [])) (symbol 0 ⊗ symbol 1) (symbol 1 ⊗ symbol 0) refl;
    one-mul = λ a. solve_fq6 (values (a ∷ [])) (one ⊗ symbol 0) (symbol 0) refl;
    mul-add = λ a b c.
        solve_fq6 (values (a ∷ b ∷ c ∷ [])) (symbol 0 ⊗ (symbol 1 ⊕ symbol 2))
          (symbol 0 ⊗ symbol 1 ⊕ symbol 0 ⊗ symbol 2) refl;
    sub-eq = λ a b.
        solve_fq6 (values (a ∷ b ∷ [])) (symbol 0 ⊖ symbol 1) (symbol 0 ⊕ neg (symbol 1)) refl;
    square-eq = λ a. solve_fq6 (values (a ∷ [])) (sqr (symbol 0)) (symbol 0 ⊗ symbol 0) refl;
    double-eq = λ a. solve_fq6 (values (a ∷ [])) (dbl (symbol 0)) (symbol 0 ⊕ symbol 0) refl;
  }

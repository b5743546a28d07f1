-- ===== src/Tower/Fq12/Ring.antt =====
-- The operations of `Fq12` are those of a commutative ring, over a commutative ring in which
-- `mul_by_nonresidue` multiplies by a fixed element.
use aws_dpid.Prelude.{ℕ, ◌+◌, ◌*◌, ◌≡◌, refl, true, Bool, ◌&&◌, List, [], ◌∷◌, arith}
use aws_dpid.Ring.{
  RingOps, NonresidueOps, IsCommRing, ◌⊕◌, ◌⊖◌, ◌⊗◌, negate as neg, square as sqr, double as dbl,
}
use aws_dpid.Ring.Poly.{is_nil}
use aws_dpid.Ring.Solver.{Expr, expr_ops, expr_nonresidue, norm, eval, env, solve_twisted}
use aws_dpid.Tower.Fq12.{
  Fq12, zero, one, square, double, negate, add_assign, sub_assign, mul_assign, fq12_ops,
}

-- The element whose coordinates are the variables from `2 i` on.
abbrev pub symbol : ℕ → Fq12 Expr
symbol i = record { c0 = Expr.var (2 * i); c1 = Expr.var (2 * i + 1) }

pub Fq12-ext : {A : Type 0} {a b : Fq12 A} → a.c0 ≡ b.c0 → a.c1 ≡ b.c1 → a ≡ b
Fq12-ext p q i = record { c0 = p i; c1 = q i }

unfoldable pub same : Fq12 Expr → Fq12 Expr → Bool
unfolding is_nil norm
same a b = is_nil (norm (Expr.sub a.c0 b.c0)) && is_nil (norm (Expr.sub a.c1 b.c1))

abbrev pub at : {A : Type 0} ⦃F : RingOps A⦄ → (A → A) → (ℕ → A) → Fq12 Expr → Fq12 A
at g ρ a = record { c0 = eval g ρ a.c0; c1 = eval g ρ a.c1 }

abbrev coordinates : {A : Type 0} → List (Fq12 A) → List A
coordinates [] = []
coordinates (x ∷ xs) = x.c0 ∷ x.c1 ∷ coordinates xs

abbrev pub values : {A : Type 0} ⦃F : RingOps A⦄ → List (Fq12 A) → ℕ → A
values xs = env (coordinates xs)

module _ {A : Type 0} ⦃F : RingOps A⦄ ⦃N : NonresidueOps A⦄ (R : IsCommRing F) (ξ : A)
    (twists : (a : A) → N.mul_by_nonresidue a ≡ ξ ⊗ a) where
  pub solve_fq12 :
      (ρ : ℕ → A) (a b : Fq12 Expr)
      → same a b ≡ true
      → at N.mul_by_nonresidue ρ a ≡ at N.mul_by_nonresidue ρ b
  unfolding same
  solve_fq12 ρ a b h =
      Fq12-ext (solve_twisted R N.mul_by_nonresidue ξ twists ρ a.c0 b.c0 (ground arith))
        (solve_twisted R N.mul_by_nonresidue ξ twists ρ a.c1 b.c1 (ground arith))

  pub ring : IsCommRing (fq12_ops {C = A})
  unfolding same zero one square double negate add_assign sub_assign mul_assign
  ring = record {
    add_assoc = λ a b c.
        solve_fq12 (values (a ∷ b ∷ c ∷ [])) (symbol 0 ⊕ symbol 1 ⊕ symbol 2)
          (symbol 0 ⊕ (symbol 1 ⊕ symbol 2)) refl;
    add_comm =
        λ a b. solve_fq12 (values (a ∷ b ∷ [])) (symbol 0 ⊕ symbol 1) (symbol 1 ⊕ symbol 0) refl;
    zero-add = λ a. solve_fq12 (values (a ∷ [])) (zero ⊕ symbol 0) (symbol 0) refl;
    add-negate = λ a. solve_fq12 (values (a ∷ [])) (symbol 0 ⊕ neg (symbol 0)) (zero) refl;
    mul_assoc = λ a b c.
        solve_fq12 (values (a ∷ b ∷ c ∷ [])) (symbol 0 ⊗ symbol 1 ⊗ symbol 2)
          (symbol 0 ⊗ (symbol 1 ⊗ symbol 2)) refl;
    mul_comm =
        λ a b. solve_fq12 (values (a ∷ b ∷ [])) (symbol 0 ⊗ symbol 1) (symbol 1 ⊗ symbol 0) refl;
    one-mul = λ a. solve_fq12 (values (a ∷ [])) (one ⊗ symbol 0) (symbol 0) refl;
    mul-add = λ a b c.
        solve_fq12 (values (a ∷ b ∷ c ∷ [])) (symbol 0 ⊗ (symbol 1 ⊕ symbol 2))
          (symbol 0 ⊗ symbol 1 ⊕ symbol 0 ⊗ symbol 2) refl;
    sub-eq = λ a b.
        solve_fq12 (values (a ∷ b ∷ [])) (symbol 0 ⊖ symbol 1) (symbol 0 ⊕ neg (symbol 1)) refl;
    square-eq = λ a. solve_fq12 (values (a ∷ [])) (sqr (symbol 0)) (symbol 0 ⊗ symbol 0) refl;
    double-eq = λ a. solve_fq12 (values (a ∷ [])) (dbl (symbol 0)) (symbol 0 ⊕ symbol 0) refl;
  }

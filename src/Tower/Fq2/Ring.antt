-- ===== src/Tower/Fq2/Ring.antt =====
-- The operations of `Fq2` are those of a commutative ring.
use aws_dpid.Prelude.{ℕ, ◌+◌, ◌≡◌, refl, true, Bool, ◌&&◌, List, [], ◌∷◌, arith}
use aws_dpid.Ring.{RingOps, IsCommRing, ◌⊕◌, ◌⊖◌, ◌⊗◌, negate as neg, square as sqr, double as dbl}
use aws_dpid.Ring.Poly.{is_nil}
use aws_dpid.Ring.Solver.{Expr, expr_ops, norm, eval, env, solve}
use aws_dpid.Tower.Fq2.{
  Fq2, zero, one, square, double, negate, add_assign, sub_assign, mul_assign, fq2_ops,
}

-- The element whose coordinates are the variables `2 i` and `2 i + 1`.
abbrev pub symbol : ℕ → Fq2 Expr
symbol i = record { c0 = Expr.var (i + i); c1 = Expr.var (i + i + 1) }

pub Fq2-ext : {A : Type 0} {a b : Fq2 A} → a.c0 ≡ b.c0 → a.c1 ≡ b.c1 → a ≡ b
Fq2-ext p q i = record { c0 = p i; c1 = q i }

unfoldable pub same : Fq2 Expr → Fq2 Expr → Bool
unfolding is_nil norm
same a b = is_nil (norm (Expr.sub a.c0 b.c0)) && is_nil (norm (Expr.sub a.c1 b.c1))

abbrev pub at : {A : Type 0} ⦃F : RingOps A⦄ → (ℕ → A) → Fq2 Expr → Fq2 A
at ⦃F = F⦄ ρ a = record {
  c0 = eval (λ x. F.mul F.one x) ρ a.c0;
  c1 = eval (λ x. F.mul F.one x) ρ a.c1;
}

abbrev coordinates : {A : Type 0} → List (Fq2 A) → List A
coordinates [] = []
coordinates (x ∷ xs) = x.c0 ∷ x.c1 ∷ coordinates xs

abbrev pub values : {A : Type 0} ⦃F : RingOps A⦄ → List (Fq2 A) → ℕ → A
values xs = env (coordinates xs)

module _ {A : Type 0} ⦃F : RingOps A⦄ (R : IsCommRing F) where
  pub solve_fq2 : (ρ : ℕ → A) (a b : Fq2 Expr) → same a b ≡ true → at ρ a ≡ at ρ b
  unfolding same
  solve_fq2 ρ a b h =
      Fq2-ext (solve R ρ a.c0 b.c0 (ground arith)) (solve R ρ a.c1 b.c1 (ground arith))

  pub ring : IsCommRing (fq2_ops {A = A})
  unfolding same zero one square double negate add_assign sub_assign mul_assign
  ring = record {
    add_assoc = λ a b c.
        solve_fq2 (values (a ∷ b ∷ c ∷ [])) (symbol 0 ⊕ symbol 1 ⊕ symbol 2)
          (symbol 0 ⊕ (symbol 1 ⊕ symbol 2)) refl;
    add_comm =
        λ a b. solve_fq2 (values (a ∷ b ∷ [])) (symbol 0 ⊕ symbol 1) (symbol 1 ⊕ symbol 0) refl;
    zero-add = λ a. solve_fq2 (values (a ∷ [])) (zero ⊕ symbol 0) (symbol 0) refl;
    add-negate = λ a. solve_fq2 (values (a ∷ [])) (symbol 0 ⊕ neg (symbol 0)) zero refl;
    mul_assoc = λ a b c.
        solve_fq2 (values (a ∷ b ∷ c ∷ [])) (symbol 0 ⊗ symbol 1 ⊗ symbol 2)
          (symbol 0 ⊗ (symbol 1 ⊗ symbol 2)) refl;
    mul_comm =
        λ a b. solve_fq2 (values (a ∷ b ∷ [])) (symbol 0 ⊗ symbol 1) (symbol 1 ⊗ symbol 0) refl;
    one-mul = λ a. solve_fq2 (values (a ∷ [])) (one ⊗ symbol 0) (symbol 0) refl;
    mul-add = λ a b c.
        solve_fq2 (values (a ∷ b ∷ c ∷ [])) (symbol 0 ⊗ (symbol 1 ⊕ symbol 2))
          (symbol 0 ⊗ symbol 1 ⊕ symbol 0 ⊗ symbol 2) refl;
    sub-eq = λ a b.
        solve_fq2 (values (a ∷ b ∷ [])) (symbol 0 ⊖ symbol 1) (symbol 0 ⊕ neg (symbol 1)) refl;
    square-eq = λ a. solve_fq2 (values (a ∷ [])) (sqr (symbol 0)) (symbol 0 ⊗ symbol 0) refl;
    double-eq = λ a. solve_fq2 (values (a ∷ [])) (dbl (symbol 0)) (symbol 0 ⊕ symbol 0) refl;
  }

-- ===== src/Ring/Units.antt =====
-- Products equal to one.
use aws_dpid.Prelude.{◌≡◌, refl, sym, ap, ap₂, ◌∙◌, [], ◌∷◌}
use aws_dpid.Ring.{RingOps, IsCommRing, 𝟙, ◌⊗◌}
use aws_dpid.Ring.Laws.{mul-one}
use aws_dpid.Ring.Poly.{is_nil}
use aws_dpid.Ring.Solver.{Expr, expr_ops, norm, env, solve}

module _ {A : Type 0} ⦃F : RingOps A⦄ (R : IsCommRing F) where
  pub unit-mul : {a b c d : A} → a ⊗ b ≡ 𝟙 → c ⊗ d ≡ 𝟙 → (a ⊗ c) ⊗ (b ⊗ d) ≡ 𝟙
  unfolding is_nil norm
  unit-mul {a} {b} {c} {d} h k =
      solve R (env (a ∷ b ∷ c ∷ d ∷ [])) ((Expr.var 0 ⊗ Expr.var 2) ⊗ (Expr.var 1 ⊗ Expr.var 3))
        ((Expr.var 0 ⊗ Expr.var 1) ⊗ (Expr.var 2 ⊗ Expr.var 3)) refl
      ∙ ap₂ ◌⊗◌ h k
      ∙ R.one-mul 𝟙

  pub inverse_unique : {a s t : A} → a ⊗ s ≡ 𝟙 → a ⊗ t ≡ 𝟙 → s ≡ t
  inverse_unique {a} {s} {t} h k =
      sym (mul-one R s)
      ∙ ap (λ r. s ⊗ r) (sym k)
      ∙ sym (R.mul_assoc s a t)
      ∙ ap (λ r. r ⊗ t) (R.mul_comm s a ∙ h)
      ∙ R.one-mul t

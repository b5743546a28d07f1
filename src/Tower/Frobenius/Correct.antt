-- ===== src/Tower/Frobenius/Correct.antt =====
-- `frobenius_map` of the whole tower (pairing/src/bls12_381/fq2.rs, fq6.rs and fq12.rs), at one power.
use mathlib.Core.Path.{subst}
use aws_dpid.Prelude.{ℕ, ◌%◌, ◌≡◌, refl, sym, ap, ◌∙◌, List, [], ◌∷◌, get_or}
use aws_dpid.Ring.{RingOps, NonresidueOps, IsCommRing, 𝟘, ◌⊗◌}
use aws_dpid.Ring.Hom.{IsHom}
use aws_dpid.Ring.Laws.{zero-mul}
use aws_dpid.Ring.Solver.{Expr, expr_ops, expr_nonresidue, env}
use aws_dpid.Tower.Fq2.{Fq2, fq2_ops, fq2_nonresidue}
use aws_dpid.Tower.Fq2 as Fq2Mod
use aws_dpid.Tower.Fq2.Ring as Fq2Ring
use aws_dpid.Tower.Fq2.Extension as Fq2Extension
use aws_dpid.Tower.Fq2.Extension.{nonresidue}
use aws_dpid.Tower.Fq6.{Fq6, fq6_ops, fq6_nonresidue, mul_assign}
use aws_dpid.Tower.Fq6 as Fq6Mod
use aws_dpid.Tower.Fq6.Ring as Fq6Ring
use aws_dpid.Tower.Fq6.Ring.{Fq6-ext, same, symbol, solve_fq6}
use aws_dpid.Tower.Fq6.Extension as Fq6Extension
use aws_dpid.Tower.Fq6.Extension.{v, embed}
use aws_dpid.Tower.Fq12.{Fq12, fq12_ops}
use aws_dpid.Tower.Fq12 as Fq12Mod
use aws_dpid.Tower.Frobenius.{IsTables, fq6_map, fq12_map}
use aws_dpid.Tower.Frobenius.Levels.{quadratic-IsHom, cubic-IsHom, twelfth-IsHom}

module _ {B : Type 0} ⦃F : RingOps B⦄ ⦃N : NonresidueOps B⦄ (R : IsCommRing F) (ξ : B)
    (twists : (b : B) → N.mul_by_nonresidue b ≡ ξ ⊗ b) where
  -- Multiplication of every coordinate.
  mul-embed :
      (a : Fq6 B) (k : B) → a ⊗ embed k ≡ record { c0 = a.c0 ⊗ k; c1 = a.c1 ⊗ k; c2 = a.c2 ⊗ k }
  unfolding same mul_assign embed
  mul-embed a k =
      solve_fq6 R ξ twists (env (a.c0 ∷ a.c1 ∷ a.c2 ∷ k ∷ [])) (symbol 0 ⊗ embed (Expr.var 3))
        (record {
          c0 = Expr.var 0 ⊗ Expr.var 3;
          c1 = Expr.var 1 ⊗ Expr.var 3;
          c2 = Expr.var 2 ⊗ Expr.var 3;
        })
        refl

  v-embed : (k : B) → v ⊗ (embed k ⊗ embed k) ≡ record { c0 = 𝟘; c1 = k ⊗ k; c2 = 𝟘 }
  unfolding same mul_assign embed v
  v-embed k =
      solve_fq6 R ξ twists (env (k ∷ [])) (v ⊗ (embed (Expr.var 0) ⊗ embed (Expr.var 0)))
        (record { c0 = 𝟘; c1 = Expr.var 0 ⊗ Expr.var 0; c2 = 𝟘 }) refl

module _ {A : Type 0} ⦃F : RingOps A⦄ (R : IsCommRing F) {fq2_c1 : List A}
    {fq6_c1 fq6_c2 fq12_c1 : List (Fq2 A)} {power : ℕ}
    (T : IsTables fq2_c1 fq6_c1 fq6_c2 fq12_c1 power) where
  fq2-IsHom : IsHom (fq2_ops {A = A}) fq2_ops (Fq2Mod.frobenius_map fq2_c1 power)
  unfolding Fq2Mod.frobenius_map
  fq2-IsHom = quadratic-IsHom R (get_or fq2_c1 (power % 2) 𝟘) T.half

  abbrev c : Fq2 A
  c = get_or fq6_c1 (power % 6) 𝟘

  fq2_ring : IsCommRing (fq2_ops {A = A})
  fq2_ring = Fq2Ring.ring R

  fq6-IsHom : IsHom (fq6_ops {B = Fq2 A}) fq6_ops (fq6_map fq2_c1 fq6_c1 fq6_c2 fq12_c1 power)
  unfolding Fq6Mod.frobenius_map
  fq6-IsHom =
      subst
        (λ t. IsHom (fq6_ops {B = Fq2 A}) fq6_ops (λ a. record {
          c0 = Fq2Mod.frobenius_map fq2_c1 power a.c0;
          c1 = Fq2Mod.frobenius_map fq2_c1 power a.c1 ⊗ c;
          c2 = Fq2Mod.frobenius_map fq2_c1 power a.c2 ⊗ t;
        }))
        (sym T.square)
        (cubic-IsHom fq2_ring nonresidue (Fq2Extension.mul_by_nonresidue_lem R) fq2-IsHom c T.cube)

  abbrev d : Fq2 A
  d = get_or fq12_c1 (power % 12) 𝟘

  image-v : v ⊗ (embed d ⊗ embed d) ≡ fq6_map fq2_c1 fq6_c1 fq6_c2 fq12_c1 power v
  unfolding Fq6Mod.frobenius_map v
  image-v =
      let H = fq2-IsHom in
      v-embed fq2_ring nonresidue (Fq2Extension.mul_by_nonresidue_lem R) d
      ∙ Fq6-ext (sym H.zero) (T.root ∙ sym (fq2_ring.one-mul c) ∙ ap (λ t. t ⊗ c) (sym H.one))
          (sym (ap (λ t. t ⊗ get_or fq6_c2 (power % 6) 𝟘) H.zero ∙ zero-mul fq2_ring _))

  fq12_map_lem :
      (a : Fq12 (Fq6 (Fq2 A)))
      → fq12_map fq2_c1 fq6_c1 fq6_c2 fq12_c1 power a ≡ record {
        c0 = fq6_map fq2_c1 fq6_c1 fq6_c2 fq12_c1 power a.c0;
        c1 = fq6_map fq2_c1 fq6_c1 fq6_c2 fq12_c1 power a.c1 ⊗ embed d;
      }
  unfolding Fq12Mod.frobenius_map
  fq12_map_lem a =
      ap (λ t. record { c0 = fq6_map fq2_c1 fq6_c1 fq6_c2 fq12_c1 power a.c0; c1 = t })
        (sym (
          mul-embed fq2_ring nonresidue (Fq2Extension.mul_by_nonresidue_lem R)
            (fq6_map fq2_c1 fq6_c1 fq6_c2 fq12_c1 power a.c1) d))

  -- Where the entries of the tables at this power are the powers that the comments of fq.rs say,
  -- `frobenius_map` of `Fq12` keeps zero, one, sums and products.
  pub frobenius_map-IsHom :
      IsHom (fq12_ops {C = Fq6 (Fq2 A)}) fq12_ops (fq12_map fq2_c1 fq6_c1 fq6_c2 fq12_c1 power)
  frobenius_map-IsHom =
      subst (IsHom (fq12_ops {C = Fq6 (Fq2 A)}) fq12_ops) (λ i a. sym (fq12_map_lem a) i)
        (twelfth-IsHom (Fq6Ring.ring fq2_ring nonresidue (Fq2Extension.mul_by_nonresidue_lem R)) v
          (Fq6Extension.mul_by_nonresidue_lem fq2_ring nonresidue
            (Fq2Extension.mul_by_nonresidue_lem R))
          fq6-IsHom (embed d) image-v)

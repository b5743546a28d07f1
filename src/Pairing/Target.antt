-- ===== src/Pairing/Target.antt =====
-- The target field of the pairing (pairing/src/bls12_381/fq12.rs) as a ring over `Fq`.
use aws_dpid.Prelude.{◌≡◌, sym, ap, ap₂, ◌∙◌}
use aws_dpid.Ring.{RingOps, IsCommRing, 𝟙, ◌⊗◌, square as sqr}
use aws_dpid.Tower.Fq2.{Fq2, fq2_ops, fq2_nonresidue}
use aws_dpid.Tower.Fq2.Ring as Fq2Ring
use aws_dpid.Tower.Fq2.Extension as Fq2Extension
use aws_dpid.Tower.Fq6.{Fq6, fq6_ops, fq6_nonresidue}
use aws_dpid.Tower.Fq6.Ring as Fq6Ring
use aws_dpid.Tower.Fq6.Extension as Fq6Extension
use aws_dpid.Tower.Fq12.{fq12_ops, conjugate}
use aws_dpid.Tower.Fq12.Ring as Fq12Ring
use aws_dpid.Tower.Fq12.Extension.{conjugate-mul, conjugate_one}
use aws_dpid.Pairing.{Gt}

module _ {A : Type 0} ⦃F : RingOps A⦄ (R : IsCommRing F) where
  pub gt_ring : IsCommRing (fq12_ops {C = Fq6 (Fq2 A)})
  gt_ring =
      Fq12Ring.ring
        (Fq6Ring.ring (Fq2Ring.ring R) Fq2Extension.nonresidue
          (Fq2Extension.mul_by_nonresidue_lem R))
        Fq6Extension.v
        (Fq6Extension.mul_by_nonresidue_lem (Fq2Ring.ring R) Fq2Extension.nonresidue
          (Fq2Extension.mul_by_nonresidue_lem R))

  pub conjugate-one : conjugate (𝟙 {A = Gt A}) ≡ 𝟙
  conjugate-one =
      conjugate_one
        (Fq6Ring.ring (Fq2Ring.ring R) Fq2Extension.nonresidue
          (Fq2Extension.mul_by_nonresidue_lem R))
        Fq6Extension.v
        (Fq6Extension.mul_by_nonresidue_lem (Fq2Ring.ring R) Fq2Extension.nonresidue
          (Fq2Extension.mul_by_nonresidue_lem R))

  pub gt_conjugate-mul : (f g : Gt A) → conjugate (f ⊗ g) ≡ conjugate f ⊗ conjugate g
  gt_conjugate-mul =
      conjugate-mul
        (Fq6Ring.ring (Fq2Ring.ring R) Fq2Extension.nonresidue
          (Fq2Extension.mul_by_nonresidue_lem R))
        Fq6Extension.v
        (Fq6Extension.mul_by_nonresidue_lem (Fq2Ring.ring R) Fq2Extension.nonresidue
          (Fq2Extension.mul_by_nonresidue_lem R))

  pub square-mul : (f g : Gt A) → sqr (f ⊗ g) ≡ sqr f ⊗ sqr g
  square-mul f g =
      gt_ring.square-eq (f ⊗ g)
      ∙ gt_ring.mul_assoc f g (f ⊗ g)
      ∙ ap (λ x. f ⊗ x)
          (sym (gt_ring.mul_assoc g f g)
            ∙ ap (λ x. x ⊗ g) (gt_ring.mul_comm g f)
            ∙ gt_ring.mul_assoc f g g)
      ∙ sym (gt_ring.mul_assoc f f (g ⊗ g))
      ∙ ap₂ ◌⊗◌ (sym (gt_ring.square-eq f)) (sym (gt_ring.square-eq g))

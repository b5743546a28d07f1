-- ===== src/Tower/Field.antt =====
-- The whole tower, pairing/src/bls12_381/fq2.rs, fq6.rs and fq12.rs, over one field `Fq`.
use aws_dpid.Prelude.{◌≢◌, sym, ap, ◌∙◌}
use aws_dpid.Ring.{RingOps, FieldOps, IsField, ◌⊗◌, negate, 𝟙}
use aws_dpid.Tower.Fq2.{Fq2, fq2_ops, fq2_field, fq2_nonresidue}
use aws_dpid.Tower.Fq2.Extension as Fq2Extension
use aws_dpid.Tower.Fq2.Extension.{nonresidue}
use aws_dpid.Tower.Fq2.Inverse.{fq2-IsField}
use aws_dpid.Tower.Fq6.{Fq6, fq6_ops, fq6_field, fq6_nonresidue, denominator}
use aws_dpid.Tower.Fq6.Extension as Fq6Extension
use aws_dpid.Tower.Fq6.Extension.{v, denominator-mul, denominator-v}
use aws_dpid.Tower.Fq6.Inverse.{fq6-IsField}
use aws_dpid.Tower.Fq12.{fq12_ops, fq12_field}
use aws_dpid.Tower.Fq12.Inverse.{fq12-IsField}

module _ {A : Type 0} ⦃F : RingOps A⦄ ⦃K : FieldOps A⦄ (D : IsField F K)
    (minus_one : (a : A) → a ⊗ a ≢ negate 𝟙) (no_square : (b : Fq2 A) → b ⊗ b ≢ nonresidue)
    (no_cube : (b : Fq2 A) → b ⊗ b ⊗ b ≢ nonresidue) where
  fq2 : IsField (fq2_ops {A = A}) fq2_field
  fq2 = fq2-IsField D minus_one

  fq6 : IsField (fq6_ops {B = Fq2 A}) fq6_field
  fq6 = fq6-IsField fq2 nonresidue (Fq2Extension.mul_by_nonresidue_lem D.ring) no_cube

  -- A square root of `v` would have a norm that is a square root of `1 + u`.
  v_no_square : (c : Fq6 (Fq2 A)) → c ⊗ c ≢ v
  v_no_square c h = no_square (denominator c) (
      sym (denominator-mul fq2.ring nonresidue (Fq2Extension.mul_by_nonresidue_lem D.ring) c c)
      ∙ ap denominator h
      ∙ denominator-v fq2.ring nonresidue (Fq2Extension.mul_by_nonresidue_lem D.ring))

  -- Over a field `Fq` in which -1 is no square, and where `1 + u` is neither a square nor a cube in
  -- `Fq2`, the operations of `Fq12` are those of a field.
  pub tower-IsField : IsField (fq12_ops {C = Fq6 (Fq2 A)}) fq12_field
  tower-IsField =
      fq12-IsField fq6 v
        (Fq6Extension.mul_by_nonresidue_lem fq2.ring nonresidue
          (Fq2Extension.mul_by_nonresidue_lem D.ring))
        v_no_square

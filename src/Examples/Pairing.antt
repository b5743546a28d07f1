-- ===== src/Examples/Pairing.antt =====
-- The theorems on the engine of pairing/src/bls12_381/mod.rs, over the integers modulo 19.
use aws_dpid.Prelude.{◌≡◌, Bool, true, false, some, List, [], ◌∷◌, ◌++◌, map}
use aws_dpid.Ring.{IsCommRing, 𝟘}
use aws_dpid.Tower.Fq2.{Fq2, fq2_ops, fq2_field, fq2_nonresidue}
use aws_dpid.Tower.Fq2.Ring as Fq2Ring
use aws_dpid.Tower.Fq6.{fq6_ops, fq6_field, fq6_nonresidue}
use aws_dpid.Tower.Fq12.{fq12_ops, fq12_field}
use aws_dpid.Curve.{Affine, Projective}
use aws_dpid.Pairing.{G2Prepared, doubling_step, addition_step, from_affine, miller_loop}
use aws_dpid.Pairing.Lines.{line_at, finite, opposite, doubling_step-line, addition_step-line}
use aws_dpid.Pairing.Product.{product, miller_loop-append}
use aws_dpid.Pairing.Fused.{fused_product, miller_loop_lem}
use aws_dpid.Examples.Zmod.{Zmod, residue, zmod_ops, zmod_field, zmod19-IsField}
use aws_dpid.Examples.Tower.{element}

abbrev Q : Type 0
Q = Zmod 19

abbrev p : Affine Q
p = record { x = residue 19 0; y = residue 19 2; infinity = false }

abbrev q : Affine (Fq2 Q)
q = record { x = element 0 0; y = element 2 1; infinity = false }

abbrev r : Projective (Fq2 Q)
r = record { x = element 1 5; y = element 7 2; z = element 3 4 }

abbrev bits : List Bool
bits = false ∷ true ∷ true ∷ false ∷ true ∷ []

abbrev prepared : Affine Q × G2Prepared (Fq2 Q)
prepared = (p, from_affine bits q)

fq2_ring : IsCommRing (fq2_ops {A = Q})
fq2_ring = Fq2Ring.ring zmod19-IsField.ring

doubling_step-line_example :
    (line_at (doubling_step r).0 r ≡ 𝟘)
    × (line_at (doubling_step r).0 (opposite (doubling_step r).1) ≡ 𝟘)
doubling_step-line_example = doubling_step-line fq2_ring r

addition_step-line_example :
    (line_at (addition_step r q).0 r ≡ 𝟘)
    × (line_at (addition_step r q).0 (finite q) ≡ 𝟘)
    × (line_at (addition_step r q).0 (opposite (addition_step r q).1) ≡ 𝟘)
addition_step-line_example = addition_step-line fq2_ring r q

miller_loop-append_example :
    miller_loop bits ((prepared ∷ []) ++ prepared ∷ [])
    ≡ product (miller_loop bits (prepared ∷ [])) (miller_loop bits (prepared ∷ []))
miller_loop-append_example =
    miller_loop-append zmod19-IsField.ring bits (prepared ∷ []) (prepared ∷ [])

miller_loop_lem_example :
    miller_loop bits
      (map (λ (s : Affine Q × Affine (Fq2 Q)). (s.0, from_affine bits s.1)) ((p, q) ∷ (p, q) ∷ []))
    ≡ some (fused_product bits ((p, q) ∷ (p, q) ∷ []))
miller_loop_lem_example = miller_loop_lem zmod19-IsField.ring bits ((p, q) ∷ (p, q) ∷ [])

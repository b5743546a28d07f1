-- ===== src/Examples/Pippenger.antt =====
-- The multi-exponentiations of pairing/src/lib.rs, over the integers modulo 101 as the group.
use aws_dpid.Prelude.{ℕ, ◌<◌, ◌≡◌, some, List, [], ◌∷◌, arith}
use aws_dpid.Wnaf.{negsuc}
use aws_dpid.Preprocess.{g1_table_size}
use aws_dpid.Preprocess.Scalar.{fr_modulus, limbs_value}
use aws_dpid.Preprocess.Fill.{g1_table_size-Sizes}
use aws_dpid.Preprocess.Object.{int, returned}
use aws_dpid.Preprocess.Multiexp.{
  g1, zip, blsmultiexp, IsSum, AreSummands, done, with_int, blsmultiexp_lem,
}
use aws_dpid.Radix.Window.{AreLimbs, four}
use aws_dpid.Radix.Total.{IsRadix, to_radix_2w_lem}
use aws_dpid.Pippenger.{pippenger}
use aws_dpid.Pippenger.Rows.{AreScalars, no_scalars, scalar_then, sum_of_multiples}
use aws_dpid.Pippenger.Correct.{pippenger_lem}
use aws_dpid.Examples.Wnaf.{Z, z_points, z_group, z-Represents, five}
use aws_dpid.Examples.Zmod.{residue}
use aws_dpid.Examples.Preprocess.{z_table_ops, z_scalars, z-Carries, z-IsFr, c4, life}

abbrev k1 : List ℕ
k1 = 1000 ∷ 3 ∷ 0 ∷ 7 ∷ []

abbrev k2 : List ℕ
k2 = 18446744073709551615 ∷ 0 ∷ 1 ∷ 0 ∷ []

k1-AreLimbs : AreLimbs k1
k1-AreLimbs = four _ _ _ _ (omega arith) (omega arith) (omega arith) (omega arith)

k2-AreLimbs : AreLimbs k2
k2-AreLimbs = four _ _ _ _ (omega arith) (omega arith) (omega arith) (omega arith)

k1-lt : limbs_value k1 < fr_modulus
unfolding limbs_value
k1-lt = omega arith

k2-lt : limbs_value k2 < fr_modulus
unfolding limbs_value
k2-lt = omega arith

k-AreScalars : AreScalars (k1 ∷ k2 ∷ [])
k-AreScalars = scalar_then k1 k1-AreLimbs k1-lt (scalar_then k2 k2-AreLimbs k2-lt no_scalars)

to_radix_2w_lem_example : IsRadix 8 (limbs_value k1) k1
to_radix_2w_lem_example = (to_radix_2w_lem k1-AreLimbs k1-lt) 8 (omega arith) (omega arith)

pippenger_lem_example :
    (g : Z) × (pippenger (five ∷ residue 101 7 ∷ []) (k1 ∷ k2 ∷ []) ≡ some g)
    × (g ≡ sum_of_multiples z_group (λ (g : Z). g) (k1 ∷ k2 ∷ []) (five ∷ residue 101 7 ∷ []))
pippenger_lem_example =
    (pippenger_lem z_group z-Represents) (five ∷ residue 101 7 ∷ []) k-AreScalars

life-AreSummands :
    AreSummands z_table_ops z_scalars z_group z-Carries z-IsFr g1_table_size g1_table_size-Sizes
      (zip (g1 c4 ∷ []) (int (negsuc 4) ∷ []))
unfolding zip
life-AreSummands = with_int c4 (negsuc 4) life done

blsmultiexp_lem_example :
    (g : Z) × (blsmultiexp z_table_ops z_scalars (g1 c4 ∷ []) (int (negsuc 4) ∷ [])
      ≡ returned (record { point = g; pp = []; pplevel = 0 }))
    × IsSum z_table_ops z_scalars z_group z-Carries z-IsFr g1_table_size g1_table_size-Sizes
        (zip (g1 c4 ∷ []) (int (negsuc 4) ∷ []))
        g
blsmultiexp_lem_example =
    (blsmultiexp_lem z_table_ops z_scalars z_group z-Carries z-IsFr g1_table_size
        g1_table_size-Sizes)
      (g1 c4 ∷ []) (int (negsuc 4) ∷ []) life-AreSummands

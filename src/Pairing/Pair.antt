-- ===== src/Pairing/Pair.antt =====
-- `Engine::pairing` and the function `pair` that Python calls (pairing/src/lib.rs). A panic of
-- `unwrap` is `none`; the prepared form of a point of G1 is the point.
pub mod Infinity
pub mod Several
use aws_dpid.Prelude.{ℕ, Bool, Option, ◌>>=◌, List, [], ◌∷◌}
use aws_dpid.Ring.{RingOps, FieldOps}
use aws_dpid.Tower.Fq2.{Fq2, fq2_ops, fq2_field, fq2_nonresidue}
use aws_dpid.Tower.Fq6.{fq6_ops, fq6_field, fq6_nonresidue}
use aws_dpid.Tower.Fq12.{fq12_ops, fq12_field}
use aws_dpid.Curve.{Affine, Projective, into_affine}
use aws_dpid.Pairing.{Gt, from_affine, miller_loop, final_exponentiation}

module _ {A : Type 0} ⦃F : RingOps A⦄ ⦃K : FieldOps A⦄ (bits : List Bool) (pow : Gt A → ℕ → Gt A)
    (frobenius : ℕ → Gt A → Gt A) where
  unfoldable pub pairing : Affine A → Affine (Fq2 A) → Option (Gt A)
  unfolding miller_loop from_affine final_exponentiation
  pairing p q =
      miller_loop bits ((p, from_affine bits q) ∷ []) >>= λ f. final_exponentiation pow frobenius f

  unfoldable pub pair : Projective A → Projective (Fq2 A) → Option (Gt A)
  unfolding into_affine pairing
  pair a b = into_affine a >>= λ p. into_affine b >>= λ q. pairing p q

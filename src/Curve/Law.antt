-- ===== src/Curve/Law.antt =====
-- The law of chord and tangent on affine points, which the Jacobian formulas of `curve_impl!`
-- (pairing/src/bls12_381/ec.rs) implement.
pub mod Formulas
pub mod Coordinates
pub mod Correct
pub mod Operations
pub mod Multiple
use mathlib.Core.Option
use aws_dpid.Prelude.{false, ◌&&◌, not, Option, some, if◌then◌else◌}
use aws_dpid.Ring.{RingOps, FieldOps, ◌⊕◌, ◌⊖◌, ◌⊗◌, ◌=?◌}
use aws_dpid.Ring.{square as sqr, double as dbl, is_zero as is_zero?, inverse as inverse?}
use aws_dpid.Curve.{Affine, affine_zero}

module _ {B : Type 0} ⦃F : RingOps B⦄ where
  abbrev pub third_x : B → B → B → B
  third_x x1 x2 slope = slope ⊗ slope ⊖ x1 ⊖ x2

  abbrev pub third_y : B → B → B → B → B
  third_y x1 y1 x2 slope = slope ⊗ (x1 ⊖ third_x x1 x2 slope) ⊖ y1

  -- The third point of the line of this slope through two points, reflected.
  abbrev pub third : B → B → B → B → Affine B
  third x1 y1 x2 slope = record {
    x = third_x x1 x2 slope;
    y = third_y x1 y1 x2 slope;
    infinity = false;
  }

  abbrev pub thrice_square : B → B
  thrice_square x = dbl (sqr x) ⊕ sqr x

module _ {B : Type 0} ⦃F : RingOps B⦄ ⦃K : FieldOps B⦄ where
  -- Two points with different x are on a chord; a point with itself on a tangent, unless y is zero.
  -- Two others are opposite where they lie on the curve, and the sum is infinity.
  unfoldable pub chord_tangent : Affine B → Affine B → Option (Affine B)
  chord_tangent p q =
      if p.infinity
      then some q
      else if q.infinity
      then some p
      else if not (p.x =? q.x)
      then Option.map (λ i. third p.x p.y q.x ((q.y ⊖ p.y) ⊗ i)) (inverse? (q.x ⊖ p.x))
      else if (p.y =? q.y) && not (is_zero? p.y)
      then Option.map (λ i. third p.x p.y p.x (thrice_square p.x ⊗ i)) (inverse? (dbl p.y))
      else some affine_zero

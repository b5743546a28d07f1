-- ===== src/Tower/Fq12.antt =====
-- `Fq12`, pairing/src/bls12_381/fq12.rs: the quadratic extension of `Fq6` by `w` with `w^2 = v`.
-- `B` stands for `Fq2`.
pub mod Ring
pub mod Extension
pub mod Inverse
use mathlib.Core.Option
use aws_dpid.Prelude.{ℕ, ◌%◌, Bool, ◌&&◌, Option, List, get_or}
use aws_dpid.Ring.{RingOps, FieldOps, NonresidueOps, 𝟘, 𝟙, ◌⊕◌, ◌⊖◌, ◌⊗◌, twist}
use aws_dpid.Ring.{negate as neg, square as sqr, double as dbl}
use aws_dpid.Ring.{is_zero as is_zero?, ◌=?◌, inverse as inverse?}
use aws_dpid.Tower.Fq6.{Fq6, mul_by_1, mul_by_01, fq6_ops, fq6_nonresidue}

-- `c0 + c1 * w`.
pub record Fq12 (C : Type 0) : Type 0 where
  pub c0 : C
  pub c1 : C

-- The methods that call `Fq6` only by the operations of a field.
module _ {C : Type 0} ⦃F : RingOps C⦄ where
  unfoldable pub conjugate : Fq12 C → Fq12 C
  conjugate self = record self { c1 = neg self.c1 }

  unfoldable pub zero : Fq12 C
  zero = record { c0 = 𝟘; c1 = 𝟘 }

  unfoldable pub one : Fq12 C
  one = record { c0 = 𝟙; c1 = 𝟘 }

  unfoldable pub double : Fq12 C → Fq12 C
  double self = record { c0 = dbl self.c0; c1 = dbl self.c1 }

  unfoldable pub negate : Fq12 C → Fq12 C
  negate self = record { c0 = neg self.c0; c1 = neg self.c1 }

  unfoldable pub add_assign : Fq12 C → Fq12 C → Fq12 C
  add_assign self other = record { c0 = self.c0 ⊕ other.c0; c1 = self.c1 ⊕ other.c1 }

  unfoldable pub sub_assign : Fq12 C → Fq12 C → Fq12 C
  sub_assign self other = record { c0 = self.c0 ⊖ other.c0; c1 = self.c1 ⊖ other.c1 }

  module _ ⦃N : NonresidueOps C⦄ where
    unfoldable pub square : Fq12 C → Fq12 C
    square self =
        let ab = self.c0 ⊗ self.c1 in
        let c0c1 = self.c0 ⊕ self.c1 in
        let c0 = (twist self.c1 ⊕ self.c0) ⊗ c0c1 ⊖ ab in
        record { c0 = c0 ⊖ twist ab; c1 = ab ⊕ ab }

    unfoldable pub mul_assign : Fq12 C → Fq12 C → Fq12 C
    mul_assign self other =
        let aa = self.c0 ⊗ other.c0 in
        let bb = self.c1 ⊗ other.c1 in
        let o = other.c0 ⊕ other.c1 in
        let c1 = (self.c1 ⊕ self.c0) ⊗ o ⊖ aa ⊖ bb in record { c0 = twist bb ⊕ aa; c1 = c1 }

    instance abbrev pub fq12_ops : RingOps (Fq12 C)
    fq12_ops = record {
      zero = zero;
      one = one;
      add = add_assign;
      sub = sub_assign;
      mul = mul_assign;
      negate = negate;
      square = square;
      double = double;
    }

    module _ ⦃K : FieldOps C⦄ where
      unfoldable pub is_zero : Fq12 C → Bool
      is_zero self = is_zero? self.c0 && is_zero? self.c1

      unfoldable pub eq : Fq12 C → Fq12 C → Bool
      eq self other = self.c0 =? other.c0 && self.c1 =? other.c1

      unfoldable pub inverse : Fq12 C → Option (Fq12 C)
      inverse self =
          let c1s = twist (sqr self.c1) in
          let c0s = sqr self.c0 ⊖ c1s in
          Option.map (λ t. record { c0 = t ⊗ self.c0; c1 = neg (t ⊗ self.c1) }) (inverse? c0s)

      instance abbrev pub fq12_field : FieldOps (Fq12 C)
      fq12_field = record { is_zero = is_zero; eq = eq; inverse = inverse }

-- The methods that reach into the coordinates of `Fq6`.
module _ {B : Type 0} ⦃F : RingOps B⦄ where
  -- `frobenius` is the map of `Fq6`; the table is FROBENIUS_COEFF_FQ12_C1, of twelve entries.
  unfoldable pub frobenius_map : (ℕ → Fq6 B → Fq6 B) → List B → ℕ → Fq12 (Fq6 B) → Fq12 (Fq6 B)
  frobenius_map frobenius coeffs power self =
      let c1 = frobenius power self.c1 in
      let k = get_or coeffs (power % 12) 𝟘 in
      record {
        c0 = frobenius power self.c0;
        c1 = record { c0 = c1.c0 ⊗ k; c1 = c1.c1 ⊗ k; c2 = c1.c2 ⊗ k };
      }

  unfoldable pub mul_by_014 : ⦃N : NonresidueOps B⦄ → Fq12 (Fq6 B) → B → B → B → Fq12 (Fq6 B)
  unfolding mul_by_01 mul_by_1
  mul_by_014 self c0 c1 c4 =
      let aa = mul_by_01 self.c0 c0 c1 in
      let bb = mul_by_1 self.c1 c4 in
      let o = c1 ⊕ c4 in
      record { c0 = twist bb ⊕ aa; c1 = mul_by_01 (self.c1 ⊕ self.c0) c0 o ⊖ aa ⊖ bb }

-- ===== src/Tower/Fq2.antt =====
-- `Fq2`, pairing/src/bls12_381/fq2.rs: the quadratic extension by `u` with `u^2 = -1`, over any
-- type with the operations of `Fq`, which the crate `ff` derives.
pub mod Ring
pub mod Extension
pub mod Inverse
pub mod Sqrt
use mathlib.Core.Option
use aws_dpid.Prelude.{ℕ, ◌%◌, Bool, ◌&&◌, Option, List}
use aws_dpid.Prelude.{get_or}
use aws_dpid.Ring.{RingOps, FieldOps, NonresidueOps, 𝟘, 𝟙, ◌⊕◌, ◌⊖◌, ◌⊗◌}
use aws_dpid.Ring.{negate as neg, square as sqr, double as dbl}
use aws_dpid.Ring.{is_zero as is_zero?, ◌=?◌, inverse as inverse?}

-- `c0 + c1 * u`.
pub record Fq2 (A : Type 0) : Type 0 where
  pub c0 : A
  pub c1 : A

module _ {A : Type 0} ⦃F : RingOps A⦄ where
  -- Multiplication by the nonresidue `1 + u`.
  unfoldable pub mul_by_nonresidue : Fq2 A → Fq2 A
  mul_by_nonresidue self = record { c0 = self.c0 ⊖ self.c1; c1 = self.c1 ⊕ self.c0 }

  unfoldable pub norm : Fq2 A → A
  norm self = let t0 = sqr self.c0 in let t1 = sqr self.c1 in t1 ⊕ t0

  unfoldable pub zero : Fq2 A
  zero = record { c0 = 𝟘; c1 = 𝟘 }

  unfoldable pub one : Fq2 A
  one = record { c0 = 𝟙; c1 = 𝟘 }

  unfoldable pub square : Fq2 A → Fq2 A
  square self =
      let ab = self.c0 ⊗ self.c1 in
      let c0c1 = self.c0 ⊕ self.c1 in
      let c0 = (neg self.c1 ⊕ self.c0) ⊗ c0c1 ⊖ ab in record { c0 = c0 ⊕ ab; c1 = ab ⊕ ab }

  unfoldable pub double : Fq2 A → Fq2 A
  double self = record { c0 = dbl self.c0; c1 = dbl self.c1 }

  unfoldable pub negate : Fq2 A → Fq2 A
  negate self = record { c0 = neg self.c0; c1 = neg self.c1 }

  unfoldable pub add_assign : Fq2 A → Fq2 A → Fq2 A
  add_assign self other = record { c0 = self.c0 ⊕ other.c0; c1 = self.c1 ⊕ other.c1 }

  unfoldable pub sub_assign : Fq2 A → Fq2 A → Fq2 A
  sub_assign self other = record { c0 = self.c0 ⊖ other.c0; c1 = self.c1 ⊖ other.c1 }

  unfoldable pub mul_assign : Fq2 A → Fq2 A → Fq2 A
  mul_assign self other =
      let aa = self.c0 ⊗ other.c0 in
      let bb = self.c1 ⊗ other.c1 in
      let o = other.c0 ⊕ other.c1 in
      let c1 = (self.c1 ⊕ self.c0) ⊗ o ⊖ aa ⊖ bb in record { c0 = aa ⊖ bb; c1 = c1 }

  instance abbrev pub fq2_ops : RingOps (Fq2 A)
  fq2_ops = record {
    zero = zero;
    one = one;
    add = add_assign;
    sub = sub_assign;
    mul = mul_assign;
    negate = negate;
    square = square;
    double = double;
  }

  instance abbrev pub fq2_nonresidue : NonresidueOps (Fq2 A)
  fq2_nonresidue = record { mul_by_nonresidue = mul_by_nonresidue }

  module _ ⦃K : FieldOps A⦄ where
    unfoldable pub is_zero : Fq2 A → Bool
    is_zero self = is_zero? self.c0 && is_zero? self.c1

    unfoldable pub eq : Fq2 A → Fq2 A → Bool
    eq self other = self.c0 =? other.c0 && self.c1 =? other.c1

    unfoldable pub inverse : Fq2 A → Option (Fq2 A)
    inverse self =
        let t1 = sqr self.c1 in
        let t0 = sqr self.c0 ⊕ t1 in
        Option.map (λ t. record { c0 = self.c0 ⊗ t; c1 = neg (self.c1 ⊗ t) }) (inverse? t0)

    instance abbrev pub fq2_field : FieldOps (Fq2 A)
    fq2_field = record { is_zero = is_zero; eq = eq; inverse = inverse }

  -- `coeffs` is the table FROBENIUS_COEFF_FQ2_C1 of two entries.
  unfoldable pub frobenius_map : List A → ℕ → Fq2 A → Fq2 A
  frobenius_map coeffs power self = record self { c1 = self.c1 ⊗ get_or coeffs (power % 2) 𝟘 }

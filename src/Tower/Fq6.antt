-- ===== src/Tower/Fq6.antt =====
-- `Fq6`, pairing/src/bls12_381/fq6.rs: the cubic extension by `v`, whose cube is the nonresidue of
-- the base. The base is any type with the operations of `Fq2` that the file calls.
pub mod Ring
pub mod Extension
pub mod Inverse
use aws_dpid.Prelude.{ℕ, ◌%◌, Bool, ◌&&◌, Option, none, some, List, get_or}
use aws_dpid.Ring.{RingOps, FieldOps, NonresidueOps, 𝟘, 𝟙, ◌⊕◌, ◌⊖◌, ◌⊗◌, twist}
use aws_dpid.Ring.{negate as neg, square as sqr, double as dbl}
use aws_dpid.Ring.{is_zero as is_zero?, ◌=?◌, inverse as inverse?}

-- `c0 + c1 * v + c2 * v^2`.
pub record Fq6 (B : Type 0) : Type 0 where
  pub c0 : B
  pub c1 : B
  pub c2 : B

module _ {B : Type 0} ⦃F : RingOps B⦄ where
  unfoldable pub zero : Fq6 B
  zero = record { c0 = 𝟘; c1 = 𝟘; c2 = 𝟘 }

  unfoldable pub one : Fq6 B
  one = record { c0 = 𝟙; c1 = 𝟘; c2 = 𝟘 }

  unfoldable pub double : Fq6 B → Fq6 B
  double self = record { c0 = dbl self.c0; c1 = dbl self.c1; c2 = dbl self.c2 }

  unfoldable pub negate : Fq6 B → Fq6 B
  negate self = record { c0 = neg self.c0; c1 = neg self.c1; c2 = neg self.c2 }

  unfoldable pub add_assign : Fq6 B → Fq6 B → Fq6 B
  add_assign self other = record {
    c0 = self.c0 ⊕ other.c0;
    c1 = self.c1 ⊕ other.c1;
    c2 = self.c2 ⊕ other.c2;
  }

  unfoldable pub sub_assign : Fq6 B → Fq6 B → Fq6 B
  sub_assign self other = record {
    c0 = self.c0 ⊖ other.c0;
    c1 = self.c1 ⊖ other.c1;
    c2 = self.c2 ⊖ other.c2;
  }

  -- `frobenius` is the map of the base; the tables are FROBENIUS_COEFF_FQ6_C1 and
  -- FROBENIUS_COEFF_FQ6_C2, of six entries.
  unfoldable pub frobenius_map : (ℕ → B → B) → List B → List B → ℕ → Fq6 B → Fq6 B
  frobenius_map frobenius coeffs_c1 coeffs_c2 power self = record {
    c0 = frobenius power self.c0;
    c1 = frobenius power self.c1 ⊗ get_or coeffs_c1 (power % 6) 𝟘;
    c2 = frobenius power self.c2 ⊗ get_or coeffs_c2 (power % 6) 𝟘;
  }

  module _ ⦃N : NonresidueOps B⦄ where
    -- Multiplication by `v`: the two swaps rotate the coordinates.
    unfoldable pub mul_by_nonresidue : Fq6 B → Fq6 B
    mul_by_nonresidue self = record { c0 = twist self.c2; c1 = self.c0; c2 = self.c1 }

    unfoldable pub mul_by_1 : Fq6 B → B → Fq6 B
    mul_by_1 self c1 =
        let b_b = self.c1 ⊗ c1 in
        let t1 = twist (c1 ⊗ (self.c1 ⊕ self.c2) ⊖ b_b) in
        let t2 = c1 ⊗ (self.c0 ⊕ self.c1) ⊖ b_b in record { c0 = t1; c1 = t2; c2 = b_b }

    unfoldable pub mul_by_01 : Fq6 B → B → B → Fq6 B
    mul_by_01 self c0 c1 =
        let a_a = self.c0 ⊗ c0 in
        let b_b = self.c1 ⊗ c1 in
        let t1 = twist (c1 ⊗ (self.c1 ⊕ self.c2) ⊖ b_b) ⊕ a_a in
        let t3 = c0 ⊗ (self.c0 ⊕ self.c2) ⊖ a_a ⊕ b_b in
        let t2 = (c0 ⊕ c1) ⊗ (self.c0 ⊕ self.c1) ⊖ a_a ⊖ b_b in record { c0 = t1; c1 = t2; c2 = t3 }

    unfoldable pub square : Fq6 B → Fq6 B
    square self =
        let s0 = sqr self.c0 in
        let ab = self.c0 ⊗ self.c1 in
        let s1 = dbl ab in
        let s2 = sqr (self.c0 ⊖ self.c1 ⊕ self.c2) in
        let bc = self.c1 ⊗ self.c2 in
        let s3 = dbl bc in
        let s4 = sqr self.c2 in
        record { c0 = twist s3 ⊕ s0; c1 = twist s4 ⊕ s1; c2 = s1 ⊕ s2 ⊕ s3 ⊖ s0 ⊖ s4 }

    unfoldable pub mul_assign : Fq6 B → Fq6 B → Fq6 B
    mul_assign self other =
        let a_a = self.c0 ⊗ other.c0 in
        let b_b = self.c1 ⊗ other.c1 in
        let c_c = self.c2 ⊗ other.c2 in
        let t1 = twist ((other.c1 ⊕ other.c2) ⊗ (self.c1 ⊕ self.c2) ⊖ b_b ⊖ c_c) ⊕ a_a in
        let t3 = (other.c0 ⊕ other.c2) ⊗ (self.c0 ⊕ self.c2) ⊖ a_a ⊕ b_b ⊖ c_c in
        let t2 = (other.c0 ⊕ other.c1) ⊗ (self.c0 ⊕ self.c1) ⊖ a_a ⊖ b_b ⊕ twist c_c in
        record { c0 = t1; c1 = t2; c2 = t3 }

    instance abbrev pub fq6_ops : RingOps (Fq6 B)
    fq6_ops = record {
      zero = zero;
      one = one;
      add = add_assign;
      sub = sub_assign;
      mul = mul_assign;
      negate = negate;
      square = square;
      double = double;
    }

    instance abbrev pub fq6_nonresidue : NonresidueOps (Fq6 B)
    fq6_nonresidue = record { mul_by_nonresidue = mul_by_nonresidue }

    -- The first half of `inverse`: the element by which `self` is multiplied to reach the base.
    unfoldable pub adjoint : Fq6 B → Fq6 B
    adjoint self = record {
      c0 = neg (twist self.c2 ⊗ self.c1) ⊕ sqr self.c0;
      c1 = twist (sqr self.c2) ⊖ self.c0 ⊗ self.c1;
      c2 = sqr self.c1 ⊖ self.c0 ⊗ self.c2;
    }

    -- The second half, up to the inversion in the base: `tmp1`.
    unfoldable pub denominator : Fq6 B → B
    unfolding adjoint
    denominator self =
        let c = adjoint self in twist (self.c2 ⊗ c.c1 ⊕ self.c1 ⊗ c.c2) ⊕ self.c0 ⊗ c.c0

    -- The last step of `inverse`: the match on the inverse in the base.
    unfoldable pub rescale : Fq6 B → Option B → Option (Fq6 B)
    rescale c (some t) = some (record { c0 = t ⊗ c.c0; c1 = t ⊗ c.c1; c2 = t ⊗ c.c2 })
    rescale c none = none

    module _ ⦃K : FieldOps B⦄ where
      unfoldable pub is_zero : Fq6 B → Bool
      is_zero self = is_zero? self.c0 && is_zero? self.c1 && is_zero? self.c2

      unfoldable pub eq : Fq6 B → Fq6 B → Bool
      eq self other = self.c0 =? other.c0 && self.c1 =? other.c1 && self.c2 =? other.c2

      unfoldable pub inverse : Fq6 B → Option (Fq6 B)
      inverse self = rescale (adjoint self) (inverse? (denominator self))

      instance abbrev pub fq6_field : FieldOps (Fq6 B)
      fq6_field = record { is_zero = is_zero; eq = eq; inverse = inverse }

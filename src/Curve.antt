-- ===== src/Curve.antt =====
-- Curve points, the macro `curve_impl!` of pairing/src/bls12_381/ec.rs that makes G1 and G2. The
-- base field is any type with the operations of `ff::Field`; `BitIterator` of the crate `ff` is
-- the list of the bits that it yields.
pub mod Batch
pub mod Equation
pub mod Valid
pub mod Points
pub mod Equal
pub mod Mixed
pub mod Multiply
pub mod Root
pub mod Unique
pub mod Law
use aws_dpid.Prelude.{Bool, true, false, ◌&&◌, ◌||◌, not, Option, none, some, List, [], ◌∷◌}
use aws_dpid.Prelude.{if◌then◌else◌}
use mathlib.Core.Bool.{xor}
use mathlib.Core.Option
use aws_dpid.Ring.{RingOps, FieldOps, 𝟘, 𝟙, ◌⊕◌, ◌⊖◌, ◌⊗◌, ◌=?◌}
use aws_dpid.Ring.{negate as neg, square as sqr, double as dbl, is_zero as is_zero?}
use aws_dpid.Ring.{inverse as inverse?}

pub record Affine (B : Type 0) : Type 0 where
  pub x : B
  pub y : B
  pub infinity : Bool

-- Jacobian coordinates: the affine point is (x / z^2, y / z^3), and z = 0 is infinity.
pub record Projective (B : Type 0) : Type 0 where
  pub x : B
  pub y : B
  pub z : B

-- The products by which `add_assign` compares and adds two points.
pub record Scaled (B : Type 0) : Type 0 where
  pub u1 : B
  pub u2 : B
  pub s1 : B
  pub s2 : B

-- `double` on a point other than infinity, and the generic branches of the two additions.
module _ {B : Type 0} ⦃F : RingOps B⦄ where
  unfoldable pub double_formula : Projective B → Projective B
  double_formula self =
      let a = sqr self.x in
      let b = sqr self.y in
      let c = sqr b in
      let d = dbl (sqr (self.x ⊕ b) ⊖ a ⊖ c) in
      let e = dbl a ⊕ a in
      let f = sqr e in
      let x3 = f ⊖ d ⊖ d in
      record { x = x3; y = (d ⊖ x3) ⊗ e ⊖ dbl (dbl (dbl c)); z = dbl (self.z ⊗ self.y) }

  unfoldable pub scaled : Projective B → Projective B → Scaled B
  scaled self other =
      let z1z1 = sqr self.z in
      let z2z2 = sqr other.z in
      record {
        u1 = self.x ⊗ z2z2;
        u2 = other.x ⊗ z1z1;
        s1 = self.y ⊗ other.z ⊗ z2z2;
        s2 = other.y ⊗ self.z ⊗ z1z1;
      }

  -- The generic branch of `add_assign`, from H = U2 - U1 on; `zz` is (Z1 + Z2)^2 - Z1Z1 - Z2Z2.
  unfoldable pub add_scaled : Scaled B → B → Projective B
  add_scaled p zz =
      let h = p.u2 ⊖ p.u1 in
      let i = sqr (dbl h) in
      let j = h ⊗ i in
      let r = dbl (p.s2 ⊖ p.s1) in
      let v = p.u1 ⊗ i in
      let x3 = sqr r ⊖ j ⊖ v ⊖ v in record { x = x3; y = (v ⊖ x3) ⊗ r ⊖ dbl (p.s1 ⊗ j); z = zz ⊗ h }

  unfoldable pub add_formula : Projective B → Projective B → Projective B
  unfolding scaled add_scaled
  add_formula self other =
      let z1z1 = sqr self.z in
      let z2z2 = sqr other.z in
      add_scaled (scaled self other) (sqr (self.z ⊕ other.z) ⊖ z1z1 ⊖ z2z2)

  unfoldable pub mixed_formula : Projective B → Affine B → Projective B
  mixed_formula self other =
      let z1z1 = sqr self.z in
      let u2 = other.x ⊗ z1z1 in
      let s2 = other.y ⊗ self.z ⊗ z1z1 in
      let h = u2 ⊖ self.x in
      let hh = sqr h in
      let i = dbl (dbl hh) in
      let j = h ⊗ i in
      let r = dbl (s2 ⊖ self.y) in
      let v = self.x ⊗ i in
      let x3 = sqr r ⊖ j ⊖ v ⊖ v in
      record { x = x3; y = (v ⊖ x3) ⊗ r ⊖ dbl (j ⊗ self.y); z = sqr (self.z ⊕ h) ⊖ z1z1 ⊖ hh }

module _ {B : Type 0} ⦃F : RingOps B⦄ ⦃K : FieldOps B⦄ where
  unfoldable pub is_zero : Projective B → Bool
  is_zero self = is_zero? self.z

  -- `PartialEq::eq`.
  unfoldable pub eq : Projective B → Projective B → Bool
  unfolding is_zero
  eq self other =
      if is_zero self
      then is_zero other
      else if is_zero other
      then false
      else let z1 = sqr self.z in
        let z2 = sqr other.z in
        if not (self.x ⊗ z2 =? other.x ⊗ z1)
        then false
        else if not (z1 ⊗ self.z ⊗ other.y =? z2 ⊗ other.z ⊗ self.y)
        then false
        else true

  unfoldable pub zero : Projective B
  zero = record { x = 𝟘; y = 𝟙; z = 𝟘 }

  unfoldable pub is_normalized : Projective B → Bool
  unfolding is_zero
  is_normalized self = is_zero self || self.z =? 𝟙

  unfoldable pub double : Projective B → Projective B
  unfolding is_zero double_formula
  double self = if is_zero self then self else double_formula self

  unfoldable pub add_assign : Projective B → Projective B → Projective B
  unfolding is_zero scaled add_formula double
  add_assign self other =
      if is_zero self
      then other
      else if is_zero other
      then self
      else let p = scaled self other in
        if p.u1 =? p.u2 && p.s1 =? p.s2 then double self else add_formula self other

  unfoldable pub add_assign_mixed : Projective B → Affine B → Projective B
  unfolding is_zero mixed_formula double
  add_assign_mixed self other =
      if other.infinity
      then self
      else if is_zero self
      then record { x = other.x; y = other.y; z = 𝟙 }
      else let z1z1 = sqr self.z in
        let u2 = other.x ⊗ z1z1 in
        let s2 = other.y ⊗ self.z ⊗ z1z1 in
        if self.x =? u2 && self.y =? s2 then double self else mixed_formula self other

  unfoldable pub negate : Projective B → Projective B
  unfolding is_zero
  negate self = if not (is_zero self) then record self { y = neg self.y } else self

  -- `CurveProjective::sub_assign` of the crate `group` is not in the sources; `mul_assign` walks
  -- the bits from the most significant one.
  unfoldable pub mul_loop : Projective B → List Bool → Bool → Projective B → Projective B
  unfolding double add_assign
  mul_loop self [] found_one res = res
  mul_loop self (i ∷ bits) found_one res =
      let doubled = if found_one then double res else res in
      let found = if found_one then true else i in
      mul_loop self bits found (if i then add_assign doubled self else doubled)

  unfoldable pub mul_assign : Projective B → List Bool → Projective B
  unfolding mul_loop zero
  mul_assign self bits = mul_loop self bits false zero

module _ {B : Type 0} ⦃F : RingOps B⦄ ⦃K : FieldOps B⦄ where
  -- The affine methods.
  unfoldable pub affine_zero : Affine B
  affine_zero = record { x = 𝟘; y = 𝟙; infinity = true }

  unfoldable pub affine_negate : Affine B → Affine B
  affine_negate self = if not self.infinity then record self { y = neg self.y } else self

  unfoldable pub is_on_curve : B → Affine B → Bool
  is_on_curve coeff_b self =
      if self.infinity
      then true
      else let y2 = sqr self.y in let x3b = sqr self.x ⊗ self.x ⊕ coeff_b in y2 =? x3b

  -- `sqrt` and `lt` are the square root and the order of the base field.
  unfoldable pub get_point_from_x :
      (B → Option B) → (B → B → Bool) → B → B → Bool → Option (Affine B)
  get_point_from_x sqrt lt coeff_b x greatest =
      let x3b = sqr x ⊗ x ⊕ coeff_b in
      Option.map
        (λ y.
          let negy = neg y in
          record { x = x; y = if xor (lt y negy) greatest then y else negy; infinity = false })
        (sqrt x3b)

  unfoldable pub mul_bits_loop : Affine B → List Bool → Projective B → Projective B
  unfolding double add_assign_mixed
  mul_bits_loop self [] res = res
  mul_bits_loop self (i ∷ bits) res =
      mul_bits_loop self bits (if i then add_assign_mixed (double res) self else double res)

  unfoldable pub mul_bits : Affine B → List Bool → Projective B
  unfolding mul_bits_loop zero
  mul_bits self bits = mul_bits_loop self bits zero

  -- `From<Affine> for Projective`, also `into_projective`.
  unfoldable pub into_projective : Affine B → Projective B
  unfolding zero
  into_projective p = if p.infinity then zero else record { x = p.x; y = p.y; z = 𝟙 }

  -- `From<Projective> for Affine`, also `into_affine`; `none` is the panic of `unwrap`.
  unfoldable pub into_affine : Projective B → Option (Affine B)
  unfolding is_zero affine_zero
  into_affine p =
      if is_zero p
      then some affine_zero
      else if p.z =? 𝟙
      then some (record { x = p.x; y = p.y; infinity = false })
      else Option.map
          (λ zinv. record { x = p.x ⊗ sqr zinv; y = p.y ⊗ (sqr zinv ⊗ zinv); infinity = false })
          (inverse? p.z)

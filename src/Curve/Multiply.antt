-- ===== src/Curve/Multiply.antt =====
-- The two multiplications of `curve_impl!` (pairing/src/bls12_381/ec.rs): `mul_bits` of an affine
-- point and `mul_assign` of a projective one, over the bits from the most significant one.
use aws_dpid.Prelude.{
  ◌≡◌, refl, sym, ap, ap₂, ◌∙◌, Bool, true, false, ◌⊎◌, inl, inr, Bool-cases, if◌then◌else◌, List,
  [], ◌∷◌,
}
use aws_dpid.Ring.{RingOps, FieldOps, IsField}
use aws_dpid.Curve.{
  Affine, Projective, zero, double, add_assign, add_assign_mixed, into_projective, mul_loop,
  mul_assign, mul_bits, mul_bits_loop,
}
use aws_dpid.Curve.Points.{zero-is_zero, into_projective_infinity}
use aws_dpid.Curve.Mixed.{add_assign_mixed_lem}

module _ {B : Type 0} ⦃F : RingOps B⦄ ⦃K : FieldOps B⦄ (D : IsField F K) where
  double_zero : double (zero {B = B}) ≡ zero
  unfolding double
  double_zero = rw (zero-is_zero D) refl

  zero_add : (p : Projective B) → add_assign zero p ≡ p
  unfolding add_assign
  zero_add p = rw (zero-is_zero D) refl

  mixed_infinity : (p : Projective B) (q : Affine B) → q.infinity ≡ true → add_assign_mixed p q ≡ p
  unfolding add_assign_mixed
  mixed_infinity p q e = rw e refl

  -- The bits before the first one double nothing, or infinity.
  abbrev Started : Bool → Projective B → Type 0
  Started found r = (found ≡ true) ⊎ ((found ≡ false) × (r ≡ zero))

  doubled_eq :
      (found : Bool) (r : Projective B)
      → Started found r
      → (if found then double r else r) ≡ double r
  doubled_eq found r (inl e) = ap (λ c. if c then double r else r) e
  doubled_eq found r (inr (e, none_yet)) =
      ap (λ c. if c then double r else r) e ∙ none_yet ∙ sym double_zero ∙ ap double (sym none_yet)

  Started-next :
      (i found : Bool) (r : Projective B) (sum : Projective B)
      → Started found r
      → Started (if found then true else i) (if i then sum else double r)
  Started-next true true r sum h = inl refl
  Started-next true false r sum h = inl refl
  Started-next false found r sum (inl e) = inl (ap (λ c. if c then true else false) e)
  Started-next false found r sum (inr (e, none_yet)) =
      inr (ap (λ c. if c then true else false) e, ap double none_yet ∙ double_zero)

  loops-finite :
      (q : Affine B)
      → q.infinity ≡ false
      → (bits : List Bool) (found : Bool) (r : Projective B) → Started found r
      → mul_bits_loop q bits r ≡ mul_loop (into_projective q) bits found r
  unfolding mul_bits_loop mul_loop
  loops-finite q e [] found r h = refl
  loops-finite q e (i ∷ bits) found r h =
      let found_then = if found then true else i in
      let sum = add_assign_mixed (double r) q in
      loops-finite q e bits found_then (if i then sum else double r) (Started-next i found r sum h)
      ∙ ap (mul_loop (into_projective q) bits found_then) (
          ap (λ s. if i then s else double r) (add_assign_mixed_lem D (double r) q (inl e))
          ∙ ap (λ d. if i then add_assign d (into_projective q) else d)
              (sym (doubled_eq found r h)))

  -- Infinity stays infinity in both loops.
  mul_bits_loop-infinity :
      (q : Affine B) → q.infinity ≡ true → (bits : List Bool) → mul_bits_loop q bits zero ≡ zero
  unfolding mul_bits_loop
  mul_bits_loop-infinity q e [] = refl
  mul_bits_loop-infinity q e (i ∷ bits) =
      ap (mul_bits_loop q bits) (
        ap₂ (λ s d. if i then s else d) (mixed_infinity (double zero) q e ∙ double_zero) double_zero
        ∙ same i)
      ∙ mul_bits_loop-infinity q e bits
    where
      same : (c : Bool) → (if c then zero else zero) ≡ (zero {B = B})
      same true = refl
      same false = refl

  turn_zero :
      (i found : Bool)
      → (if i
          then add_assign (if found then double zero else zero) zero
          else if found
          then double zero
          else zero)
        ≡ zero {B = B}
  turn_zero true true = ap (λ d. add_assign d zero) double_zero ∙ zero_add zero
  turn_zero true false = zero_add zero
  turn_zero false true = double_zero
  turn_zero false false = refl

  mul_loop-zero : (bits : List Bool) (found : Bool) → mul_loop (zero {B = B}) bits found zero ≡ zero
  unfolding mul_loop
  mul_loop-zero [] found = refl
  mul_loop-zero (i ∷ bits) found =
      ap (mul_loop zero bits (if found then true else i)) (turn_zero i found) ∙ mul_loop-zero bits _

  -- Multiplying an affine point by mixed additions, as `mul_bits` does, gives the same point in the
  -- same Jacobian coordinates as multiplying its projective form by `mul_assign`, which skips the
  -- doublings before the first set bit: for every point, infinity included, and all bits.
  pub mul_bits-mul_assign :
      (q : Affine B) (bits : List Bool) → mul_bits q bits ≡ mul_assign (into_projective q) bits
  unfolding mul_bits mul_assign
  mul_bits-mul_assign q bits = elim (Bool-cases q.infinity) [
    | inl e ↦
        mul_bits_loop-infinity q e bits
        ∙ sym (mul_loop-zero bits false)
        ∙ ap (λ p. mul_loop p bits false zero) (sym (into_projective_infinity D q e))
    | inr e ↦ loops-finite q e bits false zero (inr (refl, refl))
  ]

-- ===== src/Curve/Law/Multiple.antt =====
-- The multiplications of `curve_impl!` (pairing/src/bls12_381/ec.rs) by the law of chord and
-- tangent: doubling and adding affine points.
use aws_dpid.Prelude.{
  ◌≡◌, ◌≢◌, sym, ap, ◌∙◌, Bool, true, false, if◌then◌else◌, ◌>>=◌, Option, some, List, [], ◌∷◌,
}
use aws_dpid.Ring.{RingOps, FieldOps, IsField}
use aws_dpid.Curve.{
  Affine, Projective, double, add_assign_mixed, into_affine, into_projective, affine_zero, zero,
  mul_bits, mul_bits_loop, mul_assign,
}
use aws_dpid.Curve.Multiply.{mul_bits-mul_assign}
use aws_dpid.Curve.Points.{into_affine_total, into_affine_zero, zero-is_zero}
use aws_dpid.Curve.Law.{chord_tangent}
use aws_dpid.Curve.Law.Operations.{chord_tangent_law}

module _ {B : Type 0} ⦃F : RingOps B⦄ ⦃K : FieldOps B⦄ where
  -- The sum so far is added to itself and, at a set bit, to the point.
  unfoldable pub turn : Affine B → Bool → Affine B → Option (Affine B)
  turn q i sum = chord_tangent sum sum >>= λ d. if i then chord_tangent d q else some d

  -- Over the bits from the most significant one.
  unfoldable pub double_and_add : Affine B → List Bool → Affine B → Option (Affine B)
  unfolding turn
  double_and_add q [] sum = some sum
  double_and_add q (i ∷ bits) sum = turn q i sum >>= λ next. double_and_add q bits next

module _ {B : Type 0} ⦃F : RingOps B⦄ ⦃K : FieldOps B⦄ (D : IsField F K)
    (two : F.double F.one ≢ F.zero) (q : Affine B) (finite : q.infinity ≡ false) where
  double_law :
      (r : Projective B) (a : Affine B)
      → into_affine r ≡ some a
      → into_affine (double r) ≡ chord_tangent a a
  double_law r a e =
      ((chord_tangent_law D two) r r q finite).1
      ∙ ap (λ o. o >>= λ x. o >>= λ c. chord_tangent x c) e

  turn_law :
      (i : Bool) (r : Projective B) (d : Affine B)
      → into_affine (double r) ≡ some d
      → into_affine (if i then add_assign_mixed (double r) q else double r)
        ≡ (if i then chord_tangent d q else some d)
  turn_law true r d e =
      ((chord_tangent_law D two) (double r) r q finite).2 ∙ ap (λ o. o >>= λ x. chord_tangent x q) e
  turn_law false r d e = e

  loop_law :
      (bits : List Bool) (r : Projective B) (a : Affine B)
      → into_affine r ≡ some a
      → into_affine (mul_bits_loop q bits r) ≡ double_and_add q bits a
  unfolding mul_bits_loop double_and_add turn
  loop_law [] r a e = e
  loop_law (i ∷ bits) r a e =
      let (d, doubled) = into_affine_total D (double r) in
      let (s, added) =
        into_affine_total D (if i then add_assign_mixed (double r) q else double r) in
      loop_law bits (if i then add_assign_mixed (double r) q else double r) s added
      ∙ ap (λ o. o >>= λ next. double_and_add q bits next)
          (sym added
            ∙ turn_law i r d doubled
            ∙ ap (λ o. o >>= λ x. if i then chord_tangent x q else some x)
                (sym doubled ∙ double_law r a e))

  -- Over a field in which two is not zero, the affine points of what `mul_bits` returns at a finite
  -- point, and `mul_assign` at its projective form, are what doubling and adding by the law of
  -- chord and tangent gives from infinity, for all bits; there is no panic in it.
  pub multiple_law :
      (bits : List Bool)
      → (into_affine (mul_bits q bits) ≡ double_and_add q bits affine_zero)
        × (into_affine (mul_assign (into_projective q) bits) ≡ double_and_add q bits affine_zero)
        × ((p : Affine B) × (double_and_add q bits affine_zero ≡ some p))
  unfolding mul_bits
  multiple_law bits =
      let law = loop_law bits zero affine_zero (into_affine_zero D zero (zero-is_zero D)) in
      let (p, e) = into_affine_total D (mul_bits q bits) in
      (law, ap into_affine (sym (mul_bits-mul_assign D q bits)) ∙ law, (p, sym law ∙ e))

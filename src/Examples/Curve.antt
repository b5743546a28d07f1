-- ===== src/Examples/Curve.antt =====
-- The theorems on `curve_impl!` of pairing/src/bls12_381/ec.rs, over the integers modulo 19, on
-- the curve y^2 = x^3 + 4.
use aws_dpid.Prelude.{
  ◌≡◌, ◌≢◌, ap, ◌>>=◌, ◌↔◌, refl, true, false, inl, inr, some, [], ◌∷◌, map, if◌then◌else◌,
}
use aws_dpid.Curve.{
  Affine, Projective, double, add_assign, add_assign_mixed, mul_assign, mul_bits, is_on_curve,
  into_affine, into_projective, eq, affine_zero,
}
use aws_dpid.Curve.Batch.{batch_normalization}
use aws_dpid.Curve.Batch.Correct.{normalize, batch_normalization_lem}
use aws_dpid.Curve.Valid.{IsValid, IsValidAffine, add_assign-IsValid, is_on_curve_iff}
use aws_dpid.Curve.Equal.{eq_iff}
use aws_dpid.Curve.Law.{chord_tangent}
use aws_dpid.Curve.Law.Operations.{chord_tangent_law}
use aws_dpid.Curve.Law.Multiple.{double_and_add, multiple_law}
use aws_dpid.Curve.Points.{into_affine-into_projective}
use aws_dpid.Curve.Multiply.{mul_bits-mul_assign}
use aws_dpid.Curve.Mixed.{add_assign_mixed_lem}
use aws_dpid.Examples.Zmod.{Zmod, residue, zmod_ops, zmod_field, zmod19-IsField, Zmod-ext}

abbrev Q : Type 0
Q = Zmod 19

abbrev b : Q
b = residue 19 4

-- The points (0, 2) and (1, 9), the second with z = 3.
abbrev first : Affine Q
first = record { x = residue 19 0; y = residue 19 2; infinity = false }

abbrev first_point : Projective Q
first_point = record { x = residue 19 0; y = residue 19 2; z = residue 19 1 }

abbrev second_point : Projective Q
second_point = record { x = residue 19 9; y = residue 19 15; z = residue 19 3 }

first-IsValid : IsValidAffine b first
first-IsValid = inr (Zmod-ext refl)

first_point-IsValid : IsValid b first_point
first_point-IsValid = inr (Zmod-ext refl)

second_point-IsValid : IsValid b second_point
second_point-IsValid = inr (Zmod-ext refl)

add_assign-IsValid_example : IsValid b (add_assign first_point second_point)
add_assign-IsValid_example =
    add_assign-IsValid zmod19-IsField b first_point second_point first_point-IsValid
      second_point-IsValid

two-ne_zero : zmod_ops.double (residue 19 1) ≢ residue 19 0
two-ne_zero e = let h : 2 ≡ 0 = ap (λ (z : Q). z.val) e in cc

chord_tangent_law_example :
    (into_affine (add_assign first_point second_point)
      ≡ (into_affine first_point >>= λ a. into_affine second_point >>= λ c. chord_tangent a c))
    × (into_affine (double first_point)
        ≡ (into_affine first_point >>= λ a. into_affine first_point >>= λ c. chord_tangent a c))
    × (into_affine (add_assign_mixed first_point first)
        ≡ (into_affine first_point >>= λ a. chord_tangent a first))
chord_tangent_law_example =
    chord_tangent_law zmod19-IsField two-ne_zero first_point second_point first refl

mul_bits-mul_assign_example :
    mul_bits first (true ∷ false ∷ true ∷ [])
    ≡ mul_assign (into_projective first) (true ∷ false ∷ true ∷ [])
mul_bits-mul_assign_example = mul_bits-mul_assign zmod19-IsField first (true ∷ false ∷ true ∷ [])

is_on_curve_iff_example : (is_on_curve b first ≡ true) ↔ IsValidAffine b first
is_on_curve_iff_example = is_on_curve_iff zmod19-IsField b first

eq_iff_example :
    (eq first_point second_point ≡ true) ↔ (into_affine first_point ≡ into_affine second_point)
eq_iff_example = eq_iff zmod19-IsField first_point second_point

into_affine-into_projective_example :
    into_affine (into_projective first) ≡ some (if false then affine_zero else first)
into_affine-into_projective_example = into_affine-into_projective zmod19-IsField first

add_assign_mixed_lem_example :
    add_assign_mixed second_point first ≡ add_assign second_point (into_projective first)
add_assign_mixed_lem_example = add_assign_mixed_lem zmod19-IsField second_point first (inl refl)

batch_normalization_lem_example :
    batch_normalization (second_point ∷ first_point ∷ second_point ∷ [])
    ≡ some (map normalize (second_point ∷ first_point ∷ second_point ∷ []))
batch_normalization_lem_example =
    batch_normalization_lem zmod19-IsField (second_point ∷ first_point ∷ second_point ∷ [])

multiple_law_example :
    (into_affine (mul_bits first (true ∷ false ∷ true ∷ []))
      ≡ double_and_add first (true ∷ false ∷ true ∷ []) affine_zero)
    × (into_affine (mul_assign (into_projective first) (true ∷ false ∷ true ∷ []))
        ≡ double_and_add first (true ∷ false ∷ true ∷ []) affine_zero)
    × ((p : Affine Q) × (double_and_add first (true ∷ false ∷ true ∷ []) affine_zero ≡ some p))
multiple_law_example =
    (multiple_law zmod19-IsField two-ne_zero first refl) (true ∷ false ∷ true ∷ [])

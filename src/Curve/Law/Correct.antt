-- ===== src/Curve/Law/Correct.antt =====
-- `add_assign` of `curve_impl!` (pairing/src/bls12_381/ec.rs) against the law of chord and tangent,
-- on every branch.
use mathlib.Core.Option
use aws_dpid.Prelude.{
  ◌≡◌, ◌≢◌, refl, sym, ap, ap₂, ◌∙◌, Bool, true, false, ◌&&◌, inl, inr, not, Bool-cases, some,
  if◌then◌else◌, [], ◌∷◌, Option, ◌>>=◌,
}
use aws_dpid.Ring.{RingOps, FieldOps, IsField, 𝟘, 𝟙, ◌⊕◌, ◌⊖◌, ◌⊗◌, ◌=?◌}
use aws_dpid.Ring.{square as sqr, double as dbl, is_zero as is_zero?}
use aws_dpid.Ring.Laws.{mul-one, sub-zero→eq}
use aws_dpid.Ring.Poly.{is_nil}
use aws_dpid.Ring.Solver.{expr_ops, norm, env, solve}
use aws_dpid.Curve.{
  Affine, Projective, is_zero, double, add_assign, double_formula, add_formula, into_affine,
  affine_zero,
}
use aws_dpid.Curve.Points.{into_affine_zero, into_affine_total, ne_zero}
use aws_dpid.Curve.Law.{chord_tangent, third, third_x, third_y, thrice_square}
use aws_dpid.Curve.Law.Formulas.{jacobian, scaled-jacobian, chord_lem, tangent_lem, v0, v1, v2, v3}
use aws_dpid.Curve.Law.Coordinates.{
  at, mul-ne_zero, test-scaled, sqr-ne_zero, cube-ne_zero, jacobian-is_zero, into_affine-jacobian,
  coordinates,
}

module _ {B : Type 0} ⦃F : RingOps B⦄ ⦃K : FieldOps B⦄ (D : IsField F K)
    (two : F.double F.one ≢ F.zero) where
  dbl-ne_zero : {a : B} → a ≢ 𝟘 → dbl a ≢ 𝟘
  unfolding is_nil norm
  dbl-ne_zero {a} h e =
      mul-ne_zero D two h (solve D.ring (env (a ∷ [])) (dbl 𝟙 ⊗ v0) (dbl v0) refl ∙ e)

  -- The branches of the law on finite points.
  law_branches : B → B → B → B → Bool → Bool → Bool → Option (Affine B)
  law_branches x1 y1 x2 y2 same_x same_y no_slope =
      if not same_x
      then Option.map (λ i. third x1 y1 x2 ((y2 ⊖ y1) ⊗ i)) (K.inverse (x2 ⊖ x1))
      else if same_y && not no_slope
      then Option.map (λ i. third x1 y1 x1 (thrice_square x1 ⊗ i)) (K.inverse (dbl y1))
      else some affine_zero

  law_lem :
      (x1 y1 x2 y2 : B)
      → chord_tangent (at x1 y1) (at x2 y2)
        ≡ law_branches x1 y1 x2 y2 (x1 =? x2) (y1 =? y2) (is_zero? y1)
  unfolding chord_tangent law_branches
  law_lem x1 y1 x2 y2 = refl

  -- The branches of the code on finite points.
  code_branches : Projective B → Projective B → Bool → Bool → Projective B
  code_branches p q same_x same_y = if same_x && same_y then double_formula p else add_formula p q

  code_lem :
      (x1 y1 x2 y2 : B) {z1 z2 : B}
      → z1 ≢ 𝟘
      → z2 ≢ 𝟘
      → add_assign (jacobian x1 y1 z1) (jacobian x2 y2 z2)
        ≡ code_branches (jacobian x1 y1 z1) (jacobian x2 y2 z2) (x1 =? x2) (y1 =? y2)
  unfolding add_assign double code_branches
  code_lem x1 y1 x2 y2 {z1} {z2} h k =
      let w = mul-ne_zero D h k in
      let p = jacobian x1 y1 z1 in
      let q = jacobian x2 y2 z2 in
      rw (jacobian-is_zero D x1 y1 h, jacobian-is_zero D x2 y2 k)
        (ap (λ s. if (s.u1 =? s.u2) && (s.s1 =? s.s2) then double_formula p else add_formula p q)
            (scaled-jacobian D.ring x1 y1 x2 y2 z1 z2)
          ∙ ap₂ (λ a b. if a && b then double_formula p else add_formula p q)
              (test-scaled D x1 x2 _ (sqr-ne_zero D w)) (test-scaled D y1 y2 _ (cube-ne_zero D w)))

  -- A chord.
  chord_case :
      (x1 y1 x2 y2 : B) {z1 z2 : B}
      → z1 ≢ 𝟘
      → z2 ≢ 𝟘
      → x1 ≢ x2
      → into_affine (add_formula (jacobian x1 y1 z1) (jacobian x2 y2 z2))
        ≡ Option.map (λ i. third x1 y1 x2 ((y2 ⊖ y1) ⊗ i)) (K.inverse (x2 ⊖ x1))
  unfolding is_nil norm
  chord_case x1 y1 x2 y2 {z1} {z2} h k n =
      let apart : x2 ⊖ x1 ≢ 𝟘 = λ e. n (sym (sub-zero→eq D.ring e)) in
      let (i, run, unit) = D.inverse-ne_zero (x2 ⊖ x1) apart in
      let w = mul-ne_zero D h k in
      let slope = (y2 ⊖ y1) ⊗ i in
      let on_line : y2 ≡ y1 ⊕ slope ⊗ (x2 ⊖ x1) =
        solve D.ring (env (y1 ∷ y2 ∷ [])) v1 (v0 ⊕ (v1 ⊖ v0) ⊗ 𝟙) refl
        ∙ ap (λ r. y1 ⊕ (y2 ⊖ y1) ⊗ r) (sym unit)
        ∙ solve D.ring (env (y1 ∷ y2 ∷ (x2 ⊖ x1) ∷ i ∷ [])) (v0 ⊕ (v1 ⊖ v0) ⊗ (v2 ⊗ v3))
            (v0 ⊕ ((v1 ⊖ v0) ⊗ v3) ⊗ v2) refl in
      ap into_affine (chord_lem D.ring x1 y1 x2 y2 slope z1 z2 on_line)
      ∙ into_affine-jacobian D (third_x x1 x2 slope) (third_y x1 y1 x2 slope)
          (mul-ne_zero D (dbl-ne_zero w) (mul-ne_zero D apart (sqr-ne_zero D w)))
      ∙ ap (Option.map (λ i. third x1 y1 x2 ((y2 ⊖ y1) ⊗ i))) (sym run)

  -- A tangent.
  tangent_case :
      (x y : B) {z : B}
      → z ≢ 𝟘
      → y ≢ 𝟘
      → into_affine (double_formula (jacobian x y z))
        ≡ Option.map (λ i. third x y x (thrice_square x ⊗ i)) (K.inverse (dbl y))
  tangent_case x y {z} h n =
      let (i, run, unit) = D.inverse-ne_zero (dbl y) (dbl-ne_zero n) in
      let slope = thrice_square x ⊗ i in
      let touches : thrice_square x ≡ slope ⊗ dbl y =
        sym (mul-one D.ring (thrice_square x))
        ∙ ap (λ r. thrice_square x ⊗ r) (sym unit ∙ D.ring.mul_comm (dbl y) i)
        ∙ sym (D.ring.mul_assoc (thrice_square x) i (dbl y)) in
      ap into_affine (tangent_lem D.ring x y slope z touches)
      ∙ into_affine-jacobian D (third_x x x slope) (third_y x y x slope)
          (dbl-ne_zero (mul-ne_zero D h (mul-ne_zero D n (cube-ne_zero D h))))
      ∙ ap (Option.map (λ i. third x y x (thrice_square x ⊗ i))) (sym run)

  -- Neither: the z of the formula is zero.
  add_formula-is_zero :
      (x y1 y2 z1 z2 : B) → is_zero (add_formula (jacobian x y1 z1) (jacobian x y2 z2)) ≡ true
  unfolding is_zero add_formula is_nil norm
  add_formula-is_zero x y1 y2 z1 z2 = (D.is_zero_iff _).1 (
      solve D.ring (env (x ∷ z1 ∷ z2 ∷ []))
        ((sqr (v1 ⊕ v2) ⊖ sqr v1 ⊖ sqr v2) ⊗ ((v0 ⊗ sqr v2) ⊗ sqr v1 ⊖ (v0 ⊗ sqr v1) ⊗ sqr v2)) 𝟘
        refl)

  double_formula-is_zero : (x z : B) → is_zero (double_formula (jacobian x 𝟘 z)) ≡ true
  unfolding is_zero double_formula is_nil norm
  double_formula-is_zero x z =
      (D.is_zero_iff _).1 (solve D.ring (env (z ∷ [])) (dbl (v0 ⊗ (𝟘 ⊗ (sqr v0 ⊗ v0)))) 𝟘 refl)

  -- The cases of the law, for finite points.
  branches_case :
      (x1 y1 x2 y2 : B) {z1 z2 : B}
      → z1 ≢ 𝟘
      → z2 ≢ 𝟘
      → into_affine (code_branches (jacobian x1 y1 z1) (jacobian x2 y2 z2) (x1 =? x2) (y1 =? y2))
        ≡ law_branches x1 y1 x2 y2 (x1 =? x2) (y1 =? y2) (is_zero? y1)
  unfolding code_branches law_branches
  branches_case x1 y1 x2 y2 {z1} {z2} h k = elim (Bool-cases (x1 =? x2)) [
    | inr e ↦ rw e (chord_case x1 y1 x2 y2 h k (λ s. cc (e, (D.eq_iff x1 x2).1 s)))
    | inl e ↦ elim (Bool-cases (y1 =? y2)) [
      | inr f ↦
          rw (e, f)
            (into_affine_zero D _ (
              ap (λ x. is_zero (add_formula (jacobian x1 y1 z1) (jacobian x y2 z2)))
                (sym ((D.eq_iff x1 x2).0 e))
              ∙ add_formula-is_zero x1 y1 y2 z1 z2))
      | inl f ↦ elim (Bool-cases (is_zero? y1)) [
        | inl g ↦
            rw (e, f, g)
              (into_affine_zero D _ (
                ap (λ y. is_zero (double_formula (jacobian x1 y z1))) ((D.is_zero_iff y1).0 g)
                ∙ double_formula-is_zero x1 z1))
        | inr g ↦ rw (e, f, g) (tangent_case x1 y1 h (ne_zero D g))
      ]
    ]
  ]

  first_infinite : (p q : Projective B) → is_zero p ≡ true → add_assign p q ≡ q
  unfolding add_assign
  first_infinite p q e = rw e refl

  second_infinite : (p q : Projective B) → is_zero p ≡ false → is_zero q ≡ true → add_assign p q ≡ p
  unfolding add_assign
  second_infinite p q e f = rw (e, f) refl

  -- Over a field in which two is not zero, the affine point of a sum is the sum of the affine points by
  -- chord and tangent, on every branch of `add_assign`.
  pub add_assign_lem :
      (p q : Projective B)
      → into_affine (add_assign p q)
        ≡ (into_affine p >>= λ a. into_affine q >>= λ c. chord_tangent a c)
  unfolding chord_tangent affine_zero
  add_assign_lem p q = elim (Bool-cases (is_zero p)) [
    | inl e ↦
        let (c, r) = into_affine_total D q in
        ap into_affine (first_infinite p q e) ∙ r ∙ sym (ap₂ sum (into_affine_zero D p e) r)
    | inr e ↦
        let (x1, y1, here, h) = coordinates D p e in
        let first = ap into_affine here ∙ into_affine-jacobian D x1 y1 h in
        elim (Bool-cases (is_zero q)) [
          | inl f ↦
              ap into_affine (second_infinite p q e f)
              ∙ first
              ∙ sym (ap₂ sum first (into_affine_zero D q f))
          | inr f ↦
              let (x2, y2, there, k) = coordinates D q f in
              ap into_affine (ap₂ add_assign here there ∙ code_lem x1 y1 x2 y2 h k)
              ∙ branches_case x1 y1 x2 y2 h k
              ∙ sym (law_lem x1 y1 x2 y2)
              ∙ sym (ap₂ sum first (ap into_affine there ∙ into_affine-jacobian D x2 y2 k))
        ]
  ]
    where
      sum : Option (Affine B) → Option (Affine B) → Option (Affine B)
      sum o r = o >>= λ a. r >>= λ c. chord_tangent a c

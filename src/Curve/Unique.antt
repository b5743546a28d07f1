-- ===== src/Curve/Unique.antt =====
-- `get_point_from_x` of `curve_impl!` (pairing/src/bls12_381/ec.rs) finds the point again whose x and
-- whose flag it is given.
use aws_dpid.Prelude.{
  ◌≡◌, ◌≢◌, refl, sym, ap, ap₂, ◌∙◌, Bool, true, false, not, ◌⊎◌, inl, inr, Option, some, [], ◌∷◌,
}
use aws_dpid.Ring.{RingOps, FieldOps, IsField, IsSqrt, ◌⊕◌, ◌⊖◌, ◌⊗◌, negate as neg, square as sqr}
use aws_dpid.Ring.Laws.{negate-negate, eq-negate, sub-zero→eq, eq→sub-zero}
use aws_dpid.Ring.Field.{mul-eq-zero}
use aws_dpid.Ring.Poly.{is_nil}
use aws_dpid.Ring.Solver.{Expr, expr_ops, norm, env, solve}
use aws_dpid.Curve.{Affine, get_point_from_x, is_on_curve}
use aws_dpid.Curve.Root.{IsOrder, get_point_from_x_lem, get_point_from_x-infinity}

not-ne : (c : Bool) → c ≢ not c
not-ne true h = cc
not-ne false h = cc

module _ {B : Type 0} ⦃F : RingOps B⦄ ⦃K : FieldOps B⦄ (D : IsField F K) where
  square_difference : (y z : B) → (y ⊖ z) ⊗ (y ⊕ z) ≡ sqr y ⊖ sqr z
  unfolding is_nil norm
  square_difference y z =
      solve D.ring (env (y ∷ z ∷ [])) ((Expr.var 0 ⊖ Expr.var 1) ⊗ (Expr.var 0 ⊕ Expr.var 1))
        (sqr (Expr.var 0) ⊖ sqr (Expr.var 1)) refl

  -- The two roots of a square.
  root-cases : (y z : B) → sqr y ≡ sqr z → (y ≡ z) ⊎ (z ≡ neg y)
  root-cases y z h =
      elim (mul-eq-zero D (y ⊖ z) (y ⊕ z) (square_difference y z ∙ eq→sub-zero D.ring h)) [
        | inl e ↦ inl (sub-zero→eq D.ring e)
        | inr e ↦ inr (eq-negate D.ring y z e)
      ]

  -- The order decides between them.
  same_root :
      (lt : B → B → Bool)
      → IsOrder lt
      → (y z : B) → sqr y ≡ sqr z
      → (neg y ≡ y) ⊎ (lt (neg y) y ≡ lt (neg z) z)
      → y ≡ z
  same_root lt L y z h order = elim (root-cases y z h) [
    | inl e ↦ e
    | inr e ↦
        let back : neg z ≡ y = ap neg e ∙ negate-negate D.ring y in
        elim (L z) [
          | inl self ↦ sym back ∙ self
          | inr apart ↦ elim order [
            | inl self ↦ sym self ∙ sym e
            | inr equal ↦
                absurd (not-ne (lt z (neg z)) (apart ∙ ap not (sym (ap₂ lt e back ∙ equal))))
          ]
        ]
  ]

  -- A point of the curve other than infinity is found again by its x and the flag that its y is the
  -- greater of the two roots.
  pub get_point_from_x_self :
      (coeff_b : B) (sqrt : B → Option B) (lt : B → B → Bool)
      → IsSqrt F sqrt
      → IsOrder lt
      → (x y : B) → is_on_curve coeff_b (record { x = x; y = y; infinity = false }) ≡ true
      → get_point_from_x sqrt lt coeff_b x (lt (neg y) y)
        ≡ some (record { x = x; y = y; infinity = false })
  unfolding is_on_curve
  get_point_from_x_self coeff_b sqrt lt Q L x y h =
      let (p, found, same_x, curve, order) =
        (get_point_from_x_lem D coeff_b sqrt lt Q L) x (lt (neg y) y) y h in
      let finite = (get_point_from_x-infinity D coeff_b sqrt lt Q L) x (lt (neg y) y) p found in
      let q : Affine B = record { x = x; y = p.y; infinity = false } in
      let shape : p ≡ q = λ i. record { x = same_x i; y = p.y; infinity = finite i } in
      let square : sqr p.y ≡ sqr y =
        (D.eq_iff _ _).0 (ap (is_on_curve coeff_b) (sym shape) ∙ curve)
        ∙ sym ((D.eq_iff _ _).0 h) in
      let same_y : p.y ≡ y = same_root lt L p.y y square order in
      found ∙ ap some (shape ∙ λ i. record { x = x; y = same_y i; infinity = false })

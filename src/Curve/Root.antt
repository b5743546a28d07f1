-- ===== src/Curve/Root.antt =====
-- `get_point_from_x` of `curve_impl!`: the point that it makes, where the base field has the square
-- root and the order that `ff` documents.
use mathlib.Core.Option
use aws_dpid.Prelude.{
  ◌≡◌, refl, sym, ap, ◌∙◌, Bool, true, false, not, if-elim, if◌then◌else◌, ◌⊎◌, inl, inr, Option,
  some, [], ◌∷◌,
}
use mathlib.Core.Bool.{xor}
use aws_dpid.Ring.{RingOps, FieldOps, IsField, IsSqrt, ◌⊕◌, ◌⊗◌, negate as neg, square as sqr}
use aws_dpid.Ring.Laws.{negate-negate}
use aws_dpid.Ring.Poly.{is_nil}
use aws_dpid.Ring.Solver.{Expr, expr_ops, norm, env, solve}
use aws_dpid.Curve.{Affine, get_point_from_x, is_on_curve}

-- The order tells an element from its opposite, unless they are the same.
abbrev pub IsOrder : {B : Type 0} ⦃F : RingOps B⦄ → (B → B → Bool) → Type 0
IsOrder {B} lt = (y : B) → (neg y ≡ y) ⊎ (lt y (neg y) ≡ not (lt (neg y) y))

xor-table :
    (P : Bool → Bool → Bool → Type 0)
    → P true true false
    → P true false true
    → P false true true
    → P false false false
    → (c g : Bool) → P c g (xor c g)
unfolding xor
xor-table P a b c d true true = a
xor-table P a b c d true false = b
xor-table P a b c d false true = c
xor-table P a b c d false false = d

module _ {B : Type 0} ⦃F : RingOps B⦄ ⦃K : FieldOps B⦄ (D : IsField F K) (coeff_b : B)
    (sqrt : B → Option B) (lt : B → B → Bool) where
  abbrev chosen : Bool → B → B
  chosen greatest y = if xor (lt y (neg y)) greatest then y else neg y

  square-chosen : (greatest : Bool) (y : B) → sqr (chosen greatest y) ≡ sqr y
  unfolding is_nil norm
  square-chosen greatest y =
      if-elim (λ z. sqr z ≡ sqr y) (xor (lt y (neg y)) greatest) (λ _. refl)
        (λ _. solve D.ring (env (y ∷ [])) (sqr (neg (Expr.var 0))) (sqr (Expr.var 0)) refl)

  -- The root is its own opposite, or its comparison with the opposite is `greatest`.
  Chosen : Bool → B → Type 0
  Chosen greatest z = (neg z ≡ z) ⊎ (lt (neg z) z ≡ greatest)

  chosen_lem : IsOrder lt → (greatest : Bool) (y : B) → Chosen greatest (chosen greatest y)
  unfolding Chosen
  chosen_lem L greatest y = elim (L y) [
    | inl e ↦
        if-elim (Chosen greatest) (xor (lt y (neg y)) greatest) (λ _. inl e) (λ _. inl (ap neg e))
    | inr e ↦
        let opposite : lt (neg (neg y)) (neg y) ≡ lt y (neg y) =
          ap (λ z. lt z (neg y)) (negate-negate D.ring y) in
        xor-table (λ c g b. lt y (neg y) ≡ c → Chosen g (if b then y else neg y))
          (λ h. inr (opposite ∙ h)) (λ h. inr (negated (sym e ∙ h)))
          (λ h. inr (negated (sym e ∙ h))) (λ h. inr (opposite ∙ h)) (lt y (neg y)) greatest refl
  ]
    where
      negated : {c d : Bool} → not c ≡ d → c ≡ not d
      negated {c = true} h = ap not h
      negated {c = false} h = ap not h

  module _ (Q : IsSqrt F sqrt) (L : IsOrder lt) where
    -- Where the base field has a square root that finds a root wherever there is one, and an order
    -- that tells an element from its opposite, `get_point_from_x` returns a point wherever some point
    -- of the curve has this x. The point has this x and lies on the curve, and its y is the greater of
    -- the two if and only if `greatest` is set.
    pub get_point_from_x_lem :
        (x : B) (greatest : Bool) (y : B)
        → is_on_curve coeff_b (record { x = x; y = y; infinity = false }) ≡ true
        → (p : Affine B) × (get_point_from_x sqrt lt coeff_b x greatest ≡ some p)
          × (p.x ≡ x)
          × (is_on_curve coeff_b p ≡ true)
          × ((neg p.y ≡ p.y) ⊎ (lt (neg p.y) p.y ≡ greatest))
    unfolding get_point_from_x is_on_curve Chosen
    get_point_from_x_lem x greatest y h =
        let (r, e) = Q.root_exists _ y ((D.eq_iff _ _).0 h) in
        (
          record { x = x; y = chosen greatest r; infinity = false },
          ap (Option.map (λ z. record { x = x; y = chosen greatest z; infinity = false })) e,
          refl,
          (D.eq_iff _ _).1 (square-chosen greatest r ∙ Q.square-root _ r e),
          chosen_lem L greatest r,
        )

    -- Under the same hypotheses, every point that is made has this x and lies on the curve.
    pub get_point_from_x-is_on_curve :
        (x : B) (greatest : Bool) (p : Affine B)
        → get_point_from_x sqrt lt coeff_b x greatest ≡ some p
        → (p.x ≡ x) × (is_on_curve coeff_b p ≡ true)
    unfolding get_point_from_x is_on_curve
    get_point_from_x-is_on_curve x greatest p h =
        let (r, e, f) = (Option.map-eq-some_iff _ (sqrt (sqr x ⊗ x ⊕ coeff_b))).0 h in
        (
          sym (ap (λ (q : Affine B). q.x) f),
          ap (is_on_curve coeff_b) (sym f)
              ∙ (D.eq_iff _ _).1 (square-chosen greatest r ∙ Q.square-root _ r e),
        )

    -- It is not infinity.
    pub get_point_from_x-infinity :
        (x : B) (greatest : Bool) (p : Affine B)
        → get_point_from_x sqrt lt coeff_b x greatest ≡ some p
        → p.infinity ≡ false
    unfolding get_point_from_x
    get_point_from_x-infinity x greatest p h =
        let (r, e, f) = (Option.map-eq-some_iff _ (sqrt (sqr x ⊗ x ⊕ coeff_b))).0 h in
        sym (ap (λ (q : Affine B). q.infinity) f)

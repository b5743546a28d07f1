-- ===== src/Examples/Root.antt =====
-- `get_point_from_x` of pairing/src/bls12_381/ec.rs over the integers modulo 19, where the power by
-- 5 is the square root, on the curve y^2 = x^3 + 4.
use aws_dpid.Prelude.{
  ℕ, ◌*◌, ◌≡◌, refl, sym, ap, ◌∙◌, Bool, true, false, not, ◌||◌, ltb, Bool-cases, ◌⊎◌, inl, inr,
  if◌then◌else◌, Option, none, some, or-resolve, passes_under, passes_under_lem, arith,
}
use mathlib.Core.Option.{some-injective, none-ne-some}
use aws_dpid.Ring.{IsSqrt, ◌=?◌, negate as neg, square as sqr}
use aws_dpid.Curve.{Affine, is_on_curve, get_point_from_x}
use aws_dpid.Curve.Root.{IsOrder, get_point_from_x_lem}
use aws_dpid.Examples.Zmod.{Zmod, Zmod-ext, residue, zmod_ops, zmod_field, val-lt, zmod19-IsField}

abbrev pub Q : Type 0
Q = Zmod 19

abbrev pub root : Q → Q
root a = residue 19 (a.val * a.val * a.val * a.val * a.val)

abbrev pub sqrt : Q → Option Q
sqrt a = if sqr (root a) =? a then some (root a) else none

abbrev pub lt : Q → Q → Bool
lt a b = ltb a.val b.val

pub residue_lem : (a : Q) → residue 19 a.val ≡ a
residue_lem a = Zmod-ext {a = residue 19 a.val} {b = a} a.reduced

abbrev has_root : ℕ → Bool
has_root n = let a = sqr (residue 19 n) in sqr (root a) =? a

square-root : (a y : Q) → sqrt a ≡ some y → sqr y ≡ a
square-root a y h = elim (Bool-cases (sqr (root a) =? a)) [
  | inl e ↦
      let f = sym h ∙ ap (λ b. if b then some (root a) else none) e in
      ap sqr (some-injective _ _ f) ∙ (zmod19-IsField.eq_iff _ _).0 e
  | inr e ↦ absurd (none-ne-some y (sym (ap (λ b. if b then some (root a) else none) e) ∙ h))
]

root-exists : (a y : Q) → sqr y ≡ a → (r : Q) × (sqrt a ≡ some r)
unfolding passes_under
root-exists a y h =
    let found = passes_under_lem has_root y.val (val-lt (omega arith) y) refl in
    let e : (sqr (root a) =? a) ≡ true =
      sym (ap (λ b. sqr (root b) =? b) (ap sqr (residue_lem y) ∙ h)) ∙ found in
    (root a, ap (λ b. if b then some (root a) else none) e)

pub sqrt-IsSqrt : IsSqrt zmod_ops sqrt
sqrt-IsSqrt = record { square-root = square-root; root_exists = root-exists }

abbrev same : Bool → Bool → Bool
same true d = d
same false d = not d

same→eq : (c d : Bool) → same c d ≡ true → c ≡ d
same→eq true d h = sym h
same→eq false true h = h
same→eq false false h = refl

abbrev told_apart : ℕ → Bool
told_apart n = let y = residue 19 n in neg y =? y || same (lt y (neg y)) (not (lt (neg y) y))

pub lt-IsOrder : IsOrder lt
unfolding passes_under
lt-IsOrder y =
    let told =
      ap told (sym (residue_lem y))
      ∙ passes_under_lem told_apart y.val (val-lt (omega arith) y) refl in
    elim (Bool-cases (neg y =? y)) [
      | inl e ↦ inl ((zmod19-IsField.eq_iff _ _).0 e)
      | inr e ↦ inr (same→eq _ _ (or-resolve _ _ told e))
    ]
  where
    told : Q → Bool
    told z = neg z =? z || same (lt z (neg z)) (not (lt (neg z) z))

get_point_from_x_lem_example :
    (p : Affine Q) × (get_point_from_x sqrt lt (residue 19 4) (residue 19 1) true ≡ some p)
    × (p.x ≡ residue 19 1)
    × (is_on_curve (residue 19 4) p ≡ true)
    × ((neg p.y ≡ p.y) ⊎ (lt (neg p.y) p.y ≡ true))
unfolding is_on_curve
get_point_from_x_lem_example =
    get_point_from_x_lem zmod19-IsField (residue 19 4) sqrt lt sqrt-IsSqrt lt-IsOrder (residue 19 1)
      true (residue 19 9) refl

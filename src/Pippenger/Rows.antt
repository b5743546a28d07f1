-- ===== src/Pippenger/Rows.antt =====
-- The digits of all scalars in `pippenger` (pairing/src/lib.rs): nothing is left above the digits,
-- and all of them stand for the scalars.
use mathlib.Core.Option
use aws_dpid.Prelude.{
  ℕ, zero, suc, ◌+◌, ◌*◌, ◌^◌, ◌<◌, ◌≤◌, ◌≡◌, refl, sym, ap, ap₂, ◌∙◌, Option, none, some, ◌>>=◌,
  List, [], ◌∷◌, ◌++◌, length, length-append, drop, arith,
}
use aws_dpid.Wnaf.{ℤ}
use aws_dpid.Wnaf.Digits.{pos_part, neg_part}
use aws_dpid.Wnaf.Group.{Group, multiple, difference, difference-zero, difference_shift}
use aws_dpid.Preprocess.Scalar.{limbs_value, fr_modulus}
use aws_dpid.Radix.{zero_digits, to_radix_2w_size_hint}
use aws_dpid.Radix.Window.{AreLimbs}
use aws_dpid.Radix.Value.{plus_value, minus_value}
use aws_dpid.Radix.Total.{IsRadix, to_radix_2w_lem, length-zero_digits}
use aws_dpid.Pippenger.{scalars_points}
use aws_dpid.Pippenger.Columns.{AreRows, no_rows, row_then, upper}

module _ (w : ℕ) where
  none_there :
      (m j : ℕ)
      → (plus_value w (drop j (zero_digits m)) ≡ 0) × (minus_value w (drop j (zero_digits m)) ≡ 0)
  unfolding zero_digits plus_value minus_value
  none_there zero zero = (refl, refl)
  none_there zero (suc j) = (refl, refl)
  none_there (suc m) zero =
      let (p, n) = none_there m zero in
      (omega (arith, ap (λ x. 2 ^ w * x) p), omega (arith, ap (λ x. 2 ^ w * x) n))
  none_there (suc m) (suc j) = none_there m j

  none_above :
      (ds : List ℤ) (m j : ℕ)
      → length ds ≤ j
      → (plus_value w (drop j (ds ++ zero_digits m)) ≡ 0)
        × (minus_value w (drop j (ds ++ zero_digits m)) ≡ 0)
  none_above [] m j h = none_there m j
  none_above (d ∷ ds) m zero h = absurd (omega arith)
  none_above (d ∷ ds) m (suc j) h = none_above ds m j (omega arith)

  value_unpadded :
      (ds : List ℤ) (m : ℕ)
      → (plus_value w (ds ++ zero_digits m) ≡ plus_value w ds)
        × (minus_value w (ds ++ zero_digits m) ≡ minus_value w ds)
  unfolding plus_value minus_value
  value_unpadded [] m = none_there m zero
  value_unpadded (d ∷ ds) m =
      let (p, n) = value_unpadded ds m in
      (ap (λ x. pos_part d + 2 ^ w * x) p, ap (λ x. neg_part d + 2 ^ w * x) n)

-- Scalars of four limbs under the order of `Fr`.
pub data AreScalars : List (List ℕ) → Type 0 where
  no_scalars : AreScalars []
  scalar_then :
      (s : List ℕ) {rest : List (List ℕ)}
      → AreLimbs s
      → limbs_value s < fr_modulus
      → AreScalars rest
      → AreScalars (s ∷ rest)

-- Every point times its scalar, added up, as far as both lists reach.
unfoldable pub sum_of_multiples : {G H : Type 0} → Group H → (G → H) → List (List ℕ) → List G → H
sum_of_multiples A point [] points = A.nought
sum_of_multiples A point (s ∷ scalars) [] = A.nought
sum_of_multiples A point (s ∷ scalars) (pt ∷ points) =
    A.plus (multiple A (limbs_value s) (point pt)) (sum_of_multiples A point scalars points)

-- One less than what was returned.
abbrev one_less : Option ℕ → ℕ
one_less none = zero
one_less (some zero) = zero
one_less (some (suc n)) = n

module _ {G H : Type 0} (A : Group H) (point : G → H) (w hint : ℕ) where
  -- The pairs, with what their digits stand for.
  pub record ArePairs (scalars : List (List ℕ)) (points : List G) : Type 0 where
    pub pairs : List (List ℤ × G)
    pub made : scalars_points w scalars points ≡ some pairs
    pub rows : AreRows w (suc hint) pairs
    pub top : upper A point w (suc hint) pairs ≡ A.nought
    pub bottom : upper A point w zero pairs ≡ sum_of_multiples A point scalars points

  no_pairs_left : (scalars : List (List ℕ)) → ArePairs scalars []
  unfolding scalars_points upper sum_of_multiples
  no_pairs_left [] = record { pairs = []; made = refl; rows = no_rows; top = refl; bottom = refl }
  no_pairs_left (s ∷ scalars) = record {
    pairs = [];
    made = refl;
    rows = no_rows;
    top = refl;
    bottom = refl;
  }

  no_pairs : (points : List G) → ArePairs [] points
  unfolding scalars_points upper sum_of_multiples
  no_pairs points = record { pairs = []; made = refl; rows = no_rows; top = refl; bottom = refl }

  -- A pair in front, from what `to_radix_2w` says of its scalar.
  next_pair :
      (s : List ℕ) (pt : G) (scalars : List (List ℕ)) (points : List G)
      → (R : IsRadix w (limbs_value s) s) → R.hint ≡ hint
      → ArePairs scalars points
      → ArePairs (s ∷ scalars) (pt ∷ points)
  unfolding scalars_points upper sum_of_multiples
  next_pair s pt scalars points R same rest =
      let all = R.digits ++ zero_digits R.above in
      let long : suc hint ≤ length all = omega (
        arith,
        R.not_more,
        same,
        length-append R.digits (zero_digits R.above),
        length-zero_digits R.above,
      ) in
      let above = none_above w R.digits R.above (suc hint) (omega (arith, R.enough, same)) in
      let whole = value_unpadded w R.digits R.above in
      record {
        pairs = (all, pt) ∷ rest.pairs;
        made =
            ap
              (λ o. o >>= λ ds.
                Option.map (λ others. (ds, pt) ∷ others) (scalars_points w scalars points))
              R.made
            ∙ ap (Option.map (λ others. (all, pt) ∷ others)) rest.made;
        rows = row_then all pt R.small long rest.rows;
        top =
            ap₂ A.plus
              (ap₂ (λ p m. difference A p m (point pt)) above.0 above.1
                ∙ difference-zero A (point pt))
              rest.top
            ∙ A.nought-plus A.nought;
        bottom =
            ap₂ A.plus
              (ap₂ (λ p m. difference A p m (point pt)) (whole.0 ∙ R.worth ∙ omega arith) whole.1
                ∙ difference_shift A (limbs_value s) (minus_value w R.digits) (point pt))
              rest.bottom;
      }

  pub scalars_points_lem :
      6 ≤ w
      → w ≤ 8
      → to_radix_2w_size_hint w ≡ some (suc hint)
      → {scalars : List (List ℕ)} (t : AreScalars scalars) (points : List G)
      → ArePairs scalars points
  scalars_points_lem wide narrow hinted {scalars} t [] = no_pairs_left scalars
  scalars_points_lem wide narrow hinted no_scalars (pt ∷ points) = no_pairs (pt ∷ points)
  scalars_points_lem wide narrow hinted (scalar_then s {rest} L reduced t) (pt ∷ points) =
      let R = (to_radix_2w_lem L reduced) w wide narrow in
      next_pair s pt rest points R (ap one_less (sym R.hinted ∙ hinted))
        (scalars_points_lem wide narrow hinted t points)

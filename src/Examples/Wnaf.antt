-- ===== src/Examples/Wnaf.antt =====
-- The theorems on pairing/src/wnaf.rs, over the integers modulo 101 as the group and numbers under
-- 2^256 as the scalars.
use native.Mathlib.Nat.{mod-eq_of_lt}
use aws_dpid.Prelude.{ℕ, ◌+◌, ◌-◌, ◌/◌, ◌%◌, ◌^◌, ◌≤◌, ◌≡◌, refl, some, List, [], ◌∷◌, ◌==◌, arith}
use aws_dpid.Ring.{IsCommRing}
use aws_dpid.Wnaf.{
  GroupOps, ReprOps, ℤ, pos, negsuc, wnaf_form, wnaf_exp, wnaf_table, base_then_scalar,
  scalar_then_base,
}
use aws_dpid.Wnaf.Digits.{
  IsForm, pos_value, neg_value, finished, digit_then, above, below, none_here,
}
use aws_dpid.Wnaf.Form.{IsRepr, wnaf_form_lem}
use aws_dpid.Wnaf.Group.{Group, Represents, multiple}
use aws_dpid.Wnaf.Exp.{wnaf_exp_lem}
use aws_dpid.Wnaf.Window.{
  IsWindow, recommended_exact, exceeded, g1_recommendations, g2_recommendations, g1_for_scalar,
  g2_for_scalar, g1_for_num_scalars, g2_for_num_scalars,
}
use aws_dpid.Wnaf.Correct.{wnaf_lem}
use aws_dpid.Examples.Zmod.{Zmod, residue, zmod_ops, zmod-IsCommRing}

abbrev pub Z : Type 0
Z = Zmod 101

instance abbrev pub z_points : GroupOps Z
z_points = record {
  zero = zmod_ops.zero;
  double = zmod_ops.double;
  add_assign = zmod_ops.add;
  sub_assign = zmod_ops.sub;
}

pub z_ring : IsCommRing (zmod_ops {m = 101})
z_ring = zmod-IsCommRing (omega arith)

abbrev pub z_group : Group Z
z_group = record {
  nought = zmod_ops.zero;
  plus = zmod_ops.add;
  minus = zmod_ops.negate;
  plus_assoc = z_ring.add_assoc;
  plus_comm = z_ring.add_comm;
  nought-plus = z_ring.zero-add;
  plus-minus = z_ring.add-negate;
}

pub z-Represents : Represents z_points z_group (λ g. g)
z-Represents = record {
  point-zero = refl;
  point-double = z_ring.double-eq;
  point-add = λ g h. refl;
  point-sub = z_ring.sub-eq;
}

abbrev size : ℕ
size = 115792089237316195423570985008687907853269984665640564039457584007913129639936

instance abbrev scalars : ReprOps ℕ
scalars = record {
  is_zero = λ c. c == 0;
  is_odd = λ c. c % 2 == 1;
  low_limb = λ c. c % 18446744073709551616;
  from = λ n. n;
  sub_noborrow = λ a b. a - b;
  add_nocarry = λ a b. (a + b) % size;
  div2 = λ c. c / 2;
}

scalars-IsRepr : IsRepr scalars size (λ c. c)
scalars-IsRepr = record {
  is_zero-value = λ c. refl;
  is_odd-value = λ c. refl;
  low_limb-value = λ c. refl;
  value-from = λ n lt. refl;
  value-sub = λ a b le. refl;
  value-add = λ a b lt. mod-eq_of_lt lt;
  value-div2 = λ c. refl;
}

abbrev pub five : Z
five = residue 101 5

-- 29 = -3 + 2 * 16, so -3 is the lowest digit for a window of 2.
abbrev digits : List ℤ
digits = negsuc 2 ∷ pos 0 ∷ pos 0 ∷ pos 0 ∷ pos 0 ∷ pos 1 ∷ []

digits-IsForm : IsForm (2 ^ 2) digits
digits-IsForm = digit_then _ _ (below 2 refl (omega arith)) (
    digit_then _ _ none_here (
      digit_then _ _ none_here (
        digit_then _ _ none_here
          (digit_then _ _ none_here (digit_then _ _ (above 0 refl (omega arith)) finished)))))

wnaf_form_lem_example :
    (ds : List ℤ) × (wnaf_form {S = ℕ} 30 29 2 ≡ some ds)
    × IsForm (2 ^ 2) ds
    × (pos_value ds ≡ 29 + neg_value ds)
wnaf_form_lem_example =
    wnaf_form_lem scalars-IsRepr 2 (omega arith) (omega arith) 30 29 (omega arith) (omega arith)

wnaf_exp_lem_example :
    (t : List Z) × (g : Z) × (wnaf_table five 2 ≡ some t)
    × (wnaf_exp t digits ≡ some g)
    × (g ≡ multiple z_group 29 five)
unfolding pos_value neg_value
wnaf_exp_lem_example =
    wnaf_exp_lem z_group z-Represents five 2 (omega arith) (omega arith) digits 29 digits-IsForm
      refl

wnaf_lem_example :
    (g : Z) × (base_then_scalar {S = ℕ} 30 five 29 4 ≡ some g)
    × (scalar_then_base {S = ℕ} 30 29 five 4 ≡ some g)
    × (g ≡ multiple z_group 29 five)
unfolding IsWindow
wnaf_lem_example =
    wnaf_lem z_group z-Represents scalars-IsRepr 30 five 29 4 (omega arith, omega arith)
      (omega arith) (omega arith)

recommended_exact_example :
    (IsWindow (g1_for_scalar 33)
      × (g1_for_scalar 33 ≤ g1_for_scalar 255)
      × (g1_for_scalar 33 ≡ 2 + exceeded (33 ∷ 129 ∷ []) 33))
    × (IsWindow (g2_for_scalar 33)
        × (g2_for_scalar 33 ≤ g2_for_scalar 255)
        × (g2_for_scalar 33 ≡ 2 + exceeded (36 ∷ 102 ∷ []) 33))
    × (IsWindow (g1_for_num_scalars 5)
        × (g1_for_num_scalars 5 ≤ g1_for_num_scalars 1000)
        × (g1_for_num_scalars 5 ≡ 4 + exceeded g1_recommendations 5))
    × (IsWindow (g2_for_num_scalars 5)
        × (g2_for_num_scalars 5 ≤ g2_for_num_scalars 1000)
        × (g2_for_num_scalars 5 ≡ 4 + exceeded g2_recommendations 5))
recommended_exact_example = recommended_exact 33 255 5 1000 (omega arith) (omega arith)

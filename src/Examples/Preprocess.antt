-- ===== src/Examples/Preprocess.antt =====
-- The theorems on the tables of pairing/src/lib.rs, over the integers modulo 101 as the group.
use mathlib.Core.List.{reverse}
use native.Mathlib.Nat.{mod-eq_of_lt, mod-lt}
use aws_dpid.Prelude.{
  ℕ, ◌*◌, ◌%◌, ◌<◌, ◌≡◌, refl, true, ltb, if◌then◌else◌, some, none, List, [], ◌∷◌, length, arith,
}
use aws_dpid.Wnaf.{negsuc, ℤ}
use aws_dpid.Wnaf.Group.{multiple}
use aws_dpid.Hex.{hex_to_bin}
use aws_dpid.Hex.Bits.{value}
use aws_dpid.Hex.Text.{hex, fr_text, hex_to_bin_lem}
use aws_dpid.Preprocess.{
  PointOps, ScalarOps, Cached, preprocess, ppmul, g1_table_size, g2_table_size,
}
use aws_dpid.Preprocess.Table.{Carries}
use aws_dpid.Preprocess.Scalar.{
  IsFr, fr_modulus, limbs_value, IsResidue, bigint_to_pyfr, bigint_to_pyfr_lem,
}
use aws_dpid.Preprocess.Correct.{IsExact, IsFull}
use aws_dpid.Preprocess.Fill.{g1_table_size-Sizes, g2_table_size-Sizes, preprocess_lem}
use aws_dpid.Preprocess.Object.{
  new, add_assign, double, drop_table, ppmul_into, pow, fr, int, returned,
}
use aws_dpid.Preprocess.Stale.{stale_pow}
use aws_dpid.Preprocess.History.{
  Reachable, created, then_step, then_out, by_double, by_preprocess, by_add_assign, IsCached, plain,
  element, pow_lem, Reachable-IsCached,
}
use aws_dpid.Examples.Zmod.{Zmod, residue, zmod_ops}
use aws_dpid.Examples.Wnaf.{Z, z_group, z_ring}

abbrev pub Fr : Type 0
Fr = Zmod fr_modulus

abbrev pub z_table_ops : PointOps Z Fr
z_table_ops = record {
  one = residue 101 1;
  zero = residue 101 0;
  double = zmod_ops.double;
  negate = zmod_ops.negate;
  Aff = Z;
  into_affine = λ g. g;
  affine_negate = zmod_ops.negate;
  into_projective = λ a. a;
  add_assign = zmod_ops.add;
  sub_assign = zmod_ops.sub;
  mul_assign = λ g s. multiple z_group s.val g;
}

pub z-Carries : Carries z_table_ops z_group (λ g. g) (λ s. s.val)
z-Carries = record {
  point-zero = refl;
  point-double = z_ring.double-eq;
  point-negate = λ g. refl;
  affine_point = λ a. a;
  point-into_affine = λ g. refl;
  point-affine_negate = λ a. refl;
  point-into_projective = λ a. refl;
  point-add = λ g h. refl;
  point-sub = z_ring.sub-eq;
  point-mul = λ g s. refl;
}

abbrev pub z_scalars : ScalarOps Fr
z_scalars = record {
  from_repr = λ l.
      if ltb (limbs_value l) fr_modulus then some (residue fr_modulus (limbs_value l)) else none;
  print = λ s. fr_text s.val;
}

in_range :
    (l : List ℕ)
    → limbs_value l < fr_modulus
    → z_scalars.from_repr l ≡ some (residue fr_modulus (limbs_value l))
in_range l h = let e : ltb (limbs_value l) fr_modulus ≡ true = ground arith in rw e refl

pub z-IsFr : IsFr z_scalars (λ s. s.val)
z-IsFr = record {
  from_repr_lem = λ l h. (residue fr_modulus (limbs_value l), in_range l h, mod-eq_of_lt h);
  print_lem = λ s. refl;
  number-lt = λ s. reduced_lt s;
}
  where
    reduced_lt : (s : Fr) → s.val < fr_modulus
    reduced_lt s =
        let h : s.val % fr_modulus < fr_modulus = mod-lt s.val (omega arith) in
        omega (arith, s.reduced)

pub four-IsExact : IsExact 4
four-IsExact = record {
  at_least = omega arith;
  at_most = omega arith;
  covers = omega arith;
  stops = omega arith;
}

-- `one` doubled, then written by `ppmul` of a new object, then preprocessed, then added to, then preprocessed again.
abbrev pub c0 : Cached Z
c0 = new z_table_ops

abbrev pub c1 : Cached Z
c1 = double z_table_ops c0

abbrev pub three : Fr
three = residue fr_modulus 3

abbrev pub written : Cached Z
written = record c1 { point = residue 101 3 }

pub no_table : c1.pplevel ≡ 0
unfolding double new drop_table
no_table = refl

pub written_lem : ppmul_into z_table_ops z_scalars c0 three c1 ≡ some written
unfolding ppmul_into ppmul new double drop_table multiple
written_lem = refl

abbrev pub c2 : Cached Z
c2 = (preprocess z_table_ops z_scalars g1_table_size written 4).0

abbrev pub c3 : Cached Z
c3 = add_assign z_table_ops c2 (residue 101 5)

abbrev pub c4 : Cached Z
c4 = (preprocess z_table_ops z_scalars g1_table_size c3 4).0

abbrev pub life : Reachable z_table_ops z_scalars g1_table_size c4
life =
    then_step
      (then_step
        (then_step (then_out three (then_step created by_double) no_table created written_lem)
          (by_preprocess 4 four-IsExact))
        (by_add_assign (residue 101 5)))
      (by_preprocess 4 four-IsExact)

abbrev seven : Z
seven =
    (element z_table_ops z_scalars z_group z-Carries z-IsFr g1_table_size g1_table_size-Sizes) life

pow_lem_example :
    ((s : Fr)
      → (g : Z) × (pow z_table_ops z_scalars c4 (fr s)
          ≡ returned (record { point = g; pp = []; pplevel = 0 }))
        × (g ≡ multiple z_group s.val seven))
    × ((z : ℤ)
        → (g : Z) × (n : ℕ) × (pow z_table_ops z_scalars c4 (int z)
            ≡ returned (record { point = g; pp = []; pplevel = 0 }))
          × IsResidue fr_modulus n z
          × (g ≡ multiple z_group n seven))
pow_lem_example =
    (pow_lem z_table_ops z_scalars z_group z-Carries z-IsFr g1_table_size g1_table_size-Sizes) life

Reachable-IsCached_example : IsCached z_group (λ g. g) c4
Reachable-IsCached_example =
    (Reachable-IsCached z_table_ops z_scalars z_group z-Carries z-IsFr g1_table_size
        g1_table_size-Sizes)
      life

c4-IsFull : IsFull z_group (λ g. g) c4
c4-IsFull =
    ((preprocess_lem z_table_ops z_scalars z_group z-Carries z-IsFr) g1_table_size
      g1_table_size-Sizes c3 4 four-IsExact).2

-- `c0.ppmul(three, c4)`, then a power of `c4`.
stale_pow_example :
    (after : Cached Z) × (ppmul_into z_table_ops z_scalars c0 three c4 ≡ some after)
    × (after.point ≡ multiple z_group 3 (residue 101 1))
    × (after.pp ≡ c4.pp)
    × (h : Z) × (pow z_table_ops z_scalars after (fr three)
        ≡ returned (record { point = h; pp = []; pplevel = 0 }))
    × (h ≡ multiple z_group 3 c4.point)
unfolding new
stale_pow_example =
    (stale_pow z_table_ops z_scalars z_group z-Carries z-IsFr g1_table_size g1_table_size-Sizes) c0
      c4 three three (plain refl refl) c4-IsFull

preprocess_lem_example :
    ((preprocess z_table_ops z_scalars g2_table_size c1 4).1 ≡ true)
    × ((preprocess z_table_ops z_scalars g2_table_size c1 4).0.point ≡ c1.point)
    × IsFull z_group (λ g. g) (preprocess z_table_ops z_scalars g2_table_size c1 4).0
preprocess_lem_example =
    (preprocess_lem z_table_ops z_scalars z_group z-Carries z-IsFr) g2_table_size
      g2_table_size-Sizes c1 4 four-IsExact

bigint_to_pyfr_lem_example :
    (s : Fr) × (bigint_to_pyfr z_scalars (negsuc 4) ≡ some s)
    × IsResidue fr_modulus s.val (negsuc 4)
bigint_to_pyfr_lem_example = bigint_to_pyfr_lem z_scalars z-IsFr (negsuc 4)

hex_to_bin_lem_example :
    (t : List ℕ) × (hex_to_bin (b'0' ∷ b'x' ∷ hex 2 202) ≡ some t)
    × (value (reverse t) ≡ 202)
    × (length (reverse t) ≡ 2 * 4)
hex_to_bin_lem_example = hex_to_bin_lem 2 202 (omega arith)

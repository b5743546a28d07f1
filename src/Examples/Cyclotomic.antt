-- ===== src/Examples/Cyclotomic.antt =====
-- The final exponentiation of pairing/src/bls12_381/mod.rs, over the integers modulo 19, on the
-- powers of an element of order 13 in the cyclotomic subgroup of Fq12.
use aws_dpid.Prelude.{
  ℕ, zero, suc, ◌/◌, ◌%◌, ◌^◌, ◌≡◌, refl, sym, ap, ◌∙◌, Bool, true, ◌==◌, if◌then◌else◌,
  passes_under, passes_under_lem, arith,
}
use aws_dpid.Ring.{IsField, 𝟙, ◌⊕◌, ◌⊗◌, ◌=?◌, negate, square as sqr, double as dbl}
use aws_dpid.Tower.Fq2.{
  Fq2, fq2_ops, fq2_field, fq2_nonresidue, mul_assign, square, add_assign, sub_assign,
  negate as fq2_negate, zero as fq2_zero, one as fq2_one, mul_by_nonresidue, eq,
}
use aws_dpid.Tower.Fq6 as Fq6Mod
use aws_dpid.Tower.Fq12 as Fq12Mod
use aws_dpid.Tower.Fq6.{Fq6, fq6_ops, fq6_field, fq6_nonresidue}
use aws_dpid.Tower.Fq12.{Fq12, fq12_ops, fq12_field, conjugate}
use aws_dpid.Tower.Field.{tower-IsField}
use aws_dpid.Pairing.{Gt, bls_x, hard_part}
use aws_dpid.Pairing.Final.{IsPower, hard_exponent, hard_part_lem}
use aws_dpid.Examples.Zmod.{
  Zmod, Zmod-ext, residue, zmod_ops, zmod_field, val-lt, zmod-IsCommRing, zmod19-IsField,
}
use aws_dpid.Examples.Tower.{element, minus_one, no_square, no_cube}

abbrev Q : Type 0
Q = Zmod 19

abbrev E : Type 0
E = Zmod 13

gt-IsField : IsField (fq12_ops {C = Fq6 (Fq2 Q)}) fq12_field
gt-IsField = tower-IsField zmod19-IsField minus_one no_square no_cube

abbrev generator : Gt Q
generator = record {
  c0 = record { c0 = element 11 2; c1 = element 6 17; c2 = element 9 1 };
  c1 = record { c0 = element 17 15; c1 = element 14 7; c2 = element 11 4 };
}

-- `f ^ n`, for `n` of at most `fuel` binary digits.
unfoldable raise : ℕ → Gt Q → ℕ → Gt Q
raise zero f n = 𝟙
raise (suc fuel) f n =
    let half = raise fuel (sqr f) (n / 2) in
    if n == 0 then 𝟙 else if n % 2 == 1 then f ⊗ half else half

abbrev pow : Gt Q → ℕ → Gt Q
pow f n = raise 64 f n

abbrev frobenius : ℕ → Gt Q → Gt Q
frobenius k f = raise 13 f (19 ^ k)

abbrev power : E → Gt Q
power a = raise 4 generator a.val

residue_lem : (a : E) → residue 13 a.val ≡ a
residue_lem a = Zmod-ext {a = residue 13 a.val} {b = a} a.reduced

abbrev agree : (E → Gt Q) → (E → Gt Q) → ℕ → Bool
agree f g n = f (residue 13 n) =? g (residue 13 n)

-- Two functions that agree on a table are equal.
by_table : (f g : E → Gt Q) → passes_under (agree f g) 13 ≡ true → (a : E) → f a ≡ g a
by_table f g table a =
    ap f (sym (residue_lem a))
    ∙ (gt-IsField.eq_iff _ _).0 (passes_under_lem (agree f g) a.val (val-lt (omega arith) a) table)
    ∙ ap g (residue_lem a)

abbrev agree_rows : (E → E → Gt Q) → (E → E → Gt Q) → ℕ → Bool
agree_rows f g m = passes_under (agree (f (residue 13 m)) (g (residue 13 m))) 13

by_rows : (f g : E → E → Gt Q) → passes_under (agree_rows f g) 13 ≡ true → (a b : E) → f a b ≡ g a b
by_rows f g table a b =
    ap (λ x. f x b) (sym (residue_lem a))
    ∙ by_table (f (residue 13 a.val)) (g (residue 13 a.val))
        (passes_under_lem (agree_rows f g) a.val (val-lt (omega arith) a) table) b
    ∙ ap (λ x. g x b) (residue_lem a)

-- q = 19 is 6, and half of |x| is 11, modulo 13.
abbrev q : E
q = residue 13 19

abbrev half : E
half = residue 13 (bls_x / 2)

power-IsPower : IsPower (zmod_ops {m = 13}) pow frobenius q half power
unfolding passes_under raise Fq12Mod.square Fq12Mod.mul_assign Fq12Mod.one Fq12Mod.eq
    Fq12Mod.conjugate Fq6Mod.mul_assign Fq6Mod.add_assign Fq6Mod.sub_assign Fq6Mod.square
    Fq6Mod.negate Fq6Mod.mul_by_nonresidue Fq6Mod.zero Fq6Mod.one Fq6Mod.eq mul_assign square
    add_assign sub_assign fq2_negate fq2_zero fq2_one mul_by_nonresidue eq
power-IsPower = record {
  mul = by_rows (λ a b. power a ⊗ power b) (λ a b. power (a ⊕ b)) refl;
  square = by_table _ _ refl;
  conjugates = by_table _ _ refl;
  frobenius_1 = by_table _ _ refl;
  frobenius_2 = by_table _ _ refl;
  frobenius_3 = by_table _ _ refl;
  pow_x = by_table _ _ refl;
  pow_half = by_table _ _ refl;
}

hard_part_lem_example :
    hard_part pow frobenius (power 𝟙) ≡ power (hard_exponent (negate (dbl half)) q)
hard_part_lem_example = hard_part_lem (zmod-IsCommRing (omega arith)) power-IsPower

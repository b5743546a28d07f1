-- ===== src/Examples/Frobenius.antt =====
-- `frobenius_map` of pairing/src/bls12_381 and `pair` of pairing/src/lib.rs, over the integers
-- modulo 19, with the tables that the comments of fq.rs describe for this field.
use aws_dpid.Prelude.{
  Option, ◌>>=◌, ◌++◌, sym, ap, ℕ, zero, suc, ◌≡◌, ◌∙◌, refl, true, false, inl, some, List, [], ◌∷◌,
}
use aws_dpid.Ring.{𝟙, ◌⊗◌}
use aws_dpid.Curve.{Affine, Projective, is_zero}
use aws_dpid.Pairing.{Gt, G2Prepared, from_affine, miller_loop, final_exponentiation}
use aws_dpid.Pairing.Pair.Several.{pairings-append}
use aws_dpid.Pairing.Target.{gt_ring}
use aws_dpid.Pairing.Product.{product}
use aws_dpid.Pairing.Pair.{pair}
use aws_dpid.Pairing.Pair.Infinity.{pair_infinity}
use aws_dpid.Examples.Tower.{minus_one, no_square, no_cube}
use aws_dpid.Ring.Hom.{IsHom}
use aws_dpid.Tower.Fq2.{Fq2, fq2_ops, fq2_field, fq2_nonresidue, frobenius_map, mul_assign}
use aws_dpid.Tower.Fq2.Ring.{Fq2-ext}
use aws_dpid.Tower.Fq2.Extension.{nonresidue}
use aws_dpid.Tower.Fq6.{Fq6, fq6_ops, fq6_field, fq6_nonresidue}
use aws_dpid.Tower.Fq12.{fq12_ops, fq12_field}
use aws_dpid.Tower.Frobenius.{IsTables, fq12_map}
use aws_dpid.Tower.Frobenius.Correct.{frobenius_map-IsHom}
use aws_dpid.Examples.Zmod.{Zmod, residue, zmod_ops, zmod_field, zmod19-IsField, Zmod-ext}

abbrev Q : Type 0
Q = Zmod 19

abbrev at : ℕ → ℕ → Fq2 Q
at a b = record { c0 = residue 19 a; c1 = residue 19 b }

abbrev fq2_c1 : List Q
fq2_c1 = residue 19 1 ∷ residue 19 18 ∷ []

abbrev fq6_c1 : List (Fq2 Q)
fq6_c1 = at 1 0 ∷ at 0 11 ∷ at 7 0 ∷ at 0 1 ∷ at 11 0 ∷ at 0 7 ∷ []

abbrev fq6_c2 : List (Fq2 Q)
fq6_c2 = at 1 0 ∷ at 12 0 ∷ at 11 0 ∷ at 18 0 ∷ at 7 0 ∷ at 8 0 ∷ []

abbrev fq12_c1 : List (Fq2 Q)
fq12_c1 =
    at 1 0
    ∷ at 17 2
    ∷ at 8 0
    ∷ at 3 16
    ∷ at 7 0
    ∷ at 5 14
    ∷ at 18 0
    ∷ at 2 17
    ∷ at 11 0
    ∷ at 16 3
    ∷ at 12 0
    ∷ at 14 5
    ∷ []

first_power : IsTables fq2_c1 fq6_c1 fq6_c2 fq12_c1 1
unfolding frobenius_map nonresidue mul_assign
first_power = record {
  half = Zmod-ext refl;
  cube = Fq2-ext (Zmod-ext refl) (Zmod-ext refl);
  square = Fq2-ext (Zmod-ext refl) (Zmod-ext refl);
  root = Fq2-ext (Zmod-ext refl) (Zmod-ext refl);
}

second_power : IsTables fq2_c1 fq6_c1 fq6_c2 fq12_c1 2
unfolding frobenius_map nonresidue mul_assign
second_power = record {
  half = Zmod-ext refl;
  cube = Fq2-ext (Zmod-ext refl) (Zmod-ext refl);
  square = Fq2-ext (Zmod-ext refl) (Zmod-ext refl);
  root = Fq2-ext (Zmod-ext refl) (Zmod-ext refl);
}

third_power : IsTables fq2_c1 fq6_c1 fq6_c2 fq12_c1 3
unfolding frobenius_map nonresidue mul_assign
third_power = record {
  half = Zmod-ext refl;
  cube = Fq2-ext (Zmod-ext refl) (Zmod-ext refl);
  square = Fq2-ext (Zmod-ext refl) (Zmod-ext refl);
  root = Fq2-ext (Zmod-ext refl) (Zmod-ext refl);
}

frobenius_map-IsHom_example :
    IsHom (fq12_ops {C = Fq6 (Fq2 Q)}) fq12_ops (fq12_map fq2_c1 fq6_c1 fq6_c2 fq12_c1 1)
frobenius_map-IsHom_example = frobenius_map-IsHom zmod19-IsField.ring first_power

-- The power as a repeated product.
unfoldable times : Gt Q → ℕ → Gt Q
times f zero = 𝟙
times f (suc n) = f ⊗ times f n

times_one : (n : ℕ) → times 𝟙 n ≡ 𝟙
unfolding times
times_one zero = refl
times_one (suc n) = (gt_ring zmod19-IsField.ring).one-mul (times 𝟙 n) ∙ times_one n

abbrev infinite : Projective Q
infinite = record { x = residue 19 0; y = residue 19 1; z = residue 19 0 }

abbrev other : Projective (Fq2 Q)
other = record { x = at 3 5; y = at 2 7; z = at 1 4 }

infinite-is_zero : is_zero infinite ≡ true
unfolding is_zero
infinite-is_zero = refl

pair_infinity_example :
    pair (true ∷ false ∷ true ∷ []) times (fq12_map fq2_c1 fq6_c1 fq6_c2 fq12_c1) infinite other
    ≡ some 𝟙
pair_infinity_example =
    pair_infinity zmod19-IsField minus_one no_square no_cube times times_one first_power
      second_power third_power (true ∷ false ∷ true ∷ []) infinite other (inl infinite-is_zero)

times-mul : (f g : Gt Q) (n : ℕ) → times (f ⊗ g) n ≡ times f n ⊗ times g n
unfolding times
times-mul f g zero = sym ((gt_ring zmod19-IsField.ring).one-mul 𝟙)
times-mul f g (suc n) =
    let R = gt_ring zmod19-IsField.ring in
    ap (λ t. (f ⊗ g) ⊗ t) (times-mul f g n)
    ∙ R.mul_assoc f g (times f n ⊗ times g n)
    ∙ ap (λ t. f ⊗ t)
        (sym (R.mul_assoc g (times f n) (times g n))
          ∙ ap (λ t. t ⊗ times g n) (R.mul_comm g (times f n))
          ∙ R.mul_assoc (times f n) g (times g n))
    ∙ sym (R.mul_assoc f (times f n) (g ⊗ times g n))

abbrev prepared : Affine Q × G2Prepared (Fq2 Q)
prepared = (
  record { x = residue 19 0; y = residue 19 2; infinity = false },
  from_affine (true ∷ false ∷ true ∷ []) (record { x = at 3 5; y = at 2 7; infinity = false }),
)

abbrev exponentiation : Gt Q → Option (Gt Q)
exponentiation f = final_exponentiation times (fq12_map fq2_c1 fq6_c1 fq6_c2 fq12_c1) f

pairings-append_example :
    (miller_loop (true ∷ false ∷ true ∷ []) ((prepared ∷ []) ++ prepared ∷ []) >>= exponentiation)
    ≡ product
        (miller_loop (true ∷ false ∷ true ∷ []) (prepared ∷ []) >>= exponentiation)
        (miller_loop (true ∷ false ∷ true ∷ []) (prepared ∷ []) >>= exponentiation)
pairings-append_example =
    pairings-append zmod19-IsField minus_one no_square no_cube times times-mul first_power
      second_power third_power (true ∷ false ∷ true ∷ []) (prepared ∷ []) (prepared ∷ [])

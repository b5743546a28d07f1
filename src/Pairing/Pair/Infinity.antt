-- ===== src/Pairing/Pair/Infinity.antt =====
-- The pairing with infinity (pairing/src/lib.rs).
use mathlib.Core.Option
use aws_dpid.Prelude.{
  Bool-cases, ℕ, ◌≡◌, ◌≢◌, refl, ap, ap₂, ◌∙◌, Bool, true, false, ◌⊎◌, inl, inr, Option, some,
  ◌>>=◌, List, [], ◌∷◌,
}
use aws_dpid.Ring.{RingOps, FieldOps, IsField, 𝟙, ◌⊗◌, negate, square as sqr, inverse as inverse?}
use aws_dpid.Ring.Units.{inverse_unique}
use aws_dpid.Tower.Fq2.{Fq2, fq2_ops, fq2_field, fq2_nonresidue}
use aws_dpid.Tower.Fq2.Extension.{nonresidue}
use aws_dpid.Tower.Fq2.Inverse.{fq2-IsField}
use aws_dpid.Tower.Fq6.{Fq6, fq6_ops, fq6_field, fq6_nonresidue}
use aws_dpid.Tower.Fq12.{fq12_ops, fq12_field}
use aws_dpid.Tower.Field.{tower-IsField}
use aws_dpid.Tower.Frobenius.{IsTables, fq12_map}
use aws_dpid.Tower.Frobenius.Correct.{frobenius_map-IsHom}
use aws_dpid.Curve.{Affine, Projective, is_zero, affine_zero}
use aws_dpid.Curve.Points.{into_affine_zero, into_affine_total}
use aws_dpid.Pairing.{
  Gt, ell_all, bits_loop, finite_pairs, finish, miller_loop, from_affine, exp_by_x, easy_part,
  hard_part, final_exponentiation,
}
use aws_dpid.Pairing.Target.{conjugate-one}
use aws_dpid.Pairing.Pair.{pairing, pair}

module _ {A : Type 0} ⦃F : RingOps A⦄ ⦃K : FieldOps A⦄ (D : IsField F K)
    (minus_one : (a : A) → a ⊗ a ≢ negate 𝟙) (no_square : (b : Fq2 A) → b ⊗ b ≢ nonresidue)
    (no_cube : (b : Fq2 A) → b ⊗ b ⊗ b ≢ nonresidue) where
  T : IsField (fq12_ops {C = Fq6 (Fq2 A)}) fq12_field
  T = tower-IsField D minus_one no_square no_cube

  abbrev one : Gt A
  one = 𝟙

  square_one : sqr one ≡ one
  square_one = T.ring.square-eq one ∙ T.ring.one-mul one

  -- With no pair left, the loop stays at one.
  bits_loop-nil :
      (bits : List Bool) (found : Bool) → bits_loop bits found ([], one) ≡ some ([], one)
  unfolding bits_loop ell_all
  bits_loop-nil [] found = refl
  bits_loop-nil (i ∷ bits) false = bits_loop-nil bits i
  bits_loop-nil (true ∷ bits) true =
      ap (λ f. bits_loop bits true ([], f)) square_one ∙ bits_loop-nil bits true
  bits_loop-nil (false ∷ bits) true =
      ap (λ f. bits_loop bits true ([], f)) square_one ∙ bits_loop-nil bits true

  from_affine-infinity :
      (bits : List Bool) (q : Affine (Fq2 A))
      → q.infinity ≡ true
      → (from_affine bits q).infinity ≡ true
  unfolding from_affine
  from_affine-infinity bits q e = rw e refl

  miller_loop-infinity :
      (bits : List Bool) (p : Affine A) (q : Affine (Fq2 A))
      → (p.infinity ≡ true) ⊎ (q.infinity ≡ true)
      → miller_loop bits ((p, from_affine bits q) ∷ []) ≡ some one
  unfolding miller_loop finite_pairs ell_all finish
  miller_loop-infinity bits p q h =
      ap (λ l. Option.map finish (bits_loop bits false (l, one) >>= λ s. ell_all s.0 s.1))
        (none_kept h)
      ∙ ap (λ o. Option.map finish (o >>= λ s. ell_all s.0 s.1)) (bits_loop-nil bits false)
      ∙ ap {B = Option (Gt A)} some (conjugate-one D.ring)
    where
      none_kept :
          (p.infinity ≡ true) ⊎ (q.infinity ≡ true)
          → finite_pairs ((p, from_affine bits q) ∷ []) ≡ []
      none_kept (inl e) = rw e refl
      none_kept (inr e) = elim (Bool-cases p.infinity) [
        | inl f ↦ rw f refl
        | inr f ↦ rw (f, from_affine-infinity bits q e) refl
      ]

  module _ (pow : Gt A → ℕ → Gt A) (pow_one : (n : ℕ) → pow 𝟙 n ≡ 𝟙) (frobenius : ℕ → Gt A → Gt A)
      (h1 : frobenius 1 𝟙 ≡ 𝟙) (h2 : frobenius 2 𝟙 ≡ 𝟙) (h3 : frobenius 3 𝟙 ≡ 𝟙) where
    hard_part_one : hard_part pow frobenius one ≡ one
    unfolding hard_part exp_by_x
    hard_part_one = simp (square_one, pow_one, conjugate-one D.ring, T.ring.one-mul one, h1, h2, h3)

    easy_part_one : easy_part frobenius one one ≡ one
    unfolding easy_part
    easy_part_one = simp (conjugate-one D.ring, T.ring.one-mul one, h2)

    inverse_one : inverse? one ≡ some one
    inverse_one =
        let (s, e, f) = T.inverse-ne_zero one T.one-ne-zero in
        e ∙ ap {B = Option (Gt A)} some (inverse_unique T.ring f (T.ring.one-mul one))

    final_exponentiation_one : final_exponentiation pow frobenius one ≡ some one
    unfolding final_exponentiation
    final_exponentiation_one =
        ap (Option.map (λ f2. hard_part pow frobenius (easy_part frobenius one f2))) inverse_one
        ∙ ap {B = Option (Gt A)} some (ap (hard_part pow frobenius) easy_part_one ∙ hard_part_one)

    pairing_infinity :
        (bits : List Bool) (p : Affine A) (q : Affine (Fq2 A))
        → (p.infinity ≡ true) ⊎ (q.infinity ≡ true)
        → pairing bits pow frobenius p q ≡ some one
    unfolding pairing
    pairing_infinity bits p q h =
        ap (λ o. o >>= λ f. final_exponentiation pow frobenius f) (miller_loop-infinity bits p q h)
        ∙ final_exponentiation_one

  -- With infinity on either side `pair` never panics, and gives one: over a field `Fq` in which -1 is
  -- no square, and where `1 + u` is neither a square nor a cube in `Fq2`, where a power of one is one,
  -- and the entries of the tables of Frobenius at 1, 2 and 3 are the powers that the comments of fq.rs
  -- say.
  pub pair_infinity :
      (pow : Gt A → ℕ → Gt A) {fq2_c1 : List A} {fq6_c1 fq6_c2 fq12_c1 : List (Fq2 A)}
      → ((n : ℕ) → pow 𝟙 n ≡ 𝟙)
      → IsTables fq2_c1 fq6_c1 fq6_c2 fq12_c1 1
      → IsTables fq2_c1 fq6_c1 fq6_c2 fq12_c1 2
      → IsTables fq2_c1 fq6_c1 fq6_c2 fq12_c1 3
      → (bits : List Bool) (a : Projective A) (b : Projective (Fq2 A))
      → (is_zero a ≡ true) ⊎ (is_zero b ≡ true)
      → pair bits pow (fq12_map fq2_c1 fq6_c1 fq6_c2 fq12_c1) a b ≡ some 𝟙
  unfolding pair affine_zero
  pair_infinity pow {fq2_c1} {fq6_c1} {fq6_c2} {fq12_c1} pow_one t1 t2 t3 bits a b h =
      let map = fq12_map fq2_c1 fq6_c1 fq6_c2 fq12_c1 in
      let h1 : map 1 one ≡ one = (frobenius_map-IsHom D.ring t1).one in
      let h2 : map 2 one ≡ one = (frobenius_map-IsHom D.ring t2).one in
      let h3 : map 3 one ≡ one = (frobenius_map-IsHom D.ring t3).one in
      let D2 = fq2-IsField D minus_one in
      elim h [
        | inl e ↦
            let (q, r) = into_affine_total D2 b in
            ap₂ (λ o r. o >>= λ p. r >>= λ q. pairing bits pow map p q) (into_affine_zero D a e) r
            ∙ pairing_infinity pow pow_one map h1 h2 h3 bits affine_zero q (inl refl)
        | inr e ↦
            let (p, r) = into_affine_total D a in
            ap₂ (λ o r. o >>= λ p. r >>= λ q. pairing bits pow map p q) r (into_affine_zero D2 b e)
            ∙ pairing_infinity pow pow_one map h1 h2 h3 bits p affine_zero (inr refl)
      ]

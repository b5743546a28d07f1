-- ===== src/Examples/Sqrt.antt =====
-- `sqrt` of pairing/src/bls12_381/fq2.rs over the integers modulo 19, with the exponents of 19.
use Prim.Native.Nat.add
use aws_dpid.Prelude.{ℕ, zero, suc, ◌+◌, ◌≡◌, refl, sym, ap, ◌∙◌, Bool, List, [], ◌∷◌, passes_under}
use aws_dpid.Ring.{IsField, IsCommRing, IsSqrt, 𝟙, ◌⊗◌, ◌=?◌}
use aws_dpid.Ring.Laws.{mul-one}
use aws_dpid.Tower.Fq2.{Fq2, fq2_ops, fq2_field, mul_assign, eq, one}
use aws_dpid.Tower.Fq2.Ring as Fq2Ring
use aws_dpid.Tower.Fq2.Extension.{conjugate}
use aws_dpid.Tower.Fq2.Inverse.{fq2-IsField}
use aws_dpid.Tower.Fq2.Sqrt.{sqrt}
use aws_dpid.Tower.Fq2.Sqrt.Powers.{IsPow}
use aws_dpid.Tower.Fq2.Sqrt.Correct.{sqrt-IsSqrt}
use aws_dpid.Examples.Zmod.{Zmod, residue, zmod_ops, zmod_field, zmod19-IsField}
use aws_dpid.Examples.Tower.{element, element_lem, on_all_sound, minus_one}

abbrev Q : Type 0
Q = Zmod 19

fq2_ring : IsCommRing (fq2_ops {A = Q})
fq2_ring = Fq2Ring.ring zmod19-IsField.ring

fq2_laws-IsField : IsField (fq2_ops {A = Q}) fq2_field
fq2_laws-IsField = fq2-IsField zmod19-IsField minus_one

unfoldable pow : Fq2 Q → ℕ → Fq2 Q
pow a zero = 𝟙
pow a (suc n) = a ⊗ pow a n

pow-add : (a : Fq2 Q) (m n : ℕ) → pow a (m + n) ≡ pow a m ⊗ pow a n
unfolding pow
pow-add a zero n = ap (pow a) (add.zero n) ∙ sym (fq2_ring.one-mul (pow a n))
pow-add a (suc m) n =
    ap (pow a) (add.suc m n)
    ∙ ap (λ x. a ⊗ x) (pow-add a m n)
    ∙ sym (fq2_ring.mul_assoc a (pow a m) (pow a n))

pow-mul : (a b : Fq2 Q) (n : ℕ) → pow (a ⊗ b) n ≡ pow a n ⊗ pow b n
unfolding pow
pow-mul a b zero = sym (fq2_ring.one-mul 𝟙)
pow-mul a b (suc n) =
    ap (λ x. (a ⊗ b) ⊗ x) (pow-mul a b n)
    ∙ fq2_ring.mul_assoc a b (pow a n ⊗ pow b n)
    ∙ ap (λ x. a ⊗ x)
        (sym (fq2_ring.mul_assoc b (pow a n) (pow b n))
          ∙ ap (λ x. x ⊗ pow b n) (fq2_ring.mul_comm b (pow a n))
          ∙ fq2_ring.mul_assoc (pow a n) b (pow b n))
    ∙ sym (fq2_ring.mul_assoc a (pow a n) (b ⊗ pow b n))

abbrev fermat_at : ℕ → ℕ → Bool
fermat_at x y = let a = element x y in pow a 19 =? conjugate a

pow-q : (a : Fq2 Q) → pow a 19 ≡ conjugate a
unfolding passes_under pow mul_assign conjugate eq one
pow-q a = (fq2_laws-IsField.eq_iff _ _).0 (
    sym (ap (λ (b : Fq2 Q). pow b 19 =? conjugate b) (element_lem a))
    ∙ on_all_sound fermat_at a refl)

abbrev coeffs : List Q
coeffs = residue 19 1 ∷ residue 19 18 ∷ []

pow-IsPow : IsPow (zmod_ops {m = 19}) pow 4 9 coeffs (residue 19 18)
unfolding pow
pow-IsPow = record {
  pow-one = λ a. mul-one fq2_ring a;
  pow-add = pow-add;
  pow-mul = pow-mul;
  pow-q = pow-q;
  exponents = refl;
  coefficient = refl;
  constant = refl;
}

sqrt-IsSqrt_example : IsSqrt (fq2_ops {A = Q}) (sqrt pow 4 9 coeffs (residue 19 18))
sqrt-IsSqrt_example = sqrt-IsSqrt zmod19-IsField minus_one pow-IsPow

-- ===== src/Pairing/Final.antt =====
-- The final exponentiation (pairing/src/bls12_381/mod.rs): to which power its hard part raises, and
-- what its easy part hands to it.
use Prim.Native.Nat.{◌/◌}
use aws_dpid.Prelude.{ℕ, ◌≡◌, refl, sym, ap, ◌∙◌, [], ◌∷◌}
use aws_dpid.Ring.{
  RingOps, NonresidueOps, IsCommRing, 𝟙, ◌⊕◌, ◌⊖◌, ◌⊗◌, negate as neg, square as sqr, double as dbl,
}
use aws_dpid.Ring.Poly.{is_nil}
use aws_dpid.Ring.Solver.{Expr, expr_ops, norm, env, solve}
use aws_dpid.Tower.Fq12.{Fq12, fq12_ops, fq12_field, conjugate}
use aws_dpid.Ring.Units.{unit-mul}
use aws_dpid.Tower.Fq12.Ring.{ring}
use aws_dpid.Tower.Fq12.Extension.{conjugate-mul, conjugate-conjugate, conjugate_one}
use aws_dpid.Pairing.{bls_x, exp_by_x, hard_part, easy_part}

-- (x - 1)^2 (x + q) (x^2 + q^2 - 1) + 3.
unfoldable pub hard_exponent : {E : Type 0} ⦃X : RingOps E⦄ → E → E → E
hard_exponent x q = sqr (x ⊖ 𝟙) ⊗ (x ⊕ q) ⊗ (sqr x ⊕ sqr q ⊖ 𝟙) ⊕ (𝟙 ⊕ 𝟙 ⊕ 𝟙)

-- Powers of one element, with exponents in the ring `E`, as the operations of `Fq12` act on the
-- elements of norm one: conjugation is inversion, `frobenius k` is the power `q^k`, and `pow` is
-- the power by a number; `half` is the number `BLS_X >> 1` in `E`, and x is its opposite twice.
pub record IsPower {C E : Type 0} ⦃F : RingOps C⦄ ⦃N : NonresidueOps C⦄ (X : RingOps E)
    (pow : Fq12 C → ℕ → Fq12 C) (frobenius : ℕ → Fq12 C → Fq12 C) (q half : E) (power : E → Fq12 C)
    : Type 0 where
  pub mul : (a b : E) → power a ⊗ power b ≡ power (X.add a b)
  pub square : (a : E) → sqr (power a) ≡ power (X.double a)
  pub conjugates : (a : E) → conjugate (power a) ≡ power (X.negate a)
  pub frobenius_1 : (a : E) → frobenius 1 (power a) ≡ power (X.mul q a)
  pub frobenius_2 : (a : E) → frobenius 2 (power a) ≡ power (X.mul (X.mul q q) a)
  pub frobenius_3 : (a : E) → frobenius 3 (power a) ≡ power (X.mul (X.mul q (X.mul q q)) a)
  pub pow_x : (a : E) → pow (power a) bls_x ≡ power (X.mul (X.double half) a)
  pub pow_half : (a : E) → pow (power a) (bls_x / 2) ≡ power (X.mul half a)

-- The chain of the hard part, on exponents.
chain : {E : Type 0} ⦃X : RingOps E⦄ → E → E → E
chain {E} half q =
    let by_x : E → E = λ a. neg (dbl half ⊗ a) in
    let y0 = dbl 𝟙 in
    let y1 = by_x y0 in
    let y2 = neg (half ⊗ y1) in
    let y1 = neg (y1 ⊕ neg 𝟙) in
    let y1 = y1 ⊕ y2 in
    let y2 = by_x y1 in
    let y3 = by_x y2 in
    let y1 = neg y1 in
    let y3 = y3 ⊕ y1 in
    let y1 = q ⊗ (q ⊗ q) ⊗ neg y1 in
    let y2 = q ⊗ q ⊗ y2 in
    let y1 = y1 ⊕ y2 in
    let y2 = by_x y3 in let y2 = y2 ⊕ y0 ⊕ 𝟙 in let y1 = y1 ⊕ y2 in let y2 = q ⊗ y3 in y1 ⊕ y2

module _ {C E : Type 0} ⦃F : RingOps C⦄ ⦃N : NonresidueOps C⦄ ⦃X : RingOps E⦄ (R : IsCommRing X)
    {pow : Fq12 C → ℕ → Fq12 C} {frobenius : ℕ → Fq12 C → Fq12 C} {q half : E} {power : E → Fq12 C}
    (P : IsPower X pow frobenius q half power) where
  exp_by_x-power : (a : E) → exp_by_x pow (power a) bls_x ≡ power (neg (dbl half ⊗ a))
  unfolding exp_by_x
  exp_by_x-power a = ap conjugate (P.pow_x a) ∙ P.conjugates (dbl half ⊗ a)

  exp_by_x-half : (a : E) → exp_by_x pow (power a) (bls_x / 2) ≡ power (neg (half ⊗ a))
  unfolding exp_by_x
  exp_by_x-half a = ap conjugate (P.pow_half a) ∙ P.conjugates (half ⊗ a)

  hard_part-chain : hard_part pow frobenius (power 𝟙) ≡ power (chain half q)
  unfolding hard_part chain
  hard_part-chain = simp (
    P.square, exp_by_x-power, exp_by_x-half, P.conjugates, P.mul, P.frobenius_1, P.frobenius_2,
    P.frobenius_3,
  )

  -- On the powers of one element, with exponents in a commutative ring on which conjugation, the map
  -- of Frobenius and `pow` act as on elements of norm one, the hard part raises to
  -- (x - 1)^2 (x + q) (x^2 + q^2 - 1) + 3.
  pub hard_part_lem : hard_part pow frobenius (power 𝟙) ≡ power (hard_exponent (neg (dbl half)) q)
  unfolding chain hard_exponent is_nil norm
  hard_part_lem =
      hard_part-chain
      ∙ ap power (
          solve R (env (half ∷ q ∷ [])) (chain (Expr.var 0) (Expr.var 1))
            (hard_exponent (neg (dbl (Expr.var 0))) (Expr.var 1)) refl)

module _ {C : Type 0} ⦃F : RingOps C⦄ ⦃N : NonresidueOps C⦄ (R : IsCommRing F) (β : C)
    (twists : (c : C) → N.mul_by_nonresidue c ≡ β ⊗ c) (frobenius : ℕ → Fq12 C → Fq12 C)
    (frobenius-mul : (a b : Fq12 C) → frobenius 2 (a ⊗ b) ≡ frobenius 2 a ⊗ frobenius 2 b)
    (frobenius_one : frobenius 2 𝟙 ≡ 𝟙)
    (frobenius-conjugate : (a : Fq12 C)
      → frobenius 2 (conjugate a) ≡ conjugate (frobenius 2 a)) where
  norm_one : (r s : Fq12 C) → r ⊗ s ≡ 𝟙 → (conjugate r ⊗ s) ⊗ conjugate (conjugate r ⊗ s) ≡ 𝟙
  norm_one r s h =
      ap (λ x. (conjugate r ⊗ s) ⊗ x)
        (conjugate-mul R β twists (conjugate r) s
          ∙ ap (λ x. x ⊗ conjugate s) (conjugate-conjugate R β twists r)
          ∙ (ring R β twists).mul_comm r (conjugate s))
      ∙ unit-mul (ring R β twists)
          (sym (conjugate-mul R β twists r s) ∙ ap conjugate h ∙ conjugate_one R β twists)
          ((ring R β twists).mul_comm s r ∙ h)

  -- Where the map of Frobenius is a homomorphism that commutes with conjugation, what the easy part
  -- hands to the hard part is inverted by conjugation.
  pub easy_part-conjugate :
      (r s : Fq12 C) → r ⊗ s ≡ 𝟙 → easy_part frobenius r s ⊗ conjugate (easy_part frobenius r s) ≡ 𝟙
  unfolding easy_part
  easy_part-conjugate r s h =
      let f2 = conjugate r ⊗ s in
      ap (λ x. (frobenius 2 f2 ⊗ f2) ⊗ x) (conjugate-mul R β twists (frobenius 2 f2) f2)
      ∙ unit-mul (ring R β twists)
          (ap (λ x. frobenius 2 f2 ⊗ x) (sym (frobenius-conjugate f2))
            ∙ sym (frobenius-mul f2 (conjugate f2))
            ∙ ap (frobenius 2) (norm_one r s h)
            ∙ frobenius_one)
          (norm_one r s h)

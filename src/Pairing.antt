-- ===== src/Pairing.antt =====
-- The pairing engine, pairing/src/bls12_381/mod.rs: preparation of points of G2, the Miller loop
-- and the final exponentiation, over the tower of `Fq`. `BitIterator` of the crate `ff` is the
-- list of the bits that it yields for `BLS_X >> 1`, and `pow` is `ff::Field::pow`.
pub mod Lines
pub mod Target
pub mod Product
pub mod Fused
pub mod Final
pub mod Pair
use Prim.Native.Nat.{◌/◌}
use aws_dpid.Prelude.{
  ℕ, ◌*◌, Bool, true, false, ◌||◌, not, ◌&&◌, Option, none, some, List, [], ◌∷◌, ◌++◌, ◌>>=◌, ◌%◌,
  if◌then◌else◌,
}
use mathlib.Core.Option
use aws_dpid.Ring.{RingOps, FieldOps, NonresidueOps, 𝟙, ◌⊕◌, ◌⊖◌, ◌⊗◌}
use aws_dpid.Ring.{negate as neg, square as sqr, double as dbl, inverse as inverse?}
use aws_dpid.Tower.Fq2.{Fq2, fq2_ops, fq2_nonresidue, fq2_field}
use aws_dpid.Tower.Fq6.{Fq6, fq6_ops, fq6_nonresidue}
use aws_dpid.Tower.Fq12.{Fq12, fq12_ops, conjugate, mul_by_014}
use aws_dpid.Curve.{Affine, Projective, into_projective}

-- |x| of the curve; x itself is negative.
abbrev pub bls_x : ℕ
bls_x = 15132376222941642752

abbrev pub bls_x_is_negative : Bool
bls_x_is_negative = true

-- The coefficients of a line, a triple in the code.
pub record Line (B : Type 0) : Type 0 where
  pub y_coeff : B
  pub x_coeff : B
  pub constant : B

pub record G2Prepared (B : Type 0) : Type 0 where
  pub coeffs : List (Line B)
  pub infinity : Bool

-- Both steps give the line and the new `r`.
module _ {B : Type 0} ⦃F : RingOps B⦄ where
  unfoldable pub doubling_step : Projective B → Line B × Projective B
  doubling_step r =
      let tmp0 = sqr r.x in
      let tmp1 = sqr r.y in
      let tmp2 = sqr tmp1 in
      let tmp3 = dbl (sqr (tmp1 ⊕ r.x) ⊖ tmp0 ⊖ tmp2) in
      let tmp4 = dbl tmp0 ⊕ tmp0 in
      let tmp6 = r.x ⊕ tmp4 in
      let tmp5 = sqr tmp4 in
      let zsquared = sqr r.z in
      let x = tmp5 ⊖ tmp3 ⊖ tmp3 in
      let z = sqr (r.z ⊕ r.y) ⊖ tmp1 ⊖ zsquared in
      let y = (tmp3 ⊖ x) ⊗ tmp4 ⊖ dbl (dbl (dbl tmp2)) in
      (
        record {
          y_coeff = dbl (z ⊗ zsquared);
          x_coeff = neg (dbl (tmp4 ⊗ zsquared));
          constant = sqr tmp6 ⊖ tmp0 ⊖ tmp5 ⊖ dbl (dbl tmp1);
        },
        record { x = x; y = y; z = z },
      )

  unfoldable pub addition_step : Projective B → Affine B → Line B × Projective B
  addition_step r q =
      let zsquared = sqr r.z in
      let ysquared = sqr q.y in
      let t0 = zsquared ⊗ q.x in
      let t1 = (sqr (q.y ⊕ r.z) ⊖ ysquared ⊖ zsquared) ⊗ zsquared in
      let t2 = t0 ⊖ r.x in
      let t3 = sqr t2 in
      let t4 = dbl (dbl t3) in
      let t5 = t4 ⊗ t2 in
      let t6 = t1 ⊖ r.y ⊖ r.y in
      let t9 = t6 ⊗ q.x in
      let t7 = t4 ⊗ r.x in
      let x = sqr t6 ⊖ t5 ⊖ t7 ⊖ t7 in
      let z = sqr (r.z ⊕ t2) ⊖ zsquared ⊖ t3 in
      let t8 = (t7 ⊖ x) ⊗ t6 in
      let y = t8 ⊖ dbl (r.y ⊗ t5) in
      let t10 = sqr (q.y ⊕ z) ⊖ ysquared ⊖ sqr z in
      (
        record { y_coeff = dbl z; x_coeff = dbl (neg t6); constant = dbl t9 ⊖ t10 },
        record { x = x; y = y; z = z },
      )

  -- The loop of `from_affine`: the coefficients that it pushes, in order, and the last `r`.
  unfoldable pub prepare_loop :
      Affine B → List Bool → Bool → Projective B → List (Line B) × Projective B
  unfolding doubling_step addition_step
  prepare_loop q [] found_one r = ([], r)
  prepare_loop q (i ∷ bits) false r = prepare_loop q bits i r
  prepare_loop q (false ∷ bits) true r =
      let (l, r1) = doubling_step r in
      let rest = prepare_loop q bits true r1 in (l ∷ rest.0, rest.1)
  prepare_loop q (true ∷ bits) true r =
      let (l, r1) = doubling_step r in
      let (m, r2) = addition_step r1 q in
      let rest = prepare_loop q bits true r2 in (l ∷ m ∷ rest.0, rest.1)

  unfoldable pub from_affine : ⦃K : FieldOps B⦄ → List Bool → Affine B → G2Prepared B
  unfolding prepare_loop into_projective
  from_affine bits q =
      if q.infinity
      then record { coeffs = []; infinity = true }
      else let (coeffs, r) = prepare_loop q bits false (into_projective q) in
        record { coeffs = coeffs ++ (doubling_step r).0 ∷ []; infinity = false }

-- A point of G1 with the coefficients that its iterator has not yet yielded.
abbrev pub Pair : Type 0 → Type 0
Pair A = Affine A × List (Line (Fq2 A))

abbrev pub Gt : Type 0 → Type 0
Gt A = Fq12 (Fq6 (Fq2 A))

module _ {A : Type 0} ⦃F : RingOps A⦄ where
  unfoldable pub ell : Gt A → Line (Fq2 A) → Affine A → Gt A
  unfolding mul_by_014
  ell f coeffs p =
      let c0 : Fq2 A = record { c0 = coeffs.y_coeff.c0 ⊗ p.y; c1 = coeffs.y_coeff.c1 ⊗ p.y } in
      let c1 : Fq2 A = record { c0 = coeffs.x_coeff.c0 ⊗ p.x; c1 = coeffs.x_coeff.c1 ⊗ p.x } in
      mul_by_014 f coeffs.constant c1 c0

  -- One line of every pair; `none` is the panic of `coeffs.next().unwrap()`.
  unfoldable pub ell_all : List (Pair A) → Gt A → Option (List (Pair A) × Gt A)
  unfolding ell
  ell_all [] f = some ([], f)
  ell_all ((p, []) ∷ pairs) f = none
  ell_all ((p, c ∷ coeffs) ∷ pairs) f =
      Option.map (λ r. ((p, coeffs) ∷ r.0, r.1)) (ell_all pairs (ell f c p))

  unfoldable pub bits_loop : List Bool → Bool → List (Pair A) × Gt A → Option (List (Pair A) × Gt A)
  unfolding ell_all
  bits_loop [] found_one s = some s
  bits_loop (i ∷ bits) false s = bits_loop bits i s
  bits_loop (i ∷ bits) true s = do
    s1 ← ell_all s.0 s.1
    s2 ← if i then ell_all s1.0 s1.1 else some s1
    bits_loop bits true (s2.0, sqr s2.1)

  -- The pairs without infinity, each with its coefficients.
  unfoldable pub finite_pairs : List (Affine A × G2Prepared (Fq2 A)) → List (Pair A)
  finite_pairs [] = []
  finite_pairs ((p, q) ∷ i) =
      let rest = finite_pairs i in
      if not p.infinity && not q.infinity then (p, q.coeffs) ∷ rest else rest

  unfoldable pub finish : List (Pair A) × Gt A → Gt A
  finish s = if bls_x_is_negative then conjugate s.1 else s.1

  unfoldable pub miller_loop : List Bool → List (Affine A × G2Prepared (Fq2 A)) → Option (Gt A)
  unfolding finite_pairs bits_loop ell_all finish
  miller_loop bits i =
      Option.map finish (bits_loop bits false (finite_pairs i, 𝟙) >>= λ s. ell_all s.0 s.1)

-- The final exponentiation calls `Fq12` by the operations of `Field` and by `conjugate`.
unfoldable pub exp_by_x : {C : Type 0} ⦃F : RingOps C⦄ → (Fq12 C → ℕ → Fq12 C) → Fq12 C → ℕ → Fq12 C
exp_by_x pow f x = let g = pow f x in if bls_x_is_negative then conjugate g else g

unfoldable pub easy_part :
    {C : Type 0} ⦃F : RingOps C⦄ ⦃N : NonresidueOps C⦄
    → (ℕ → Fq12 C → Fq12 C)
    → Fq12 C
    → Fq12 C
    → Fq12 C
easy_part frobenius r inverse = let f2 = conjugate r ⊗ inverse in frobenius 2 f2 ⊗ f2

module _ {C : Type 0} ⦃F : RingOps C⦄ ⦃N : NonresidueOps C⦄ (pow : Fq12 C → ℕ → Fq12 C)
    (frobenius : ℕ → Fq12 C → Fq12 C) where
  -- From `let mut x = BLS_X` on.
  unfoldable pub hard_part : Fq12 C → Fq12 C
  unfolding exp_by_x
  hard_part r =
      let y0 = sqr r in
      let y1 = exp_by_x pow y0 bls_x in
      let y2 = exp_by_x pow y1 (bls_x / 2) in
      let x = bls_x / 2 * 2 % 18446744073709551616 in
      let y3 = conjugate r in
      let y1 = conjugate (y1 ⊗ y3) in
      let y1 = y1 ⊗ y2 in
      let y2 = exp_by_x pow y1 x in
      let y3 = exp_by_x pow y2 x in
      let y1 = conjugate y1 in
      let y3 = y3 ⊗ y1 in
      let y1 = frobenius 3 (conjugate y1) in
      let y2 = frobenius 2 y2 in
      let y1 = y1 ⊗ y2 in
      let y2 = exp_by_x pow y3 x in
      let y2 = y2 ⊗ y0 ⊗ r in let y1 = y1 ⊗ y2 in let y2 = frobenius 1 y3 in y1 ⊗ y2

  unfoldable pub final_exponentiation : ⦃K : FieldOps (Fq12 C)⦄ → Fq12 C → Option (Fq12 C)
  unfolding hard_part easy_part
  final_exponentiation r = Option.map (λ f2. hard_part (easy_part frobenius r f2)) (inverse? r)

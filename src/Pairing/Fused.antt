-- ===== src/Pairing/Fused.antt =====
-- The Miller loop on prepared points (pairing/src/bls12_381/mod.rs) against one loop that computes
-- each line when it is needed, with no list of coefficients between the two.
use mathlib.Core.Option
use aws_dpid.Prelude.{
  ◌≡◌, refl, ap, ap₂, ◌∙◌, Bool, true, false, if◌then◌else◌, not, ◌&&◌, ◌||◌, Option, some, ◌>>=◌,
  List, [], ◌∷◌, ◌++◌, map,
}
use aws_dpid.Ring.{RingOps, FieldOps, IsCommRing, 𝟙, ◌⊗◌, square as sqr}
use aws_dpid.Tower.Fq2.{Fq2, fq2_ops, fq2_nonresidue, fq2_field}
use aws_dpid.Tower.Fq2.Ring as Fq2Ring
use aws_dpid.Tower.Fq6.{fq6_ops, fq6_nonresidue}
use aws_dpid.Tower.Fq12.{fq12_ops, conjugate}
use aws_dpid.Curve.{Affine, Projective, double_formula, mixed_formula, into_projective, zero}
use aws_dpid.Pairing.{
  Line, G2Prepared, Pair, Gt, ell, ell_all, bits_loop, finite_pairs, finish, miller_loop,
  prepare_loop, from_affine, doubling_step, addition_step,
}
use aws_dpid.Pairing.Lines.{doubling_step-point, addition_step-point, finite}
use aws_dpid.Pairing.Target.{gt_ring, conjugate-one}
use aws_dpid.Pairing.Product.{product, miller_loop-append}

module _ {A : Type 0} ⦃F : RingOps A⦄ where
  abbrev tangent : Projective (Fq2 A) → Line (Fq2 A)
  tangent r = (doubling_step r).0

  abbrev chord : Projective (Fq2 A) → Affine (Fq2 A) → Line (Fq2 A)
  chord r q = (addition_step r q).0

  -- Miller's algorithm: the multiple of `q` and the value, bit by bit.
  unfoldable pub fused_loop :
      Affine A
      → Affine (Fq2 A)
      → List Bool
      → Bool
      → Projective (Fq2 A)
      → Gt A
      → Projective (Fq2 A) × Gt A
  fused_loop p q [] found r f = (r, f)
  fused_loop p q (i ∷ bits) false r f = fused_loop p q bits i r f
  fused_loop p q (false ∷ bits) true r f =
      fused_loop p q bits true (double_formula r) (sqr (ell f (tangent r) p))
  fused_loop p q (true ∷ bits) true r f =
      let r1 = double_formula r in
      fused_loop p q bits true (mixed_formula r1 q) (sqr (ell (ell f (tangent r) p) (chord r1 q) p))

  unfoldable pub fused : List Bool → Affine A → Affine (Fq2 A) → Gt A
  fused bits p q =
      if p.infinity || q.infinity
      then 𝟙
      else let (r, f) = fused_loop p q bits false (finite q) 𝟙 in conjugate (ell f (tangent r) p)

  -- The product of the values of the pairs.
  unfoldable pub fused_product : List Bool → List (Affine A × Affine (Fq2 A)) → Gt A
  fused_product bits [] = 𝟙
  fused_product bits ((p, q) ∷ i) = fused bits p q ⊗ fused_product bits i

  module _ (R : IsCommRing F) where
    R2 : IsCommRing (fq2_ops {A = A})
    R2 = Fq2Ring.ring R

    prepare_loop-last :
        (p : Affine A) (q : Affine (Fq2 A)) (bits : List Bool) (found : Bool)
        (r : Projective (Fq2 A)) (f : Gt A)
        → (prepare_loop q bits found r).1 ≡ (fused_loop p q bits found r f).0
    unfolding prepare_loop fused_loop
    prepare_loop-last p q [] found r f = refl
    prepare_loop-last p q (i ∷ bits) false r f = prepare_loop-last p q bits i r f
    prepare_loop-last p q (false ∷ bits) true r f =
        ap (λ x. (prepare_loop q bits true x).1) (doubling_step-point R2 r)
        ∙ prepare_loop-last p q bits true (double_formula r) (sqr (ell f (tangent r) p))
    prepare_loop-last p q (true ∷ bits) true r f =
        ap (λ x. (prepare_loop q bits true x).1)
          (ap (λ x. (addition_step x q).1) (doubling_step-point R2 r)
            ∙ addition_step-point R2 (double_formula r) q)
        ∙ prepare_loop-last p q bits true (mixed_formula (double_formula r) q)
            (sqr (ell (ell f (tangent r) p) (chord (double_formula r) q) p))

    bits_loop-prepared :
        (p : Affine A) (q : Affine (Fq2 A)) (bits : List Bool) (found : Bool)
        (r : Projective (Fq2 A)) (f : Gt A) (rest : List (Line (Fq2 A)))
        → bits_loop bits found ((p, (prepare_loop q bits found r).0 ++ rest) ∷ [], f)
          ≡ some ((p, rest) ∷ [], (fused_loop p q bits found r f).1)
    unfolding bits_loop ell_all prepare_loop fused_loop
    bits_loop-prepared p q [] found r f rest = refl
    bits_loop-prepared p q (i ∷ bits) false r f rest = bits_loop-prepared p q bits i r f rest
    bits_loop-prepared p q (false ∷ bits) true r f rest =
        ap
          (λ x.
            bits_loop bits true
              ((p, (prepare_loop q bits true x).0 ++ rest) ∷ [], sqr (ell f (tangent r) p)))
          (doubling_step-point R2 r)
        ∙ bits_loop-prepared p q bits true (double_formula r) (sqr (ell f (tangent r) p)) rest
    bits_loop-prepared p q (true ∷ bits) true r f rest =
        ap₂
          (λ x c.
            bits_loop bits true (
              (p, (prepare_loop q bits true x).0 ++ rest) ∷ [],
              sqr (ell (ell f (tangent r) p) c p),
            ))
          (ap (λ x. (addition_step x q).1) (doubling_step-point R2 r)
            ∙ addition_step-point R2 (double_formula r) q)
          (ap (λ x. chord x q) (doubling_step-point R2 r))
        ∙ bits_loop-prepared p q bits true (mixed_formula (double_formula r) q)
            (sqr (ell (ell f (tangent r) p) (chord (double_formula r) q) p)) rest

    square-one : sqr (𝟙 {A = Gt A}) ≡ 𝟙
    square-one = (gt_ring R).square-eq 𝟙 ∙ (gt_ring R).one-mul 𝟙

    bits_loop-nil :
        (bits : List Bool) (found : Bool) → bits_loop {A = A} bits found ([], 𝟙) ≡ some ([], 𝟙)
    unfolding bits_loop ell_all
    bits_loop-nil [] found = refl
    bits_loop-nil (i ∷ bits) false = bits_loop-nil bits i
    bits_loop-nil (true ∷ bits) true =
        ap (λ f. bits_loop bits true ([], f)) square-one ∙ bits_loop-nil bits true
    bits_loop-nil (false ∷ bits) true =
        ap (λ f. bits_loop bits true ([], f)) square-one ∙ bits_loop-nil bits true

    module _ ⦃K : FieldOps A⦄ where
      abbrev prepared : List Bool → Affine A → Affine (Fq2 A) → Affine A × G2Prepared (Fq2 A)
      prepared bits p q = (p, from_affine bits q)

      -- `from_affine`, given whether `q` is infinity.
      abbrev made : List Bool → Affine (Fq2 A) → Bool → G2Prepared (Fq2 A)
      made bits q d =
          if d
          then record { coeffs = []; infinity = true }
          else let start : Projective (Fq2 A) = if d then zero else finite q in
            let (coeffs, r) = prepare_loop q bits false start in
            record { coeffs = coeffs ++ tangent r ∷ []; infinity = false }

      -- The pairs that the loop keeps, of one prepared pair.
      abbrev kept : List Bool → Affine A → Affine (Fq2 A) → Bool → Bool → List (Pair A)
      kept bits p q c d =
          let g = made bits q d in if not c && not g.infinity then (p, g.coeffs) ∷ [] else []

      finite_pairs-prepared :
          (bits : List Bool) (p : Affine A) (q : Affine (Fq2 A))
          → finite_pairs (prepared bits p q ∷ []) ≡ kept bits p q p.infinity q.infinity
      unfolding finite_pairs from_affine into_projective
      finite_pairs-prepared bits p q = refl

      run : List Bool → List (Pair A) → Option (Gt A)
      run bits l = Option.map finish (bits_loop bits false (l, 𝟙) >>= λ s. ell_all s.0 s.1)

      run-nil : (bits : List Bool) → run bits [] ≡ some 𝟙
      unfolding run ell_all finish
      run-nil bits =
          ap (λ o. Option.map finish (o >>= λ s. ell_all s.0 s.1)) (bits_loop-nil bits false)
          ∙ ap {B = Option (Gt A)} some (conjugate-one R)

      run-finite :
          (bits : List Bool) (p : Affine A) (q : Affine (Fq2 A))
          → run bits (kept bits p q false false)
            ≡ some (
                let (r, f) = fused_loop p q bits false (finite q) 𝟙 in
                conjugate (ell f (tangent r) p))
      unfolding run ell_all finish
      run-finite bits p q =
          ap (λ o. Option.map finish (o >>= λ s. ell_all s.0 s.1))
            (bits_loop-prepared p q bits false start 𝟙 _)
          ∙ ap (λ r. some (conjugate (ell (fused_loop p q bits false start 𝟙).1 (tangent r) p)))
              (prepare_loop-last p q bits false start 𝟙)
        where
          start : Projective (Fq2 A)
          start = finite q

      run-kept :
          (bits : List Bool) (p : Affine A) (q : Affine (Fq2 A)) (c d : Bool)
          → run bits (kept bits p q c d)
            ≡ some (
                if c || d
                then 𝟙
                else let (r, f) = fused_loop p q bits false (finite q) 𝟙 in
                  conjugate (ell f (tangent r) p))
      run-kept bits p q true true = run-nil bits
      run-kept bits p q true false = run-nil bits
      run-kept bits p q false true = run-nil bits
      run-kept bits p q false false = run-finite bits p q

      miller_loop-prepared :
          (bits : List Bool) (p : Affine A) (q : Affine (Fq2 A))
          → miller_loop bits (prepared bits p q ∷ []) ≡ some (fused bits p q)
      unfolding miller_loop fused run
      miller_loop-prepared bits p q =
          ap (run bits) (finite_pairs-prepared bits p q) ∙ run-kept bits p q p.infinity q.infinity

      -- On points prepared with the same bits the Miller loop never panics, and gives the product
      -- over the pairs of the loop that computes each line when it is needed; a pair with infinity
      -- counts as one.
      pub miller_loop_lem :
          (bits : List Bool) (i : List (Affine A × Affine (Fq2 A)))
          → miller_loop bits (map (λ r. (r.0, from_affine bits r.1)) i)
            ≡ some (fused_product bits i)
      unfolding fused_product product miller_loop finite_pairs run
      miller_loop_lem bits [] = run-nil bits
      miller_loop_lem bits ((p, q) ∷ i) =
          miller_loop-append R bits (prepared bits p q ∷ [])
            (map (λ r. (r.0, from_affine bits r.1)) i)
          ∙ ap₂ product (miller_loop-prepared bits p q) (miller_loop_lem bits i)

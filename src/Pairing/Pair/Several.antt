-- ===== src/Pairing/Pair/Several.antt =====
-- The final exponentiation (pairing/src/bls12_381/mod.rs) is multiplicative, and so the Miller loop
-- over several pairs, with one final exponentiation, gives the product of the pairings.
use mathlib.Core.Option
use aws_dpid.Prelude.{
  ℕ, ◌≡◌, ◌≢◌, refl, sym, ap, ap₂, ◌∙◌, Bool, inl, inr, Option, none, some, ◌>>=◌, List, ◌++◌, ◌/◌,
  ◌%◌, ◌*◌,
}
use aws_dpid.Ring.{
  RingOps, FieldOps, IsField, 𝟘, 𝟙, ◌⊗◌, negate, square as sqr, inverse as inverse?,
}
use aws_dpid.Ring.Field.{zero-cases}
use aws_dpid.Ring.Laws.{mul-zero, zero-mul}
use aws_dpid.Ring.Units.{inverse_unique, unit-mul}
use aws_dpid.Tower.Fq2.{Fq2, fq2_ops, fq2_field, fq2_nonresidue}
use aws_dpid.Tower.Fq2.Extension.{nonresidue}
use aws_dpid.Tower.Fq6.{Fq6, fq6_ops, fq6_field, fq6_nonresidue}
use aws_dpid.Tower.Fq12.{fq12_ops, fq12_field, conjugate}
use aws_dpid.Tower.Field.{tower-IsField}
use aws_dpid.Tower.Frobenius.{IsTables, fq12_map}
use aws_dpid.Tower.Frobenius.Correct.{frobenius_map-IsHom}
use aws_dpid.Curve.{Affine}
use aws_dpid.Pairing.{
  G2Prepared, Gt, miller_loop, exp_by_x, easy_part, hard_part, final_exponentiation, bls_x,
}
use aws_dpid.Pairing.Target.{square-mul, gt_conjugate-mul}
use aws_dpid.Pairing.Product.{product, miller_loop-append}

module _ {A : Type 0} ⦃F : RingOps A⦄ ⦃K : FieldOps A⦄ (D : IsField F K)
    (T : IsField (fq12_ops {C = Fq6 (Fq2 A)}) fq12_field) (pow : Gt A → ℕ → Gt A)
    (pow-mul : (f g : Gt A) (n : ℕ) → pow (f ⊗ g) n ≡ pow f n ⊗ pow g n)
    (frobenius : ℕ → Gt A → Gt A)
    (h1 : (f g : Gt A) → frobenius 1 (f ⊗ g) ≡ frobenius 1 f ⊗ frobenius 1 g)
    (h2 : (f g : Gt A) → frobenius 2 (f ⊗ g) ≡ frobenius 2 f ⊗ frobenius 2 g)
    (h3 : (f g : Gt A) → frobenius 3 (f ⊗ g) ≡ frobenius 3 f ⊗ frobenius 3 g) where
  -- What each operation does to a product.
  record IsProduct (x y z : Gt A) : Type 0 where
    pub worth : z ≡ x ⊗ y

  m : {x y z u v w : Gt A} → IsProduct x y z → IsProduct u v w → IsProduct (x ⊗ u) (y ⊗ v) (z ⊗ w)
  m {x} {y} {z} {u} {v} {w} e f = record {
    worth =
        ap₂ ◌⊗◌ e.worth f.worth
        ∙ T.ring.mul_assoc x y (u ⊗ v)
        ∙ ap (λ t. x ⊗ t)
            (sym (T.ring.mul_assoc y u v)
              ∙ ap (λ t. t ⊗ v) (T.ring.mul_comm y u)
              ∙ T.ring.mul_assoc u y v)
        ∙ sym (T.ring.mul_assoc x u (y ⊗ v));
  }

  conj : {x y z : Gt A} → IsProduct x y z → IsProduct (conjugate x) (conjugate y) (conjugate z)
  conj {x} {y} e = record { worth = ap conjugate e.worth ∙ (gt_conjugate-mul D.ring) x y }

  sq : {x y z : Gt A} → IsProduct x y z → IsProduct (sqr x) (sqr y) (sqr z)
  sq {x} {y} e = record { worth = ap sqr e.worth ∙ (square-mul D.ring) x y }

  ex :
      {x y z : Gt A} (n : ℕ)
      → IsProduct x y z
      → IsProduct (exp_by_x pow x n) (exp_by_x pow y n) (exp_by_x pow z n)
  unfolding exp_by_x
  ex {x} {y} n e = conj (record { worth = ap (λ t. pow t n) e.worth ∙ pow-mul x y n })

  fr :
      {x y z : Gt A} (n : ℕ)
      → ((f g : Gt A) → frobenius n (f ⊗ g) ≡ frobenius n f ⊗ frobenius n g)
      → IsProduct x y z
      → IsProduct (frobenius n x) (frobenius n y) (frobenius n z)
  fr {x} {y} n h e = record { worth = ap (frobenius n) e.worth ∙ h x y }

  hard_part-mul :
      (r s : Gt A)
      → IsProduct
          (hard_part pow frobenius r)
          (hard_part pow frobenius s)
          (hard_part pow frobenius (r ⊗ s))
  unfolding hard_part
  hard_part-mul r s =
      let e : IsProduct r s (r ⊗ s) = record { worth = refl } in
      let y0 = sq e in
      let y1 = ex bls_x y0 in
      let y2 = ex (bls_x / 2) y1 in
      let x = bls_x / 2 * 2 % 18446744073709551616 in
      let y1 = m (conj (m y1 (conj e))) y2 in
      let y2 = ex x y1 in
      let y1 = conj y1 in
      let y3 = m (ex x y2) y1 in
      let y1 = m (fr 3 h3 (conj y1)) (fr 2 h2 y2) in m (m y1 (m (m (ex x y3) y0) e)) (fr 1 h1 y3)

  easy_part-mul :
      (r s u v : Gt A)
      → IsProduct
          (easy_part frobenius r u)
          (easy_part frobenius s v)
          (easy_part frobenius (r ⊗ s) (u ⊗ v))
  unfolding easy_part
  easy_part-mul r s u v =
      let e : IsProduct r s (r ⊗ s) = record { worth = refl } in
      let f : IsProduct u v (u ⊗ v) = record { worth = refl } in
      let f2 = m (conj e) f in m (fr 2 h2 f2) f2

  exponentiate : Option (Gt A) → Gt A → Option (Gt A)
  exponentiate o r = Option.map (λ f2. hard_part pow frobenius (easy_part frobenius r f2)) o

  product-none : (a : Option (Gt A)) → product a none ≡ none
  unfolding product
  product-none (some f) = refl
  product-none none = refl

  finite_mul :
      (f g u v : Gt A)
      → f ⊗ u ≡ 𝟙
      → g ⊗ v ≡ 𝟙
      → inverse? f ≡ some u
      → inverse? g ≡ some v
      → exponentiate (inverse? (f ⊗ g)) (f ⊗ g)
        ≡ product (exponentiate (inverse? f) f) (exponentiate (inverse? g) g)
  unfolding exponentiate product
  finite_mul f g u v h k e d =
      let both : (f ⊗ g) ⊗ (u ⊗ v) ≡ 𝟙 = unit-mul T.ring h k in
      let whole : f ⊗ g ≢ 𝟘 =
        λ z. T.one-ne-zero (sym both ∙ ap (λ t. t ⊗ (u ⊗ v)) z ∙ zero-mul T.ring (u ⊗ v)) in
      let (w, c, j) = T.inverse-ne_zero (f ⊗ g) whole in
      let easy = easy_part-mul f g u v in
      let hard = hard_part-mul (easy_part frobenius f u) (easy_part frobenius g v) in
      ap (λ o. exponentiate o (f ⊗ g))
        (c ∙ ap {B = Option (Gt A)} some (inverse_unique T.ring j both))
      ∙ ap {B = Option (Gt A)} some (ap (hard_part pow frobenius) easy.worth ∙ hard.worth)
      ∙ sym (ap₂ (λ o r. product (exponentiate o f) (exponentiate r g)) e d)

  inverse-zero_of : (f : Gt A) → f ≡ 𝟘 → exponentiate (inverse? f) f ≡ none
  unfolding exponentiate
  inverse-zero_of f z = ap (λ o. exponentiate o f) (ap inverse? z ∙ T.inverse-zero)

  final_exponentiation-mul :
      (f g : Gt A)
      → final_exponentiation pow frobenius (f ⊗ g)
        ≡ product (final_exponentiation pow frobenius f) (final_exponentiation pow frobenius g)
  unfolding final_exponentiation product exponentiate
  final_exponentiation-mul f g = elim (zero-cases T f) [
    | inl z ↦
        inverse-zero_of (f ⊗ g) (ap (λ t. t ⊗ g) z ∙ zero-mul T.ring g)
        ∙ sym (ap (λ o. product o (exponentiate (inverse? g) g)) (inverse-zero_of f z))
    | inr n ↦
        let (u, e, h) = T.inverse-ne_zero f n in
        elim (zero-cases T g) [
          | inl z ↦
              inverse-zero_of (f ⊗ g) (ap (λ t. f ⊗ t) z ∙ mul-zero T.ring f)
              ∙ sym (product-none (exponentiate (inverse? f) f))
              ∙ sym (ap (product (exponentiate (inverse? f) f)) (inverse-zero_of g z))
          | inr k ↦ let (v, d, j) = T.inverse-ne_zero g k in finite_mul f g u v h j e d
        ]
  ]

  product-bind :
      (a b : Option (Gt A))
      → (product a b >>= final_exponentiation pow frobenius)
        ≡ product
            (a >>= final_exponentiation pow frobenius)
            (b >>= final_exponentiation pow frobenius)
  unfolding product
  product-bind (some f) (some g) = final_exponentiation-mul f g
  product-bind (some f) none = sym (product-none (final_exponentiation pow frobenius f))
  product-bind none b = refl

-- The Miller loop over two lists of pairs in sequence, with one final exponentiation, gives the product
-- of what each list gives by itself, and panics exactly where one of the two does: over a field `Fq` in
-- which -1 is no square, and where `1 + u` is neither a square nor a cube in `Fq2`, where `pow` is
-- multiplicative, and the entries of the tables of Frobenius at 1, 2 and 3 are the powers that the
-- comments of fq.rs say.
pub pairings-append :
    {A : Type 0} ⦃F : RingOps A⦄ ⦃K : FieldOps A⦄ (D : IsField F K)
    → ((a : A) → a ⊗ a ≢ negate 𝟙)
    → ((b : Fq2 A) → b ⊗ b ≢ nonresidue)
    → ((b : Fq2 A) → b ⊗ b ⊗ b ≢ nonresidue)
    → (pow : Gt A → ℕ → Gt A) → ((f g : Gt A) (n : ℕ) → pow (f ⊗ g) n ≡ pow f n ⊗ pow g n)
    → {fq2_c1 : List A} {fq6_c1 fq6_c2 fq12_c1 : List (Fq2 A)}
    → IsTables fq2_c1 fq6_c1 fq6_c2 fq12_c1 1
    → IsTables fq2_c1 fq6_c1 fq6_c2 fq12_c1 2
    → IsTables fq2_c1 fq6_c1 fq6_c2 fq12_c1 3
    → (bits : List Bool) (i j : List (Affine A × G2Prepared (Fq2 A)))
    → let exponentiation = final_exponentiation pow (fq12_map fq2_c1 fq6_c1 fq6_c2 fq12_c1) in
      (miller_loop bits (i ++ j) >>= exponentiation)
      ≡ product (miller_loop bits i >>= exponentiation) (miller_loop bits j >>= exponentiation)
pairings-append D minus_one no_square no_cube pow pow-mul {fq2_c1} {fq6_c1} {fq6_c2} {fq12_c1} t1 t2
      t3 bits i j =
    let frobenius = fq12_map fq2_c1 fq6_c1 fq6_c2 fq12_c1 in
    let T = tower-IsField D minus_one no_square no_cube in
    ap (λ o. o >>= final_exponentiation pow frobenius) (miller_loop-append D.ring bits i j)
    ∙ product-bind D T pow pow-mul frobenius (frobenius_map-IsHom D.ring t1).mul
        (frobenius_map-IsHom D.ring t2).mul (frobenius_map-IsHom D.ring t3).mul (miller_loop bits i)
        (miller_loop bits j)

-- ===== src/Curve/Batch/Correct.antt =====
-- `batch_normalization` of `curve_impl!` against one conversion per point.
use mathlib.Core.List.{reverse, reverse-cons, append_assoc, append-nil, map-map, reverse-reverse}
use mathlib.Core.Option
use aws_dpid.Prelude.{
  ◌≡◌, ◌≢◌, ◌||◌, refl, sym, ap, ap₂, ◌∙◌, true, false, inl, inr, Bool-cases, Option, none, some,
  List, [], ◌∷◌, ◌++◌, map, if◌then◌else◌,
}
use aws_dpid.Ring.{
  RingOps, FieldOps, IsField, 𝟘, 𝟙, ◌=?◌, is_zero as is_zero?, ◌⊗◌, inverse as inverse?,
}
use aws_dpid.Ring.Poly.{is_nil}
use aws_dpid.Ring.Units.{unit-mul, inverse_unique}
use aws_dpid.Ring.Solver.{Expr, expr_ops, norm, env, solve}
use aws_dpid.Curve.Points.{into_affine_finite}
use aws_dpid.Ring.Laws.{zero-mul, mul-one}
use aws_dpid.Curve.{is_zero, Projective, is_normalized, into_affine, into_projective}
use aws_dpid.Curve.Batch.{first_pass, second_pass, to_affine, skip_one, batch_normalization}
use aws_dpid.Curve.Batch.Prefix.{
  prefixes, prefixes_normal, prefixes_other, first_pass_normal, first_pass_other, inverse_other,
  total_inverse, skip_one-prefixes, is_one_other, is_zero_other,
}

Projective-ext : {B : Type 0} {p q : Projective B} → p.x ≡ q.x → p.y ≡ q.y → p.z ≡ q.z → p ≡ q
Projective-ext e f g i = record { x = e i; y = f i; z = g i }

reverse_step : {A : Type 0} (x : A) (l r : List A) → reverse (x ∷ l) ++ r ≡ reverse l ++ x ∷ r
reverse_step x l r = ap (λ k. k ++ r) (reverse-cons x l) ∙ append_assoc (reverse l) (x ∷ []) r

module _ {B : Type 0} ⦃F : RingOps B⦄ ⦃K : FieldOps B⦄ where
  -- What the second pass makes of a point.
  abbrev inverted : Projective B → Projective B
  inverted g =
      if is_normalized g then g else elim (inverse? g.z) [ some s ↦ record g { z = s } | none ↦ g ]

  -- One point through `into_affine` and back; a normalized point stays as it is.
  unfoldable pub normalize : Projective B → Projective B
  normalize g =
      if is_normalized g then g else elim (into_affine g) [ some q ↦ into_projective q | none ↦ g ]

  second_pass_normal :
      (g : Projective B) (v : List (Projective B)) (ss : List B) (t : B)
      → is_normalized g ≡ true
      → second_pass (g ∷ v) ss t ≡ g ∷ second_pass v ss t
  unfolding second_pass
  second_pass_normal g v [] t e = rw (e, second_pass) refl
  second_pass_normal g v (s ∷ ss) t e = rw (e, second_pass) refl

  second_pass_other :
      (g : Projective B) (v : List (Projective B)) (s : B) (ss : List B) (t : B)
      → is_normalized g ≡ false
      → second_pass (g ∷ v) (s ∷ ss) t ≡ record g { z = t ⊗ s } ∷ second_pass v ss (t ⊗ g.z)
  unfolding second_pass
  second_pass_other g v s ss t e = rw (e, second_pass) refl

  inverted_normal : (g : Projective B) → is_normalized g ≡ true → inverted g ≡ g
  inverted_normal g e = rw e refl

  inverted_other :
      (g : Projective B) (s : B)
      → is_normalized g ≡ false
      → inverse? g.z ≡ some s
      → inverted g ≡ record g { z = s }
  inverted_other g s e f = rw (e, f) refl

  module _ (D : IsField F K) where
    cancel : {t τ σ : B} → t ⊗ τ ≡ 𝟙 → (τ ⊗ σ) ⊗ t ≡ σ
    unfolding is_nil norm
    cancel {t} {τ} {σ} h =
        solve D.ring (env (t ∷ τ ∷ σ ∷ [])) ((Expr.var 1 ⊗ Expr.var 2) ⊗ Expr.var 0)
          ((Expr.var 0 ⊗ Expr.var 1) ⊗ Expr.var 2) refl
        ∙ ap (λ r. r ⊗ σ) h
        ∙ D.ring.one-mul σ

    cancel_inner : {τ z σ : B} → z ⊗ σ ≡ 𝟙 → (τ ⊗ σ) ⊗ z ≡ τ
    unfolding is_nil norm
    cancel_inner {τ} {z} {σ} h =
        solve D.ring (env (z ∷ τ ∷ σ ∷ [])) ((Expr.var 1 ⊗ Expr.var 2) ⊗ Expr.var 0)
          ((Expr.var 0 ⊗ Expr.var 2) ⊗ Expr.var 1) refl
        ∙ ap (λ r. r ⊗ τ) h
        ∙ D.ring.one-mul τ

    second_pass_lem :
        (v r : List (Projective B)) (ss : List B) (t τ inv : B)
        → t ⊗ τ ≡ 𝟙
        → (first_pass v t).0 ⊗ inv ≡ 𝟙
        → second_pass (reverse v ++ r) (reverse (prefixes v t) ++ ss) inv
          ≡ reverse (map inverted v) ++ second_pass r ss τ
    unfolding first_pass prefixes
    second_pass_lem [] r ss t τ inv h k = ap (second_pass r ss) (inverse_unique D.ring k h)
    second_pass_lem (g ∷ v) r ss t τ inv h k = elim (Bool-cases (is_normalized g)) [
      | inl e ↦
          ap₂ (λ l p. second_pass l (reverse p ++ ss) inv) (reverse_step g v r)
            (prefixes_normal g v t e)
          ∙ second_pass_lem v (g ∷ r) ss t τ inv h
              (ap (λ q. q.0 ⊗ inv) (sym (first_pass_normal g v t e)) ∙ k)
          ∙ ap (◌++◌ (reverse (map inverted v))) (
              second_pass_normal g r ss τ e
              ∙ ap (λ x. x ∷ second_pass r ss τ) (sym (inverted_normal g e)))
          ∙ sym (reverse_step (inverted g) (map inverted v) (second_pass r ss τ))
      | inr e ↦
          let (σ, f, j) = inverse_other D g e in
          ap₂ (λ l p. second_pass l p inv) (reverse_step g v r)
            (ap (λ p. reverse p ++ ss) (prefixes_other g v t e)
              ∙ reverse_step t (prefixes v (t ⊗ g.z)) ss)
          ∙ second_pass_lem v (g ∷ r) (t ∷ ss) (t ⊗ g.z) (τ ⊗ σ) inv (unit-mul D.ring h j)
              (ap (λ q. q.0 ⊗ inv) (sym (first_pass_other g v t e)) ∙ k)
          ∙ ap (◌++◌ (reverse (map inverted v))) (
              second_pass_other g r t ss (τ ⊗ σ) e
              ∙ ap₂ (λ x y. x ∷ second_pass r ss y)
                  (Projective-ext refl refl (cancel h) ∙ sym (inverted_other g σ e f))
                  (cancel_inner j))
          ∙ sym (reverse_step (inverted g) (map inverted v) (second_pass r ss τ))
    ]

    second_pass-reverse :
        (v : List (Projective B)) (inv : B)
        → (first_pass v 𝟙).0 ⊗ inv ≡ 𝟙
        → second_pass (reverse v) (skip_one (reverse (first_pass v 𝟙).1) ++ 𝟙 ∷ []) inv
          ≡ reverse (map inverted v)
    unfolding second_pass
    second_pass-reverse v inv k =
        ap (λ l. second_pass l zipped inv) (sym (append-nil (reverse v)))
        ∙ elim (skip_one-prefixes v) [
          | inl e ↦
              ap (λ p. second_pass (reverse v ++ []) p inv)
                (e ∙ sym (append-nil (reverse (prefixes v 𝟙))))
              ∙ second_pass_lem v [] [] 𝟙 𝟙 inv (D.ring.one-mul 𝟙) k
          | inr (e, f) ↦
              ap (λ p. second_pass (reverse v ++ []) p inv)
                (e ∙ ap (λ p. reverse p ++ 𝟙 ∷ []) (sym f))
              ∙ second_pass_lem v [] (𝟙 ∷ []) 𝟙 𝟙 inv (D.ring.one-mul 𝟙) k
        ]
        ∙ append-nil (reverse (map inverted v))
      where
        zipped : List B
        zipped = skip_one (reverse (first_pass v 𝟙).1) ++ 𝟙 ∷ []

    unit-nonzero : {a b : B} → a ⊗ b ≡ 𝟙 → a ≢ 𝟘
    unit-nonzero {a} {b} h e = D.one-ne-zero (sym h ∙ ap (λ r. r ⊗ b) e ∙ zero-mul D.ring b)

    is_zero-unit : {a b : B} → a ⊗ b ≡ 𝟙 → is_zero? a ≡ false
    is_zero-unit {a} {b} h = elim (Bool-cases (is_zero? a)) [
      | inl e ↦ absurd (unit-nonzero h ((D.is_zero_iff a).0 e))
      | inr e ↦ e
    ]

    is_one-unit : {a b : B} → a ⊗ b ≡ 𝟙 → (a =? 𝟙) ≡ false → (b =? 𝟙) ≡ false
    is_one-unit {a} {b} h n = elim (Bool-cases (b =? 𝟙)) [
      | inl e ↦
          let one = sym (mul-one D.ring a) ∙ ap (λ r. a ⊗ r) (sym ((D.eq_iff b 𝟙).0 e)) ∙ h in
          absurd (cc (n, (D.eq_iff a 𝟙).1 one))
      | inr e ↦ e
    ]

    to_affine-inverted : (g : Projective B) → to_affine (inverted g) ≡ normalize g
    unfolding to_affine normalize is_normalized is_zero into_projective
    to_affine-inverted g = elim (Bool-cases (is_normalized g)) [
      | inl e ↦ ap to_affine (inverted_normal g e) ∙ rw e refl
      | inr e ↦
          let (s, f, k) = inverse_other D g e in
          let other =
            ap₂ ◌||◌ (is_zero-unit (D.ring.mul_comm s g.z ∙ k))
              (is_one-unit k (is_one_other g e)) in
          ap to_affine (inverted_other g s e f)
          ∙ rw (other, e, into_affine_finite D g s (is_zero_other g e) k) refl
    ]

    -- Over a field, the slice after `batch_normalization`, which never panics, holds each point converted by
    -- itself with `into_affine`; points that are normalized already stay as they are.
    pub batch_normalization_lem :
        (v : List (Projective B)) → batch_normalization v ≡ some (map normalize v)
    unfolding batch_normalization first_pass
    batch_normalization_lem v =
        let total = first_pass v 𝟙 in
        let (τ, h) = total_inverse D v 𝟙 𝟙 (D.ring.one-mul 𝟙) in
        let (inv, f, k) = D.inverse-ne_zero total.0 (unit-nonzero h) in
        ap
          (Option.map (λ i.
            map to_affine
              (reverse (second_pass (reverse v) (skip_one (reverse total.1) ++ 𝟙 ∷ []) i))))
          f
        ∙ ap {B = Option (List (Projective B))} some (
            ap (λ l. map to_affine (reverse l)) (second_pass-reverse v inv k)
            ∙ ap (map to_affine) (reverse-reverse (map inverted v))
            ∙ map-map to_affine inverted v
            ∙ map-equal v)
      where
        map-equal :
            (l : List (Projective B)) → map (λ g. to_affine (inverted g)) l ≡ map normalize l
        map-equal [] = refl
        map-equal (g ∷ l) = ap₂ ◌∷◌ (to_affine-inverted g) (map-equal l)

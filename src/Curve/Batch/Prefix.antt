-- ===== src/Curve/Batch/Prefix.antt =====
-- The running products of `batch_normalization`: what the first pass leaves for the second.
use mathlib.Core.List.{reverse, reverse-cons, reverse-append, reverse-reverse}
use aws_dpid.Prelude.{
  ◌≡◌, refl, sym, ap, ap₂, ◌∙◌, true, false, ◌⊎◌, inl, inr, Bool-cases, some, or-left, or-right,
  List, [], ◌∷◌, ◌++◌,
}
use aws_dpid.Ring.{RingOps, FieldOps, IsField, 𝟙, ◌⊗◌, ◌=?◌, is_zero as is_zero?}
use aws_dpid.Ring.Units.{unit-mul}
use aws_dpid.Curve.{Projective, is_zero, is_normalized}
use aws_dpid.Curve.Points.{ne_zero}
use aws_dpid.Curve.Batch.{first_pass, skip_one}

module _ {B : Type 0} ⦃F : RingOps B⦄ ⦃K : FieldOps B⦄ where
  -- The running product before each element that is not normalized.
  unfoldable pub prefixes : List (Projective B) → B → List B
  prefixes [] t = []
  prefixes (g ∷ v) t = elim (is_normalized g) [
    | true ↦ prefixes v t
    | false ↦ t ∷ prefixes v (t ⊗ g.z)
  ]

  pub first_pass_normal :
      (g : Projective B) (v : List (Projective B)) (t : B)
      → is_normalized g ≡ true
      → first_pass (g ∷ v) t ≡ first_pass v t
  unfolding first_pass
  first_pass_normal g v t e = rw (e, first_pass) refl

  pub first_pass_other :
      (g : Projective B) (v : List (Projective B)) (t : B)
      → is_normalized g ≡ false
      → first_pass (g ∷ v) t ≡ ((first_pass v (t ⊗ g.z)).0, (t ⊗ g.z) ∷ (first_pass v (t ⊗ g.z)).1)
  unfolding first_pass
  first_pass_other g v t e = rw (e, first_pass) refl

  pub prefixes_normal :
      (g : Projective B) (v : List (Projective B)) (t : B)
      → is_normalized g ≡ true
      → prefixes (g ∷ v) t ≡ prefixes v t
  unfolding prefixes
  prefixes_normal g v t e = rw (e, prefixes) refl

  pub prefixes_other :
      (g : Projective B) (v : List (Projective B)) (t : B)
      → is_normalized g ≡ false
      → prefixes (g ∷ v) t ≡ t ∷ prefixes v (t ⊗ g.z)
  unfolding prefixes
  prefixes_other g v t e = rw (e, prefixes) refl

  -- The products, with the start put before them, are the prefixes with the total put after them.
  shifted :
      (v : List (Projective B)) (t : B)
      → t ∷ (first_pass v t).1 ≡ prefixes v t ++ (first_pass v t).0 ∷ []
  unfolding first_pass prefixes
  shifted [] t = refl
  shifted (g ∷ v) t = elim (Bool-cases (is_normalized g)) [
    | inl e ↦
        ap (λ r. t ∷ r.1) (first_pass_normal g v t e)
        ∙ shifted v t
        ∙ sym (
            ap₂ (λ p (r : B × List B). p ++ r.0 ∷ []) (prefixes_normal g v t e)
              (first_pass_normal g v t e))
    | inr e ↦
        ap (λ r. t ∷ r.1) (first_pass_other g v t e)
        ∙ ap (◌∷◌ t) (shifted v (t ⊗ g.z))
        ∙ sym (
            ap₂ (λ p (r : B × List B). p ++ r.0 ∷ []) (prefixes_other g v t e)
              (first_pass_other g v t e))
  ]

  skip_one-cases :
      (l m : List B) (x y : B)
      → l ++ x ∷ [] ≡ y ∷ m
      → (skip_one l ++ x ∷ [] ≡ m) ⊎ ((skip_one l ++ x ∷ [] ≡ x ∷ []) × (m ≡ []))
  unfolding skip_one
  skip_one-cases [] m x y h = inr (refl, sym (ap tail h))
    where
      tail : List B → List B
      tail [] = []
      tail (a ∷ r) = r
  skip_one-cases (a ∷ l) m x y h = inl (ap tail h)
    where
      tail : List B → List B
      tail [] = []
      tail (a ∷ r) = r

  -- What the second pass zips with: the prefixes reversed, or a lone 1 where there are none.
  pub skip_one-prefixes :
      (v : List (Projective B))
      → let zipped = skip_one (reverse (first_pass v 𝟙).1) ++ 𝟙 ∷ [] in
        (zipped ≡ reverse (prefixes v 𝟙)) ⊎ ((zipped ≡ 𝟙 ∷ []) × (prefixes v 𝟙 ≡ []))
  skip_one-prefixes v = elim (skip_one-cases _ _ _ _ reversed) [
    | inl e ↦ inl e
    | inr (e, f) ↦ inr (e, sym (reverse-reverse (prefixes v 𝟙)) ∙ ap reverse f)
  ]
    where
      reversed : reverse (first_pass v 𝟙).1 ++ 𝟙 ∷ [] ≡ (first_pass v 𝟙).0 ∷ reverse (prefixes v 𝟙)
      reversed =
          sym (reverse-cons 𝟙 (first_pass v 𝟙).1)
          ∙ ap reverse (shifted v 𝟙)
          ∙ reverse-append (prefixes v 𝟙) ((first_pass v 𝟙).0 ∷ [])

  pub is_zero_other : (g : Projective B) → is_normalized g ≡ false → is_zero? g.z ≡ false
  unfolding is_normalized is_zero
  is_zero_other g e = or-left _ _ e

  pub is_one_other : (g : Projective B) → is_normalized g ≡ false → (g.z =? 𝟙) ≡ false
  unfolding is_normalized is_zero
  is_one_other g e = or-right _ _ e

  module _ (D : IsField F K) where
    pub inverse_other :
        (g : Projective B)
        → is_normalized g ≡ false
        → (s : B) × (K.inverse g.z ≡ some s) × (g.z ⊗ s ≡ 𝟙)
    inverse_other g e = D.inverse-ne_zero g.z (ne_zero D (is_zero_other g e))

    -- The total of the first pass is never zero.
    pub total_inverse :
        (v : List (Projective B)) (t τ : B) → t ⊗ τ ≡ 𝟙 → (s : B) × ((first_pass v t).0 ⊗ s ≡ 𝟙)
    unfolding first_pass
    total_inverse [] t τ h = (τ, h)
    total_inverse (g ∷ v) t τ h = elim (Bool-cases (is_normalized g)) [
      | inl e ↦
          let (s, k) = total_inverse v t τ h in
          (s, ap (λ r. r.0 ⊗ s) (first_pass_normal g v t e) ∙ k)
      | inr e ↦
          let (σ, _, k) = inverse_other g e in
          let (s, l) = total_inverse v (t ⊗ g.z) (τ ⊗ σ) (unit-mul D.ring h k) in
          (s, ap (λ r. r.0 ⊗ s) (first_pass_other g v t e) ∙ l)
    ]

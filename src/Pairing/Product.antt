-- ===== src/Pairing/Product.antt =====
-- The Miller loop (pairing/src/bls12_381/mod.rs) over several pairs at once: the values of the
-- pairs multiply.
use mathlib.Core.Option
use aws_dpid.Prelude.{
  ◌≡◌, refl, sym, ap, ap₂, ◌∙◌, Bool, true, false, if◌then◌else◌, not, ◌&&◌, Option, none, some,
  ◌>>=◌, List, [], ◌∷◌, ◌++◌,
}
use aws_dpid.Ring.{RingOps, IsCommRing, 𝟙, ◌⊗◌, square as sqr}
use aws_dpid.Tower.Fq2.{Fq2, fq2_ops, fq2_nonresidue}
use aws_dpid.Tower.Fq2.Ring as Fq2Ring
use aws_dpid.Tower.Fq2.Extension as Fq2Extension
use aws_dpid.Tower.Fq6.{fq6_ops, fq6_nonresidue}
use aws_dpid.Tower.Fq12.{fq12_ops}
use aws_dpid.Tower.Fq12.Extension.{mul_by_014_lem, sparse}
use aws_dpid.Curve.{Affine}
use aws_dpid.Pairing.Target.{gt_ring, gt_conjugate-mul, square-mul}
use aws_dpid.Pairing.{
  Line, G2Prepared, Pair, Gt, ell, ell_all, bits_loop, finite_pairs, finish, miller_loop,
}

-- Two results side by side: the pairs in sequence, the values multiplied.
unfoldable pub both :
    {A : Type 0} ⦃F : RingOps A⦄
    → Option (List (Pair A) × Gt A)
    → Option (List (Pair A) × Gt A)
    → Option (List (Pair A) × Gt A)
both (some s) (some t) = some (s.0 ++ t.0, s.1 ⊗ t.1)
both (some s) none = none
both none t = none

unfoldable pub product :
    {A : Type 0} ⦃F : RingOps A⦄ → Option (Gt A) → Option (Gt A) → Option (Gt A)
product (some f) (some g) = some (f ⊗ g)
product (some f) none = none
product none g = none

module _ {A : Type 0} ⦃F : RingOps A⦄ (R : IsCommRing F) where
  -- The element of the target field that `ell` multiplies by.
  line_value : Line (Fq2 A) → Affine A → Gt A
  line_value c p =
      sparse c.constant (record { c0 = c.x_coeff.c0 ⊗ p.x; c1 = c.x_coeff.c1 ⊗ p.x })
        (record { c0 = c.y_coeff.c0 ⊗ p.y; c1 = c.y_coeff.c1 ⊗ p.y })

  ell_lem : (f : Gt A) (c : Line (Fq2 A)) (p : Affine A) → ell f c p ≡ f ⊗ line_value c p
  unfolding ell line_value
  ell_lem f c p =
      mul_by_014_lem (Fq2Ring.ring R) Fq2Extension.nonresidue (Fq2Extension.mul_by_nonresidue_lem R)
        f c.constant _ _

  ell-mul_left : (f g : Gt A) (c : Line (Fq2 A)) (p : Affine A) → ell (f ⊗ g) c p ≡ ell f c p ⊗ g
  ell-mul_left f g c p =
      ell_lem (f ⊗ g) c p
      ∙ (gt_ring R).mul_assoc f g (line_value c p)
      ∙ ap (λ x. f ⊗ x) ((gt_ring R).mul_comm g (line_value c p))
      ∙ sym ((gt_ring R).mul_assoc f (line_value c p) g)
      ∙ ap (λ x. x ⊗ g) (sym (ell_lem f c p))

  ell-mul_right : (f g : Gt A) (c : Line (Fq2 A)) (p : Affine A) → ell (f ⊗ g) c p ≡ f ⊗ ell g c p
  ell-mul_right f g c p =
      ell_lem (f ⊗ g) c p
      ∙ (gt_ring R).mul_assoc f g (line_value c p)
      ∙ ap (λ x. f ⊗ x) (sym (ell_lem g c p))

  -- Putting a pair in front commutes with `both`.
  map-both :
      (x : Pair A) (s t : Option (List (Pair A) × Gt A))
      → Option.map (λ r. (x ∷ r.0, r.1)) (both s t) ≡ both (Option.map (λ r. (x ∷ r.0, r.1)) s) t
  unfolding both
  map-both x (some s) (some t) = refl
  map-both x (some s) none = refl
  map-both x none t = refl

  map-both_nil :
      (f : Gt A) (x : Pair A) (t : Option (List (Pair A) × Gt A))
      → Option.map (λ r. (x ∷ r.0, r.1)) (both (some ([], f)) t)
        ≡ both (some ([], f)) (Option.map (λ r. (x ∷ r.0, r.1)) t)
  unfolding both
  map-both_nil f x (some t) = refl
  map-both_nil f x none = refl

  ell_all-nil :
      (qs : List (Pair A)) (f g : Gt A) → ell_all qs (f ⊗ g) ≡ both (some ([], f)) (ell_all qs g)
  unfolding ell_all both
  ell_all-nil [] f g = refl
  ell_all-nil ((q, []) ∷ qs) f g = refl
  ell_all-nil ((q, c ∷ cs) ∷ qs) f g =
      ap (λ x. Option.map (λ r. ((q, cs) ∷ r.0, r.1)) (ell_all qs x)) (ell-mul_right f g c q)
      ∙ ap (Option.map (λ r. ((q, cs) ∷ r.0, r.1))) (ell_all-nil qs f (ell g c q))
      ∙ map-both_nil f (q, cs) (ell_all qs (ell g c q))

  ell_all-append :
      (ps qs : List (Pair A)) (f g : Gt A)
      → ell_all (ps ++ qs) (f ⊗ g) ≡ both (ell_all ps f) (ell_all qs g)
  unfolding ell_all both
  ell_all-append [] qs f g = ell_all-nil qs f g
  ell_all-append ((p, []) ∷ ps) qs f g = refl
  ell_all-append ((p, c ∷ cs) ∷ ps) qs f g =
      ap (λ x. Option.map (λ r. ((p, cs) ∷ r.0, r.1)) (ell_all (ps ++ qs) x)) (ell-mul_left f g c p)
      ∙ ap (Option.map (λ r. ((p, cs) ∷ r.0, r.1))) (ell_all-append ps qs (ell f c p) g)
      ∙ map-both (p, cs) (ell_all ps (ell f c p)) (ell_all qs g)

  both-none : (s : Option (List (Pair A) × Gt A)) → both s none ≡ none
  unfolding both
  both-none (some s) = refl
  both-none none = refl

  -- A step that works side by side works side by side after other steps.
  bind-both :
      (h : List (Pair A) × Gt A → Option (List (Pair A) × Gt A))
      → ((s t : List (Pair A) × Gt A) → h (s.0 ++ t.0, s.1 ⊗ t.1) ≡ both (h s) (h t))
      → (s t : Option (List (Pair A) × Gt A)) → (both s t >>= h) ≡ both (s >>= h) (t >>= h)
  unfolding both
  bind-both h e (some s) (some t) = e s t
  bind-both h e (some s) none = sym (both-none (h s))
  bind-both h e none t = refl

  ell_all_step : List (Pair A) × Gt A → Option (List (Pair A) × Gt A)
  ell_all_step s = ell_all s.0 s.1

  extra_step : Bool → List (Pair A) × Gt A → Option (List (Pair A) × Gt A)
  extra_step i s = if i then ell_all s.0 s.1 else some s

  extra_step-append :
      (i : Bool) (s t : List (Pair A) × Gt A)
      → extra_step i (s.0 ++ t.0, s.1 ⊗ t.1) ≡ both (extra_step i s) (extra_step i t)
  unfolding extra_step both
  extra_step-append true s t = ell_all-append s.0 t.0 s.1 t.1
  extra_step-append false s t = refl

  bits_loop-append :
      (bits : List Bool) (found : Bool) (s t : List (Pair A) × Gt A)
      → bits_loop bits found (s.0 ++ t.0, s.1 ⊗ t.1)
        ≡ both (bits_loop bits found s) (bits_loop bits found t)
  unfolding bits_loop both ell_all_step extra_step
  bits_loop-append [] found s t = refl
  bits_loop-append (i ∷ bits) false s t = bits_loop-append bits i s t
  bits_loop-append (i ∷ bits) true s t =
      ap (λ o. o >>= rest) (ell_all-append s.0 t.0 s.1 t.1)
      ∙ bind-both rest
          (λ s1 t1.
            ap (λ o. o >>= again) (extra_step-append i s1 t1)
            ∙ bind-both again
                (λ s2 t2.
                  ap (λ f. bits_loop bits true (s2.0 ++ t2.0, f)) ((square-mul R) s2.1 t2.1)
                  ∙ bits_loop-append bits true (s2.0, sqr s2.1) (t2.0, sqr t2.1))
                (extra_step i s1) (extra_step i t1))
          (ell_all s.0 s.1) (ell_all t.0 t.1)
    where
      again : List (Pair A) × Gt A → Option (List (Pair A) × Gt A)
      again s2 = bits_loop bits true (s2.0, sqr s2.1)

      rest : List (Pair A) × Gt A → Option (List (Pair A) × Gt A)
      rest s1 = extra_step i s1 >>= again

  finite_pairs-append :
      (i j : List (Affine A × G2Prepared (Fq2 A)))
      → finite_pairs (i ++ j) ≡ finite_pairs i ++ finite_pairs j
  unfolding finite_pairs
  finite_pairs-append [] j = refl
  finite_pairs-append ((p, q) ∷ i) j =
      ap (λ l. if kept then (p, q.coeffs) ∷ l else l) (finite_pairs-append i j) ∙ pull kept
    where
      kept : Bool
      kept = not p.infinity && not q.infinity

      pull :
          (c : Bool)
          → (if c
              then (p, q.coeffs) ∷ finite_pairs i ++ finite_pairs j
              else finite_pairs i ++ finite_pairs j)
            ≡ (if c then (p, q.coeffs) ∷ finite_pairs i else finite_pairs i) ++ finite_pairs j
      pull true = refl
      pull false = refl

  finish-both :
      (s t : Option (List (Pair A) × Gt A))
      → Option.map finish (both s t) ≡ product (Option.map finish s) (Option.map finish t)
  unfolding both product finish
  finish-both (some s) (some t) = ap {B = Option (Gt A)} some ((gt_conjugate-mul R) s.1 t.1)
  finish-both (some s) none = refl
  finish-both none t = refl

  -- The Miller loop over two lists of pairs in sequence is the product of the Miller loops over
  -- each, for any bits; it panics exactly where one of the two does.
  pub miller_loop-append :
      (bits : List Bool) (i j : List (Affine A × G2Prepared (Fq2 A)))
      → miller_loop bits (i ++ j) ≡ product (miller_loop bits i) (miller_loop bits j)
  unfolding miller_loop ell_all_step
  miller_loop-append bits i j =
      ap₂ (λ l f. Option.map finish (bits_loop bits false (l, f) >>= ell_all_step))
        (finite_pairs-append i j) (sym ((gt_ring R).one-mul 𝟙))
      ∙ ap (λ o. Option.map finish (o >>= ell_all_step))
          (bits_loop-append bits false (finite_pairs i, 𝟙) (finite_pairs j, 𝟙))
      ∙ ap (Option.map finish) (
          bind-both ell_all_step (λ s t. ell_all-append s.0 t.0 s.1 t.1)
            (bits_loop bits false (finite_pairs i, 𝟙)) (bits_loop bits false (finite_pairs j, 𝟙)))
      ∙ finish-both (bits_loop bits false (finite_pairs i, 𝟙) >>= ell_all_step)
          (bits_loop bits false (finite_pairs j, 𝟙) >>= ell_all_step)

-- ===== src/Tower/Frobenius/Levels.antt =====
-- One level of `frobenius_map` (pairing/src/bls12_381/fq2.rs, fq6.rs, fq12.rs) over the map below.
use aws_dpid.Prelude.{ℕ, ◌≡◌, refl, sym, ap, ap₂, ◌∙◌, [], ◌∷◌}
use aws_dpid.Ring.{RingOps, NonresidueOps, IsCommRing, 𝟘, 𝟙, ◌⊕◌, ◌⊖◌, ◌⊗◌, twist}
use aws_dpid.Ring.Hom.{IsHom}
use aws_dpid.Ring.Laws.{zero-mul, mul-one}
use aws_dpid.Ring.Poly.{is_nil}
use aws_dpid.Ring.Solver.{Expr, expr_ops, norm, env, solve}
use aws_dpid.Tower.Fq2.{Fq2, fq2_ops}
use aws_dpid.Tower.Fq2.Ring.{Fq2-ext}
use aws_dpid.Tower.Fq2.Extension.{mul_assign-complex}
use aws_dpid.Tower.Fq2 as Fq2Mod
use aws_dpid.Tower.Fq6.{Fq6, fq6_ops}
use aws_dpid.Tower.Fq6.Ring.{Fq6-ext}
use aws_dpid.Tower.Fq6.Extension.{mul_assign-cubic}
use aws_dpid.Tower.Fq6 as Fq6Mod
use aws_dpid.Tower.Fq12.{Fq12, fq12_ops}
use aws_dpid.Tower.Fq12.Ring.{Fq12-ext}
use aws_dpid.Tower.Fq12.Extension.{mul_assign-quadratic}
use aws_dpid.Tower.Fq12 as Fq12Mod

-- The variables, by their number.
abbrev x_ : ℕ → Expr
x_ i = Expr.var i

module _ {A : Type 0} ⦃F : RingOps A⦄ (R : IsCommRing F) where
  add-factor : (a b c : A) → (a ⊕ b) ⊗ c ≡ a ⊗ c ⊕ b ⊗ c
  unfolding is_nil norm
  add-factor a b c =
      solve R (env (a ∷ b ∷ c ∷ [])) ((x_ 0 ⊕ x_ 1) ⊗ x_ 2) (x_ 0 ⊗ x_ 2 ⊕ x_ 1 ⊗ x_ 2) refl

  -- `Fq2`: the root of -1 is multiplied by a number of square one.
  pub quadratic-IsHom :
      (k : A)
      → k ⊗ k ≡ 𝟙
      → IsHom (fq2_ops {A = A}) fq2_ops (λ a. record { c0 = a.c0; c1 = a.c1 ⊗ k })
  unfolding Fq2Mod.zero Fq2Mod.one Fq2Mod.add_assign is_nil norm
  quadratic-IsHom k h = record {
    zero = Fq2-ext refl (zero-mul R k);
    one = Fq2-ext refl (zero-mul R k);
    add = λ a b. Fq2-ext refl (add-factor a.c1 b.c1 k);
    mul = λ a b.
        let p = mul_assign-complex R a b in
        let a' : Fq2 A = record { c0 = a.c0; c1 = a.c1 ⊗ k } in
        let b' : Fq2 A = record { c0 = b.c0; c1 = b.c1 ⊗ k } in
        let q = mul_assign-complex R a' b' in
        Fq2-ext
          (p.0
            ∙ ap (λ t. a.c0 ⊗ b.c0 ⊖ t)
                (sym (mul-one R (a.c1 ⊗ b.c1))
                  ∙ ap (λ t. (a.c1 ⊗ b.c1) ⊗ t) (sym h)
                  ∙ solve R (env (a.c1 ∷ b.c1 ∷ k ∷ [])) ((x_ 0 ⊗ x_ 1) ⊗ (x_ 2 ⊗ x_ 2))
                      ((x_ 0 ⊗ x_ 2) ⊗ (x_ 1 ⊗ x_ 2)) refl)
            ∙ sym q.0)
          (ap (λ t. t ⊗ k) p.1
            ∙ solve R (env (a.c0 ∷ a.c1 ∷ b.c0 ∷ b.c1 ∷ k ∷ []))
                ((x_ 0 ⊗ x_ 3 ⊕ x_ 1 ⊗ x_ 2) ⊗ x_ 4) (x_ 0 ⊗ (x_ 3 ⊗ x_ 4) ⊕ (x_ 1 ⊗ x_ 4) ⊗ x_ 2)
                refl
            ∙ sym q.1);
  }

-- A sum of two products, under a map.
hom_sum :
    {B C : Type 0} {F : RingOps B} {G : RingOps C} {f : B → C}
    → IsHom F G f
    → (a b c d : B)
    → f (F.add (F.mul a b) (F.mul c d)) ≡ G.add (G.mul (f a) (f b)) (G.mul (f c) (f d))
hom_sum {G = G} H a b c d = H.add _ _ ∙ ap₂ G.add (H.mul a b) (H.mul c d)

module _ {B : Type 0} ⦃F : RingOps B⦄ ⦃N : NonresidueOps B⦄ (R : IsCommRing F) (ξ : B)
    (twists : (b : B) → N.mul_by_nonresidue b ≡ ξ ⊗ b) {f : B → B} (H : IsHom F F f) (c : B)
    (cube : ξ ⊗ (c ⊗ c ⊗ c) ≡ f ξ) where
  hom_twist : (b : B) → f (twist b) ≡ ξ ⊗ (c ⊗ c ⊗ c) ⊗ f b
  hom_twist b = ap f (twists b) ∙ H.mul ξ b ∙ ap (λ t. t ⊗ f b) (sym cube)

  abbrev mapped : Fq6 B → Fq6 B
  mapped a = record { c0 = f a.c0; c1 = f a.c1 ⊗ c; c2 = f a.c2 ⊗ (c ⊗ c) }

  low :
      (a0 a1 a2 b0 b1 b2 : B)
      → f (a0 ⊗ b0 ⊕ twist (a1 ⊗ b2 ⊕ a2 ⊗ b1))
        ≡ f a0 ⊗ f b0 ⊕ twist ((f a1 ⊗ c) ⊗ (f b2 ⊗ (c ⊗ c)) ⊕ (f a2 ⊗ (c ⊗ c)) ⊗ (f b1 ⊗ c))
  unfolding is_nil norm
  low a0 a1 a2 b0 b1 b2 =
      H.add _ _
      ∙ ap₂ ◌⊕◌ (H.mul a0 b0) (
          hom_twist _
          ∙ ap (λ t. ξ ⊗ (c ⊗ c ⊗ c) ⊗ t) (hom_sum H a1 b2 a2 b1)
          ∙ solve R (env (f a1 ∷ f a2 ∷ f b1 ∷ f b2 ∷ ξ ∷ c ∷ []))
              (x_ 4 ⊗ (x_ 5 ⊗ x_ 5 ⊗ x_ 5) ⊗ (x_ 0 ⊗ x_ 3 ⊕ x_ 1 ⊗ x_ 2))
              (x_ 4
                ⊗ ((x_ 0 ⊗ x_ 5) ⊗ (x_ 3 ⊗ (x_ 5 ⊗ x_ 5)) ⊕ (x_ 1 ⊗ (x_ 5 ⊗ x_ 5)) ⊗ (x_ 2 ⊗ x_ 5)))
              refl
          ∙ sym (twists _))

  middle :
      (a0 a1 a2 b0 b1 b2 : B)
      → f (a0 ⊗ b1 ⊕ a1 ⊗ b0 ⊕ twist (a2 ⊗ b2)) ⊗ c
        ≡ f a0 ⊗ (f b1 ⊗ c) ⊕ (f a1 ⊗ c) ⊗ f b0 ⊕ twist ((f a2 ⊗ (c ⊗ c)) ⊗ (f b2 ⊗ (c ⊗ c)))
  unfolding is_nil norm
  middle a0 a1 a2 b0 b1 b2 =
      ap (λ t. t ⊗ c)
        (H.add _ _
          ∙ ap₂ ◌⊕◌ (hom_sum H a0 b1 a1 b0)
              (hom_twist _ ∙ ap (λ t. ξ ⊗ (c ⊗ c ⊗ c) ⊗ t) (H.mul a2 b2)))
      ∙ solve R (env (f a0 ∷ f a1 ∷ f a2 ∷ f b0 ∷ f b1 ∷ f b2 ∷ ξ ∷ c ∷ []))
          ((x_ 0 ⊗ x_ 4 ⊕ x_ 1 ⊗ x_ 3 ⊕ x_ 6 ⊗ (x_ 7 ⊗ x_ 7 ⊗ x_ 7) ⊗ (x_ 2 ⊗ x_ 5)) ⊗ x_ 7)
          (x_ 0 ⊗ (x_ 4 ⊗ x_ 7)
            ⊕ (x_ 1 ⊗ x_ 7) ⊗ x_ 3
            ⊕ x_ 6 ⊗ ((x_ 2 ⊗ (x_ 7 ⊗ x_ 7)) ⊗ (x_ 5 ⊗ (x_ 7 ⊗ x_ 7))))
          refl
      ∙ ap (λ t. f a0 ⊗ (f b1 ⊗ c) ⊕ (f a1 ⊗ c) ⊗ f b0 ⊕ t) (sym (twists _))

  high :
      (a0 a1 a2 b0 b1 b2 : B)
      → f (a0 ⊗ b2 ⊕ a1 ⊗ b1 ⊕ a2 ⊗ b0) ⊗ (c ⊗ c)
        ≡ f a0 ⊗ (f b2 ⊗ (c ⊗ c)) ⊕ (f a1 ⊗ c) ⊗ (f b1 ⊗ c) ⊕ (f a2 ⊗ (c ⊗ c)) ⊗ f b0
  unfolding is_nil norm
  high a0 a1 a2 b0 b1 b2 =
      ap (λ t. t ⊗ (c ⊗ c)) (H.add _ _ ∙ ap₂ ◌⊕◌ (hom_sum H a0 b2 a1 b1) (H.mul a2 b0))
      ∙ solve R (env (f a0 ∷ f a1 ∷ f a2 ∷ f b0 ∷ f b1 ∷ f b2 ∷ c ∷ []))
          ((x_ 0 ⊗ x_ 5 ⊕ x_ 1 ⊗ x_ 4 ⊕ x_ 2 ⊗ x_ 3) ⊗ (x_ 6 ⊗ x_ 6))
          (x_ 0 ⊗ (x_ 5 ⊗ (x_ 6 ⊗ x_ 6))
            ⊕ (x_ 1 ⊗ x_ 6) ⊗ (x_ 4 ⊗ x_ 6)
            ⊕ (x_ 2 ⊗ (x_ 6 ⊗ x_ 6)) ⊗ x_ 3)
          refl

  vanishes : (k : B) → f 𝟘 ⊗ k ≡ 𝟘
  vanishes k = ap (λ t. t ⊗ k) H.zero ∙ zero-mul R k

  spread : (a b k : B) → f (a ⊕ b) ⊗ k ≡ f a ⊗ k ⊕ f b ⊗ k
  spread a b k = ap (λ t. t ⊗ k) (H.add a b) ∙ add-factor R (f a) (f b) k

  -- `Fq6`: the root of `ξ` is multiplied by a number whose cube makes up for what becomes of `ξ`.
  pub cubic-IsHom : IsHom (fq6_ops {B = B}) fq6_ops mapped
  unfolding Fq6Mod.zero Fq6Mod.one Fq6Mod.add_assign
  cubic-IsHom = record {
    zero = Fq6-ext H.zero (vanishes c) (vanishes (c ⊗ c));
    one = Fq6-ext H.one (vanishes c) (vanishes (c ⊗ c));
    add = λ a b. Fq6-ext (H.add a.c0 b.c0) (spread a.c1 b.c1 c) (spread a.c2 b.c2 (c ⊗ c));
    mul = λ a b.
        ap mapped (mul_assign-cubic R ξ twists a b)
        ∙ Fq6-ext (low a.c0 a.c1 a.c2 b.c0 b.c1 b.c2) (middle a.c0 a.c1 a.c2 b.c0 b.c1 b.c2)
            (high a.c0 a.c1 a.c2 b.c0 b.c1 b.c2)
        ∙ sym (mul_assign-cubic R ξ twists (mapped a) (mapped b));
  }

module _ {C : Type 0} ⦃F : RingOps C⦄ ⦃N : NonresidueOps C⦄ (R : IsCommRing F) (β : C)
    (twists : (c : C) → N.mul_by_nonresidue c ≡ β ⊗ c) {f : C → C} (H : IsHom F F f) (k : C)
    (root : β ⊗ (k ⊗ k) ≡ f β) where
  abbrev scaled : Fq12 C → Fq12 C
  scaled a = record { c0 = f a.c0; c1 = f a.c1 ⊗ k }

  even :
      (a0 a1 b0 b1 : C)
      → f (a0 ⊗ b0 ⊕ twist (a1 ⊗ b1)) ≡ f a0 ⊗ f b0 ⊕ twist ((f a1 ⊗ k) ⊗ (f b1 ⊗ k))
  unfolding is_nil norm
  even a0 a1 b0 b1 =
      H.add _ _
      ∙ ap₂ ◌⊕◌ (H.mul a0 b0) (
          ap f (twists _)
          ∙ H.mul β _
          ∙ ap₂ ◌⊗◌ (sym root) (H.mul a1 b1)
          ∙ solve R (env (f a1 ∷ f b1 ∷ β ∷ k ∷ [])) (x_ 2 ⊗ (x_ 3 ⊗ x_ 3) ⊗ (x_ 0 ⊗ x_ 1))
              (x_ 2 ⊗ ((x_ 0 ⊗ x_ 3) ⊗ (x_ 1 ⊗ x_ 3))) refl
          ∙ sym (twists _))

  odd : (a0 a1 b0 b1 : C) → f (a0 ⊗ b1 ⊕ a1 ⊗ b0) ⊗ k ≡ f a0 ⊗ (f b1 ⊗ k) ⊕ (f a1 ⊗ k) ⊗ f b0
  unfolding is_nil norm
  odd a0 a1 b0 b1 =
      ap (λ t. t ⊗ k) (hom_sum H a0 b1 a1 b0)
      ∙ solve R (env (f a0 ∷ f a1 ∷ f b0 ∷ f b1 ∷ k ∷ [])) ((x_ 0 ⊗ x_ 3 ⊕ x_ 1 ⊗ x_ 2) ⊗ x_ 4)
          (x_ 0 ⊗ (x_ 3 ⊗ x_ 4) ⊕ (x_ 1 ⊗ x_ 4) ⊗ x_ 2) refl

  -- `Fq12`, likewise.
  pub twelfth-IsHom : IsHom (fq12_ops {C = C}) fq12_ops scaled
  unfolding Fq12Mod.zero Fq12Mod.one Fq12Mod.add_assign
  twelfth-IsHom = record {
    zero = Fq12-ext H.zero (ap (λ t. t ⊗ k) H.zero ∙ zero-mul R k);
    one = Fq12-ext H.one (ap (λ t. t ⊗ k) H.zero ∙ zero-mul R k);
    add = λ a b.
        Fq12-ext (H.add a.c0 b.c0)
          (ap (λ t. t ⊗ k) (H.add a.c1 b.c1) ∙ add-factor R (f a.c1) (f b.c1) k);
    mul = λ a b.
        ap scaled (mul_assign-quadratic R β twists a b)
        ∙ Fq12-ext (even a.c0 a.c1 b.c0 b.c1) (odd a.c0 a.c1 b.c0 b.c1)
        ∙ sym (mul_assign-quadratic R β twists (scaled a) (scaled b));
  }

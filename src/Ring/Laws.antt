-- ===== src/Ring/Laws.antt =====
-- Consequences of the ring laws that the solver's soundness rests on.
use aws_dpid.Prelude.{◌≡◌, sym, ap, ◌∙◌}
use aws_dpid.Ring.{RingOps, IsCommRing, 𝟘, 𝟙, ◌⊕◌, ◌⊗◌, negate}

module _ {A : Type 0} ⦃F : RingOps A⦄ (R : IsCommRing F) where
  pub add-zero : (a : A) → a ⊕ 𝟘 ≡ a
  add-zero a = R.add_comm a 𝟘 ∙ R.zero-add a

  pub negate-add : (a : A) → negate a ⊕ a ≡ 𝟘
  negate-add a = R.add_comm (negate a) a ∙ R.add-negate a

  pub add_left_comm : (a b c : A) → a ⊕ (b ⊕ c) ≡ b ⊕ (a ⊕ c)
  add_left_comm a b c =
      sym (R.add_assoc a b c) ∙ ap (λ t. t ⊕ c) (R.add_comm a b) ∙ R.add_assoc b a c

  pub add_interchange : (a b c d : A) → (a ⊕ b) ⊕ (c ⊕ d) ≡ (a ⊕ c) ⊕ (b ⊕ d)
  add_interchange a b c d =
      R.add_assoc a b (c ⊕ d)
      ∙ ap (λ t. a ⊕ t) (add_left_comm b c d)
      ∙ sym (R.add_assoc a c (b ⊕ d))

  pub mul_left_comm : (a b c : A) → a ⊗ (b ⊗ c) ≡ b ⊗ (a ⊗ c)
  mul_left_comm a b c =
      sym (R.mul_assoc a b c) ∙ ap (λ t. t ⊗ c) (R.mul_comm a b) ∙ R.mul_assoc b a c

  pub mul-one : (a : A) → a ⊗ 𝟙 ≡ a
  mul-one a = R.mul_comm a 𝟙 ∙ R.one-mul a

  pub add-mul : (a b c : A) → (a ⊕ b) ⊗ c ≡ a ⊗ c ⊕ b ⊗ c
  add-mul a b c =
      R.mul_comm (a ⊕ b) c
      ∙ R.mul-add c a b
      ∙ ap (λ t. t ⊕ c ⊗ b) (R.mul_comm c a)
      ∙ ap (λ t. a ⊗ c ⊕ t) (R.mul_comm c b)

  -- Cancellation: what is added to `a` to give `a` is zero.
  pub add_cancel : (a b c : A) → a ⊕ b ≡ a ⊕ c → b ≡ c
  add_cancel a b c h = sym (back b) ∙ ap (λ t. negate a ⊕ t) h ∙ back c
    where
      back : (x : A) → negate a ⊕ (a ⊕ x) ≡ x
      back x = sym (R.add_assoc (negate a) a x) ∙ ap (λ t. t ⊕ x) (negate-add a) ∙ R.zero-add x

  pub mul-zero : (a : A) → a ⊗ 𝟘 ≡ 𝟘
  mul-zero a =
      add_cancel (a ⊗ 𝟘) (a ⊗ 𝟘) 𝟘
        (sym (R.mul-add a 𝟘 𝟘) ∙ ap (λ t. a ⊗ t) (R.zero-add 𝟘) ∙ sym (add-zero (a ⊗ 𝟘)))

  pub zero-mul : (a : A) → 𝟘 ⊗ a ≡ 𝟘
  zero-mul a = R.mul_comm 𝟘 a ∙ mul-zero a

  -- A negative is determined by its sum.
  pub eq-negate : (a b : A) → a ⊕ b ≡ 𝟘 → b ≡ negate a
  eq-negate a b h = add_cancel a b (negate a) (h ∙ sym (R.add-negate a))

  pub negate_add : (a b : A) → negate (a ⊕ b) ≡ negate a ⊕ negate b
  negate_add a b = sym (
      eq-negate (a ⊕ b) (negate a ⊕ negate b) (
        add_interchange a b (negate a) (negate b)
        ∙ ap (λ t. t ⊕ (b ⊕ negate b)) (R.add-negate a)
        ∙ R.zero-add (b ⊕ negate b)
        ∙ R.add-negate b))

  pub negate-negate : (a : A) → negate (negate a) ≡ a
  negate-negate a = sym (eq-negate (negate a) a (negate-add a))

  pub negate-zero : ◌≡◌ {A = A} (negate 𝟘) 𝟘
  negate-zero = sym (eq-negate 𝟘 𝟘 (R.zero-add 𝟘))

  pub mul-negate : (a b : A) → a ⊗ negate b ≡ negate (a ⊗ b)
  mul-negate a b =
      eq-negate (a ⊗ b) (a ⊗ negate b)
        (sym (R.mul-add a b (negate b)) ∙ ap (λ t. a ⊗ t) (R.add-negate b) ∙ mul-zero a)

  pub negate-mul : (a b : A) → negate a ⊗ b ≡ negate (a ⊗ b)
  negate-mul a b = R.mul_comm (negate a) b ∙ mul-negate b a ∙ ap (λ t. negate t) (R.mul_comm b a)

  pub eq_of_add-negate : (a b : A) → a ⊕ negate b ≡ 𝟘 → a ≡ b
  eq_of_add-negate a b h = eq-negate (negate b) a (R.add_comm (negate b) a ∙ h) ∙ negate-negate b

  pub eq→sub-zero : {a b : A} → a ≡ b → F.sub a b ≡ 𝟘
  eq→sub-zero {a} {b} e = R.sub-eq a b ∙ ap (λ t. t ⊕ negate b) e ∙ R.add-negate b

  pub sub-zero→eq : {a b : A} → F.sub a b ≡ 𝟘 → a ≡ b
  sub-zero→eq {a} {b} h = eq_of_add-negate a b (sym (R.sub-eq a b) ∙ h)

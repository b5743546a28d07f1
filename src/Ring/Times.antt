-- ===== src/Ring/Times.antt =====
-- Integer multiples: a coefficient is a pair of numbers and stands for their difference.
use Prim.Native.Nat.add
use Prim.Native.Nat.mul
use aws_dpid.Prelude.{ℕ, zero, suc, ◌+◌, ◌*◌, ◌≡◌, sym, ap, ap₂, ◌∙◌, arith}
use aws_dpid.Ring.{RingOps, IsCommRing, 𝟘, 𝟙, ◌⊕◌, ◌⊗◌, negate}
use aws_dpid.Ring.Laws.{
  add-zero, add_interchange, add-mul, zero-mul, negate_add, negate-zero, mul-negate, negate-mul,
  negate-negate,
}

module _ {A : Type 0} ⦃F : RingOps A⦄ where
  pub times : ℕ → A → A
  times zero a = 𝟘
  times (suc n) a = a ⊕ times n a

  -- `p - n`, in the ring.
  abbrev pub coef : ℕ → ℕ → A
  coef p n = times p 𝟙 ⊕ negate (times n 𝟙)

  module _ (R : IsCommRing F) where
    pub times-add : (m n : ℕ) (a : A) → times (m + n) a ≡ times m a ⊕ times n a
    unfolding times
    times-add zero n a = ap (λ k. times k a) (add.zero n) ∙ sym (R.zero-add (times n a))
    times-add (suc m) n a =
        ap (λ k. times k a) (add.suc m n)
        ∙ ap (λ t. a ⊕ t) (times-add m n a)
        ∙ sym (R.add_assoc a (times m a) (times n a))

    pub times-mul : (m n : ℕ) → ◌≡◌ {A = A} (times (m * n) 𝟙) (times m 𝟙 ⊗ times n 𝟙)
    unfolding times
    times-mul zero n = ap (λ k. times k 𝟙) (mul.zero n) ∙ sym (zero-mul R (times n 𝟙))
    times-mul (suc m) n =
        ap (λ k. times k 𝟙) (step m n)
        ∙ times-add n (m * n) 𝟙
        ∙ ap₂ ◌⊕◌ (sym (R.one-mul (times n 𝟙))) (times-mul m n)
        ∙ sym (add-mul R 𝟙 (times m 𝟙) (times n 𝟙))
      where
        step : (m n : ℕ) → suc m * n ≡ n + m * n
        step m n = omega arith

    pub coef-add : (p n q m : ℕ) → ◌≡◌ {A = A} (coef (p + q) (n + m)) (coef p n ⊕ coef q m)
    coef-add p n q m =
        ap₂ (λ s t. s ⊕ negate t) (times-add p q 𝟙) (times-add n m 𝟙)
        ∙ ap (λ t. (times p 𝟙 ⊕ times q 𝟙) ⊕ t) (negate_add R (times n 𝟙) (times m 𝟙))
        ∙ add_interchange R (times p 𝟙) (times q 𝟙) (negate (times n 𝟙)) (negate (times m 𝟙))

    pub coef-negate : (p n : ℕ) → ◌≡◌ {A = A} (coef n p) (negate (coef p n))
    coef-negate p n =
        R.add_comm (times n 𝟙) (negate (times p 𝟙))
        ∙ ap (λ t. negate (times p 𝟙) ⊕ t) (sym (negate-negate R (times n 𝟙)))
        ∙ sym (negate_add R (times p 𝟙) (negate (times n 𝟙)))

    pub coef-mul :
        (p n q m : ℕ) → ◌≡◌ {A = A} (coef (p * q + n * m) (p * m + n * q)) (coef p n ⊗ coef q m)
    coef-mul p n q m =
        coef-add (p * q) (p * m) (n * m) (n * q)
        ∙ ap₂ ◌⊕◌ (row p q m) (
            coef-negate (n * q) (n * m)
            ∙ ap (λ t. negate t) (row n q m)
            ∙ sym (negate-mul R (times n 𝟙) (coef q m)))
        ∙ sym (add-mul R (times p 𝟙) (negate (times n 𝟙)) (coef q m))
      where
        row : (p q m : ℕ) → ◌≡◌ {A = A} (coef (p * q) (p * m)) (times p 𝟙 ⊗ coef q m)
        row p q m =
            ap₂ (λ s t. s ⊕ negate t) (times-mul p q) (times-mul p m)
            ∙ ap (λ t. times p 𝟙 ⊗ times q 𝟙 ⊕ t) (sym (mul-negate R (times p 𝟙) (times m 𝟙)))
            ∙ sym (R.mul-add (times p 𝟙) (times q 𝟙) (negate (times m 𝟙)))

    pub coef_self : (p : ℕ) → ◌≡◌ {A = A} (coef p p) 𝟘
    coef_self p = R.add-negate (times p 𝟙)

    pub coef-zero : ◌≡◌ {A = A} (coef 0 0) 𝟘
    coef-zero = coef_self 0

    pub coef-one : ◌≡◌ {A = A} (coef 1 0) 𝟙
    unfolding times
    coef-one = ap₂ ◌⊕◌ (add-zero R 𝟙) (negate-zero R) ∙ add-zero R 𝟙

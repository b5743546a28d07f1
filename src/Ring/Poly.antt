-- ===== src/Ring/Poly.antt =====
-- Polynomials in Horner form with integer coefficients, and their value in a commutative ring.
use aws_dpid.Prelude.{
  ℕ, zero, suc, ◌+◌, ◌*◌, ◌≡◌, refl, sym, ap, ap₂, ◌∙◌, Bool, true, false, and-left, and-right,
  ◌&&◌, ◌==◌, ==→eq, if◌then◌else◌, Bool-cases, inl, inr, arith,
}
use aws_dpid.Ring.{RingOps, IsCommRing, 𝟘, 𝟙, ◌⊕◌, ◌⊗◌}
use aws_dpid.Ring.Laws.{add-zero, add_interchange, add-mul, zero-mul, mul-zero, mul_left_comm}
use aws_dpid.Ring.Times.{coef, coef-add, coef-mul, coef_self, coef-zero, coef-one}

-- `con p n` is the number `p - n`; `horner c r` is `c + x * r` in the first variable `x`, where
-- `c` is a polynomial in the other variables.
pub data Poly : Type 0 where
  con : ℕ → ℕ → Poly
  horner : Poly → Poly → Poly

abbrev pub nil : Poly
nil = con 0 0

-- The number zero, written so.
unfoldable pub is_bare : Poly → Bool
is_bare (con p n) = p == n
is_bare (horner c r) = false

-- The two constructors, with zeros pruned.
unfoldable pub number : ℕ → ℕ → Poly
number p n = if p == n then nil else con p n

unfoldable pub join : Poly → Poly → Poly
unfolding is_bare
join c r = if is_bare c && is_bare r then nil else horner c r

unfoldable pub variable : ℕ → Poly
variable zero = horner nil (con 1 0)
variable (suc i) = horner (variable i) nil

unfoldable pub plus : Poly → Poly → Poly
unfolding number join
plus (con p n) (con q m) = number (p + q) (n + m)
plus (con p n) (horner c r) = join (plus (con p n) c) r
plus (horner c r) (con q m) = join (plus c (con q m)) r
plus (horner c r) (horner d s) = join (plus c d) (plus r s)

unfoldable pub scale : ℕ → ℕ → Poly → Poly
unfolding number join
scale p n (con q m) = number (p * q + n * m) (p * m + n * q)
scale p n (horner c r) = join (scale p n c) (scale p n r)

-- The product with a polynomial that does not mention the first variable.
unfoldable pub across : (Poly → Poly) → Poly → Poly
unfolding join
across f (con q m) = join (f (con q m)) nil
across f (horner d s) = join (f d) (across f s)

unfoldable pub product : Poly → Poly → Poly
unfolding scale across plus join
product (con p n) q = if p == n then nil else scale p n q
product (horner c r) q = plus (across (product c) q) (join nil (product r q))

unfoldable pub is_nil : Poly → Bool
is_nil (con p n) = p == n
is_nil (horner c r) = is_nil c && is_nil r

module _ {A : Type 0} ⦃F : RingOps A⦄ (ρ : ℕ → A) where
  -- The value where the variable `i` of the polynomial is `ρ (k + i)`.
  pub value : ℕ → Poly → A
  value k (con p n) = coef p n
  value k (horner c r) = value (suc k) c ⊕ ρ k ⊗ value k r

  module _ (R : IsCommRing F) where
    pub value-one : (k : ℕ) → value k (con 1 0) ≡ 𝟙
    unfolding value
    value-one k = coef-one R

    pub value-nil : (k : ℕ) → value k nil ≡ 𝟘
    unfolding value
    value-nil k = coef-zero R

    horner-nil_sum : (k : ℕ) (c : Poly) → value (suc k) c ⊕ ρ k ⊗ value k nil ≡ value (suc k) c
    horner-nil_sum k c =
        ap (λ t. value (suc k) c ⊕ ρ k ⊗ t) (value-nil k)
        ∙ ap (λ t. value (suc k) c ⊕ t) (mul-zero R (ρ k))
        ∙ add-zero R (value (suc k) c)

    value-is_bare : (k : ℕ) (a : Poly) → is_bare a ≡ true → value k a ≡ 𝟘
    unfolding value is_bare
    value-is_bare k (con p n) h = ap (λ t. coef p t) (sym (==→eq p n h)) ∙ coef_self R p
    value-is_bare k (horner c r) h = cc

    value-number : (k p n : ℕ) → value k (number p n) ≡ coef p n
    unfolding value number
    value-number k p n = elim (Bool-cases (p == n)) [
      | inl e ↦ rw e (coef-zero R ∙ sym (coef_self R p) ∙ ap (λ t. coef p t) (==→eq p n e))
      | inr e ↦ rw e refl
    ]

    value-join : (k : ℕ) (c r : Poly) → value k (join c r) ≡ value (suc k) c ⊕ ρ k ⊗ value k r
    unfolding value join
    value-join k c r = elim (Bool-cases (is_bare c && is_bare r)) [
      | inl e ↦ rw e (
          value-nil k
          ∙ sym (
              ap₂ (λ s t. s ⊕ ρ k ⊗ t) (value-is_bare (suc k) c (and-left _ _ e))
                (value-is_bare k r (and-right _ _ e))
              ∙ R.zero-add (ρ k ⊗ 𝟘)
              ∙ mul-zero R (ρ k)))
      | inr e ↦ rw e refl
    ]

    pub value-variable : (k i : ℕ) → value k (variable i) ≡ ρ (k + i)
    unfolding value variable
    value-variable k zero =
        ap₂ (λ s t. s ⊕ ρ k ⊗ t) (coef-zero R) (coef-one R)
        ∙ R.zero-add (ρ k ⊗ 𝟙)
        ∙ R.mul_comm (ρ k) 𝟙
        ∙ R.one-mul (ρ k)
        ∙ ap ρ {x = k} {y = k + 0} (omega arith)
    value-variable k (suc i) =
        horner-nil_sum k (variable i)
        ∙ value-variable (suc k) i
        ∙ ap ρ {x = suc k + i} {y = k + suc i} (omega arith)

    join-nil : (k : ℕ) (c : Poly) → value k (join c nil) ≡ value (suc k) c
    join-nil k c = value-join k c nil ∙ horner-nil_sum k c

    pub value-plus : (k : ℕ) (a b : Poly) → value k (plus a b) ≡ value k a ⊕ value k b
    unfolding value plus
    value-plus k (con p n) (con q m) = value-number k (p + q) (n + m) ∙ coef-add R p n q m
    value-plus k (con p n) (horner c r) =
        value-join k (plus (con p n) c) r
        ∙ ap (λ t. t ⊕ ρ k ⊗ value k r) (value-plus (suc k) (con p n) c)
        ∙ R.add_assoc (coef p n) (value (suc k) c) (ρ k ⊗ value k r)
    value-plus k (horner c r) (con q m) =
        value-join k (plus c (con q m)) r
        ∙ ap (λ t. t ⊕ ρ k ⊗ value k r) (value-plus (suc k) c (con q m))
        ∙ R.add_assoc (value (suc k) c) (coef q m) (ρ k ⊗ value k r)
        ∙ ap (λ t. value (suc k) c ⊕ t) (R.add_comm (coef q m) (ρ k ⊗ value k r))
        ∙ sym (R.add_assoc (value (suc k) c) (ρ k ⊗ value k r) (coef q m))
    value-plus k (horner c r) (horner d s) =
        value-join k (plus c d) (plus r s)
        ∙ ap₂ (λ x y. x ⊕ ρ k ⊗ y) (value-plus (suc k) c d) (value-plus k r s)
        ∙ ap (λ t. value (suc k) c ⊕ value (suc k) d ⊕ t) (R.mul-add (ρ k) (value k r) (value k s))
        ∙ add_interchange R (value (suc k) c) (value (suc k) d) (ρ k ⊗ value k r) (ρ k ⊗ value k s)

    pub value-scale : (k p n : ℕ) (a : Poly) → value k (scale p n a) ≡ coef p n ⊗ value k a
    unfolding value scale
    value-scale k p n (con q m) =
        value-number k (p * q + n * m) (p * m + n * q) ∙ coef-mul R p n q m
    value-scale k p n (horner c r) =
        value-join k (scale p n c) (scale p n r)
        ∙ ap₂ (λ x y. x ⊕ ρ k ⊗ y) (value-scale (suc k) p n c) (value-scale k p n r)
        ∙ ap (λ t. coef p n ⊗ value (suc k) c ⊕ t) (mul_left_comm R (ρ k) (coef p n) (value k r))
        ∙ sym (R.mul-add (coef p n) (value (suc k) c) (ρ k ⊗ value k r))

    value-across :
        (k : ℕ) (c : Poly) (f : Poly → Poly)
        → ((d : Poly) → value (suc k) (f d) ≡ value (suc k) c ⊗ value (suc k) d)
        → (b : Poly) → value k (across f b) ≡ value (suc k) c ⊗ value k b
    unfolding value across
    value-across k c f h (con q m) = join-nil k (f (con q m)) ∙ h (con q m)
    value-across k c f h (horner d s) =
        value-join k (f d) (across f s)
        ∙ ap₂ (λ x y. x ⊕ ρ k ⊗ y) (h d) (value-across k c f h s)
        ∙ ap (λ t. value (suc k) c ⊗ value (suc k) d ⊕ t)
            (mul_left_comm R (ρ k) (value (suc k) c) (value k s))
        ∙ sym (R.mul-add (value (suc k) c) (value (suc k) d) (ρ k ⊗ value k s))

    pub value-product : (k : ℕ) (a b : Poly) → value k (product a b) ≡ value k a ⊗ value k b
    unfolding value product
    value-product k (con p n) b = elim (Bool-cases (p == n)) [
      | inl e ↦ rw e (
          coef-zero R
          ∙ sym (zero-mul R (value k b))
          ∙ ap (λ t. t ⊗ value k b) (sym (coef_self R p) ∙ ap (λ t. coef p t) (==→eq p n e)))
      | inr e ↦ rw e (value-scale k p n b)
    ]
    value-product k (horner c r) b =
        value-plus k (across (product c) b) (join nil (product r b))
        ∙ ap₂ ◌⊕◌ (value-across k c (product c) (value-product (suc k) c) b) (
            value-join k nil (product r b)
            ∙ ap₂ (λ s t. s ⊕ ρ k ⊗ t) (value-nil (suc k)) (value-product k r b)
            ∙ R.zero-add (ρ k ⊗ (value k r ⊗ value k b))
            ∙ sym (R.mul_assoc (ρ k) (value k r) (value k b)))
        ∙ sym (add-mul R (value (suc k) c) (ρ k ⊗ value k r) (value k b))

    pub value-is_nil : (k : ℕ) (a : Poly) → is_nil a ≡ true → value k a ≡ 𝟘
    unfolding value is_nil
    value-is_nil k (con p n) h = ap (λ t. coef p t) (sym (==→eq p n h)) ∙ coef_self R p
    value-is_nil k (horner c r) h =
        ap₂ (λ s t. s ⊕ ρ k ⊗ t) (value-is_nil (suc k) c (ground arith))
          (value-is_nil k r (ground arith))
        ∙ R.zero-add (ρ k ⊗ 𝟘)
        ∙ mul-zero R (ρ k)

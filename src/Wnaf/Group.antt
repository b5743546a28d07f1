-- ===== src/Wnaf/Group.antt =====
-- Multiples in an abelian group, and the points that represent its elements: what `CurveProjective`
-- documents of its operations. Representatives need not be unique, as in Jacobian coordinates.
use Prim.Native.Nat.add
use native.Mathlib.Nat.{suc-mul}
use aws_dpid.Prelude.{ℕ, zero, suc, ◌+◌, ◌*◌, ◌≡◌, sym, ap, ap₂, ◌∙◌, arith}
use aws_dpid.Wnaf.{GroupOps}

pub record Group (H : Type 0) : Type 0 where
  pub nought : H
  pub plus : H → H → H
  pub minus : H → H
  pub plus_assoc : (a b c : H) → plus (plus a b) c ≡ plus a (plus b c)
  pub plus_comm : (a b : H) → plus a b ≡ plus b a
  pub nought-plus : (a : H) → plus nought a ≡ a
  pub plus-minus : (a : H) → plus a (minus a) ≡ nought

pub record Represents {G H : Type 0} (O : GroupOps G) (A : Group H) (point : G → H) : Type 0 where
  pub point-zero : point O.zero ≡ A.nought
  pub point-double : (g : G) → point (O.double g) ≡ A.plus (point g) (point g)
  pub point-add : (g h : G) → point (O.add_assign g h) ≡ A.plus (point g) (point h)
  pub point-sub : (g h : G) → point (O.sub_assign g h) ≡ A.plus (point g) (A.minus (point h))

module _ {H : Type 0} (A : Group H) where
  unfoldable pub multiple : ℕ → H → H
  multiple zero a = A.nought
  multiple (suc n) a = A.plus a (multiple n a)

  -- `p - n` times `a`.
  unfoldable pub difference : ℕ → ℕ → H → H
  unfolding multiple
  difference p n a = A.plus (multiple p a) (A.minus (multiple n a))

  pub plus-nought : (a : H) → A.plus a A.nought ≡ a
  plus-nought a = A.plus_comm a A.nought ∙ A.nought-plus a

  pub plus_interchange :
      (a b c d : H) → A.plus (A.plus a b) (A.plus c d) ≡ A.plus (A.plus a c) (A.plus b d)
  plus_interchange a b c d =
      A.plus_assoc a b (A.plus c d)
      ∙ ap (A.plus a)
          (sym (A.plus_assoc b c d) ∙ ap (λ x. A.plus x d) (A.plus_comm b c) ∙ A.plus_assoc c b d)
      ∙ sym (A.plus_assoc a c (A.plus b d))

  pub minus_unique : (a b : H) → A.plus a b ≡ A.nought → b ≡ A.minus a
  minus_unique a b h =
      sym (A.nought-plus b)
      ∙ ap (λ x. A.plus x b) (sym (A.plus-minus a) ∙ A.plus_comm a (A.minus a))
      ∙ A.plus_assoc (A.minus a) a b
      ∙ ap (A.plus (A.minus a)) h
      ∙ plus-nought (A.minus a)

  minus_plus : (a b : H) → A.plus (A.minus a) (A.minus b) ≡ A.minus (A.plus a b)
  minus_plus a b = minus_unique (A.plus a b) _ (
      plus_interchange a b (A.minus a) (A.minus b)
      ∙ ap₂ A.plus (A.plus-minus a) (A.plus-minus b)
      ∙ A.nought-plus A.nought)

  pub multiple-add : (m n : ℕ) (a : H) → multiple (m + n) a ≡ A.plus (multiple m a) (multiple n a)
  unfolding multiple
  multiple-add zero n a = ap (λ k. multiple k a) (add.zero n) ∙ sym (A.nought-plus (multiple n a))
  multiple-add (suc m) n a =
      ap (λ k. multiple k a) (add.suc m n)
      ∙ ap (A.plus a) (multiple-add m n a)
      ∙ sym (A.plus_assoc a (multiple m a) (multiple n a))

  pub multiple-multiple : (m n : ℕ) (a : H) → multiple m (multiple n a) ≡ multiple (m * n) a
  unfolding multiple
  multiple-multiple zero n a = ap (λ k. multiple k a) {x = 0} {y = 0 * n} (omega arith)
  multiple-multiple (suc m) n a =
      ap (A.plus (multiple n a)) (multiple-multiple m n a)
      ∙ sym (multiple-add n (m * n) a)
      ∙ ap (λ k. multiple k a) {x = n + m * n} {y = suc m * n} (omega (arith, suc-mul m n))

  pub difference-add :
      (p n k l : ℕ) (a : H)
      → A.plus (difference p n a) (difference k l a) ≡ difference (p + k) (n + l) a
  unfolding difference
  difference-add p n k l a =
      plus_interchange (multiple p a) (A.minus (multiple n a)) (multiple k a)
        (A.minus (multiple l a))
      ∙ ap₂ A.plus (sym (multiple-add p k a))
          (minus_plus (multiple n a) (multiple l a) ∙ ap A.minus (sym (multiple-add n l a)))

  minus_nought : A.minus A.nought ≡ A.nought
  minus_nought = sym (minus_unique A.nought A.nought (A.nought-plus A.nought))

  pub difference-zero : (a : H) → difference 0 0 a ≡ A.nought
  unfolding difference multiple
  difference-zero a = A.nought-plus (A.minus A.nought) ∙ minus_nought

  pub difference_positive : (n : ℕ) (a : H) → difference n 0 a ≡ multiple n a
  unfolding difference multiple
  difference_positive n a = ap (A.plus (multiple n a)) minus_nought ∙ plus-nought (multiple n a)

  pub difference_negative : (n : ℕ) (a : H) → difference 0 n a ≡ A.minus (multiple n a)
  unfolding difference multiple
  difference_negative n a = A.nought-plus (A.minus (multiple n a))

  -- Only the difference of the two numbers counts.
  pub difference_shift : (n k : ℕ) (a : H) → difference (n + k) k a ≡ multiple n a
  unfolding difference
  difference_shift n k a =
      ap (λ x. A.plus x (A.minus (multiple k a))) (multiple-add n k a)
      ∙ A.plus_assoc (multiple n a) (multiple k a) (A.minus (multiple k a))
      ∙ ap (A.plus (multiple n a)) (A.plus-minus (multiple k a))
      ∙ plus-nought (multiple n a)

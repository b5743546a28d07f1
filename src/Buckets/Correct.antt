-- ===== src/Buckets/Correct.antt =====
-- One column of `pippenger` (pairing/src/lib.rs): the buckets add up to the points times their digits.
use mathlib.Core.Option
use aws_dpid.Prelude.{
  ℕ, zero, suc, ◌+◌, ◌-◌, ◌^◌, ◌≤◌, ◌<◌, ◌≡◌, refl, sym, ap, ap₂, ◌∙◌, some, ◌>>=◌, List, [], ◌∷◌,
  length, arith,
}
use aws_dpid.Wnaf.{GroupOps, ℤ, pos, negsuc}
use aws_dpid.Wnaf.Digits.{pos_part, neg_part}
use aws_dpid.Wnaf.Group.{
  Group, Represents, multiple, difference, difference-zero, difference_positive,
  difference_negative, multiple-add, plus-nought,
}
use native.Mathlib.Nat.{two-pow-succ}
use aws_dpid.Buckets.{
  double_times, mul_by_pow_2, change, place, place_all, running_sums, empty_buckets, column,
}
use aws_dpid.Buckets.Sums.{
  weighted, multiple_one, running_sums_lem, multiple-plus, multiple-nought, multiple-minus,
}

-- No digit exceeds the number of buckets.
pub data InRange {G : Type 0} (count : ℕ) : List (ℤ × G) → Type 0 where
  all_placed : InRange count []
  and_next :
      (d : ℤ) (pt : G) (l : List (ℤ × G))
      → pos_part d + neg_part d ≤ count
      → InRange count l
      → InRange count ((d, pt) ∷ l)

-- Every point times its digit, added up.
unfoldable pub combination : {G H : Type 0} → Group H → (G → H) → List (ℤ × G) → H
combination A point [] = A.nought
combination A point ((d, pt) ∷ l) =
    A.plus (difference A (pos_part d) (neg_part d) (point pt)) (combination A point l)

module _ {G H : Type 0} ⦃O : GroupOps G⦄ (A : Group H) {point : G → H}
    (P : Represents O A point) where
  change_lem :
      (f : G → G) (x : H)
      → ((g : G) → point (f g) ≡ A.plus (point g) x)
      → (l : List G) (b k : ℕ) → b < length l
      → (r : List G) × (change f l b ≡ some r)
        × (length r ≡ length l)
        × ((weighted A P) k r ≡ A.plus (multiple A (k + b) x) ((weighted A P) k l))
  unfolding change weighted
  change_lem f x h [] b k lt = absurd (omega arith)
  change_lem f x h (g ∷ l) zero k lt = (
    f g ∷ l,
    refl,
    refl,
    ap (λ y. A.plus (multiple A k y) ((weighted A P) (suc k) l)) (h g)
        ∙ ap (λ y. A.plus y ((weighted A P) (suc k) l))
            ((multiple-plus A P) k (point g) x
              ∙ A.plus_comm (multiple A k (point g)) (multiple A k x))
        ∙ A.plus_assoc (multiple A k x) (multiple A k (point g)) ((weighted A P) (suc k) l)
        ∙ ap
            (λ n.
              A.plus (multiple A n x) (A.plus (multiple A k (point g)) ((weighted A P) (suc k) l)))
            {x = k} {y = k + 0} (omega arith),
  )
  change_lem f x h (g ∷ l) (suc b) k lt =
      let (r, e, n, w) = change_lem f x h l b (suc k) (omega arith) in
      (
        g ∷ r,
        ap (Option.map (λ rest. g ∷ rest)) e,
        ap suc n,
        ap (A.plus (multiple A k (point g))) w
            ∙ sym (
                A.plus_assoc (multiple A k (point g)) (multiple A (suc k + b) x)
                  ((weighted A P) (suc k) l))
            ∙ ap (λ y. A.plus y ((weighted A P) (suc k) l))
                (A.plus_comm (multiple A k (point g)) (multiple A (suc k + b) x))
            ∙ A.plus_assoc (multiple A (suc k + b) x) (multiple A k (point g))
                ((weighted A P) (suc k) l)
            ∙ ap
                (λ m.
                  A.plus (multiple A m x)
                    (A.plus (multiple A k (point g)) ((weighted A P) (suc k) l)))
                {x = suc k + b} {y = k + suc b} (omega arith),
      )

  place_lem :
      (d : ℤ) (pt : G) (l : List G)
      → pos_part d + neg_part d ≤ length l
      → (r : List G) × (place d pt l ≡ some r)
        × (length r ≡ length l)
        × ((weighted A P) 1 r
            ≡ A.plus (difference A (pos_part d) (neg_part d) (point pt)) ((weighted A P) 1 l))
  unfolding place
  place_lem (pos zero) pt l le = (
    l,
    refl,
    refl,
    sym (
        ap (λ x. A.plus x ((weighted A P) 1 l)) (difference-zero A (point pt))
        ∙ A.nought-plus ((weighted A P) 1 l)),
  )
  place_lem (pos (suc b)) pt l le =
      let (r, e, n, w) =
        change_lem (λ g. O.add_assign g pt) (point pt) (λ g. P.point-add g pt) l b 1
          (omega arith) in
      (
        r,
        e,
        n,
        w
            ∙ ap (λ m. A.plus (multiple A m (point pt)) ((weighted A P) 1 l)) {x = 1 + b}
                {y = suc b} (omega arith)
            ∙ ap (λ x. A.plus x ((weighted A P) 1 l))
                (sym (difference_positive A (suc b) (point pt))),
      )
  place_lem (negsuc b) pt l le =
      let (r, e, n, w) =
        change_lem (λ g. O.sub_assign g pt) (A.minus (point pt)) (λ g. P.point-sub g pt) l b 1
          (omega arith) in
      (
        r,
        e,
        n,
        w
            ∙ ap (λ m. A.plus (multiple A m (A.minus (point pt))) ((weighted A P) 1 l)) {x = 1 + b}
                {y = suc b} (omega arith)
            ∙ ap (λ x. A.plus x ((weighted A P) 1 l))
                ((multiple-minus A P) (suc b) (point pt)
                  ∙ sym (difference_negative A (suc b) (point pt))),
      )

  place_all_lem :
      (count : ℕ) (l : List (ℤ × G)) (buckets : List G)
      → length buckets ≡ count
      → InRange count l
      → (r : List G) × (place_all l buckets ≡ some r)
        × (length r ≡ length buckets)
        × ((weighted A P) 1 r ≡ A.plus (combination A point l) ((weighted A P) 1 buckets))
  unfolding place_all combination
  place_all_lem count l buckets size all_placed =
      (buckets, refl, refl, sym (A.nought-plus ((weighted A P) 1 buckets)))
  place_all_lem count l buckets size (and_next d pt rest le fits) =
      let (r, e, n, w) = place_lem d pt buckets (omega (arith, le, size)) in
      let (t, f, m, v) = place_all_lem count rest r (n ∙ size) fits in
      let c = difference A (pos_part d) (neg_part d) (point pt) in
      (
        t,
        ap (λ o. o >>= place_all rest) e ∙ f,
        m ∙ n,
        v
            ∙ ap (A.plus (combination A point rest)) w
            ∙ sym (A.plus_assoc (combination A point rest) c ((weighted A P) 1 buckets))
            ∙ ap (λ x. A.plus x ((weighted A P) 1 buckets))
                (A.plus_comm (combination A point rest) c),
      )

  length-empty_buckets : (n : ℕ) → length (empty_buckets {G = G} n) ≡ n
  unfolding empty_buckets
  length-empty_buckets zero = refl
  length-empty_buckets (suc n) = ap suc (length-empty_buckets n)

  weighted-empty_buckets : (n k : ℕ) → (weighted A P) k (empty_buckets n) ≡ A.nought
  unfolding empty_buckets weighted
  weighted-empty_buckets zero k = refl
  weighted-empty_buckets (suc n) k =
      ap₂ A.plus (ap (multiple A k) P.point-zero ∙ (multiple-nought A P) k)
        (weighted-empty_buckets n (suc k))
      ∙ A.nought-plus A.nought

  -- With at least one bucket, and no digit above their number, a column never indexes out of range;
  -- it gives every point times its digit, added up.
  pub column_lem :
      (count : ℕ) (l : List (ℤ × G))
      → 0 < count
      → InRange count l
      → (g : G) × (column count l ≡ some g) × (point g ≡ combination A point l)
  unfolding column
  column_lem count l positive fits =
      let (r, e, n, w) =
        place_all_lem count l (empty_buckets count) (length-empty_buckets count) fits in
      let (g, f, h) = summed r (omega (arith, n, length-empty_buckets count)) in
      (
        g,
        ap (λ o. o >>= λ buckets. Option.map (λ s. s.1) (running_sums buckets)) e ∙ f,
        h
            ∙ w
            ∙ ap (A.plus (combination A point l)) (weighted-empty_buckets count 1)
            ∙ plus-nought A (combination A point l),
      )
    where
      summed :
          (r : List G)
          → 0 < length r
          → (g : G) × (Option.map (λ s. s.1) (running_sums r) ≡ some g)
            × (point g ≡ (weighted A P) 1 r)
      summed [] lt = absurd (omega arith)
      summed (x ∷ r) lt =
          let (s, e, f, k) = (running_sums_lem A P) x r in (s.1, ap (Option.map (λ s. s.1)) e, k)

  double_times_lem : (n : ℕ) (s : G) → point (double_times n s) ≡ multiple A (2 ^ n) (point s)
  unfolding double_times
  double_times_lem zero s = sym ((multiple_one A P) (point s))
  double_times_lem (suc n) s =
      double_times_lem n (O.double s)
      ∙ ap (multiple A (2 ^ n)) (P.point-double s)
      ∙ (multiple-plus A P) (2 ^ n) (point s) (point s)
      ∙ sym (multiple-add A (2 ^ n) (2 ^ n) (point s))
      ∙ ap (λ m. multiple A m (point s)) (sym (two-pow-succ n))

  -- For an exponent that is not zero, `mul_by_pow_2` is the multiple by that power of two.
  pub mul_by_pow_2_lem :
      (s : G) (k : ℕ) → 0 < k → point (mul_by_pow_2 s k) ≡ multiple A (2 ^ k) (point s)
  unfolding mul_by_pow_2
  mul_by_pow_2_lem s k positive =
      P.point-double (double_times (k - 1) s)
      ∙ ap₂ A.plus (double_times_lem (k - 1) s) (double_times_lem (k - 1) s)
      ∙ sym (multiple-add A (2 ^ (k - 1)) (2 ^ (k - 1)) (point s))
      ∙ ap (λ m. multiple A m (point s))
          (sym (two-pow-succ (k - 1)) ∙ ap (λ j. 2 ^ j) {x = suc (k - 1)} {y = k} (omega arith))

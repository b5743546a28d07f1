-- ===== src/Buckets/Sums.antt =====
-- The running sums over the buckets of `pippenger` (pairing/src/lib.rs), and the sums they stand for.
use mathlib.Core.Option
use aws_dpid.Prelude.{ℕ, zero, suc, ◌≡◌, refl, sym, ap, ap₂, ◌∙◌, some, List, [], ◌∷◌}
use aws_dpid.Wnaf.{GroupOps}
use aws_dpid.Wnaf.Group.{Group, Represents, multiple, plus_interchange, plus-nought, minus_unique}
use aws_dpid.Buckets.{running_sums}

module _ {G H : Type 0} ⦃O : GroupOps G⦄ (A : Group H) {point : G → H}
    (P : Represents O A point) where
  unfoldable pub total : List G → H
  total [] = A.nought
  total (g ∷ l) = A.plus (point g) (total l)

  -- The buckets with their factors, from `k` on.
  unfoldable pub weighted : ℕ → List G → H
  weighted k [] = A.nought
  weighted k (g ∷ l) = A.plus (multiple A k (point g)) (weighted (suc k) l)

  pub weighted-suc : (k : ℕ) (l : List G) → weighted (suc k) l ≡ A.plus (total l) (weighted k l)
  unfolding weighted total multiple
  weighted-suc k [] = sym (A.nought-plus A.nought)
  weighted-suc k (g ∷ l) =
      ap (A.plus (multiple A (suc k) (point g))) (weighted-suc (suc k) l)
      ∙ plus_interchange A (point g) (multiple A k (point g)) (total l) (weighted (suc k) l)

  pub multiple_one : (a : H) → multiple A 1 a ≡ a
  unfolding multiple
  multiple_one a = plus-nought A a

  pub running_sums_lem :
      (g : G) (l : List G)
      → (s : G × G) × (running_sums (g ∷ l) ≡ some s)
        × (point s.0 ≡ total (g ∷ l))
        × (point s.1 ≡ weighted 1 (g ∷ l))
  unfolding running_sums total weighted
  running_sums_lem g [] = (
    (g, g),
    refl,
    sym (plus-nought A (point g)),
    sym (plus-nought A (multiple A 1 (point g)) ∙ multiple_one (point g)),
  )
  running_sums_lem g (h ∷ l) =
      let (s, e, f, k) = running_sums_lem h l in
      let i = O.add_assign s.0 g in
      let sum_i =
        P.point-add s.0 g
        ∙ ap (λ x. A.plus x (point g)) f
        ∙ A.plus_comm (total (h ∷ l)) (point g) in
      (
        (i, O.add_assign s.1 i),
        ap (Option.map (λ r. (O.add_assign r.0 g, O.add_assign r.1 (O.add_assign r.0 g)))) e,
        sum_i,
        P.point-add s.1 i
            ∙ ap₂ A.plus k sum_i
            ∙ A.plus_comm (weighted 1 (h ∷ l)) (A.plus (point g) (total (h ∷ l)))
            ∙ A.plus_assoc (point g) (total (h ∷ l)) (weighted 1 (h ∷ l))
            ∙ ap₂ A.plus (sym (multiple_one (point g))) (sym (weighted-suc 1 (h ∷ l))),
      )

  pub multiple-plus :
      (k : ℕ) (a x : H) → multiple A k (A.plus a x) ≡ A.plus (multiple A k a) (multiple A k x)
  unfolding multiple
  multiple-plus zero a x = sym (A.nought-plus A.nought)
  multiple-plus (suc k) a x =
      ap (A.plus (A.plus a x)) (multiple-plus k a x)
      ∙ plus_interchange A a x (multiple A k a) (multiple A k x)

  pub multiple-nought : (k : ℕ) → multiple A k A.nought ≡ A.nought
  unfolding multiple
  multiple-nought zero = refl
  multiple-nought (suc k) = A.nought-plus (multiple A k A.nought) ∙ multiple-nought k

  pub multiple-minus : (k : ℕ) (a : H) → multiple A k (A.minus a) ≡ A.minus (multiple A k a)
  multiple-minus k a =
      minus_unique A (multiple A k a) (multiple A k (A.minus a)) (
        sym (multiple-plus k a (A.minus a))
        ∙ ap (multiple A k) (A.plus-minus a)
        ∙ multiple-nought k)

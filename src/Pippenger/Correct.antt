-- ===== src/Pippenger/Correct.antt =====
-- `pippenger` as a whole (pairing/src/lib.rs): the columns, folded from the highest to the lowest,
-- give the points times their scalars, added up.
use aws_dpid.Prelude.{
  ℕ, zero, suc, ◌-◌, ◌/◌, ◌^◌, ◌<◌, ◌≤◌, ◌≡◌, refl, sym, ap, ◌∙◌, ltb, if◌then◌else◌, Bool, true,
  false, some, ◌>>=◌, List, length, arith,
}
use aws_dpid.Wnaf.{GroupOps, ℤ}
use aws_dpid.Wnaf.Group.{Group, Represents, multiple, plus-nought}
use aws_dpid.Buckets.{mul_by_pow_2}
use aws_dpid.Buckets.Sums.{multiple-nought}
use aws_dpid.Buckets.Correct.{mul_by_pow_2_lem}
use aws_dpid.Radix.{to_radix_2w_size_hint}
use aws_dpid.Radix.Recenter.{width-cases}
use aws_dpid.Pippenger.{digit_width, scalars_points, column_at, fold_columns, pippenger}
use aws_dpid.Pippenger.Columns.{AreRows, upper, column_at_lem}
use aws_dpid.Pippenger.Rows.{AreScalars, ArePairs, sum_of_multiples, scalars_points_lem}

one_of : (a b : Bool) → (w : ℕ) → w ≡ (if a then 6 else if b then 7 else 8) → (6 ≤ w) × (w ≤ 8)
one_of true b w e = (omega arith, omega arith)
one_of false true w e = (omega arith, omega arith)
one_of false false w e = (omega arith, omega arith)

digit_width_lem : (size : ℕ) → (6 ≤ digit_width size) × (digit_width size ≤ 8)
unfolding digit_width
digit_width_lem size = one_of (ltb size 500) (ltb size 800) (digit_width size) refl

hint_of :
    (w : ℕ)
    → 6 ≤ w
    → w ≤ 8
    → (hint : ℕ) × (to_radix_2w_size_hint w ≡ some (suc hint)) × (0 < 2 ^ w / 2)
unfolding to_radix_2w_size_hint
hint_of w h k =
    width-cases (λ v. (hint : ℕ) × (to_radix_2w_size_hint v ≡ some (suc hint)) × (0 < 2 ^ v / 2))
      (42, refl, omega arith) (36, refl, omega arith) (32, refl, omega arith) w h k

module _ {G H : Type 0} ⦃O : GroupOps G⦄ (A : Group H) {point : G → H} (P : Represents O A point)
    (w count : ℕ) (positive : 0 < w) (half : 0 < 2 ^ w / 2) {pairs : List (List ℤ × G)}
    (rows : AreRows w count pairs) where
  fold_columns_lem :
      (n : ℕ) (total : G)
      → n ≤ count
      → point total ≡ upper A point w n pairs
      → (g : G) × (fold_columns w pairs n total ≡ some g) × (point g ≡ upper A point w zero pairs)
  unfolding fold_columns
  fold_columns_lem zero total le v = (total, refl, v)
  fold_columns_lem (suc n) total le v =
      let (p, col, e) = (column_at_lem A P w) count n half rows (omega arith) in
      let next = O.add_assign (mul_by_pow_2 total w) p in
      let moved : point next ≡ upper A point w n pairs =
        P.point-add (mul_by_pow_2 total w) p
        ∙ ap (λ x. A.plus x (point p))
            ((mul_by_pow_2_lem A P) total w positive ∙ ap (multiple A (2 ^ w)) v)
        ∙ A.plus_comm (multiple A (2 ^ w) (upper A point w (suc n) pairs)) (point p)
        ∙ sym e in
      let (g, run, r) = fold_columns_lem n next (omega arith) moved in
      (
        g,
        ap (λ o. o >>= λ x. fold_columns w pairs n (O.add_assign (mul_by_pow_2 total w) x)) col
            ∙ run,
        r,
      )

module _ {G H : Type 0} ⦃O : GroupOps G⦄ (A : Group H) {point : G → H}
    (P : Represents O A point) where
  -- The highest column is all there is from its index on.
  hi_column_lem :
      (w hint : ℕ) {scalars : List (List ℕ)} {points : List G}
      → 0 < 2 ^ w / 2
      → (r : ArePairs A point w hint scalars points)
      → (g : G) × (column_at (2 ^ w / 2) r.pairs hint ≡ some g)
        × (point g ≡ upper A point w hint r.pairs)
  hi_column_lem w hint half r =
      let (g, run, e) = (column_at_lem A P w) (suc hint) hint half r.rows (omega arith) in
      (
        g,
        run,
        sym (
            e
            ∙ ap (A.plus (point g)) (ap (multiple A (2 ^ w)) r.top ∙ (multiple-nought A P) (2 ^ w))
            ∙ plus-nought A (point g)),
      )

  -- For scalars under the order of `Fr`, given by their limbs, `pippenger` returns every point times
  -- its scalar, added up: at each of its digit widths, and as far as both lists reach.
  pub pippenger_lem :
      (points : List G) {scalars : List (List ℕ)}
      → AreScalars scalars
      → (g : G) × (pippenger points scalars ≡ some g)
        × (point g ≡ sum_of_multiples A point scalars points)
  unfolding pippenger
  pippenger_lem points {scalars} t =
      let w = digit_width (length scalars) in
      let (wide, narrow) = digit_width_lem (length scalars) in
      let (hint, hinted, half) = hint_of w wide narrow in
      let r = (scalars_points_lem A point w hint) wide narrow hinted t points in
      let (hi, first, high) = hi_column_lem w hint half r in
      let (g, run, v) =
        (fold_columns_lem A P w (suc hint) (omega arith) half r.rows) hint hi (omega arith) high in
      (
        g,
        ap
              (λ o. o >>= λ n. scalars_points w scalars points >>= λ ps.
                column_at (2 ^ w / 2) ps (n - 1) >>= fold_columns w ps (n - 1))
              hinted
            ∙ ap
                (λ k. scalars_points w scalars points >>= λ ps.
                  column_at (2 ^ w / 2) ps k >>= fold_columns w ps k)
                {x = suc hint - 1} {y = hint} (omega arith)
            ∙ ap (λ o. o >>= λ ps. column_at (2 ^ w / 2) ps hint >>= fold_columns w ps hint) r.made
            ∙ ap (λ o. o >>= fold_columns w r.pairs hint) first
            ∙ run,
        v ∙ r.bottom,
      )

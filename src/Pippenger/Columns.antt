-- ===== src/Pippenger/Columns.antt =====
-- The columns of `pippenger` (pairing/src/lib.rs): what one column adds to the sum of those above it.
use mathlib.Core.Option
use aws_dpid.Prelude.{
  ℕ, zero, suc, ◌+◌, ◌*◌, ◌/◌, ◌^◌, ◌<◌, ◌≤◌, ◌≡◌, refl, sym, ap, ap₂, ◌∙◌, some, ◌>>=◌, List, [],
  ◌∷◌, length, get_elem?, drop, arith,
}
use aws_dpid.Wnaf.{GroupOps, ℤ}
use aws_dpid.Wnaf.Digits.{pos_part, neg_part}
use aws_dpid.Wnaf.Group.{
  Group, Represents, multiple, difference, difference-add, multiple-multiple, plus_interchange,
}
use aws_dpid.Buckets.{column}
use aws_dpid.Buckets.Sums.{multiple-plus, multiple-minus, multiple-nought}
use aws_dpid.Buckets.Correct.{InRange, all_placed, and_next, combination, column_lem}
use aws_dpid.Radix.Value.{AreSmall, all_small, small_then, plus_value, minus_value}
use aws_dpid.Pippenger.{digits_at, column_at}

-- The digit at an index, and those above it.
digit_at :
    (w : ℕ) {ds : List ℤ}
    → AreSmall w ds
    → (j : ℕ) → j < length ds
    → (d : ℤ) × (get_elem? ds j ≡ some d)
      × (pos_part d + neg_part d ≤ 2 ^ w / 2)
      × (plus_value w (drop j ds) ≡ pos_part d + 2 ^ w * plus_value w (drop (suc j) ds))
      × (minus_value w (drop j ds) ≡ neg_part d + 2 ^ w * minus_value w (drop (suc j) ds))
unfolding plus_value minus_value
digit_at w all_small j h = absurd (omega arith)
digit_at w (small_then d ds lt le s) zero h = (d, refl, le, refl, refl)
digit_at w (small_then d ds lt le s) (suc j) h = digit_at w s j (omega arith)

-- Every pair has digits that are small, and none under the count is missing.
pub data AreRows {G : Type 0} (w count : ℕ) : List (List ℤ × G) → Type 0 where
  no_rows : AreRows w count []
  row_then :
      (ds : List ℤ) (pt : G) {rest : List (List ℤ × G)}
      → AreSmall w ds
      → count ≤ length ds
      → AreRows w count rest
      → AreRows w count ((ds, pt) ∷ rest)

module _ {G H : Type 0} (A : Group H) (point : G → H) (w : ℕ) where
  -- The points times the digits from `j` on, added up.
  unfoldable pub upper : ℕ → List (List ℤ × G) → H
  upper j [] = A.nought
  upper j ((ds, pt) ∷ rest) =
      A.plus (difference A (plus_value w (drop j ds)) (minus_value w (drop j ds)) (point pt))
        (upper j rest)

module _ {G H : Type 0} ⦃O : GroupOps G⦄ (A : Group H) {point : G → H} (P : Represents O A point)
    (w : ℕ) where
  multiple-difference :
      (n p m : ℕ) (a : H) → multiple A n (difference A p m a) ≡ difference A (n * p) (n * m) a
  unfolding difference
  multiple-difference n p m a =
      (multiple-plus A P) n (multiple A p a) (A.minus (multiple A m a))
      ∙ ap₂ A.plus (multiple-multiple A n p a)
          ((multiple-minus A P) n (multiple A m a) ∙ ap A.minus (multiple-multiple A n m a))

  -- The digits of a column are found, the buckets have room for them, and the column is what the
  -- digits from its index on have more than those above it, which count as many times as the radix.
  pub digits_at_lem :
      (count j : ℕ) {pairs : List (List ℤ × G)}
      → AreRows w count pairs
      → j < count
      → (col : List (ℤ × G)) × (digits_at j pairs ≡ some col)
        × InRange (2 ^ w / 2) col
        × (upper A point w j pairs
            ≡ A.plus (combination A point col) (multiple A (2 ^ w) (upper A point w (suc j) pairs)))
  unfolding digits_at upper combination
  digits_at_lem count j no_rows h = (
    [],
    refl,
    all_placed,
    sym (A.nought-plus A.nought) ∙ ap (A.plus A.nought) (sym ((multiple-nought A P) (2 ^ w))),
  )
  digits_at_lem count j (row_then ds pt {rest} small long rows) h =
      let (d, found, le, p, m) = digit_at w small j (omega arith) in
      let (col, run, fits, v) = digits_at_lem count j rows h in
      let above =
        difference A (plus_value w (drop (suc j) ds)) (minus_value w (drop (suc j) ds))
          (point pt) in
      (
        (d, pt) ∷ col,
        ap (λ o. o >>= λ x. Option.map (λ others. (x, pt) ∷ others) (digits_at j rest)) found
            ∙ ap (Option.map (λ others. (d, pt) ∷ others)) run,
        and_next d pt col le fits,
        ap₂ A.plus
              (ap₂ (λ a b. difference A a b (point pt)) p m
                ∙ sym (
                    difference-add A (pos_part d) (neg_part d)
                      (2 ^ w * plus_value w (drop (suc j) ds))
                      (2 ^ w * minus_value w (drop (suc j) ds)) (point pt))
                ∙ ap (A.plus (difference A (pos_part d) (neg_part d) (point pt))) (
                    sym (
                      multiple-difference (2 ^ w) (plus_value w (drop (suc j) ds))
                        (minus_value w (drop (suc j) ds)) (point pt))))
              v
            ∙ plus_interchange A (difference A (pos_part d) (neg_part d) (point pt))
                (multiple A (2 ^ w) above) (combination A point col) _
            ∙ ap
                (A.plus (
                  A.plus (difference A (pos_part d) (neg_part d) (point pt))
                    (combination A point col)))
                (sym ((multiple-plus A P) (2 ^ w) above (upper A point w (suc j) rest))),
      )

  pub column_at_lem :
      (count j : ℕ) {pairs : List (List ℤ × G)}
      → 0 < 2 ^ w / 2
      → AreRows w count pairs
      → j < count
      → (g : G) × (column_at (2 ^ w / 2) pairs j ≡ some g)
        × (upper A point w j pairs
            ≡ A.plus (point g) (multiple A (2 ^ w) (upper A point w (suc j) pairs)))
  unfolding column_at
  column_at_lem count j {pairs} half rows h =
      let (col, run, fits, v) = digits_at_lem count j rows h in
      let (g, sum, e) = (column_lem A P) (2 ^ w / 2) col half fits in
      (
        g,
        ap (λ o. o >>= column (2 ^ w / 2)) run ∙ sum,
        v ∙ ap (λ x. A.plus x (multiple A (2 ^ w) (upper A point w (suc j) pairs))) (sym e),
      )

-- ===== src/Pippenger.antt =====
-- `pippenger` of pairing/src/lib.rs: the sum of the multiples of points, column by column. A scalar
-- is given by its limbs; a panic is `none`.
pub mod Columns
pub mod Rows
pub mod Correct
use mathlib.Core.Option
use aws_dpid.Prelude.{
  ℕ, zero, suc, ◌-◌, ◌/◌, ◌^◌, ltb, if◌then◌else◌, Option, none, some, ◌>>=◌, List, [], ◌∷◌, length,
  get_elem?,
}
use aws_dpid.Wnaf.{GroupOps, ℤ}
use aws_dpid.Buckets.{column, mul_by_pow_2}
use aws_dpid.Radix.{to_radix_2w, to_radix_2w_size_hint}

-- The digit width for a number of scalars.
unfoldable pub digit_width : ℕ → ℕ
digit_width size = if ltb size 500 then 6 else if ltb size 800 then 7 else 8

-- `scalars.map(|s| to_radix_2w(&s, w)).zip(points)`.
unfoldable pub scalars_points :
    {G : Type 0} → ℕ → List (List ℕ) → List G → Option (List (List ℤ × G))
unfolding to_radix_2w
scalars_points w [] points = some []
scalars_points w (s ∷ scalars) [] = some []
scalars_points w (s ∷ scalars) (pt ∷ points) = to_radix_2w s w >>= λ digits.
    Option.map (λ rest. (digits, pt) ∷ rest) (scalars_points w scalars points)

-- `digits[digit_index]` of every pair.
unfoldable pub digits_at : {G : Type 0} → ℕ → List (List ℤ × G) → Option (List (ℤ × G))
digits_at digit_index [] = some []
digits_at digit_index ((digits, pt) ∷ rest) = get_elem? digits digit_index >>= λ digit.
    Option.map (λ others. (digit, pt) ∷ others) (digits_at digit_index rest)

module _ {G : Type 0} ⦃O : GroupOps G⦄ where
  unfoldable pub column_at : ℕ → List (List ℤ × G) → ℕ → Option G
  unfolding digits_at column
  column_at buckets_count pairs digit_index = digits_at digit_index pairs >>= column buckets_count

  -- `columns.fold(..)`, over the columns under `digit_index`.
  unfoldable pub fold_columns : ℕ → List (List ℤ × G) → ℕ → G → Option G
  unfolding column_at mul_by_pow_2
  fold_columns w pairs zero total = some total
  fold_columns w pairs (suc digit_index) total = column_at (2 ^ w / 2) pairs digit_index >>= λ p.
      fold_columns w pairs digit_index (O.add_assign (mul_by_pow_2 total w) p)

  unfoldable pub pippenger : List G → List (List ℕ) → Option G
  unfolding digit_width scalars_points fold_columns to_radix_2w_size_hint
  pippenger points scalars =
      let w = digit_width (length scalars) in
      (do
        digits_count ← to_radix_2w_size_hint w
        pairs ← scalars_points w scalars points
        hi_column ← column_at (2 ^ w / 2) pairs (digits_count - 1)
        fold_columns w pairs (digits_count - 1) hi_column)

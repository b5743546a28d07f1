-- ===== src/Preprocess/Fill.antt =====
-- `preprocess` of `PyG1`, and of `PyG2` and `PyFq12` (pairing/src/lib.rs): the count of entries,
-- and the table that is filled.
use mathlib.Core.Path.{subst}
use native.Mathlib.Nat.{
  le-div_iff_mul-le, div-le_self, mul-le-mul, mul-le-mul_left, mul_assoc, div-mul-le_self,
}
use aws_dpid.Prelude.{
  ℕ, ◌+◌, ◌-◌, ◌*◌, ◌/◌, ◌^◌, ◌<◌, ◌≤◌, ◌≡◌, refl, sym, true, false, ◌==◌, some, Option, List,
  arith,
}
use aws_dpid.Wnaf.Group.{Group}
use aws_dpid.Preprocess.{
  PointOps, ScalarOps, Cached, checked, g1_table_size, g2_table_size, fill_table, preprocess,
}
use aws_dpid.Preprocess.Bounds.{pow-le, checked-some}
use aws_dpid.Preprocess.Table.{Carries}
use aws_dpid.Preprocess.Rows.{fill_table_lem}
use aws_dpid.Preprocess.Scalar.{IsFr}
use aws_dpid.Preprocess.Correct.{IsExact, IsFull, rows, rows_cover, positive_factor}

-- A count of entries that has room for every row, and does not overflow.
abbrev pub Sizes : (ℕ → Option ℕ) → Type 0
Sizes table_size =
    (level : ℕ)
    → 0 < level
    → level ≤ 32
    → (size : ℕ) × (table_size level ≡ some size)
      × ((2 ^ level - 1) * rows level ≤ size)
      × (size < 18446744073709551616)

product-lt : (a b : ℕ) → a ≤ 2 ^ 32 → b ≤ 286 → a * b < 18446744073709551616
product-lt a b h k = let le : a * b ≤ 2 ^ 32 * 286 = mul-le-mul h k in omega arith

rows-le : (level : ℕ) → 0 < level → level ≤ 32 → rows level ≤ 286
rows-le level pos le =
    let h : (255 + level - 1) / level ≤ 255 + level - 1 = div-le_self (255 + level - 1) level in
    omega arith

whole_base : (level : ℕ) → level ≤ 32 → checked (2 ^ level) ≡ some (2 ^ level)
whole_base level le =
    checked-some (2 ^ level) (let h : 2 ^ level ≤ 2 ^ 32 = pow-le level 32 le in omega arith)

pub g1_table_size-Sizes : Sizes g1_table_size
unfolding g1_table_size
g1_table_size-Sizes level pos le =
    let nonzero : (level == 0) ≡ false = ground arith in
    let small : 2 ^ level ≤ 2 ^ 32 = pow-le level 32 le in
    let fits : (2 ^ level - 1) * rows level < 18446744073709551616 =
      product-lt (2 ^ level - 1) (rows level) (omega arith) (rows-le level pos le) in
    (
      (2 ^ level - 1) * rows level,
      rw (whole_base level le, nonzero) (checked-some _ fits),
      omega arith,
      fits,
    )

pub g2_table_size-Sizes : Sizes g2_table_size
unfolding g2_table_size
g2_table_size-Sizes level pos le =
    let nonzero : (level == 0) ≡ false = ground arith in
    let small : 2 ^ level ≤ 2 ^ 32 = pow-le level 32 le in
    let row = 2 ^ level - 1 in
    let product : row * (255 + level - 1) < 18446744073709551616 =
      product-lt row (255 + level - 1) (omega arith) (omega arith) in
    let less : row * (255 + level - 1) / level ≤ row * (255 + level - 1) =
      div-le_self (row * (255 + level - 1)) level in
    (
      row * (255 + level - 1) / level,
      rw (whole_base level le, checked-some _ product, nonzero) refl,
      (le-div_iff_mul-le pos).1 (
          let whole : rows level * level ≤ 255 + level - 1 =
            div-mul-le_self (255 + level - 1) level in
          let le : row * (rows level * level) ≤ row * (255 + level - 1) =
            mul-le-mul_left row whole in
          omega (arith, mul_assoc row (rows level) level)),
      omega arith,
    )

one_row : (level : ℕ) → IsExact level → 2 ^ level - 1 ≤ (2 ^ level - 1) * rows level
one_row level E =
    let le : (2 ^ level - 1) * 1 ≤ (2 ^ level - 1) * rows level =
      mul-le-mul_left (2 ^ level - 1)
        (positive_factor level (rows level) (rows_cover level E.at_least)) in
    omega arith

module _ {G S H : Type 0} (O : PointOps G S) (F : ScalarOps S) (A : Group H) {point : G → H}
    {number : S → ℕ} (P : Carries O A point number) (R : IsFr F number) where
  preprocess_eq :
      (table_size : ℕ → Option ℕ) (self : Cached G) (level size : ℕ) (t : List G)
      → table_size level ≡ some size
      → fill_table O F self.point (2 ^ level) size ≡ some t
      → preprocess O F table_size self level ≡ (record self { pp = t; pplevel = level }, true)
  unfolding preprocess
  preprocess_eq table_size self level size t counted made =
      rw (counted, preprocess) (rw (made, preprocess) refl)

  -- Take a count of entries that at every level from 1 to 32 does not overflow and has room for
  -- every row, as those of G1 and of G2. At a level of at most 32 whose windows end between the
  -- digits of a scalar and the letter F of its text, `preprocess` returns and keeps the point, and
  -- its table has every row of multiples of the point.
  pub preprocess_lem :
      (table_size : ℕ → Option ℕ)
      → Sizes table_size
      → (self : Cached G) (level : ℕ) → IsExact level
      → ((preprocess O F table_size self level).1 ≡ true)
        × ((preprocess O F table_size self level).0.point ≡ self.point)
        × IsFull A point (preprocess O F table_size self level).0
  preprocess_lem table_size Z self level E =
      let (size, counted, enough, fits) = Z level E.at_least E.at_most in
      let above : 2 ^ 1 ≤ 2 ^ level = pow-le 1 level E.at_least in
      let row : 2 ^ level - 1 ≤ size = omega (arith, one_row level E) in
      let (t, made, l, T) =
        fill_table_lem O A P F R self.point level size E.at_least (omega (arith, E.at_most)) row in
      subst (λ x. (x.1 ≡ true) × (x.0.point ≡ self.point) × IsFull A point x.0)
        (sym (preprocess_eq table_size self level size t counted made))
        (refl, refl, record { exact = E; table = T; full = omega arith; fits = omega arith })

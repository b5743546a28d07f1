-- ===== src/Preprocess/Table.antt =====
-- What the tables of pairing/src/lib.rs hold: multiples of the point, row by row.
use native.Mathlib.Decide.{dec_lt}
use aws_dpid.Prelude.{
  ℕ, ◌+◌, ◌*◌, ◌^◌, ◌<◌, ◌≡◌, ap, ◌∙◌, some, List, [], ◌∷◌, ◌++◌, length, get_elem?,
  get_elem?-append_of_lt, get_elem?-append_last, length-append, arith,
}
use aws_dpid.Wnaf.Group.{Group, multiple}
use aws_dpid.Preprocess.{PointOps}

-- The points stand for the elements of an abelian group, the scalars for numbers.
pub record Carries {G S H : Type 0} (O : PointOps G S) (A : Group H) (point : G → H)
    (number : S → ℕ) : Type 0 where
  pub point-zero : point O.zero ≡ A.nought
  pub point-double : (g : G) → point (O.double g) ≡ A.plus (point g) (point g)
  pub point-negate : (g : G) → point (O.negate g) ≡ A.minus (point g)
  pub affine_point : O.Aff → H
  pub point-into_affine : (g : G) → affine_point (O.into_affine g) ≡ point g
  pub point-affine_negate :
      (a : O.Aff) → affine_point (O.affine_negate a) ≡ A.minus (affine_point a)
  pub point-into_projective : (a : O.Aff) → point (O.into_projective a) ≡ affine_point a
  pub point-add : (g h : G) → point (O.add_assign g h) ≡ A.plus (point g) (point h)
  pub point-sub : (g h : G) → point (O.sub_assign g h) ≡ A.plus (point g) (A.minus (point h))
  pub point-mul : (g : G) (s : S) → point (O.mul_assign g s) ≡ multiple A (number s) (point g)

module _ {G H : Type 0} (A : Group H) (point : G → H) where
  -- Rows of `row` entries: the entry `b` of row `k` stands for `(b + 1) * 2 ^ (level * k)` times `a`.
  abbrev pub IsTable : ℕ → ℕ → H → List G → Type 0
  IsTable row level a pp =
      (k b : ℕ)
      → b < row
      → row * k + b < length pp
      → (g : G) × (get_elem? pp (row * k + b) ≡ some g)
        × (point g ≡ multiple A ((b + 1) * 2 ^ (level * k)) a)

  pub push-IsTable :
      (row level : ℕ) (a : H) (pp : List G) (g : G)
      → IsTable row level a pp
      → ((k b : ℕ)
          → b < row
          → row * k + b ≡ length pp
          → point g ≡ multiple A ((b + 1) * 2 ^ (level * k)) a)
      → IsTable row level a (pp ++ g ∷ [])
  push-IsTable row level a pp g T new k b lt h = elim (dec_lt (row * k + b) (length pp)) [
    | yes old ↦
        let (x, found, v) = T k b lt old in
        (x, get_elem?-append_of_lt pp g (row * k + b) old ∙ found, v)
    | no ge ↦
        let last : row * k + b ≡ length pp = omega (arith, length-append {0} pp (g ∷ [])) in
        (g, ap (get_elem? (pp ++ g ∷ [])) last ∙ get_elem?-append_last pp g, new k b lt last)
  ]

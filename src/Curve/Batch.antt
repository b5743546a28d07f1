-- ===== src/Curve/Batch.antt =====
-- `batch_normalization` of `curve_impl!`, Montgomery's trick: one inversion for a whole slice.
-- `pyg1_batch_normalization` of pairing/src/lib.rs is the same code over the field `g1`.
pub mod Prefix
pub mod Correct
use mathlib.Core.List.{reverse}
use mathlib.Core.Option
use aws_dpid.Prelude.{Bool, true, false, Option, List, [], ◌∷◌, ◌++◌, map, if◌then◌else◌}
use aws_dpid.Ring.{RingOps, FieldOps, 𝟙, ◌⊗◌, square as sqr, inverse as inverse?}
use aws_dpid.Curve.{Projective, is_normalized}

module _ {B : Type 0} ⦃F : RingOps B⦄ ⦃K : FieldOps B⦄ where
  -- First pass: the running product, and the list `prod` of its values.
  unfoldable pub first_pass : List (Projective B) → B → B × List B
  first_pass [] tmp = (tmp, [])
  first_pass (g ∷ v) tmp = elim (is_normalized g) [
    | true ↦ first_pass v tmp
    | false ↦ let t = tmp ⊗ g.z in let rest = first_pass v t in (rest.0, t ∷ rest.1)
  ]

  -- Second pass, over the slice and the products both reversed: every z becomes its inverse. The
  -- zip stops where the products end.
  unfoldable pub second_pass : List (Projective B) → List B → B → List (Projective B)
  second_pass [] prods tmp = []
  second_pass (g ∷ v) [] tmp = elim (is_normalized g) [
    | true ↦ g ∷ second_pass v [] tmp
    | false ↦ g ∷ v
  ]
  second_pass (g ∷ v) (s ∷ prods) tmp = elim (is_normalized g) [
    | true ↦ g ∷ second_pass v (s ∷ prods) tmp
    | false ↦ record g { z = tmp ⊗ s } ∷ second_pass v prods (tmp ⊗ g.z)
  ]

  -- Third pass, at one element: `g.z` is 1/z by now.
  unfoldable pub to_affine : Projective B → Projective B
  to_affine g =
      if is_normalized g
      then g
      else let z = sqr g.z in record { x = g.x ⊗ z; y = g.y ⊗ (z ⊗ g.z); z = 𝟙 }

  -- `skip(1)`.
  unfoldable pub skip_one : List B → List B
  skip_one [] = []
  skip_one (x ∷ xs) = xs

  -- `none` is the panic of `tmp.inverse().unwrap()`.
  unfoldable pub batch_normalization : List (Projective B) → Option (List (Projective B))
  unfolding first_pass second_pass to_affine skip_one
  batch_normalization v =
      let (tmp, prod) = first_pass v 𝟙 in
      Option.map
        (λ inv.
          map to_affine (reverse (second_pass (reverse v) (skip_one (reverse prod) ++ 𝟙 ∷ []) inv)))
        (inverse? tmp)

-- ===== src/Wnaf/Correct.antt =====
-- The exponentiation contexts of pairing/src/wnaf.rs, from the base and the scalar to the multiple.
use aws_dpid.Prelude.{ℕ, ◌+◌, ◌^◌, ◌<◌, ◌≡◌, ap, ◌∙◌, some, ◌>>=◌, arith}
use aws_dpid.Wnaf.{
  GroupOps, ReprOps, wnaf_table, wnaf_form, wnaf_exp, base_then_scalar, scalar_then_base,
}
use aws_dpid.Wnaf.Form.{IsRepr, wnaf_form_lem}
use aws_dpid.Wnaf.Group.{Group, Represents, multiple}
use aws_dpid.Wnaf.Exp.{wnaf_exp_lem}
use aws_dpid.Wnaf.Window.{IsWindow}

module _ {G H S : Type 0} ⦃O : GroupOps G⦄ (A : Group H) {point : G → H} (P : Represents O A point)
    ⦃R : ReprOps S⦄ {size : ℕ} {value : S → ℕ} (V : IsRepr R size value) where
  -- For any window from 2 to 16, a scalar with room for one more digit and enough fuel, both orders
  -- of use return the base times the scalar, and the same representative of it.
  pub wnaf_lem :
      (fuel : ℕ) (base : G) (scalar : S) (window : ℕ)
      → IsWindow window
      → value scalar < fuel
      → value scalar + 2 ^ window < size
      → (g : G) × (base_then_scalar fuel base scalar window ≡ some g)
        × (scalar_then_base fuel scalar base window ≡ some g)
        × (point g ≡ multiple A (value scalar) (point base))
  unfolding base_then_scalar scalar_then_base IsWindow
  wnaf_lem fuel base scalar window (low, high) lt fits =
      let positive : 0 < window = omega arith in
      let (ds, e, form, sum) = wnaf_form_lem V window positive (omega arith) fuel scalar lt fits in
      let (t, g, made, f, h) =
        wnaf_exp_lem A P base window positive (omega arith) ds (value scalar) form sum in
      (
        g,
        ap (λ o. o >>= λ t. wnaf_form fuel scalar window >>= λ ds. wnaf_exp t ds) made
            ∙ ap (λ o. o >>= λ ds. wnaf_exp t ds) e
            ∙ f,
        ap (λ o. o >>= λ ds. wnaf_table base window >>= λ t. wnaf_exp t ds) e
            ∙ ap (λ o. o >>= λ t. wnaf_exp t ds) made
            ∙ f,
        h,
      )

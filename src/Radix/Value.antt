-- ===== src/Radix/Value.antt =====
-- The digits of `to_radix_2w` (pairing/src/lib.rs) stand for the scalar.
use native.Mathlib.Nat.{
  mul-add, add-mul, mul_comm, mod-lt, div-add-mod, div-div-eq-div-mul, suc-mul,
}
use mathlib.Core.Option
use aws_dpid.Prelude.{
  ℕ, zero, suc, ◌+◌, ◌-◌, ◌*◌, ◌/◌, ◌%◌, ◌^◌, ◌<◌, ◌≤◌, ◌≡◌, refl, sym, ap, ◌∙◌, some, ◌>>=◌, List,
  [], ◌∷◌, length, arith,
}
use aws_dpid.Wnaf.{ℤ}
use aws_dpid.Wnaf.Digits.{pos_part, neg_part}
use aws_dpid.Preprocess.Bounds.{pow-add, pow_pos}
use aws_dpid.Preprocess.Scalar.{limbs_value}
use aws_dpid.Radix.{new_carry, digits_loop}
use aws_dpid.Radix.Window.{AreLimbs, bit_buf_lem}
use aws_dpid.Radix.Recenter.{recentered, recenter_lem}

-- The digits, `w` bits wide and the lowest first, stand for `plus_value - minus_value`.
unfoldable pub plus_value : ℕ → List ℤ → ℕ
plus_value w [] = 0
plus_value w (d ∷ ds) = pos_part d + 2 ^ w * plus_value w ds

unfoldable pub minus_value : ℕ → List ℤ → ℕ
minus_value w [] = 0
minus_value w (d ∷ ds) = neg_part d + 2 ^ w * minus_value w ds

-- `n` digits further up.
unfoldable pub raise : ℕ → ℕ → ℕ → ℕ
raise w zero x = x
raise w (suc n) x = 2 ^ w * raise w n x

-- Digits of at most half of the radix, which a bucket has room for.
pub data AreSmall (w : ℕ) : List ℤ → Type 0 where
  all_small : AreSmall w []
  small_then :
      (d : ℤ) (ds : List ℤ)
      → pos_part d < 2 ^ w / 2
      → pos_part d + neg_part d ≤ 2 ^ w / 2
      → AreSmall w ds
      → AreSmall w (d ∷ ds)

next_window : (v w i : ℕ) → v / 2 ^ (i * w) / 2 ^ w ≡ v / 2 ^ ((i + 1) * w)
next_window v w i =
    div-div-eq-div-mul v (2 ^ (i * w)) (2 ^ w)
    ∙ ap (λ n. v / n)
        (sym (pow-add (i * w) w)
          ∙ ap (λ n. 2 ^ n) {x = i * w + w} {y = (i + 1) * w}
              (omega (arith, suc-mul i w, ap (λ n. n * w) {x = i + 1} {y = suc i} (omega arith))))

-- What one turn keeps.
turn_sum :
    (r p m t x y c c' d e coef : ℕ)
    → p + t ≡ m + y + c'
    → x ≡ r * y + (coef - c)
    → c ≤ coef
    → d + c' * r ≡ coef + e
    → (d + r * p) + r * t ≡ (e + r * m) + x + c
turn_sum r p m t x y c c' d e coef ih whole le worth =
    omega
      (arith, ap (λ n. r * n) ih, mul-add r p t, mul-add r (m + y) c', mul-add r m y, mul_comm r c')

module _ {l : List ℕ} (L : AreLimbs l) (w : ℕ) (wide : 6 ≤ w) (narrow : w ≤ 8) where
  abbrev left : ℕ → ℕ
  left i = limbs_value l / 2 ^ (i * w)

  -- The loop never panics; the digits and what is left above them stand for the number from the
  -- digit `i` on, and the carry that came in.
  pub digits_loop_lem :
      (turns i carry : ℕ)
      → carry ≤ 1
      → (i + turns) * w < 256 + w
      → (ds : List ℤ) × (c : ℕ) × (digits_loop l w turns i carry ≡ some (ds, c))
        × (length ds ≡ turns)
        × AreSmall w ds
        × (c ≤ 1)
        × (plus_value w ds + raise w turns (left (i + turns) + c)
            ≡ minus_value w ds + left i + carry)
  unfolding digits_loop plus_value minus_value raise
  digits_loop_lem zero i carry le fits = (
    [],
    carry,
    refl,
    refl,
    all_small,
    le,
    omega (arith, ap left {x = i + 0} {y = i} (omega arith)),
  )
  digits_loop_lem (suc turns) i carry le fits =
      let inside : i * w < 256 = omega (arith, add-mul i (suc turns) w, suc-mul turns w) in
      let (buf, read, low) = bit_buf_lem L w i narrow inside in
      let coef = carry + buf % 2 ^ w in
      let bounded : buf % 2 ^ w < 2 ^ w = mod-lt buf (pow_pos w) in
      let R = recenter_lem w wide narrow coef (omega arith) in
      let (ds, c, run, len, small, last, v) =
        digits_loop_lem turns (i + 1) (new_carry w coef) R.carry-le
          (omega (arith, ap (λ n. n * w) {x = i + 1 + turns} {y = i + suc turns} (omega arith))) in
      (
        recentered w coef ∷ ds,
        c,
        ap
              (λ o. o >>= λ b.
                Option.map (λ s. (recentered w (carry + b % 2 ^ w) ∷ s.0, s.1))
                  (digits_loop l w turns (i + 1) (new_carry w (carry + b % 2 ^ w))))
              read
            ∙ ap (Option.map (λ s. (recentered w coef ∷ s.0, s.1))) run,
        ap suc len,
        small_then (recentered w coef) ds R.pos-lt R.size-le small,
        last,
        turn_sum (2 ^ w) (plus_value w ds) (minus_value w ds)
            (raise w turns (left (i + suc turns) + c)) (left i) (left (i + 1)) carry
            (new_carry w coef) (pos_part (recentered w coef)) (neg_part (recentered w coef)) coef
            (ap (λ k. plus_value w ds + raise w turns (left k + c)) {x = i + suc turns}
                {y = i + 1 + turns} (omega arith)
              ∙ v)
            (omega (
              arith,
              div-add-mod (left i) (2 ^ w),
              ap (λ n. 2 ^ w * n) (next_window (limbs_value l) w i),
              low,
            ))
            (omega arith) R.worth,
      )

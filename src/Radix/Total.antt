-- ===== src/Radix/Total.antt =====
-- `to_radix_2w` as a whole (pairing/src/lib.rs): no carry is left over, and the digits stand for the
-- scalar.
use native.Mathlib.Nat.{mul-add, mul_left_comm, suc-mul, mul-le-mul_left}
use mathlib.Core.Option
use mathlib.Core.Path.{subst}
use aws_dpid.Prelude.{
  ℕ, zero, suc, ◌+◌, ◌*◌, ◌/◌, ◌^◌, ◌<◌, ◌≤◌, ◌≡◌, refl, ap, ap₂, ◌∙◌, some, ◌>>=◌, ◌⊎◌, inl, inr,
  List, ◌∷◌, ◌++◌, length, length-append, arith,
}
use aws_dpid.Wnaf.{ℤ, pos}
use aws_dpid.Wnaf.Digits.{neg_part}
use aws_dpid.Preprocess.Scalar.{limbs_value, fr_modulus}
use aws_dpid.Radix.{as_i8, digits_loop, zero_digits, add_digit, to_radix_2w, to_radix_2w_size_hint}
use aws_dpid.Radix.Window.{AreLimbs}
use aws_dpid.Radix.Recenter.{add_nothing, width-cases}
use aws_dpid.Radix.Value.{
  AreSmall, all_small, small_then, plus_value, minus_value, raise, digits_loop_lem,
}

raise-zero : (w n : ℕ) → raise w n 0 ≡ 0
unfolding raise
raise-zero w zero = refl
raise-zero w (suc n) = omega (arith, ap (λ x. 2 ^ w * x) (raise-zero w n))

minus_step : (k h e m r : ℕ) → e ≤ h → k * m + h ≤ h * r → k * (e + suc k * m) + h ≤ h * (suc k * r)
minus_step k h e m r le ih =
    let small : k * e ≤ k * h = mul-le-mul_left k le in
    let times : suc k * (k * m + h) ≤ suc k * (h * r) = mul-le-mul_left (suc k) ih in
    omega (
      arith,
      mul-add k e (suc k * m),
      mul_left_comm k (suc k) m,
      mul_left_comm h (suc k) r,
      mul-add (suc k) (k * m) h,
      suc-mul k h,
    )

-- Digits that small cannot make up for a carry.
minus-le :
    (w k h : ℕ)
    → 2 ^ w ≡ suc k
    → 2 ^ w / 2 ≡ h
    → {ds : List ℤ} → AreSmall w ds
    → k * minus_value w ds + h ≤ h * raise w (length ds) 1
unfolding minus_value raise
minus-le w k h e half all_small = omega arith
minus-le w k h e half (small_then d ds lt le small) = rw e (
    minus_step k h (neg_part d) (minus_value w ds) (raise w (length ds) 1) (omega arith)
      (minus-le w k h e half small))

small-append : (w : ℕ) {a b : List ℤ} → AreSmall w a → AreSmall w b → AreSmall w (a ++ b)
small-append w all_small s = s
small-append w (small_then d ds lt le r) s = small_then d _ lt le (small-append w r s)

small-zero_digits : (w m : ℕ) → 0 < 2 ^ w / 2 → AreSmall w (zero_digits m)
unfolding zero_digits
small-zero_digits w zero h = all_small
small-zero_digits w (suc m) h =
    small_then (pos 0) (zero_digits m) h (omega arith) (small-zero_digits w m h)

pub length-zero_digits : (m : ℕ) → length (zero_digits m) ≡ m
unfolding zero_digits
length-zero_digits zero = refl
length-zero_digits (suc m) = ap suc (length-zero_digits m)

add_digit_nothing :
    (w : ℕ)
    → 2 ^ w / 2 ≤ 128
    → {ds : List ℤ} → AreSmall w ds
    → (i : ℕ) → i < length ds
    → add_digit ds i (pos 0) ≡ some ds
unfolding add_digit
add_digit_nothing w h all_small i lt = absurd (omega arith)
add_digit_nothing w h (small_then d ds less le s) zero lt =
    ap (λ x. some (x ∷ ds)) (add_nothing d (omega arith) (omega arith))
add_digit_nothing w h (small_then d ds less le s) (suc i) lt =
    ap (Option.map (λ rest. d ∷ rest)) (add_digit_nothing w h s i (omega arith))

-- The digits up to the count of `to_radix_2w_size_hint`, with zeroes above, stand for the scalar.
pub record IsRadix (w v : ℕ) (l : List ℕ) : Type 0 where
  pub digits : List ℤ
  pub above : ℕ
  pub hint : ℕ
  pub made : to_radix_2w l w ≡ some (digits ++ zero_digits above)
  pub hinted : to_radix_2w_size_hint w ≡ some (suc hint)
  pub enough : length digits ≤ suc hint
  pub not_more : suc hint ≤ length digits + above
  pub small : AreSmall w (digits ++ zero_digits above)
  pub worth : plus_value w digits ≡ minus_value w digits + v

zero_or_one : (c : ℕ) → c ≤ 1 → (c ≡ 0) ⊎ (c ≡ 1)
zero_or_one zero h = inl refl
zero_or_one (suc zero) h = inr refl
zero_or_one (suc (suc c)) h = absurd (omega arith)

module _ {l : List ℕ} (L : AreLimbs l) where
  -- Where the digits leave nothing of the number above them, and could not make up for a carry, there
  -- is none.
  digits_done :
      (w k h n : ℕ)
      → 2 ^ w ≡ suc k
      → 2 ^ w / 2 ≡ h
      → 6 ≤ w
      → w ≤ 8
      → (0 + n) * w < 256 + w
      → limbs_value l / 2 ^ ((0 + n) * w) ≡ 0
      → ((m : ℕ) → k * m + h ≤ h * raise w n 1 → m + limbs_value l < raise w n 1)
      → (ds : List ℤ) × (digits_loop l w n 0 0 ≡ some (ds, 0))
        × (length ds ≡ n)
        × AreSmall w ds
        × (plus_value w ds ≡ minus_value w ds + limbs_value l)
  digits_done w k h n e half wide narrow fits none_left room =
      let (ds, c, run, len, small, le, v) =
        (digits_loop_lem L w wide narrow) n 0 0 (omega arith) fits in
      let start : limbs_value l / 2 ^ (0 * w) ≡ limbs_value l =
        ap (λ j. limbs_value l / 2 ^ j) {x = 0 * w} {y = 0} (omega arith) ∙ omega arith in
      let top : raise w n (limbs_value l / 2 ^ ((0 + n) * w) + c) ≡ raise w n c =
        ap (raise w n) (ap (λ x. x + c) none_left ∙ omega arith) in
      elim (zero_or_one c le) [
        | inl none_carried ↦ (
          ds,
          run ∙ ap (λ x. some (ds, x)) none_carried,
          len,
          small,
          omega (arith, ap (raise w n) none_carried, raise-zero w n, v, start, top),
        )
        | inr carried ↦
            let bounded = room (minus_value w ds) (
              subst (λ m. k * minus_value w ds + h ≤ h * raise w m 1) len
                (minus-le w k h e half small)) in
            absurd (omega (arith, ap (raise w n) carried, v, start, top, bounded))
      ]

-- The digits reach above the order of `Fr`, at each width.
unfolded_6 : raise 6 43 1 ≡ 2 ^ 258
unfolding raise
unfolded_6 = refl

unfolded_7 : raise 7 37 1 ≡ 2 ^ 259
unfolding raise
unfolded_7 = refl

unfolded_8 : raise 8 32 1 ≡ 2 ^ 256
unfolding raise
unfolded_8 = refl

-- From the digits of the loop, with zeroes above: the last addition is of no carry.
assembled :
    (w n above index hint : ℕ) (l : List ℕ) (ds : List ℤ)
    → 0 < 2 ^ w / 2
    → 2 ^ w / 2 ≤ 128
    → length ds ≡ n
    → n ≤ suc hint
    → suc hint ≤ n + above
    → index < n + above
    → AreSmall w ds
    → plus_value w ds ≡ minus_value w ds + limbs_value l
    → to_radix_2w_size_hint w ≡ some (suc hint)
    → to_radix_2w l w ≡ add_digit (ds ++ zero_digits above) index (pos 0)
    → IsRadix w (limbs_value l) l
assembled w n above index hint l ds half fits len enough not_more inside small v hinted run =
    let padded = small-append w small (small-zero_digits w above half) in
    let long : length (ds ++ zero_digits above) ≡ n + above =
      length-append ds (zero_digits above) ∙ ap₂ (λ a b. a + b) len (length-zero_digits above) in
    record {
      digits = ds;
      above = above;
      hint = hint;
      made = run ∙ add_digit_nothing w fits padded index (omega (arith, long));
      hinted = hinted;
      enough = omega arith;
      not_more = omega arith;
      small = padded;
      worth = v;
    }

module _ {l : List ℕ} (L : AreLimbs l) (reduced : limbs_value l < fr_modulus) where
  at_6 : IsRadix 6 (limbs_value l) l
  unfolding to_radix_2w to_radix_2w_size_hint as_i8
  at_6 =
      let (ds, run, len, small, v) =
        digits_done L 6 63 32 43 refl refl (omega arith) (omega arith) (omega arith) (omega arith)
          (λ m h. omega (arith, unfolded_6)) in
      assembled 6 43 0 42 42 l ds (omega arith) (omega arith) len (omega arith) (omega arith)
        (omega arith) small v refl
        (ap (λ o. o >>= λ s. add_digit (s.0 ++ zero_digits 0) 42 (as_i8 (pos (s.1 * 64)))) run)

  at_7 : IsRadix 7 (limbs_value l) l
  unfolding to_radix_2w to_radix_2w_size_hint as_i8
  at_7 =
      let (ds, run, len, small, v) =
        digits_done L 7 127 64 37 refl refl (omega arith) (omega arith) (omega arith) (omega arith)
          (λ m h. omega (arith, unfolded_7)) in
      assembled 7 37 6 36 36 l ds (omega arith) (omega arith) len (omega arith) (omega arith)
        (omega arith) small v refl
        (ap (λ o. o >>= λ s. add_digit (s.0 ++ zero_digits 6) 36 (as_i8 (pos (s.1 * 128)))) run)

  at_8 : IsRadix 8 (limbs_value l) l
  unfolding to_radix_2w to_radix_2w_size_hint as_i8
  at_8 =
      let (ds, run, len, small, v) =
        digits_done L 8 255 128 32 refl refl (omega arith) (omega arith) (omega arith) (omega arith)
          (λ m h. omega (arith, unfolded_8)) in
      assembled 8 32 11 32 32 l ds (omega arith) (omega arith) len (omega arith) (omega arith)
        (omega arith) small v refl
        (ap (λ o. o >>= λ s. add_digit (s.0 ++ zero_digits 11) 32 (as_i8 (pos s.1))) run)

  -- At each of the widths 6, 7 and 8 a scalar under the order of `Fr` has digits: none is larger than
  -- half of the radix, those up to the count of `to_radix_2w_size_hint` stand for the scalar, and the
  -- others are zero.
  pub to_radix_2w_lem : (w : ℕ) → 6 ≤ w → w ≤ 8 → IsRadix w (limbs_value l) l
  to_radix_2w_lem w h k = width-cases (λ v. IsRadix v (limbs_value l) l) at_6 at_7 at_8 w h k

-- ===== src/Wnaf/Form.antt =====
-- `wnaf_form` of pairing/src/wnaf.rs: its loop, its digits, and the number that they stand for.
use mathlib.Core.Option
use Prim.Native.Nat.{◌∣◌}
use native.Mathlib.Nat.{
  dvd_refl, pow-le-pow_right, two-mul, dvd-mul_right, dvd_trans, pow-succ', zero-add, suc-add,
  two-pow-succ, mod-mod_of_dvd, mod-lt, div-add-mod, dvd-mul_left, one-le-pow,
}
use aws_dpid.Prelude.{
  ℕ, zero, suc, ◌+◌, ◌-◌, ◌*◌, ◌/◌, ◌%◌, ◌^◌, ◌≤◌, ◌<◌, ◌≡◌, refl, sym, ap, ◌∙◌, false, Bool, true,
  Bool-cases, inl, inr, if-elim, if◌then◌else◌, some, List, [], ◌∷◌, ◌==◌, ==→eq, ltb, arith,
}
use aws_dpid.Wnaf.{ReprOps, ℤ, pos, negsuc, digit, subtract, form_step, wnaf_form}
use aws_dpid.Wnaf.Digits.{
  pos_part, neg_part, pos_value, neg_value, IsDigit, none_here, above, below, IsForm, finished,
  digit_then,
}

abbrev pub limb : ℕ
limb = 18446744073709551616

-- What `PrimeFieldRepr` documents: a little endian number under `size`, in limbs of 64 bits.
pub record IsRepr {S : Type 0} (R : ReprOps S) (size : ℕ) (value : S → ℕ) : Type 0 where
  pub is_zero-value : (c : S) → R.is_zero c ≡ (value c == 0)
  pub is_odd-value : (c : S) → R.is_odd c ≡ (value c % 2 == 1)
  pub low_limb-value : (c : S) → R.low_limb c ≡ value c % limb
  pub value-from : (n : ℕ) → n < limb → value (R.from n) ≡ n
  pub value-sub : (a b : S) → value b ≤ value a → value (R.sub_noborrow a b) ≡ value a - value b
  pub value-add :
      (a b : S) → value a + value b < size → value (R.add_nocarry a b) ≡ value a + value b
  pub value-div2 : (c : S) → value (R.div2 c) ≡ value c / 2

pow_divides : (k n : ℕ) → 2 ^ n ∣ 2 ^ (k + n)
pow_divides zero n = rw (zero-add n) (dvd_refl (2 ^ n))
pow_divides (suc k) n =
    rw (suc-add k n, pow-succ' 2 (k + n))
      (dvd_trans (2 ^ n) (pow_divides k n) (dvd-mul_left (2 ^ (k + n)) 2))

pow_divides-limb : (n : ℕ) → n < 65 → 2 ^ n ∣ limb
pow_divides-limb n lt =
    let e : ◌≡◌ {A = ℕ} (64 - n + n) 64 = omega arith in
    rw (ap (λ k. 2 ^ k) e) at (pow_divides (64 - n) n)

even_of : (n : ℕ) → (n % 2 == 1) ≡ false → n % 2 ≡ 0
even_of n h = ground arith

positive_of : (n : ℕ) → (n == 0) ≡ false → 0 < n
positive_of n h = ground arith

-- What a digit `d` must be for the scalar `v`, with `h` half of the modulus.
abbrev Fits : ℕ → ℕ → ℤ → Type 0
Fits h v d =
    IsDigit h d
    × (pos_part d ≤ v)
    × ((v + neg_part d - pos_part d) % 2 ≡ 0)
    × ((v + neg_part d - pos_part d) / 2 < v)

above_odd : (h u : ℕ) → u % 2 ≡ 1 → u < h → IsDigit h (pos u)
above_odd h zero odd lt = absurd (omega arith)
above_odd h (suc u) odd lt = above u odd lt

below_odd : (h v k : ℕ) → suc k % 2 ≡ 1 → v % 2 ≡ 1 → suc k < h → h < v → Fits h v (negsuc k)
below_odd h v k odd vodd lt le = (below k odd lt, omega arith, omega arith, omega arith)

digit-Fits :
    (h g v u : ℕ)
    → h ≡ g + g
    → u % 2 ≡ 1
    → v % 2 ≡ 1
    → u < h + h
    → u ≤ v
    → Fits h v (if ltb h u then negsuc (h + h - u - 1) else pos u)
digit-Fits h g v u e odd vodd lt le =
    if-elim (Fits h v) (ltb h u)
      (λ above_half.
        let gt : h < u = ground arith in
        below_odd h v (h + h - u - 1) (omega arith) vodd (omega arith) (omega arith))
      (λ not_above.
        let small : u < h = ground arith in (above_odd h u odd small, le, omega arith, omega arith))

module _ {S : Type 0} ⦃R : ReprOps S⦄ {size : ℕ} {value : S → ℕ} (V : IsRepr R size value) where
  subtract_lem :
      (h : ℕ) (d : ℤ) (c : S)
      → h ≤ limb
      → IsDigit h d
      → pos_part d ≤ value c
      → value c + h < size
      → value (subtract d c) ≡ value c + neg_part d - pos_part d
  unfolding subtract
  subtract_lem h d c small none_here le fits =
      let e = V.value-from 0 (omega arith) in
      omega (arith, V.value-add c (R.from 0) (omega (arith, e)), e)
  subtract_lem h d c small (above n odd lt) le fits =
      let e = V.value-from (suc n) (omega arith) in
      omega (arith, V.value-sub c (R.from (suc n)) (omega (arith, e)), e)
  subtract_lem h d c small (below n odd lt) le fits =
      let e = V.value-from (suc n) (omega arith) in
      omega (arith, V.value-add c (R.from (suc n)) (omega (arith, e)), e)

  module _ (window : ℕ) (le : 0 < window) (lt : window < 62) where
    abbrev half : ℕ
    half = 2 ^ window

    modulus : 2 ^ (window + 1) ≡ half + half
    modulus = ap (λ k. 2 ^ k) {x = window + 1} {y = suc window} (omega arith) ∙ two-pow-succ window

    even_half : (g : ℕ) × (half ≡ g + g)
    even_half = (
      2 ^ (window - 1),
      ap (λ k. 2 ^ k) {x = window} {y = suc (window - 1)} (omega arith) ∙ two-pow-succ (window - 1),
    )

    low_digits : (c : S) → R.low_limb c % 2 ^ (window + 1) ≡ value c % 2 ^ (window + 1)
    low_digits c =
        ap (λ x. x % 2 ^ (window + 1)) (V.low_limb-value c)
        ∙ mod-mod_of_dvd (2 ^ (window + 1)) (value c) (pow_divides-limb (window + 1) (omega arith))

    -- The digit, where nothing overflows.
    small_digit : S → ℤ
    small_digit c =
        let u = R.low_limb c % 2 ^ (window + 1) in
        if ltb half u then negsuc (2 ^ (window + 1) - u - 1) else pos u

    digit_lem : (c : S) → digit window (R.low_limb c) ≡ some (small_digit c)
    unfolding digit small_digit
    digit_lem c =
        let in_range : ltb 62 window ≡ false = ground arith in
        let below_top : (window == 62) ≡ false = ground arith in
        rw (in_range, below_top) (some-if _ _ (ltb half (R.low_limb c % 2 ^ (window + 1))))
      where
        some-if : (x y : ℤ) (b : Bool) → (if b then some x else some y) ≡ some (if b then x else y)
        some-if x y true = refl
        some-if x y false = refl

    odd_step : (c : S) → value c % 2 ≡ 1 → Fits half (value c) (small_digit c)
    unfolding small_digit
    odd_step c odd =
        let (g, e) = even_half in
        let u = value c % (half + half) in
        let two_divides : u % 2 ≡ value c % 2 =
          mod-mod_of_dvd 2 (value c) (rw (sym (two-mul half)) (dvd-mul_right 2 half)) in
        let positive : 1 ≤ half = one-le-pow window 2 (omega arith) in
        let under : u < half + half = mod-lt (value c) (omega arith) in
        rw (low_digits c, modulus)
          (digit-Fits half g (value c) u e (two_divides ∙ odd) odd under
            (omega (arith, div-add-mod (value c) (half + half))))

    -- One turn of the loop: the digit, and the scalar that is left, which is smaller.
    Turn : S → ℤ × S → Type 0
    Turn c r =
        IsDigit half r.0
        × (pos_part r.0 + 2 * value r.1 ≡ value c + neg_part r.0)
        × (value r.1 < value c)

    form_step-even : (c : S) → 0 < value c → value c % 2 ≡ 0 → Turn c (pos 0, R.div2 c)
    unfolding Turn
    form_step-even c positive even =
        (none_here, omega (arith, V.value-div2 c), omega (arith, V.value-div2 c))

    form_step-odd :
        (c : S)
        → value c % 2 ≡ 1
        → value c + half < size
        → Turn c (small_digit c, R.div2 (subtract (small_digit c) c))
    unfolding Turn
    form_step-odd c odd fits =
        let u = small_digit c in
        let (is_digit, below_c, even, smaller) = odd_step c odd in
        let small : half ≤ limb =
          pow-le-pow_right {n = 2} (omega arith) {i = window} {j = 64} (omega arith) in
        let e = subtract_lem half u c small is_digit below_c fits in
        let f = V.value-div2 (subtract u c) in (is_digit, omega (arith, e, f), omega (arith, e, f))

    form_step_lem :
        (c : S)
        → 0 < value c
        → value c + half < size
        → (r : ℤ × S) × (form_step window c ≡ some r) × Turn c r
    unfolding form_step
    form_step_lem c positive fits = elim (Bool-cases (R.is_odd c)) [
      | inl e ↦ (
        (small_digit c, R.div2 (subtract (small_digit c) c)),
        rw (e, digit_lem c) refl,
        form_step-odd c (==→eq _ _ (sym (V.is_odd-value c) ∙ e)) fits,
      )
      | inr e ↦
          let not_odd : (value c % 2 == 1) ≡ false = sym (V.is_odd-value c) ∙ e in
          ((pos 0, R.div2 c), rw e refl, form_step-even c positive (even_of (value c) not_odd))
    ]

    -- For a window from 1 to 61 and a scalar with room for one more digit, the loop ends, with fuel
    -- above the scalar; every digit is zero, or odd and of absolute value under 2^window, and the
    -- digits stand for the scalar.
    pub wnaf_form_lem :
        (fuel : ℕ) (c : S)
        → value c < fuel
        → value c + 2 ^ window < size
        → (ds : List ℤ) × (wnaf_form fuel c window ≡ some ds)
          × IsForm (2 ^ window) ds
          × (pos_value ds ≡ value c + neg_value ds)
    unfolding wnaf_form pos_value neg_value Turn
    wnaf_form_lem zero c lt fits = absurd (omega arith)
    wnaf_form_lem (suc fuel) c lt fits = elim (Bool-cases (R.is_zero c)) [
      | inl e ↦
          let zero_value = ==→eq _ _ (sym (V.is_zero-value c) ∙ e) in
          ([], rw e refl, finished, omega (arith, zero_value))
      | inr e ↦
          let positive = positive_of (value c) (sym (V.is_zero-value c) ∙ e) in
          let (turn, step, (is_digit, sum, smaller)) = form_step_lem c positive fits in
          let (ds, f, form, g) = wnaf_form_lem fuel turn.1 (omega arith) (omega arith) in
          (
            turn.0 ∷ ds,
            rw (e, step) (ap (Option.map (λ wnaf. turn.0 ∷ wnaf)) f),
            digit_then _ ds is_digit form,
            omega arith,
          )
    ]

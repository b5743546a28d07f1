-- ===== src/Radix/Window.antt =====
-- The bits that `to_radix_2w` (pairing/src/lib.rs) takes out of the limbs are those of the number.
use native.Mathlib.Nat.{
  mul-add-div, mul-add-mod_self_left, mul_assoc, mul-add, div-div-eq-div-mul, mul_comm, div-add-mod,
  mul_left_comm,
}
use aws_dpid.Prelude.{
  ℕ, zero, suc, ◌+◌, ◌-◌, ◌*◌, ◌/◌, ◌%◌, ◌^◌, ◌<◌, ◌≤◌, ◌≡◌, refl, sym, ap, ap₂, ◌∙◌, Bool, true,
  false, ◌||◌, ltb, ◌==◌, Bool-cases, ==→eq, inl, inr, some, List, [], ◌∷◌, get_elem?, arith,
}
use aws_dpid.Preprocess.Bounds.{pow-add, pow_pos}
use aws_dpid.Preprocess.Scalar.{limbs_value}
use aws_dpid.Radix.{bit_buf}

-- A window within the limb.
window_inside :
    (l t k w m : ℕ) → k + (w + m) ≡ 64 → (l + 2 ^ 64 * t) / 2 ^ k % 2 ^ w ≡ l / 2 ^ k % 2 ^ w
window_inside l t k w m e =
    let split : 2 ^ 64 * t ≡ 2 ^ k * (2 ^ w * (2 ^ m * t)) =
      ap (λ n. 2 ^ n * t) (sym e)
      ∙ ap (λ n. n * t) (pow-add k (w + m) ∙ ap (λ n. 2 ^ k * n) (pow-add w m))
      ∙ mul_assoc (2 ^ k) (2 ^ w * 2 ^ m) t
      ∙ ap (λ n. 2 ^ k * n) (mul_assoc (2 ^ w) (2 ^ m) t) in
    ap (λ n. n / 2 ^ k % 2 ^ w) {x = l + 2 ^ 64 * t} {y = 2 ^ k * (2 ^ w * (2 ^ m * t)) + l}
      (omega (arith, split))
    ∙ ap (λ n. n % 2 ^ w) (mul-add-div (pow_pos k) (2 ^ w * (2 ^ m * t)) l)
    ∙ mul-add-mod_self_left (2 ^ w) (2 ^ m * t) (l / 2 ^ k)

-- A window that reaches into the next limb.
window_across :
    (l h t k s w m : ℕ)
    → k + s ≡ 64
    → w + m ≡ 64
    → (l + 2 ^ 64 * (h + 2 ^ 64 * t)) / 2 ^ k % 2 ^ w ≡ (l / 2 ^ k + h * 2 ^ s % 2 ^ 64) % 2 ^ w
window_across l h t k s w m e f =
    let q = h * 2 ^ s / 2 ^ 64 in
    let r = h * 2 ^ s % 2 ^ 64 in
    let parts : 2 ^ 64 * q + r ≡ h * 2 ^ s = div-add-mod (h * 2 ^ s) (2 ^ 64) in
    let whole : 2 ^ 64 * (h + 2 ^ 64 * t) ≡ 2 ^ k * (2 ^ s * (h + 2 ^ 64 * t)) =
      ap (λ n. 2 ^ n * (h + 2 ^ 64 * t)) (sym e)
      ∙ ap (λ n. n * (h + 2 ^ 64 * t)) (pow-add k s)
      ∙ mul_assoc (2 ^ k) (2 ^ s) (h + 2 ^ 64 * t) in
    let upper : 2 ^ s * (h + 2 ^ 64 * t) ≡ 2 ^ 64 * (q + 2 ^ s * t) + r = omega (
      arith,
      mul-add (2 ^ s) h (2 ^ 64 * t),
      mul_comm (2 ^ s) h,
      mul_left_comm (2 ^ s) (2 ^ 64) t,
      parts,
    ) in
    let split : 2 ^ 64 * (q + 2 ^ s * t) ≡ 2 ^ w * (2 ^ m * (q + 2 ^ s * t)) =
      ap (λ n. 2 ^ n * (q + 2 ^ s * t)) (sym f)
      ∙ ap (λ n. n * (q + 2 ^ s * t)) (pow-add w m)
      ∙ mul_assoc (2 ^ w) (2 ^ m) (q + 2 ^ s * t) in
    ap (λ n. n / 2 ^ k % 2 ^ w) {x = l + 2 ^ 64 * (h + 2 ^ 64 * t)}
      {y = 2 ^ k * (2 ^ s * (h + 2 ^ 64 * t)) + l} (omega (arith, whole))
    ∙ ap (λ n. n % 2 ^ w) (mul-add-div (pow_pos k) (2 ^ s * (h + 2 ^ 64 * t)) l)
    ∙ ap (λ n. n % 2 ^ w) {x = 2 ^ s * (h + 2 ^ 64 * t) + l / 2 ^ k}
        {y = 2 ^ w * (2 ^ m * (q + 2 ^ s * t)) + (l / 2 ^ k + r)} (omega (arith, upper, split))
    ∙ mul-add-mod_self_left (2 ^ w) (2 ^ m * (q + 2 ^ s * t)) (l / 2 ^ k + r)

-- What `i * w` bits further up is left of the number.
abbrev pub above : List ℕ → ℕ → ℕ → ℕ
above scalar64x4 w i = limbs_value scalar64x4 / 2 ^ (i * w)

-- Four limbs of 64 bits.
pub data AreLimbs : List ℕ → Type 0 where
  four :
      (a b c d : ℕ)
      → a < 2 ^ 64
      → b < 2 ^ 64
      → c < 2 ^ 64
      → d < 2 ^ 64
      → AreLimbs (a ∷ b ∷ c ∷ d ∷ [])

-- Two limbs, one after the other, and the number from the first on.
two_limbs :
    {l : List ℕ}
    → AreLimbs l
    → (u : ℕ) → u < 3
    → (x y t : ℕ) × (get_elem? l u ≡ some x)
      × (get_elem? l (suc u) ≡ some y)
      × (limbs_value l / 2 ^ (64 * u) ≡ x + 2 ^ 64 * (y + 2 ^ 64 * t))
unfolding limbs_value
two_limbs (four a b c d ha hb hc hd) zero h = (a, b, c + 2 ^ 64 * d, refl, refl, omega arith)
two_limbs (four a b c d ha hb hc hd) (suc zero) h = (b, c, d, refl, refl, omega arith)
two_limbs (four a b c d ha hb hc hd) (suc (suc zero)) h = (c, d, 0, refl, refl, omega arith)
two_limbs (four a b c d ha hb hc hd) (suc (suc (suc u))) h = absurd (omega arith)

last_limb :
    {l : List ℕ}
    → AreLimbs l
    → (x : ℕ) × (get_elem? l 3 ≡ some x) × (limbs_value l / 2 ^ (64 * 3) ≡ x)
unfolding limbs_value
last_limb (four a b c d ha hb hc hd) = (d, refl, omega arith)

-- The expression of `bit_buf` at a limb and the next.
across_lem :
    (x y t k w : ℕ)
    → k < 64
    → w ≤ 64
    → (x / 2 ^ k + y * 2 ^ (64 - k) % 2 ^ 64) % 2 ^ w
      ≡ (x + 2 ^ 64 * (y + 2 ^ 64 * t)) / 2 ^ k % 2 ^ w
across_lem x y t k w small le =
    sym (window_across x y t k (64 - k) w (64 - w) (omega arith) (omega arith))

offset_split : (v off : ℕ) → v / 2 ^ (64 * (off / 64)) / 2 ^ (off % 64) ≡ v / 2 ^ off
offset_split v off =
    div-div-eq-div-mul v (2 ^ (64 * (off / 64))) (2 ^ (off % 64))
    ∙ ap (λ n. v / n)
        (sym (pow-add (64 * (off / 64)) (off % 64)) ∙ ap (λ n. 2 ^ n) (div-add-mod off 64))

or_true : (b : Bool) → (b || true) ≡ true
or_true true = refl
or_true false = refl

ltb→lt : (a b : ℕ) → ltb a b ≡ true → a < b
ltb→lt a b h = ground arith

-- `bit_buf` never indexes past the limbs, and its lowest `w` bits are those of the number.
pub bit_buf_lem :
    {l : List ℕ}
    → AreLimbs l
    → (w i : ℕ) → w ≤ 8
    → i * w < 256
    → (buf : ℕ) × (bit_buf l w i ≡ some buf) × (buf % 2 ^ w ≡ limbs_value l / 2 ^ (i * w) % 2 ^ w)
unfolding bit_buf
bit_buf_lem {l} L w i le lt =
    let off = i * w in
    let u = off / 64 in
    let k = off % 64 in
    let split = offset_split (limbs_value l) off in
    elim (Bool-cases (u == 3)) [
      | inl e ↦
          let last : u ≡ 3 = ==→eq u 3 e in
          let (x, found, v) = last_limb L in
          let here : get_elem? l u ≡ some x = ap (get_elem? l) last ∙ found in
          let test : (ltb k (64 - w) || u == 3) ≡ true =
            ap (λ c. ltb k (64 - w) || c) e ∙ or_true (ltb k (64 - w)) in
          (
            x / 2 ^ k,
            rw (here, test) refl,
            ap (λ n. n / 2 ^ k % 2 ^ w) (sym v ∙ ap (λ n. limbs_value l / 2 ^ (64 * n)) (sym last))
                ∙ ap (λ n. n % 2 ^ w) split,
          )
      | inr e ↦
          let below : u < 3 = ground arith in
          let (x, y, t, here, next, v) = two_limbs L u below in
          elim (Bool-cases (ltb k (64 - w))) [
            | inl f ↦
                let near : k < 64 - w = ltb→lt k (64 - w) f in
                let test : (ltb k (64 - w) || u == 3) ≡ true = ap (λ c. c || u == 3) f in
                (
                  x / 2 ^ k,
                  rw (here, test) refl,
                  sym (window_inside x (y + 2 ^ 64 * t) k w (64 - (k + w)) (omega arith))
                      ∙ ap (λ n. n / 2 ^ k % 2 ^ w) (sym v)
                      ∙ ap (λ n. n % 2 ^ w) split,
                )
            | inr f ↦
                let test : (ltb k (64 - w) || u == 3) ≡ false = ap₂ (λ c d. c || d) f e in
                let second : get_elem? l (1 + u) ≡ some y =
                  ap (get_elem? l) {x = 1 + u} {y = suc u} (omega arith) ∙ next in
                (
                  x / 2 ^ k + y * 2 ^ (64 - k) % 2 ^ 64,
                  rw (here, test, second) refl,
                  across_lem x y t k w (omega arith) (omega arith)
                      ∙ ap (λ n. n / 2 ^ k % 2 ^ w) (sym v)
                      ∙ ap (λ n. n % 2 ^ w) split,
                )
          ]
    ]

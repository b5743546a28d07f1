-- ===== src/Radix.antt =====
-- `to_radix_2w` of pairing/src/lib.rs: the signed digits of a scalar, which is given by its four
-- limbs of 64 bits. A panic is `none`.
pub mod Window
pub mod Recenter
pub mod Value
pub mod Total
use mathlib.Core.Option
use aws_dpid.Prelude.{
  ℕ, zero, suc, ◌+◌, ◌-◌, ◌*◌, ◌/◌, ◌%◌, ◌^◌, Bool, ◌||◌, ltb, ◌==◌, if◌then◌else◌, Option, none,
  some, ◌>>=◌, List, [], ◌∷◌, ◌++◌, get_elem?,
}
use aws_dpid.Wnaf.{ℤ, pos, negsuc}
use aws_dpid.Wnaf.Digits.{pos_part, neg_part}

-- The bits from `bit_offset = i * w` on. The two sides of the `|` have no bit in common, so it adds.
unfoldable pub bit_buf : List ℕ → ℕ → ℕ → Option ℕ
bit_buf scalar64x4 w i =
    let u64_idx = i * w / 64 in
    let bit_idx = i * w % 64 in
    get_elem? scalar64x4 u64_idx >>= λ limb.
    if ltb bit_idx (64 - w) || u64_idx == 3
    then some (limb / 2 ^ bit_idx)
    else (get_elem? scalar64x4 (1 + u64_idx) >>= λ next.
        some (limb / 2 ^ bit_idx + next * 2 ^ (64 - bit_idx) % 2 ^ 64))

-- `a - b` as an integer.
unfoldable pub sub_ℕ : ℕ → ℕ → ℤ
sub_ℕ a b = if ltb a b then negsuc (b - a - 1) else pos (a - b)

-- `as i8`.
unfoldable pub as_i8 : ℤ → ℤ
as_i8 (pos n) = let r = n % 256 in if ltb r 128 then pos r else negsuc (255 - r)
as_i8 (negsuc n) = let r = n % 256 in if ltb r 128 then negsuc r else pos (255 - r)

unfoldable pub new_carry : ℕ → ℕ → ℕ
new_carry w coef = (coef + 2 ^ w / 2) / 2 ^ w

-- The digits from `i` on, in `turns` turns, and the last carry.
unfoldable pub digits_loop : List ℕ → ℕ → ℕ → ℕ → ℕ → Option (List ℤ × ℕ)
unfolding bit_buf sub_ℕ as_i8 new_carry
digits_loop scalar64x4 w zero i carry = some ([], carry)
digits_loop scalar64x4 w (suc turns) i carry = bit_buf scalar64x4 w i >>= λ buf.
    let coef = carry + buf % 2 ^ w in
    let next = new_carry w coef in
    let digit = as_i8 (sub_ℕ coef (next * 2 ^ w)) in
    Option.map (λ s. (digit ∷ s.0, s.1)) (digits_loop scalar64x4 w turns (i + 1) next)

unfoldable pub zero_digits : ℕ → List ℤ
zero_digits zero = []
zero_digits (suc n) = pos 0 ∷ zero_digits n

-- `digits[i] += d`, in eight bits.
unfoldable pub add_digit : List ℤ → ℕ → ℤ → Option (List ℤ)
unfolding as_i8 sub_ℕ
add_digit [] i d = none
add_digit (x ∷ digits) zero d =
    some (as_i8 (sub_ℕ (pos_part x + pos_part d) (neg_part x + neg_part d)) ∷ digits)
add_digit (x ∷ digits) (suc i) d = Option.map (λ rest. x ∷ rest) (add_digit digits i d)

unfoldable pub to_radix_2w : List ℕ → ℕ → Option (List ℤ)
unfolding digits_loop zero_digits add_digit
to_radix_2w scalar64x4 w =
    let digits_count = (256 + w - 1) / w in
    digits_loop scalar64x4 w digits_count 0 0 >>= λ s.
    let digits = s.0 ++ zero_digits (43 - digits_count) in
    if w == 8
    then add_digit digits digits_count (as_i8 (pos s.1))
    else add_digit digits (digits_count - 1) (as_i8 (pos (s.1 * 2 ^ w)))

-- `to_radix_2w_size_hint`.
unfoldable pub to_radix_2w_size_hint : ℕ → Option ℕ
to_radix_2w_size_hint w =
    if w == 6 || w == 7
    then some ((256 + w - 1) / w)
    else if w == 8
    then some ((256 + w - 1) / w + 1)
    else none

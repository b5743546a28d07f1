-- ===== src/Hex/Text.antt =====
-- `hex_to_bin` (pairing/src/lib.rs) on the text of a number.
use mathlib.Core.List.{reverse, reverse-append, append_assoc, append-nil}
use aws_dpid.Prelude.{
  ◌^◌, length, ℕ, zero, suc, ◌+◌, ◌-◌, ◌*◌, ◌/◌, ◌%◌, ◌<◌, ◌≡◌, refl, sym, ap, ap₂, ◌∙◌, ◌==◌, ltb,
  some, if◌then◌else◌, Bool, true, false, ◌&&◌, ==→eq, and-left, and-right, List, [], ◌∷◌, ◌++◌,
  arith, passes_under, passes_under_lem,
}
use aws_dpid.Hex.{nibble, push_nibbles, hex_to_bin}
use aws_dpid.Hex.Bits.{
  low_bits, value, value-low_bits, length-low_bits, low_bits-append, halve-eq-zero, halve,
}

unfoldable pub hex_digit : ℕ → ℕ
hex_digit d = if ltb d 10 then b'0' + d else b'a' + (d - 10)

-- `v` in `k` hexadecimal digits, the highest first, as `{:016x}` prints the limbs of a number.
unfoldable pub hex : ℕ → ℕ → List ℕ
unfolding hex_digit
hex zero v = []
hex (suc k) v = hex k (v / 16) ++ hex_digit (v % 16) ∷ []

push_nibbles-append : (s t : List ℕ) → push_nibbles (s ++ t) ≡ push_nibbles s ++ push_nibbles t
unfolding push_nibbles
push_nibbles-append [] t = refl
push_nibbles-append (c ∷ s) t =
    ap (λ l. nibble c ++ l) (push_nibbles-append s t)
    ∙ sym (append_assoc (nibble c) (push_nibbles s) (push_nibbles t))

same : List ℕ → List ℕ → Bool
same [] [] = true
same (c ∷ s) (d ∷ t) = (c == d) && same s t
same _ _ = false

same→eq : (s t : List ℕ) → same s t ≡ true → s ≡ t
unfolding same
same→eq [] [] h = refl
same→eq [] (d ∷ t) h = cc
same→eq (c ∷ s) [] h = cc
same→eq (c ∷ s) (d ∷ t) h =
    ap₂ (λ x l. x ∷ l) (==→eq c d (and-left _ _ h)) (same→eq s t (and-right _ _ h))

-- The digits of each hexadecimal digit.
nibble-hex_digit : (d : ℕ) → d < 16 → reverse (nibble (hex_digit d)) ≡ low_bits 4 d
unfolding nibble hex_digit low_bits same passes_under
nibble-hex_digit d h =
    same→eq _ _
      (passes_under_lem (λ n. same (reverse (nibble (hex_digit n))) (low_bits 4 n)) d h refl)

quad : (n v : ℕ) → low_bits 4 (v % 16) ++ low_bits n (v / 16) ≡ low_bits (suc (suc (suc (suc n)))) v
unfolding low_bits
quad n v =
    let e0 : v % 16 % 2 ≡ v % 2 = omega arith in
    let e1 : v % 16 / 2 % 2 ≡ v / 2 % 2 = omega arith in
    let e2 : v % 16 / 2 / 2 % 2 ≡ v / 2 / 2 % 2 = omega arith in
    let e3 : v % 16 / 2 / 2 / 2 % 2 ≡ v / 2 / 2 / 2 % 2 = omega arith in
    let e4 : v / 16 ≡ v / 2 / 2 / 2 / 2 = omega arith in rw (e0, e1, e2, e3, e4) refl

-- Read from its end, the binary text of a number has its lowest digits first.
pub push_nibbles-hex : (k v : ℕ) → reverse (push_nibbles (hex k v)) ≡ low_bits (k * 4) v
unfolding hex push_nibbles low_bits
push_nibbles-hex zero v = ap (λ n. low_bits n v) {x = 0} {y = 0 * 4} (omega arith)
push_nibbles-hex (suc k) v =
    let last = hex_digit (v % 16) ∷ [] in
    ap reverse (push_nibbles-append (hex k (v / 16)) last)
    ∙ reverse-append (push_nibbles (hex k (v / 16))) (push_nibbles last)
    ∙ ap₂ (λ s t. s ++ t)
        (ap reverse (append-nil (nibble (hex_digit (v % 16))))
          ∙ nibble-hex_digit (v % 16) (omega arith))
        (push_nibbles-hex k (v / 16))
    ∙ quad (k * 4) v
    ∙ ap (λ n. low_bits n v) {x = suc (suc (suc (suc (k * 4))))} (omega arith)

-- The text of a number, `0x` before it, gives its binary digits, and as many as the text has.
pub hex_to_bin_lem :
    (k v : ℕ)
    → v < 2 ^ (k * 4)
    → (t : List ℕ) × (hex_to_bin (b'0' ∷ b'x' ∷ hex k v) ≡ some t)
      × (value (reverse t) ≡ v)
      × (length (reverse t) ≡ k * 4)
unfolding hex_to_bin
hex_to_bin_lem k v h = (
  push_nibbles (hex k v),
  refl,
  ap value (push_nibbles-hex k v) ∙ value-low_bits (k * 4) v h,
  ap length (push_nibbles-hex k v) ∙ length-low_bits (k * 4) v,
)

-- How `ff` prints an element of `Fr` whose number is `v`.
unfoldable pub fr_text : ℕ → List ℕ
unfolding hex
fr_text v = b'F' ∷ b'r' ∷ b'(' ∷ b'0' ∷ b'x' ∷ (hex 64 v ++ b')' ∷ [])

abbrev pub ones : List ℕ
ones = b'1' ∷ b'1' ∷ b'1' ∷ b'1' ∷ []

abbrev zeros : List ℕ
zeros = b'0' ∷ b'0' ∷ b'0' ∷ b'0' ∷ []

reverse_padded : (l : List ℕ) → reverse (ones ++ (zeros ++ l)) ≡ reverse l ++ (zeros ++ ones)
reverse_padded l =
    reverse-append ones (zeros ++ l)
    ∙ ap (λ s. s ++ ones) (reverse-append zeros l)
    ∙ append_assoc (reverse l) zeros ones

low_bits-padded :
    (n v : ℕ) → v < 2 ^ n → low_bits n v ++ (zeros ++ ones) ≡ low_bits (n + 4) v ++ ones
unfolding low_bits
low_bits-padded n v h =
    ap (λ w. low_bits n v ++ (low_bits 4 w ++ ones)) (sym (halve-eq-zero n v h))
    ∙ sym (append_assoc (low_bits n v) (low_bits 4 (halve n v)) ones)
    ∙ ap (λ l. l ++ ones) (sym (low_bits-append n 4 v))

push_nibbles-closed : (l : List ℕ) → push_nibbles (l ++ b')' ∷ []) ≡ push_nibbles l
unfolding push_nibbles nibble
push_nibbles-closed l = push_nibbles-append l (b')' ∷ []) ∙ append-nil (push_nibbles l)

push_nibbles-label :
    (l : List ℕ)
    → push_nibbles (b'F' ∷ b'r' ∷ b'(' ∷ b'0' ∷ b'x' ∷ l) ≡ ones ++ (zeros ++ push_nibbles l)
unfolding push_nibbles nibble
push_nibbles-label l = refl

-- In such a text the letter `F` counts as a digit, above the digits of the number.
pub hex_to_bin-fr_text :
    (v : ℕ)
    → v < 2 ^ 256
    → (t : List ℕ) × (hex_to_bin (fr_text v) ≡ some t) × (reverse t ≡ low_bits 260 v ++ ones)
unfolding hex_to_bin fr_text
hex_to_bin-fr_text v h = (
  push_nibbles (fr_text v),
  refl,
  ap reverse (
        push_nibbles-label (hex 64 v ++ b')' ∷ [])
        ∙ ap (λ l. ones ++ (zeros ++ l)) (push_nibbles-closed (hex 64 v)))
      ∙ reverse_padded (push_nibbles (hex 64 v))
      ∙ ap (λ l. l ++ (zeros ++ ones)) (push_nibbles-hex 64 v)
      ∙ low_bits-padded 256 v h,
)

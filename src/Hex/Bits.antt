-- ===== src/Hex/Bits.antt =====
-- Binary text, its lowest digit first, and the number that it spells: what `hex_to_bin`
-- (pairing/src/lib.rs) is read by.
use native.Mathlib.Nat.{two-pow-succ}
use aws_dpid.Prelude.{
  ℕ, zero, suc, ◌+◌, ◌*◌, ◌/◌, ◌%◌, ◌^◌, ◌<◌, ◌≡◌, refl, ap, ◌∙◌, ◌==◌, if◌then◌else◌, List, [],
  ◌∷◌, ◌++◌, length, arith,
}

unfoldable pub bit : ℕ → ℕ
bit c = if c == b'1' then 1 else 0

-- The lowest digit comes first.
unfoldable pub value : List ℕ → ℕ
unfolding bit
value [] = 0
value (c ∷ cs) = bit c + 2 * value cs

-- The lowest `n` binary digits of `v`.
unfoldable pub low_bits : ℕ → ℕ → List ℕ
low_bits zero v = []
low_bits (suc n) v = (if v % 2 == 1 then b'1' else b'0') ∷ low_bits n (v / 2)

pub bit-lt : (c : ℕ) → bit c < 2
unfolding bit
bit-lt c = ground arith

pub value-lt : (cs : List ℕ) → value cs < 2 ^ length cs
unfolding value
value-lt [] = omega arith
value-lt (c ∷ cs) = omega (arith, bit-lt c, value-lt cs, two-pow-succ (length cs))

pub length-low_bits : (n v : ℕ) → length (low_bits n v) ≡ n
unfolding low_bits
length-low_bits zero v = refl
length-low_bits (suc n) v = ap suc (length-low_bits n (v / 2))

bit_parity : (v : ℕ) → bit (if v % 2 == 1 then b'1' else b'0') ≡ v % 2
unfolding bit
bit_parity v = ground arith

-- A number is spelled by enough digits.
pub value-low_bits : (n v : ℕ) → v < 2 ^ n → value (low_bits n v) ≡ v
unfolding value low_bits
value-low_bits zero v h = omega arith
value-low_bits (suc n) v h =
    let lt : v / 2 < 2 ^ n = omega (arith, two-pow-succ n) in
    omega (arith, bit_parity v, value-low_bits n (v / 2) lt)

-- `v / 2 ^ n`.
unfoldable pub halve : ℕ → ℕ → ℕ
halve zero v = v
halve (suc n) v = halve n (v / 2)

pub low_bits-append : (m n v : ℕ) → low_bits (m + n) v ≡ low_bits m v ++ low_bits n (halve m v)
unfolding low_bits halve
low_bits-append zero n v = ap (λ k. low_bits k v) {x = 0 + n} (omega arith)
low_bits-append (suc m) n v =
    ap (λ k. low_bits k v) {x = suc m + n} {y = suc (m + n)} (omega arith)
    ∙ ap (λ l. (if v % 2 == 1 then b'1' else b'0') ∷ l) (low_bits-append m n (v / 2))

pub halve-eq-zero : (n v : ℕ) → v < 2 ^ n → halve n v ≡ 0
unfolding halve
halve-eq-zero zero v h = omega arith
halve-eq-zero (suc n) v h =
    let lt : v / 2 < 2 ^ n = omega (arith, two-pow-succ n) in halve-eq-zero n (v / 2) lt

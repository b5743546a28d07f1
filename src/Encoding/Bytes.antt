-- ===== src/Encoding/Bytes.antt =====
-- Flags in the first byte of an encoding, and arrays of zeroes (pairing/src/bls12_381/ec.rs).
use aws_dpid.Prelude.{
  ℕ, zero, suc, ◌+◌, ◌%◌, ◌<◌, ◌≡◌, refl, ap, ap₂, Bool, true, false, ==→eq, and-left, and-right,
  some, ◌>>=◌, List, [], ◌∷◌, length, arith,
}
use aws_dpid.Encoding.{has_bit, set_bit, zeroes, all_zero, write_over}

-- A first byte whose flags are clear, and with the flags of a compressed point.
pub record IsPlain (byte : ℕ) : Type 0 where
  pub not_compressed : has_bit byte 7 ≡ false
  pub finite : has_bit byte 6 ≡ false
  pub no_order : has_bit byte 5 ≡ false
  pub masked : byte % 32 ≡ byte

pub IsPlain_lem : (byte : ℕ) → byte < 32 → IsPlain byte
unfolding has_bit
IsPlain_lem byte h = record {
  not_compressed = ground arith;
  finite = ground arith;
  no_order = ground arith;
  masked = omega arith;
}

pub record HasFlags (greatest : Bool) (byte flagged : ℕ) : Type 0 where
  pub compressed : has_bit flagged 7 ≡ true
  pub finite : has_bit flagged 6 ≡ false
  pub order : has_bit flagged 5 ≡ greatest
  pub masked : flagged % 32 ≡ byte

pub HasFlags-greatest : (byte : ℕ) → byte < 32 → HasFlags true byte (set_bit (set_bit byte 5) 7)
unfolding has_bit set_bit
HasFlags-greatest byte h =
    let e : set_bit (set_bit byte 5) 7 ≡ byte + 160 = ground arith in
    rw e (record {
      compressed = ground arith;
      finite = ground arith;
      order = ground arith;
      masked = omega arith;
    })

pub HasFlags-least : (byte : ℕ) → byte < 32 → HasFlags false byte (set_bit byte 7)
unfolding has_bit set_bit
HasFlags-least byte h =
    let e : set_bit byte 7 ≡ byte + 128 = ground arith in
    rw e (record {
      compressed = ground arith;
      finite = ground arith;
      order = ground arith;
      masked = omega arith;
    })

-- A byte without flags is small; a byte with the flag of infinity and no other is 64.
pub plain-lt :
    (byte : ℕ)
    → byte < 256
    → has_bit byte 7 ≡ false
    → has_bit byte 6 ≡ false
    → has_bit byte 5 ≡ false
    → byte < 32
unfolding has_bit
plain-lt byte h a b c = ground arith

pub infinity-eq :
    (byte : ℕ)
    → byte < 256
    → has_bit byte 7 ≡ false
    → has_bit byte 6 ≡ true
    → byte % 64 ≡ 0
    → byte ≡ 64
unfolding has_bit
infinity-eq byte h a b c = ground arith

pub write_over-zeroes :
    (bytes : List ℕ) (n : ℕ) → length bytes ≡ n → write_over bytes (zeroes n) ≡ some bytes
unfolding write_over zeroes
write_over-zeroes [] zero h = refl
write_over-zeroes [] (suc n) h = absurd (omega arith)
write_over-zeroes (b ∷ bytes) zero h = absurd (omega arith)
write_over-zeroes (b ∷ bytes) (suc n) h =
    ap (λ o. o >>= λ written. some (b ∷ written)) (write_over-zeroes bytes n (omega arith))

pub all_zero-zeroes : (n : ℕ) → all_zero (zeroes n) ≡ true
unfolding all_zero zeroes
all_zero-zeroes zero = refl
all_zero-zeroes (suc n) = all_zero-zeroes n

pub zeroes-all_zero : (l : List ℕ) → all_zero l ≡ true → l ≡ zeroes (length l)
unfolding all_zero zeroes
zeroes-all_zero [] h = refl
zeroes-all_zero (b ∷ l) h =
    ap₂ (λ c m. c ∷ m) (==→eq b 0 (and-left _ _ h)) (zeroes-all_zero l (and-right _ _ h))

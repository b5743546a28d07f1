-- ===== src/Examples/Encoding.antt =====
-- The encodings of pairing/src/bls12_381/ec.rs for the curve y^2 = x^3 + 4 over the integers modulo
-- 19, the 21 points of which are the subgroup; a number is written in the last of its 48 bytes.
use mathlib.Core.Option.{some_inj, none-ne-some}
use Prim.Native.String.{String}
use native.Mathlib.Nat.{mod-eq_of_lt}
use aws_dpid.Prelude.{
  ℕ, zero, suc, ◌+◌, ◌<◌, ◌≡◌, ◌↔◌, refl, sym, ap, ap₂, ◌∙◌, true, false, Bool-cases, ltb, ◌==◌,
  ==→eq, if◌then◌else◌, ◌⊎◌, inl, inr, Option, some, none, List, [], ◌∷◌, ◌++◌, length, arith,
}
use aws_dpid.Curve.{Affine, is_on_curve, affine_zero, mul_bits}
use aws_dpid.Encoding.{
  FqOps, GroupErrors, Codec, CurveOps, decoded, g1_codec, zeroes, all_zero,
  uncompressed_from_affine, uncompressed_into_affine, uncompressed_into_affine_unchecked,
  compressed_from_affine, compressed_into_affine, is_in_correct_subgroup_assuming_on_curve,
}
use aws_dpid.Encoding.Laws.{IsFq, IsCodec, g1_codec-IsCodec}
use aws_dpid.Encoding.Uncompressed.{IsNormal, uncompressed_roundtrip}
use aws_dpid.Encoding.Exact.{uncompressed_exact}
use aws_dpid.Encoding.Compressed.{compressed_roundtrip}
use aws_dpid.Encoding.Canonical.{uncompressed_canonical}
use aws_dpid.Examples.Root.{Q, sqrt, lt, sqrt-IsSqrt, lt-IsOrder, residue_lem}
use aws_dpid.Examples.Zmod.{residue, val-lt, zmod_ops, zmod_field, zmod19-IsField}

-- The number behind `n` bytes that are zero.
read_last : ℕ → List ℕ → Option (ℕ × List ℕ)
read_last n [] = none
read_last zero (b ∷ bytes) = some (b, bytes)
read_last (suc n) (b ∷ bytes) = let rest = read_last n bytes in if b == 0 then rest else none

abbrev write_last : ℕ → ℕ → List ℕ
write_last n r = zeroes n ++ r ∷ []

read-write : (n r : ℕ) (rest : List ℕ) → read_last n (write_last n r ++ rest) ≡ some (r, rest)
unfolding read_last zeroes
read-write zero r rest = refl
read-write (suc n) r rest = read-write n r rest

write-read :
    (n : ℕ) (l rest : List ℕ) (r : ℕ) → read_last n l ≡ some (r, rest) → l ≡ write_last n r ++ rest
unfolding read_last zeroes
write-read n [] rest r h = cc
write-read zero (b ∷ l) rest r h =
    let pair = some_inj.0 h in ap₂ (λ c m. c ∷ m) (ap (λ p. p.0) pair) (ap (λ p. p.1) pair)
write-read (suc n) (b ∷ l) rest r h = elim (Bool-cases (b == 0)) [
  | inl e ↦
      ap₂ (λ c m. c ∷ m) (==→eq b 0 e)
        (write-read n l rest r (sym (ap (λ c. if c then read_last n l else none) e) ∙ h))
  | inr e ↦
      absurd (none-ne-some (r, rest) (sym (ap (λ c. if c then read_last n l else none) e) ∙ h))
]

converted : (r : ℕ) → ℕ ⊎ Q
converted r = if ltb r 19 then inr (residue 19 r) else inl r

converted-val : (x : Q) → converted x.val ≡ inr x
unfolding converted
converted-val x =
    let small = val-lt (omega arith) x in
    let e : ltb x.val 19 ≡ true = ground arith in rw e (ap inr (residue_lem x))

val-converted : (r : ℕ) (x : Q) → converted r ≡ inr x → x.val ≡ r
unfolding converted
val-converted r x h = elim (Bool-cases (ltb r 19)) [
  | inl e ↦
      let same : residue 19 r ≡ x =
        inr_inj (sym (ap (λ c. if c then inr (residue 19 r) else inl r) e) ∙ h) in
      let small : r < 19 = ground arith in sym (ap (λ (q : Q). q.val) same) ∙ mod-eq_of_lt small
  | inr e ↦ absurd (inl_inr (sym (ap (λ c. if c then inr (residue 19 r) else inl r) e) ∙ h))
]
  where
    inr_inj : {a b : Q} → ◌≡◌ {A = ℕ ⊎ Q} (inr a) (inr b) → a ≡ b
    inr_inj e = cc

    inl_inr : {a : ℕ} {b : Q} → ¬ (◌≡◌ {A = ℕ ⊎ Q} (inl a) (inr b))
    inl_inr e = cc

abbrev fq19 : FqOps Q ℕ ℕ
fq19 = record {
  read_be = read_last 47;
  write_be = write_last 47;
  from_repr = converted;
  into_repr = λ x. x.val;
}

long : (r : ℕ) → length (write_last 47 r) ≡ 48
unfolding zeroes
long r = refl

first : (r : ℕ) → write_last 47 r ≡ 0 ∷ write_last 46 r
unfolding zeroes
first r = refl

fq19-IsFq : IsFq fq19
fq19-IsFq = record {
  read-write = read-write 47;
  write-read = write-read 47;
  length-write = long;
  from-into = converted-val;
  into-from = val-converted;
  top_clear = λ x. (0, write_last 46 x.val, first x.val, omega arith);
}

abbrev c19 : CurveOps Q
c19 = record {
  coeff_b = residue 19 4;
  char = true ∷ false ∷ true ∷ false ∷ true ∷ [];
  sqrt = sqrt;
  lt = lt;
}

abbrev p19 : Affine Q
p19 = record { x = residue 19 1; y = residue 19 9; infinity = false }

on : is_on_curve c19.coeff_b p19 ≡ true
unfolding is_on_curve
on = refl

within : is_in_correct_subgroup_assuming_on_curve c19 p19 ≡ true
unfolding is_in_correct_subgroup_assuming_on_curve mul_bits
within = refl

-- Errors are numbered; a coordinate's error has the number that was refused.
instance abbrev errors : GroupErrors ℕ
errors = record {
  not_on_curve = 0;
  not_in_subgroup = 1;
  unexpected_compression_mode = 2;
  unexpected_information = 3;
}

abbrev coordinate_decoding_error : String → ℕ → ℕ
coordinate_decoding_error label e = 4 + e

abbrev codec : Codec Q ℕ ℕ
codec = g1_codec coordinate_decoding_error fq19

codec-IsCodec : IsCodec codec (λ x. x.val)
codec-IsCodec = g1_codec-IsCodec coordinate_decoding_error fq19 fq19-IsFq

normal : IsNormal p19
normal e = cc

uncompressed_roundtrip_example :
    (bytes : List ℕ) × (uncompressed_from_affine codec p19 ≡ some bytes)
    × (length bytes ≡ codec.size + codec.size)
    × (uncompressed_into_affine c19 codec bytes ≡ decoded p19)
uncompressed_roundtrip_example = uncompressed_roundtrip codec codec-IsCodec c19 p19 normal on within

uncompressed_exact_example :
    (uncompressed_into_affine c19 codec (64 ∷ zeroes 95) ≡ decoded affine_zero) ↔ (
      (uncompressed_from_affine codec affine_zero ≡ some (64 ∷ zeroes 95))
      × IsNormal (affine_zero {B = Q})
      × (is_on_curve c19.coeff_b affine_zero ≡ true)
      × (is_in_correct_subgroup_assuming_on_curve c19 affine_zero ≡ true))
unfolding zeroes g1_codec
uncompressed_exact_example =
    uncompressed_exact codec codec-IsCodec c19 64 (zeroes 95) affine_zero (omega arith) refl

compressed_roundtrip_example :
    (bytes : List ℕ) × (compressed_from_affine c19 codec p19 ≡ some bytes)
    × (length bytes ≡ codec.size)
    × (compressed_into_affine c19 codec bytes ≡ decoded p19)
compressed_roundtrip_example =
    compressed_roundtrip zmod19-IsField codec codec-IsCodec c19 sqrt-IsSqrt lt-IsOrder p19 normal on
      within

uncompressed_canonical_example : uncompressed_from_affine codec affine_zero ≡ some (64 ∷ zeroes 95)
unfolding uncompressed_into_affine_unchecked all_zero zeroes affine_zero g1_codec
uncompressed_canonical_example =
    uncompressed_canonical codec codec-IsCodec 64 (zeroes 95) affine_zero (omega arith) refl refl

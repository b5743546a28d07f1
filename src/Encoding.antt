-- ===== src/Encoding.antt =====
-- The encodings of points in pairing/src/bls12_381/ec.rs: `G1Uncompressed`, `G1Compressed`,
-- `G2Uncompressed` and `G2Compressed`. An encoding is the list of its bytes. The code of the two
-- groups differs in how it reads and writes a coordinate, which is a Codec.
pub mod Laws
pub mod Bytes
pub mod Uncompressed
pub mod Compressed
pub mod Canonical
pub mod Exact
use Prim.Native.String.{String}
use aws_dpid.Prelude.{
  ℕ, zero, suc, ◌+◌, ◌/◌, ◌%◌, ◌^◌, Bool, true, false, ◌&&◌, not, ◌==◌, if◌then◌else◌, Option, none,
  some, List, [], ◌∷◌, ◌++◌, ◌⊎◌, inl, inr,
}
use aws_dpid.Prelude as Options
use aws_dpid.Ring.{RingOps, FieldOps, negate as neg}
use aws_dpid.Tower.Fq2.{Fq2}
use aws_dpid.Curve.{Affine, affine_zero, is_zero, is_on_curve, mul_bits, get_point_from_x}

-- The values of the crate `group`'s type of errors, `GroupDecodingError`, that the decoders return;
-- `coordinate_decoding_error` is below where it is used.
pub record GroupErrors (E : Type 0) : Type 0 where
  pub not_on_curve : E
  pub not_in_subgroup : E
  pub unexpected_compression_mode : E
  pub unexpected_information : E

pub data Decoded (E A : Type 0) : Type 0 where
  decoded : A → Decoded E A
  refused : E → Decoded E A
  panicked : Decoded E A

infixl 10 ◌>>=◌
abbrev pub ◌>>=◌ : {E A B : Type 0} → Decoded E A → (A → Decoded E B) → Decoded E B
decoded a >>= f = f a
refused e >>= f = refused e
panicked >>= f = panicked

-- `unwrap` of what may be missing.
abbrev pub unwrap : {E A : Type 0} → Option A → Decoded E A
unwrap none = panicked
unwrap (some a) = decoded a

-- `ok_or(GroupDecodingError::NotOnCurve)`.
abbrev pub ok_or_not_on_curve : {E A : Type 0} ⦃X : GroupErrors E⦄ → Option A → Decoded E A
ok_or_not_on_curve ⦃X⦄ none = refused X.not_on_curve
ok_or_not_on_curve (some a) = decoded a

-- The methods of `FqRepr` and `Fq`, of the crate `ff`: `read_be` takes its bytes off a reader, and `P`
-- is `PrimeFieldDecodingError`.
pub record FqOps (B R P : Type 0) : Type 0 where
  pub read_be : List ℕ → Option (R × List ℕ)
  pub write_be : R → List ℕ
  pub from_repr : R → P ⊎ B
  pub into_repr : B → R

-- How a group reads and writes a coordinate: `R` is what is read before any is converted.
pub record Codec (B R E : Type 0) : Type 0 where
  pub size : ℕ
  pub read : List ℕ → Option (R × List ℕ)
  pub from_x : R → Decoded E B
  pub from_y : R → Decoded E B
  pub write : B → List ℕ

-- `Fq::from_repr(..).map_err(..)`, with the constructor of the error.
unfoldable pub map_err : {B P E : Type 0} → (String → P → E) → String → P ⊎ B → Decoded E B
map_err coordinate_decoding_error label (inl e) = refused (coordinate_decoding_error label e)
map_err coordinate_decoding_error label (inr x) = decoded x

module _ {B R P E : Type 0} (coordinate_decoding_error : String → P → E) (Q : FqOps B R P) where
  unfoldable pub g1_codec : Codec B R E
  unfolding map_err
  g1_codec = record {
    size = 48;
    read = Q.read_be;
    from_x = λ r. map_err coordinate_decoding_error "x coordinate" (Q.from_repr r);
    from_y = λ r. map_err coordinate_decoding_error "y coordinate" (Q.from_repr r);
    write = λ x. Q.write_be (Q.into_repr x);
  }

  -- `c1` is read before `c0`, and `c0` is converted before `c1`.
  unfoldable pub read_fq2 : List ℕ → Option ((R × R) × List ℕ)
  read_fq2 reader =
      Options.◌>>=◌ (Q.read_be reader)
        (λ a. Options.◌>>=◌ (Q.read_be a.1) (λ b. some ((a.0, b.0), b.1)))

  unfoldable pub fq2_from_repr : String → String → R × R → Decoded E (Fq2 B)
  unfolding map_err
  fq2_from_repr label0 label1 (r1, r0) = do
    c0 ← map_err coordinate_decoding_error label0 (Q.from_repr r0)
    c1 ← map_err coordinate_decoding_error label1 (Q.from_repr r1)
    decoded (record { c0 = c0; c1 = c1 })

  unfoldable pub g2_codec : Codec (Fq2 B) (R × R) E
  unfolding read_fq2 fq2_from_repr
  g2_codec = record {
    size = 96;
    read = read_fq2;
    from_x = fq2_from_repr "x coordinate (c0)" "x coordinate (c1)";
    from_y = fq2_from_repr "y coordinate (c0)" "y coordinate (c1)";
    write = λ x. Q.write_be (Q.into_repr x.c1) ++ Q.write_be (Q.into_repr x.c0);
  }

-- `byte & (1 << k) != 0`, and `byte |= 1 << k`.
unfoldable pub has_bit : ℕ → ℕ → Bool
has_bit byte k = byte / 2 ^ k % 2 == 1

unfoldable pub set_bit : ℕ → ℕ → ℕ
unfolding has_bit
set_bit byte k = if has_bit byte k then byte else byte + 2 ^ k

-- `res.0[0] |= 1 << k`.
unfoldable pub set_first : ℕ → List ℕ → List ℕ
unfolding set_bit
set_first k [] = []
set_first k (byte ∷ bytes) = set_bit byte k ∷ bytes

unfoldable pub zeroes : ℕ → List ℕ
zeroes zero = []
zeroes (suc n) = 0 ∷ zeroes n

-- `iter().all(|b| *b == 0)`.
unfoldable pub all_zero : List ℕ → Bool
all_zero [] = true
all_zero (byte ∷ bytes) = (byte == 0) && all_zero bytes

-- A write to the start of an array, which fails where the array is too short.
unfoldable pub write_over : List ℕ → List ℕ → Option (List ℕ)
write_over [] res = some res
write_over (byte ∷ bytes) [] = none
write_over (byte ∷ bytes) (old ∷ res) =
    Options.◌>>=◌ (write_over bytes res) (λ written. some (byte ∷ written))

module _ {B R E : Type 0} (C : Codec B R E) where
  unfoldable pub read_point : List ℕ → Decoded E (Affine B)
  read_point copy = do
    (rx, reader) ← unwrap (C.read copy)
    (ry, reader') ← unwrap (C.read reader)
    x ← C.from_x rx
    y ← C.from_y ry
    decoded (record { x = x; y = y; infinity = false })

  unfoldable pub uncompressed_from_affine : Affine B → Option (List ℕ)
  unfolding set_first zeroes write_over
  uncompressed_from_affine affine =
      let res = zeroes (C.size + C.size) in
      if affine.infinity
      then some (set_first 6 res)
      else write_over (C.write affine.x ++ C.write affine.y) res

module _ {B R E : Type 0} ⦃F : RingOps B⦄ ⦃K : FieldOps B⦄ ⦃X : GroupErrors E⦄
    (C : Codec B R E) where
  -- The array with both flags of infinity masked away.
  unfoldable pub infinity_or_refused : ℕ → List ℕ → Decoded E (Affine B)
  unfolding all_zero
  infinity_or_refused byte rest =
      if all_zero ((byte % 64) ∷ rest)
      then decoded affine_zero
      else refused X.unexpected_information

  -- `into_affine_unchecked` of an uncompressed encoding; `byte & 0x1f` is the first byte read.
  unfoldable pub uncompressed_into_affine_unchecked : List ℕ → Decoded E (Affine B)
  unfolding infinity_or_refused read_point has_bit
  uncompressed_into_affine_unchecked [] = panicked
  uncompressed_into_affine_unchecked (byte ∷ rest) =
      if has_bit byte 7
      then refused X.unexpected_compression_mode
      else if has_bit byte 6
      then infinity_or_refused byte rest
      else if has_bit byte 5
      then refused X.unexpected_information
      else read_point C ((byte % 32) ∷ rest)

-- The curve, the bits of the characteristic of its scalars, and the square root and the order of
-- its base field.
pub record CurveOps (B : Type 0) : Type 0 where
  pub coeff_b : B
  pub char : List Bool
  pub sqrt : B → Option B
  pub lt : B → B → Bool

module _ {B : Type 0} ⦃F : RingOps B⦄ ⦃K : FieldOps B⦄ (V : CurveOps B) where
  unfoldable pub is_in_correct_subgroup_assuming_on_curve : Affine B → Bool
  is_in_correct_subgroup_assuming_on_curve self = is_zero (mul_bits self V.char)

  module _ {R E : Type 0} ⦃X : GroupErrors E⦄ (C : Codec B R E) where
    unfoldable pub uncompressed_into_affine : List ℕ → Decoded E (Affine B)
    unfolding uncompressed_into_affine_unchecked is_in_correct_subgroup_assuming_on_curve
    uncompressed_into_affine self = do
      affine ← uncompressed_into_affine_unchecked C self
      if not (is_on_curve V.coeff_b affine)
          then refused X.not_on_curve
          else if not (is_in_correct_subgroup_assuming_on_curve affine)
          then refused X.not_in_subgroup
          else decoded affine

    unfoldable pub compressed_into_affine_unchecked : List ℕ → Decoded E (Affine B)
    unfolding infinity_or_refused has_bit
    compressed_into_affine_unchecked [] = panicked
    compressed_into_affine_unchecked (byte ∷ rest) =
        if not (has_bit byte 7)
        then refused X.unexpected_compression_mode
        else if has_bit byte 6
        then infinity_or_refused C byte rest
        else (do
          (rx, reader) ← unwrap (C.read ((byte % 32) ∷ rest))
          x ← C.from_x rx
          ok_or_not_on_curve (get_point_from_x V.sqrt V.lt V.coeff_b x (has_bit byte 5)))

    unfoldable pub compressed_into_affine : List ℕ → Decoded E (Affine B)
    unfolding compressed_into_affine_unchecked is_in_correct_subgroup_assuming_on_curve
    compressed_into_affine self = do
      affine ← compressed_into_affine_unchecked self
      if not (is_in_correct_subgroup_assuming_on_curve affine)
          then refused X.not_in_subgroup
          else decoded affine

    unfoldable pub compressed_from_affine : Affine B → Option (List ℕ)
    unfolding set_first zeroes write_over
    compressed_from_affine affine =
        let res = zeroes C.size in
        let written =
          if affine.infinity
          then some (set_first 6 res)
          else Options.◌>>=◌ (write_over (C.write affine.x) res)
              (λ bytes. some (if V.lt (neg affine.y) affine.y then set_first 5 bytes else bytes)) in
        Options.◌>>=◌ written (λ bytes. some (set_first 7 bytes))

-- ===== src/Encoding/Exact.antt =====
-- `into_affine` of an uncompressed encoding (pairing/src/bls12_381/ec.rs): which bytes it decodes.
use mathlib.Core.Option.{some-injective}
use aws_dpid.Prelude.{ℕ, ◌+◌, ◌<◌, ◌≡◌, sym, ap, ◌∙◌, ◌↔◌, true, some, List, ◌∷◌, length}
use aws_dpid.Ring.{RingOps, FieldOps}
use aws_dpid.Curve.{Affine, is_on_curve}
use aws_dpid.Encoding.{
  Codec, GroupErrors, CurveOps, decoded, uncompressed_into_affine, uncompressed_from_affine,
  is_in_correct_subgroup_assuming_on_curve,
}
use aws_dpid.Encoding.Laws.{IsCodec}
use aws_dpid.Encoding.Uncompressed.{IsNormal, uncompressed_roundtrip, uncompressed_into_affine_iff}
use aws_dpid.Encoding.Canonical.{uncompressed_canonical, unchecked-IsNormal}

module _ {B R E : Type 0} ⦃F : RingOps B⦄ ⦃K : FieldOps B⦄ ⦃X : GroupErrors E⦄ (C : Codec B R E)
    {repr : B → R} (I : IsCodec C repr) (V : CurveOps B) where
  -- Bytes of the length of two coordinates are decoded to a point exactly where they are the
  -- uncompressed encoding of that point, and the point lies on the curve and in the subgroup and, if
  -- it is infinity, is so in its one form.
  pub uncompressed_exact :
      (byte : ℕ) (rest : List ℕ) (p : Affine B)
      → byte < 256
      → length (byte ∷ rest) ≡ C.size + C.size
      → (uncompressed_into_affine V C (byte ∷ rest) ≡ decoded p) ↔ (
          (uncompressed_from_affine C p ≡ some (byte ∷ rest))
          × IsNormal p
          × (is_on_curve V.coeff_b p ≡ true)
          × (is_in_correct_subgroup_assuming_on_curve V p ≡ true))
  uncompressed_exact byte rest p lt long = (
    λ h.
        let (read, curve, subgroup) = ((uncompressed_into_affine_iff C I V) (byte ∷ rest) p).0 h in
        (
          (uncompressed_canonical C I) byte rest p lt long read,
          (unchecked-IsNormal C I) byte rest p read,
          curve,
          subgroup,
        ),
    λ (written, normal, curve, subgroup).
        let (bytes, e, l, read) = (uncompressed_roundtrip C I V) p normal curve subgroup in
        ap (uncompressed_into_affine V C) (some-injective _ _ (sym written ∙ e)) ∙ read,
  )

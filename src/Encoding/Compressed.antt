-- ===== src/Encoding/Compressed.antt =====
-- `G1Compressed` and `G2Compressed` (pairing/src/bls12_381/ec.rs): a point comes back from its
-- encoding, by way of `get_point_from_x`.
use mathlib.Core.List.{append-nil}
use aws_dpid.Prelude.{
  ℕ, suc, ◌-◌, ◌<◌, ◌≡◌, refl, sym, ap, ◌∙◌, Bool, true, false, Bool-cases, if◌then◌else◌, inl, inr,
  some, List, [], ◌∷◌, length, arith,
}
use aws_dpid.Ring.{RingOps, FieldOps, IsField, IsSqrt, negate as neg}
use aws_dpid.Curve.{Affine, affine_zero, is_on_curve, get_point_from_x}
use aws_dpid.Curve.Root.{IsOrder}
use aws_dpid.Curve.Unique.{get_point_from_x_self}
use aws_dpid.Encoding.{
  Codec, GroupErrors, CurveOps, decoded, ok_or_not_on_curve, has_bit, set_bit, set_first, zeroes,
  write_over, compressed_into_affine_unchecked, compressed_into_affine, compressed_from_affine,
  is_in_correct_subgroup_assuming_on_curve,
}
use aws_dpid.Encoding.Laws.{IsCodec}
use aws_dpid.Encoding.Bytes.{HasFlags, HasFlags-greatest, HasFlags-least, write_over-zeroes}
use aws_dpid.Encoding.Uncompressed.{IsNormal, finite_eq, infinity_lem, length-zeroes}

-- The first byte with the flags.
abbrev flagged : Bool → ℕ → ℕ
flagged greatest b = set_bit (if greatest then set_bit b 5 else b) 7

flagged-HasFlags : (greatest : Bool) (b : ℕ) → b < 32 → HasFlags greatest b (flagged greatest b)
flagged-HasFlags true b h = HasFlags-greatest b h
flagged-HasFlags false b h = HasFlags-least b h

flag_both :
    (greatest : Bool) (b : ℕ) (bs : List ℕ)
    → set_first 7 (if greatest then set_first 5 (b ∷ bs) else b ∷ bs) ≡ flagged greatest b ∷ bs
unfolding set_first
flag_both true b bs = refl
flag_both false b bs = refl

module _ {B R E : Type 0} ⦃F : RingOps B⦄ ⦃K : FieldOps B⦄ ⦃X : GroupErrors E⦄ (D : IsField F K)
    (C : Codec B R E) {repr : B → R} (I : IsCodec C repr) (V : CurveOps B) (Q : IsSqrt F V.sqrt)
    (L : IsOrder V.lt) where
  compressed_infinite :
      (p : Affine B)
      → p.infinity ≡ true
      → p ≡ affine_zero
      → (bytes : List ℕ) × (compressed_from_affine V C p ≡ some bytes)
        × (length bytes ≡ C.size)
        × (compressed_into_affine_unchecked V C bytes ≡ decoded p)
  unfolding compressed_from_affine compressed_into_affine_unchecked zeroes set_first set_bit has_bit
  compressed_infinite p e normal =
      let n = C.size - 1 in
      let some_bytes : C.size ≡ suc n = omega (arith, I.some_bytes) in
      (
        192 ∷ zeroes n,
        rw e (ap (λ m. some (set_first 7 (set_first 6 (zeroes m)))) some_bytes),
        ap suc (length-zeroes C I n) ∙ sym some_bytes,
        infinity_lem C I 192 n refl ∙ ap decoded (sym normal),
      )

  -- The flags choose the branch, and the coordinate is read without them.
  decode_flagged :
      (x y : B) (b : ℕ) (bs : List ℕ)
      → C.write x ≡ b ∷ bs
      → b < 32
      → is_on_curve V.coeff_b (record { x = x; y = y; infinity = false }) ≡ true
      → compressed_into_affine_unchecked V C (flagged (V.lt (neg y) y) b ∷ bs)
        ≡ decoded (record { x = x; y = y; infinity = false })
  unfolding compressed_into_affine_unchecked
  decode_flagged x y b bs first lt curve =
      let flags = flagged-HasFlags (V.lt (neg y) y) b lt in
      let read : C.read (b ∷ bs) ≡ some (repr x, []) =
        ap C.read (sym first ∙ sym (append-nil (C.write x))) ∙ I.read-write x [] in
      rw (flags.compressed, flags.finite, flags.masked, read)
        (rw (I.from_x-repr x) (
          ap (λ g. ok_or_not_on_curve (get_point_from_x V.sqrt V.lt V.coeff_b x g)) flags.order
          ∙ ap ok_or_not_on_curve (get_point_from_x_self D V.coeff_b V.sqrt V.lt Q L x y curve)))

  compressed_finite :
      (p : Affine B)
      → p.infinity ≡ false
      → is_on_curve V.coeff_b p ≡ true
      → (bytes : List ℕ) × (compressed_from_affine V C p ≡ some bytes)
        × (length bytes ≡ C.size)
        × (compressed_into_affine_unchecked V C bytes ≡ decoded p)
  unfolding compressed_from_affine
  compressed_finite p e curve =
      let (b, bs, first, lt) = I.top_clear p.x in
      let greatest = V.lt (neg p.y) p.y in
      let same = finite_eq p e in
      let written : write_over (C.write p.x) (zeroes C.size) ≡ some (b ∷ bs) =
        write_over-zeroes (C.write p.x) C.size (I.length-write p.x) ∙ ap some first in
      (
        flagged greatest b ∷ bs,
        rw e (rw written (ap some (flag_both greatest b bs))),
        ap length (sym first) ∙ I.length-write p.x,
        decode_flagged p.x p.y b bs first lt (ap (is_on_curve V.coeff_b) (sym same) ∙ curve)
            ∙ ap decoded (sym same),
      )

  unchecked :
      (p : Affine B)
      → IsNormal p
      → is_on_curve V.coeff_b p ≡ true
      → (bytes : List ℕ) × (compressed_from_affine V C p ≡ some bytes)
        × (length bytes ≡ C.size)
        × (compressed_into_affine_unchecked V C bytes ≡ decoded p)
  unchecked p normal curve = elim (Bool-cases p.infinity) [
    | inl e ↦ compressed_infinite p e (normal e)
    | inr e ↦ compressed_finite p e curve
  ]

  -- A point of the curve and of the subgroup, infinity included in its one form, has a compressed
  -- encoding, of the length of one coordinate, from which it is decoded, where the base field has the
  -- square root and the order of `ff`.
  pub compressed_roundtrip :
      (p : Affine B)
      → IsNormal p
      → is_on_curve V.coeff_b p ≡ true
      → is_in_correct_subgroup_assuming_on_curve V p ≡ true
      → (bytes : List ℕ) × (compressed_from_affine V C p ≡ some bytes)
        × (length bytes ≡ C.size)
        × (compressed_into_affine V C bytes ≡ decoded p)
  unfolding compressed_into_affine
  compressed_roundtrip p normal curve subgroup =
      let (bytes, e, l, d) = unchecked p normal curve in (bytes, e, l, rw d (rw subgroup refl))

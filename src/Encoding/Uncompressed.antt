-- ===== src/Encoding/Uncompressed.antt =====
-- `G1Uncompressed` and `G2Uncompressed` (pairing/src/bls12_381/ec.rs): from a point to
-- its encoding and back, and the two tests of `into_affine`.
use mathlib.Core.List.{append-nil}
use aws_dpid.Prelude.{
  ℕ, zero, suc, ◌+◌, ◌-◌, ◌%◌, ◌<◌, ◌≡◌, ◌↔◌, refl, sym, ap, ap₂, ◌∙◌, Bool, true, false,
  Bool-cases, not, if◌then◌else◌, inl, inr, some, List, [], ◌∷◌, ◌++◌, length, length-append, arith,
}
use aws_dpid.Ring.{RingOps, FieldOps}
use aws_dpid.Curve.{Affine, affine_zero, is_on_curve}
use aws_dpid.Encoding.{
  Codec, CurveOps, Decoded, decoded, refused, has_bit, set_first, zeroes, all_zero, read_point,
  infinity_or_refused, uncompressed_into_affine_unchecked, uncompressed_into_affine,
  uncompressed_from_affine, is_in_correct_subgroup_assuming_on_curve, GroupErrors,
}
use aws_dpid.Encoding.Laws.{IsCodec, >>=-eq-decoded, decoded_inj}
use aws_dpid.Encoding.Bytes.{IsPlain_lem, write_over-zeroes, all_zero-zeroes}

-- Infinity has one form, `zero()`.
abbrev pub IsNormal : {B : Type 0} ⦃F : RingOps B⦄ ⦃K : FieldOps B⦄ → Affine B → Type 0
IsNormal p = p.infinity ≡ true → p ≡ affine_zero

pub finite_eq :
    {B : Type 0} (p : Affine B)
    → p.infinity ≡ false
    → p ≡ record { x = p.x; y = p.y; infinity = false }
finite_eq p e i = record { x = p.x; y = p.y; infinity = e i }

both_tests :
    {A E : Type 0} (e f : E) (curve subgroup : Bool) (q p : A)
    → ◌≡◌ {A = Decoded E A}
        (if not curve then refused e else if not subgroup then refused f else decoded q)
        (decoded p)
    → (curve ≡ true) × (subgroup ≡ true) × (q ≡ p)
both_tests e f true true q p h = (refl, refl, decoded_inj h)
both_tests e f true false q p h = cc
both_tests e f false subgroup q p h = cc

module _ {B R E : Type 0} ⦃F : RingOps B⦄ ⦃K : FieldOps B⦄ ⦃X : GroupErrors E⦄ (C : Codec B R E)
    {repr : B → R} (I : IsCodec C repr) where
  pub infinity_lem :
      (byte n : ℕ) → byte % 64 ≡ 0 → infinity_or_refused C byte (zeroes n) ≡ decoded affine_zero
  unfolding infinity_or_refused all_zero
  infinity_lem byte n h = rw (h, all_zero-zeroes n) refl

  read_point-write :
      (x y : B)
      → read_point C (C.write x ++ C.write y) ≡ decoded (record { x = x; y = y; infinity = false })
  unfolding read_point
  read_point-write x y =
      let second : C.read (C.write y) ≡ some (repr y, []) =
        ap C.read (sym (append-nil (C.write y))) ∙ I.read-write y [] in
      rw (I.read-write x (C.write y)) (rw second (rw (I.from_x-repr x) (rw (I.from_y-repr y) refl)))

  -- A first byte without flags is read as it is.
  unchecked-plain :
      (bytes : List ℕ) (b : ℕ) (bs : List ℕ)
      → bytes ≡ b ∷ bs
      → b < 32
      → uncompressed_into_affine_unchecked C bytes ≡ read_point C bytes
  unfolding uncompressed_into_affine_unchecked
  unchecked-plain bytes b bs e lt =
      let plain = IsPlain_lem b lt in
      ap (uncompressed_into_affine_unchecked C) e
      ∙ rw (plain.not_compressed, plain.finite, plain.no_order, plain.masked) refl
      ∙ ap (read_point C) (sym e)

  uncompressed_finite :
      (p : Affine B)
      → p.infinity ≡ false
      → (bytes : List ℕ) × (uncompressed_from_affine C p ≡ some bytes)
        × (length bytes ≡ C.size + C.size)
        × (uncompressed_into_affine_unchecked C bytes ≡ decoded p)
  unfolding uncompressed_from_affine
  uncompressed_finite p e =
      let (b, bs, first, lt) = I.top_clear p.x in
      let long : length (C.write p.x ++ C.write p.y) ≡ C.size + C.size =
        length-append (C.write p.x) (C.write p.y)
        ∙ ap₂ (λ m n. m + n) (I.length-write p.x) (I.length-write p.y) in
      (
        C.write p.x ++ C.write p.y,
        rw e (write_over-zeroes (C.write p.x ++ C.write p.y) (C.size + C.size) long),
        long,
        unchecked-plain (C.write p.x ++ C.write p.y) b (bs ++ C.write p.y)
              (ap (λ l. l ++ C.write p.y) first) lt
            ∙ read_point-write p.x p.y
            ∙ ap decoded (sym (finite_eq p e)),
      )

  pub length-zeroes : (n : ℕ) → length (zeroes n) ≡ n
  unfolding zeroes
  length-zeroes zero = refl
  length-zeroes (suc n) = ap suc (length-zeroes n)

  uncompressed_infinite :
      (p : Affine B)
      → p.infinity ≡ true
      → p ≡ affine_zero
      → (bytes : List ℕ) × (uncompressed_from_affine C p ≡ some bytes)
        × (length bytes ≡ C.size + C.size)
        × (uncompressed_into_affine_unchecked C bytes ≡ decoded p)
  unfolding uncompressed_from_affine uncompressed_into_affine_unchecked zeroes set_first has_bit
  uncompressed_infinite p e normal =
      let n = C.size + C.size - 1 in
      let some_bytes : C.size + C.size ≡ suc n = omega (arith, I.some_bytes) in
      (
        64 ∷ zeroes n,
        rw e (ap (λ m. some (set_first 6 (zeroes m))) some_bytes),
        ap suc (length-zeroes n) ∙ sym some_bytes,
        infinity_lem 64 n refl ∙ ap decoded (sym normal),
      )

  unchecked_roundtrip :
      (p : Affine B)
      → IsNormal p
      → (bytes : List ℕ) × (uncompressed_from_affine C p ≡ some bytes)
        × (length bytes ≡ C.size + C.size)
        × (uncompressed_into_affine_unchecked C bytes ≡ decoded p)
  unchecked_roundtrip p normal = elim (Bool-cases p.infinity) [
    | inl e ↦ uncompressed_infinite p e (normal e)
    | inr e ↦ uncompressed_finite p e
  ]

  module _ (V : CurveOps B) where
    -- A point of the curve and of the subgroup, infinity included in its one form, has an uncompressed
    -- encoding, of the length of two coordinates, from which it is decoded.
    pub uncompressed_roundtrip :
        (p : Affine B)
        → IsNormal p
        → is_on_curve V.coeff_b p ≡ true
        → is_in_correct_subgroup_assuming_on_curve V p ≡ true
        → (bytes : List ℕ) × (uncompressed_from_affine C p ≡ some bytes)
          × (length bytes ≡ C.size + C.size)
          × (uncompressed_into_affine V C bytes ≡ decoded p)
    unfolding uncompressed_into_affine
    uncompressed_roundtrip p normal curve subgroup =
        let (bytes, e, l, d) = unchecked_roundtrip p normal in
        (bytes, e, l, rw d (rw (curve, subgroup) refl))

    pub uncompressed_into_affine_iff :
        (bytes : List ℕ) (p : Affine B)
        → (uncompressed_into_affine V C bytes ≡ decoded p) ↔ (
            (uncompressed_into_affine_unchecked C bytes ≡ decoded p)
            × (is_on_curve V.coeff_b p ≡ true)
            × (is_in_correct_subgroup_assuming_on_curve V p ≡ true))
    unfolding uncompressed_into_affine
    uncompressed_into_affine_iff bytes p = (
      λ h.
          let (q, read, tests) = >>=-eq-decoded (uncompressed_into_affine_unchecked C bytes) _ h in
          let (curve, subgroup, same) =
            both_tests X.not_on_curve X.not_in_subgroup (is_on_curve V.coeff_b q)
              (is_in_correct_subgroup_assuming_on_curve V q) q p tests in
          (
            read ∙ ap decoded same,
            ap (is_on_curve V.coeff_b) (sym same) ∙ curve,
            ap (is_in_correct_subgroup_assuming_on_curve V) (sym same) ∙ subgroup,
          ),
      λ h. rw (h.0) (rw (h.1, h.2) refl),
    )

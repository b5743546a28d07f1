-- ===== src/Encoding/Canonical.antt =====
-- What `into_affine_unchecked` of `G1Uncompressed` and `G2Uncompressed` decodes, against what
-- `from_affine` writes (pairing/src/bls12_381/ec.rs).
use mathlib.Core.List.{append-nil, append_assoc}
use aws_dpid.Prelude.{
  ℕ, ◌+◌, ◌%◌, ◌<◌, ◌≡◌, refl, sym, ap, ap₂, ◌∙◌, Bool, true, false, ==→eq, and-left, and-right,
  ◌⊎◌, inl, inr, if◌then◌else◌, Option, some, none, List, [], ◌∷◌, ◌++◌, length, length-append,
  arith,
}
use aws_dpid.Ring.{RingOps, FieldOps}
use aws_dpid.Curve.{Affine, affine_zero}
use aws_dpid.Encoding.{
  Codec, GroupErrors, Decoded, decoded, refused, unwrap, has_bit, set_first, zeroes, all_zero,
  read_point, infinity_or_refused, uncompressed_into_affine_unchecked, uncompressed_from_affine,
}
use aws_dpid.Encoding.Laws.{IsCodec, >>=-eq-decoded, decoded_inj}
use aws_dpid.Encoding.Uncompressed.{IsNormal}
use aws_dpid.Encoding.Bytes.{IsPlain_lem, plain-lt, infinity-eq, write_over-zeroes, zeroes-all_zero}

-- The branches that decode.
branch-cases :
    {A E : Type 0} (c7 c6 c5 : Bool) (e f : E) (i r : Decoded E A) (p : A)
    → (if c7 then refused e else if c6 then i else if c5 then refused f else r) ≡ decoded p
    → ((c7 ≡ false) × (c6 ≡ true) × (i ≡ decoded p))
      ⊎ ((c7 ≡ false) × (c6 ≡ false) × (c5 ≡ false) × (r ≡ decoded p))
branch-cases true c6 c5 e f i r p h = cc
branch-cases false true c5 e f i r p h = inl (refl, refl, h)
branch-cases false false true e f i r p h = cc
branch-cases false false false e f i r p h = inr (refl, refl, refl, h)

if-decoded :
    {A E : Type 0} (c : Bool) (e : E) (q p : A)
    → (if c then decoded q else refused e) ≡ decoded p
    → (c ≡ true) × (q ≡ p)
if-decoded true e q p h = (refl, decoded_inj h)
if-decoded false e q p h = cc

unwrap-decoded :
    {A E : Type 0} (m : Option A) (a : A)
    → ◌≡◌ {A = Decoded E A} (unwrap m) (decoded a)
    → m ≡ some a
unwrap-decoded none a h = cc
unwrap-decoded (some b) a h = cc

nothing_left : (l rest : List ℕ) (n : ℕ) → length l ≡ n → length (l ++ rest) ≡ n → rest ≡ []
nothing_left l [] n h k = refl
nothing_left l (x ∷ rest) n h k = absurd (omega (arith, length-append {0} l (x ∷ rest)))

module _ {B R E : Type 0} ⦃F : RingOps B⦄ ⦃K : FieldOps B⦄ ⦃X : GroupErrors E⦄ (C : Codec B R E)
    {repr : B → R} (I : IsCodec C repr) where
  -- What is read are two coordinates, one behind the other.
  read_point-decoded :
      (l : List ℕ) (p : Affine B)
      → read_point C l ≡ decoded p
      → (rest : List ℕ) × (p.infinity ≡ false) × (l ≡ (C.write p.x ++ C.write p.y) ++ rest)
  unfolding read_point
  read_point-decoded l p h =
      let ((rx, reader), first, k) = >>=-eq-decoded (unwrap (C.read l)) _ h in
      let ((ry, rest), second, k') = >>=-eq-decoded (unwrap (C.read reader)) _ k in
      let (x, from_x, k'') = >>=-eq-decoded (C.from_x rx) _ k' in
      let (y, from_y, e) = >>=-eq-decoded (C.from_y ry) _ k'' in
      let same = decoded_inj e in
      (
        rest,
        ap (λ (q : Affine B). q.infinity) (sym same),
        I.write-read_x l reader rx x (unwrap-decoded (C.read l) _ first) from_x
            ∙ ap (λ m. C.write x ++ m)
                (I.write-read_y reader rest ry y (unwrap-decoded (C.read reader) _ second) from_y)
            ∙ sym (append_assoc (C.write x) (C.write y) rest)
            ∙ ap (λ (q : Affine B). (C.write q.x ++ C.write q.y) ++ rest) same,
      )

  finite_canonical :
      (byte : ℕ) (rest : List ℕ) (p : Affine B)
      → byte < 32
      → length (byte ∷ rest) ≡ C.size + C.size
      → read_point C ((byte % 32) ∷ rest) ≡ decoded p
      → uncompressed_from_affine C p ≡ some (byte ∷ rest)
  unfolding uncompressed_from_affine
  finite_canonical byte rest p lt long h =
      let masked = (IsPlain_lem byte lt).masked in
      let (left, finite, shape) = read_point-decoded ((byte % 32) ∷ rest) p h in
      let whole : byte ∷ rest ≡ (C.write p.x ++ C.write p.y) ++ left =
        ap (λ b. b ∷ rest) (sym masked) ∙ shape in
      let both : length (C.write p.x ++ C.write p.y) ≡ C.size + C.size =
        length-append (C.write p.x) (C.write p.y)
        ∙ ap₂ (λ m n. m + n) (I.length-write p.x) (I.length-write p.y) in
      let none_left =
        nothing_left (C.write p.x ++ C.write p.y) left (C.size + C.size) both
          (ap length (sym whole) ∙ long) in
      rw finite (
        write_over-zeroes (C.write p.x ++ C.write p.y) (C.size + C.size) both
        ∙ ap some (
            sym (append-nil (C.write p.x ++ C.write p.y))
            ∙ ap (λ l. (C.write p.x ++ C.write p.y) ++ l) (sym none_left)
            ∙ sym whole))

  infinite_canonical :
      (byte : ℕ) (rest : List ℕ) (p : Affine B)
      → byte < 256
      → has_bit byte 7 ≡ false
      → has_bit byte 6 ≡ true
      → length (byte ∷ rest) ≡ C.size + C.size
      → infinity_or_refused C byte rest ≡ decoded p
      → uncompressed_from_affine C p ≡ some (byte ∷ rest)
  unfolding uncompressed_from_affine infinity_or_refused all_zero set_first zeroes affine_zero
  infinite_canonical byte rest p lt plain flag long h =
      let (clear, same) =
        if-decoded (all_zero ((byte % 64) ∷ rest)) X.unexpected_information affine_zero p h in
      let first : byte ≡ 64 =
        infinity-eq byte lt plain flag (==→eq (byte % 64) 0 (and-left _ _ clear)) in
      let others : rest ≡ zeroes (length rest) = zeroes-all_zero rest (and-right _ _ clear) in
      ap (uncompressed_from_affine C) (sym same)
      ∙ ap (λ n. some (set_first 6 (zeroes n))) (sym long)
      ∙ ap₂ (λ b l. some (b ∷ l)) (sym first) (sym others)

  -- What is decoded has infinity in its one form.
  pub unchecked-IsNormal :
      (byte : ℕ) (rest : List ℕ) (p : Affine B)
      → uncompressed_into_affine_unchecked C (byte ∷ rest) ≡ decoded p
      → IsNormal p
  unfolding uncompressed_into_affine_unchecked infinity_or_refused
  unchecked-IsNormal byte rest p h infinite =
      elim (branch-cases (has_bit byte 7) (has_bit byte 6) (has_bit byte 5)
        X.unexpected_compression_mode X.unexpected_information (infinity_or_refused C byte rest)
        (read_point C ((byte % 32) ∷ rest)) p h) [
          | inl (plain, flag, read) ↦
              sym
                (if-decoded (all_zero ((byte % 64) ∷ rest)) X.unexpected_information affine_zero p
                  read).1
          | inr (plain, finite, order, read) ↦
              let (left, finite_point, shape) = read_point-decoded ((byte % 32) ∷ rest) p read in cc
        ]

  -- Bytes of the length of two coordinates that `into_affine_unchecked` decodes are
  -- the uncompressed encoding of the point.
  pub uncompressed_canonical :
      (byte : ℕ) (rest : List ℕ) (p : Affine B)
      → byte < 256
      → length (byte ∷ rest) ≡ C.size + C.size
      → uncompressed_into_affine_unchecked C (byte ∷ rest) ≡ decoded p
      → uncompressed_from_affine C p ≡ some (byte ∷ rest)
  unfolding uncompressed_into_affine_unchecked
  uncompressed_canonical byte rest p lt long h =
      elim (branch-cases (has_bit byte 7) (has_bit byte 6) (has_bit byte 5)
        X.unexpected_compression_mode X.unexpected_information (infinity_or_refused C byte rest)
        (read_point C ((byte % 32) ∷ rest)) p h) [
          | inl (plain, flag, read) ↦ infinite_canonical byte rest p lt plain flag long read
          | inr (plain, finite, order, read) ↦
              finite_canonical byte rest p (plain-lt byte lt plain finite order) long read
        ]

-- ===== src/Encoding/Laws.antt =====
-- What the encodings of pairing/src/bls12_381/ec.rs rely on: the big-endian texts of `FqRepr`, and
-- from them those of the coordinates of G1 and of G2.
use Prim.Native.String.{String}
use mathlib.Core.List.{append_assoc}
use mathlib.Core.Option.{some_inj}
use aws_dpid.Prelude.{
  ℕ, ◌+◌, ◌<◌, ◌≡◌, refl, sym, ap, ap₂, ◌∙◌, ◌⊎◌, inl, inr, some, List, ◌∷◌, ◌++◌, length,
  length-append, ◌>>=◌, >>=-eq-some, arith,
}
use aws_dpid.Tower.Fq2.{Fq2}
use aws_dpid.Encoding
use aws_dpid.Encoding.{
  FqOps, Codec, Decoded, decoded, refused, panicked, map_err, g1_codec, g2_codec, read_fq2,
  fq2_from_repr,
}

-- `FqRepr` is 48 bytes long, and `Fq` has 381 bits, so its elements leave the top three bits clear.
pub record IsFq {B R P : Type 0} (Q : FqOps B R P) : Type 0 where
  pub read-write : (r : R) (rest : List ℕ) → Q.read_be (Q.write_be r ++ rest) ≡ some (r, rest)
  pub write-read :
      (l rest : List ℕ) (r : R) → Q.read_be l ≡ some (r, rest) → l ≡ Q.write_be r ++ rest
  pub length-write : (r : R) → length (Q.write_be r) ≡ 48
  pub from-into : (x : B) → Q.from_repr (Q.into_repr x) ≡ inr x
  pub into-from : (r : R) (x : B) → Q.from_repr r ≡ inr x → Q.into_repr x ≡ r
  pub top_clear :
      (x : B) → (b : ℕ) × (bs : List ℕ) × (Q.write_be (Q.into_repr x) ≡ b ∷ bs) × (b < 32)

-- The same of a coordinate; `repr` is what `write` writes.
pub record IsCodec {B R E : Type 0} (C : Codec B R E) (repr : B → R) : Type 0 where
  pub read-write : (x : B) (rest : List ℕ) → C.read (C.write x ++ rest) ≡ some (repr x, rest)
  pub write-read_x :
      (l rest : List ℕ) (r : R) (x : B)
      → C.read l ≡ some (r, rest)
      → C.from_x r ≡ decoded x
      → l ≡ C.write x ++ rest
  pub write-read_y :
      (l rest : List ℕ) (r : R) (x : B)
      → C.read l ≡ some (r, rest)
      → C.from_y r ≡ decoded x
      → l ≡ C.write x ++ rest
  pub length-write : (x : B) → length (C.write x) ≡ C.size
  pub from_x-repr : (x : B) → C.from_x (repr x) ≡ decoded x
  pub from_y-repr : (x : B) → C.from_y (repr x) ≡ decoded x
  pub top_clear : (x : B) → (b : ℕ) × (bs : List ℕ) × (C.write x ≡ b ∷ bs) × (b < 32)
  pub some_bytes : 0 < C.size

pub decoded_inj : {E A : Type 0} {a b : A} → ◌≡◌ {A = Decoded E A} (decoded a) (decoded b) → a ≡ b
decoded_inj h = cc

pub >>=-eq-decoded :
    {E A B : Type 0} (m : Decoded E A) (f : A → Decoded E B) {b : B}
    → Encoding.◌>>=◌ m f ≡ decoded b
    → (a : A) × (m ≡ decoded a) × (f a ≡ decoded b)
>>=-eq-decoded (decoded a) f h = (a, refl, h)
>>=-eq-decoded (refused e) f h = cc
>>=-eq-decoded panicked f h = cc

converted :
    {B P E : Type 0} (error : String → P → E) (label : String) (s : P ⊎ B) (x : B)
    → map_err error label s ≡ decoded x
    → s ≡ inr x
unfolding map_err
converted error label (inl e) x h = cc
converted error label (inr y) x h = cc

module _ {B R P E : Type 0} (error : String → P → E) (Q : FqOps B R P) (I : IsFq Q) where
  map_err-into :
      (label : String) (x : B) → map_err error label (Q.from_repr (Q.into_repr x)) ≡ decoded x
  unfolding map_err
  map_err-into label x = ap (map_err error label) (I.from-into x)

  map_err-decoded :
      (label : String) (r : R) (x : B)
      → map_err error label (Q.from_repr r) ≡ decoded x
      → r ≡ Q.into_repr x
  map_err-decoded label r x h = sym (I.into-from r x (converted error label (Q.from_repr r) x h))

  pub g1_codec-IsCodec : IsCodec (g1_codec error Q) Q.into_repr
  unfolding g1_codec
  g1_codec-IsCodec = record {
    read-write = λ x. I.read-write (Q.into_repr x);
    write-read_x = λ l rest r x h k.
        I.write-read l rest r h
        ∙ ap (λ s. Q.write_be s ++ rest) (map_err-decoded "x coordinate" r x k);
    write-read_y = λ l rest r x h k.
        I.write-read l rest r h
        ∙ ap (λ s. Q.write_be s ++ rest) (map_err-decoded "y coordinate" r x k);
    length-write = λ x. I.length-write (Q.into_repr x);
    from_x-repr = map_err-into "x coordinate";
    from_y-repr = map_err-into "y coordinate";
    top_clear = I.top_clear;
    some_bytes = omega arith;
  }

  read_fq2-write :
      (x : Fq2 B) (rest : List ℕ)
      → read_fq2 error Q ((Q.write_be (Q.into_repr x.c1) ++ Q.write_be (Q.into_repr x.c0)) ++ rest)
        ≡ some ((Q.into_repr x.c1, Q.into_repr x.c0), rest)
  unfolding read_fq2
  read_fq2-write x rest =
      let c1 = Q.into_repr x.c1 in
      let c0 = Q.into_repr x.c0 in
      ap (read_fq2 error Q) (append_assoc (Q.write_be c1) (Q.write_be c0) rest)
      ∙ ap (λ o. o >>= λ a. Q.read_be a.1 >>= λ b. some ((a.0, b.0), b.1))
          (I.read-write c1 (Q.write_be c0 ++ rest))
      ∙ ap (λ o. o >>= λ b. some ((c1, b.0), b.1)) (I.read-write c0 rest)

  read_fq2-some :
      (l rest : List ℕ) (r1 r0 : R)
      → read_fq2 error Q l ≡ some ((r1, r0), rest)
      → l ≡ (Q.write_be r1 ++ Q.write_be r0) ++ rest
  unfolding read_fq2
  read_fq2-some l rest r1 r0 h =
      let (a, first, k) = >>=-eq-some (Q.read_be l) _ h in
      let (b, second, e) = >>=-eq-some (Q.read_be a.1) _ k in
      let pair = some_inj.0 e in
      I.write-read l a.1 a.0 first
      ∙ ap₂ (λ r s. Q.write_be r ++ s) (ap (λ p. p.0.0) pair)
          (I.write-read a.1 b.1 b.0 second
            ∙ ap₂ (λ r s. Q.write_be r ++ s) (ap (λ p. p.0.1) pair) (ap (λ p. p.1) pair))
      ∙ sym (append_assoc (Q.write_be r1) (Q.write_be r0) rest)

  fq2_from_repr-decoded :
      (a b : String) (r1 r0 : R) (x : Fq2 B)
      → fq2_from_repr error Q a b (r1, r0) ≡ decoded x
      → (r1 ≡ Q.into_repr x.c1) × (r0 ≡ Q.into_repr x.c0)
  unfolding fq2_from_repr
  fq2_from_repr-decoded a b r1 r0 x h =
      let (c0, first, k) = >>=-eq-decoded (map_err error a (Q.from_repr r0)) _ h in
      let (c1, second, e) = >>=-eq-decoded (map_err error b (Q.from_repr r1)) _ k in
      let fields : record { c0 = c0; c1 = c1 } ≡ x = decoded_inj e in
      (
        map_err-decoded b r1 c1 second ∙ ap (λ z. Q.into_repr z.c1) fields,
        map_err-decoded a r0 c0 first ∙ ap (λ z. Q.into_repr z.c0) fields,
      )

  fq2_from_repr-into :
      (a b : String) (x : Fq2 B)
      → fq2_from_repr error Q a b (Q.into_repr x.c1, Q.into_repr x.c0) ≡ decoded x
  unfolding fq2_from_repr
  fq2_from_repr-into a b x =
      ap
        (λ m. Encoding.◌>>=◌ m (λ c0.
          Encoding.◌>>=◌ (map_err error b (Q.from_repr (Q.into_repr x.c1)))
            (λ c1. decoded (record { c0 = c0; c1 = c1 }))))
        (map_err-into a x.c0)
      ∙ ap (λ m. Encoding.◌>>=◌ m (λ c1. decoded (record { c0 = x.c0; c1 = c1 })))
          (map_err-into b x.c1)

  pub g2_codec-IsCodec : IsCodec (g2_codec error Q) (λ x. (Q.into_repr x.c1, Q.into_repr x.c0))
  unfolding g2_codec
  g2_codec-IsCodec = record {
    read-write = read_fq2-write;
    write-read_x = λ l rest r x h k.
        let (e1, e0) = fq2_from_repr-decoded "x coordinate (c0)" "x coordinate (c1)" r.0 r.1 x k in
        read_fq2-some l rest r.0 r.1 h ∙ ap₂ (λ s t. (Q.write_be s ++ Q.write_be t) ++ rest) e1 e0;
    write-read_y = λ l rest r x h k.
        let (e1, e0) = fq2_from_repr-decoded "y coordinate (c0)" "y coordinate (c1)" r.0 r.1 x k in
        read_fq2-some l rest r.0 r.1 h ∙ ap₂ (λ s t. (Q.write_be s ++ Q.write_be t) ++ rest) e1 e0;
    length-write = λ x.
        length-append (Q.write_be (Q.into_repr x.c1)) (Q.write_be (Q.into_repr x.c0))
        ∙ ap₂ (λ m n. m + n) (I.length-write (Q.into_repr x.c1))
            (I.length-write (Q.into_repr x.c0));
    from_x-repr = fq2_from_repr-into "x coordinate (c0)" "x coordinate (c1)";
    from_y-repr = fq2_from_repr-into "y coordinate (c0)" "y coordinate (c1)";
    top_clear = λ x.
        let (b, bs, e, lt) = I.top_clear x.c1 in
        (
          b,
          bs ++ Q.write_be (Q.into_repr x.c0),
          ap (λ l. l ++ Q.write_be (Q.into_repr x.c0)) e,
          lt,
        );
    some_bytes = omega arith;
  }

-- ===== src/Preprocess/Stale.antt =====
-- A `PyG1` object with a table that is the `out` of `ppmul` (pairing/src/lib.rs): the point is
-- written, and the table of the old point stays.
use mathlib.Core.Path.{fun_ext}
use mathlib.Core.List.{reverse}
use aws_dpid.Prelude.{
  Option, if◌then◌else◌, ℕ, ◌+◌, ◌≡◌, refl, ap, ◌∙◌, some, none, ◌>>=◌, List, [], ◌∷◌, length, ◌<◌,
  ◌==◌, false, arith,
}
use aws_dpid.Hex.{hex_to_bin}
use aws_dpid.Wnaf.Group.{Group, multiple}
use aws_dpid.Preprocess.{PointOps, ScalarOps, Cached, ppmul, limbs, scan, flush, push_digit}
use aws_dpid.Preprocess.Table.{Carries}
use aws_dpid.Preprocess.Scalar.{IsFr}
use aws_dpid.Preprocess.Correct.{IsFull, ppmul_lem, some_rows}
use aws_dpid.Preprocess.Fill.{Sizes}
use aws_dpid.Preprocess.History.{IsCached, cached_ppmul}
use aws_dpid.Preprocess.Object.{ppmul_into, pow, power, fr, returned, reply}

module _ {G S : Type 0} (O : PointOps G S) (F : ScalarOps S) where
  scan-point :
      (c : Cached G) (g : G) (digits : List ℕ) (i : ℕ) (s : ℕ × G)
      → scan O (record c { point = g }) digits i s ≡ scan O c digits i s
  unfolding scan flush push_digit
  scan-point c g [] i (buffer, out) = refl
  scan-point c g (d ∷ digits) i (buffer, out) =
      ap (λ k. flush O c i (buffer, out) >>= k)
        (fun_ext (λ flushed.
          ap (λ k. push_digit c i d flushed.0 >>= k)
            (fun_ext (λ b. scan-point c g digits (i + 1) (b, flushed.1)))))

  -- `ppmul` does not read the point of an object that has a table.
  ppmul-point :
      (c : Cached G) (g : G)
      → (length c.pp == 0) ≡ false
      → (s : S) (out : G) → ppmul O F (record c { point = g }) s out ≡ ppmul O F c s out
  unfolding ppmul
  ppmul-point c g some_entries s out = rw some_entries (
      ap (λ k. F.from_repr (limbs 0) >>= k)
        (fun_ext (λ none_of.
          ap (λ k. hex_to_bin (F.print s) >>= k)
            (fun_ext (λ binstr.
              ap (λ o. if c.pplevel == 0 then none else o)
                (scan-point c g (reverse binstr) 0 (0, O.mul_assign out none_of)))))))

module _ {G S H : Type 0} (O : PointOps G S) (F : ScalarOps S) (A : Group H) {point : G → H}
    {number : S → ℕ} (P : Carries O A point number) (R : IsFr F number) (table_size : ℕ → Option ℕ)
    (Z : Sizes table_size) where
  some_entries : (c : Cached G) → IsFull A point c → (length c.pp == 0) ≡ false
  some_entries c C =
      let many = some_rows c.pplevel C.exact.at_least in
      let filled : 0 < length c.pp = omega (arith, C.full) in ground arith

  -- Let `ppmul` of an object, which has no table or that of its own point, have as `out` an object
  -- with a full table. It returns, the point of `out` becomes the multiple of the object's element,
  -- and the table of `out` stays. A power of `out` by a scalar then still returns the multiple of the
  -- element that `out` stood for before.
  pub stale_pow :
      (self out : Cached G) (r s : S)
      → IsCached A point self
      → IsFull A point out
      → (after : Cached G) × (ppmul_into O F self r out ≡ some after)
        × (point after.point ≡ multiple A (number r) (point self.point))
        × (after.pp ≡ out.pp)
        × (h : G) × (pow O F after (fr s) ≡ returned (record { point = h; pp = []; pplevel = 0 }))
        × (point h ≡ multiple A (number s) (point out.point))
  unfolding pow power reply ppmul_into
  stale_pow self out r s cached full =
      let (g, written, v) = (cached_ppmul O F A P R table_size Z) self cached r out.point in
      let (h, run, w) = ppmul_lem O F A P R out full s O.one in
      (
        record out { point = g },
        ap (λ o. o >>= λ x. some (record out { point = x })) written,
        v,
        refl,
        h,
        ap (λ o. reply (o >>= λ x. some (record { point = x; pp = []; pplevel = 0 })))
            (ppmul-point O F out g (some_entries out full) s O.one ∙ run),
        w,
      )

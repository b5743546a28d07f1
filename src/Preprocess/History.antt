-- ===== src/Preprocess/History.antt =====
-- The life of a `PyG1` object (pairing/src/lib.rs): the states that sequences of its methods reach.
use mathlib.Core.Path.{subst}
use mathlib.Core.Option.{some-injective}
use aws_dpid.Prelude.{
  ℕ, ◌≡◌, refl, sym, ap, ◌∙◌, false, ◌==◌, Bool-cases, inl, inr, some, ◌>>=◌, >>=-eq-some, Option,
  [], arith,
}
use aws_dpid.Wnaf.{ℤ}
use aws_dpid.Wnaf.Group.{Group, multiple}
use aws_dpid.Preprocess.{PointOps, ScalarOps, Cached, preprocess, ppmul}
use aws_dpid.Preprocess.Table.{Carries}
use aws_dpid.Preprocess.Scalar.{IsFr, fr_modulus, IsResidue, bigint_to_pyfr_lem}
use aws_dpid.Preprocess.Correct.{IsExact, IsFull, ppmul_lem}
use aws_dpid.Preprocess.Fill.{Sizes, preprocess_lem}
use aws_dpid.Preprocess.Object.{
  drop_table, new, one, zero, double, negate, affine_negate, add_assign, sub_assign, mul_assign,
  copy, ppmul_into, power, pow, reply, returned, fr, int,
}

-- A method call that returns; `table_size` is that of the class.
pub data Step {G S : Type 0} (O : PointOps G S) (F : ScalarOps S) (table_size : ℕ → Option ℕ)
    (c : Cached G) : Cached G → Type 0 where
  by_one : Step O F table_size c (one O c)
  by_zero : Step O F table_size c (zero O c)
  by_double : Step O F table_size c (double O c)
  by_negate : Step O F table_size c (negate O c)
  by_affine_negate : Step O F table_size c (affine_negate O c)
  by_add_assign : (g : G) → Step O F table_size c (add_assign O c g)
  by_sub_assign : (g : G) → Step O F table_size c (sub_assign O c g)
  by_mul_assign : (s : S) → Step O F table_size c (mul_assign O c s)
  by_copy : (g : G) → Step O F table_size c (copy c g)
  by_preprocess :
      (level : ℕ) → IsExact level → Step O F table_size c (preprocess O F table_size c level).0

-- An object that was made by `new` and changed by such calls, and, while it has no table, by being
-- the `out` of the `ppmul` of such an object.
pub data Reachable {G S : Type 0} (O : PointOps G S) (F : ScalarOps S) (table_size : ℕ → Option ℕ)
    : Cached G → Type 0 where
  created : Reachable O F table_size (new O)
  then_step :
      {c d : Cached G}
      → Reachable O F table_size c
      → Step O F table_size c d
      → Reachable O F table_size d
  then_out :
      {out after self : Cached G} (s : S)
      → Reachable O F table_size out
      → out.pplevel ≡ 0
      → Reachable O F table_size self
      → ppmul_into O F self s out ≡ some after
      → Reachable O F table_size after

-- No table, or the table of the point.
pub data IsCached {G H : Type 0} (A : Group H) (point : G → H) (c : Cached G) : Type 0 where
  plain : c.pp ≡ [] → c.pplevel ≡ 0 → IsCached A point c
  tabled : IsFull A point c → IsCached A point c

module _ {G H : Type 0} (A : Group H) (point : G → H) where
  drop_table-IsCached :
      (c : Cached G) (g : G)
      → IsCached A point c
      → IsCached A point (drop_table (record c { point = g }))
  unfolding drop_table
  drop_table-IsCached c g (plain none_left level) = rw level (plain none_left refl)
  drop_table-IsCached c g (tabled full) =
      let set : (c.pplevel == 0) ≡ false = ground (arith, full.exact.at_least) in
      rw set (plain refl refl)

drop_table-point : {G : Type 0} (c : Cached G) → (drop_table c).point ≡ c.point
unfolding drop_table
drop_table-point c = elim (Bool-cases (c.pplevel == 0)) [ inl e ↦ rw e refl | inr e ↦ rw e refl ]

written_point :
    {G S : Type 0} (O : PointOps G S) (F : ScalarOps S) (self out after : Cached G) (s : S)
    → ppmul_into O F self s out ≡ some after
    → (g : G) × (ppmul O F self s out.point ≡ some g) × (record out { point = g } ≡ after)
unfolding ppmul_into
written_point O F self out after s run =
    let (g, written, e) = >>=-eq-some (ppmul O F self s out.point) _ run in
    (g, written, some-injective _ _ e)

module _ {G S H : Type 0} (O : PointOps G S) (F : ScalarOps S) (A : Group H) {point : G → H}
    {number : S → ℕ} (P : Carries O A point number) (R : IsFr F number) (table_size : ℕ → Option ℕ)
    (Z : Sizes table_size) where
  -- What a call does to the element that the object stands for.
  pub effect : {c d : Cached G} → Step O F table_size c d → H → H
  effect by_one a = point O.one
  effect by_zero a = A.nought
  effect by_double a = A.plus a a
  effect by_negate a = A.minus a
  effect by_affine_negate a = A.minus a
  effect (by_add_assign g) a = A.plus a (point g)
  effect (by_sub_assign g) a = A.plus a (A.minus (point g))
  effect (by_mul_assign s) a = multiple A (number s) a
  effect (by_copy g) a = point g
  effect (by_preprocess level E) a = a

  -- The element that the calls so far make.
  pub element : {c : Cached G} → Reachable O F table_size c → H
  unfolding effect
  element created = point O.one
  element (then_step r st) = effect st (element r)
  element (then_out s r none_yet self run) = multiple A (number s) (element self)

  Step-IsCached :
      {c d : Cached G} → Step O F table_size c d → IsCached A point c → IsCached A point d
  unfolding one zero double negate affine_negate add_assign sub_assign mul_assign copy
  Step-IsCached {c} by_one h = drop_table-IsCached A point c O.one h
  Step-IsCached {c} by_zero h = drop_table-IsCached A point c O.zero h
  Step-IsCached {c} by_double h = drop_table-IsCached A point c _ h
  Step-IsCached {c} by_negate h = drop_table-IsCached A point c _ h
  Step-IsCached {c} by_affine_negate h = drop_table-IsCached A point c _ h
  Step-IsCached {c} (by_add_assign g) h = drop_table-IsCached A point c _ h
  Step-IsCached {c} (by_sub_assign g) h = drop_table-IsCached A point c _ h
  Step-IsCached {c} (by_mul_assign s) h = drop_table-IsCached A point c _ h
  Step-IsCached {c} (by_copy g) h = drop_table-IsCached A point c g h
  Step-IsCached {c} (by_preprocess level E) h =
      tabled (preprocess_lem O F A P R table_size Z c level E).2

  Step-effect :
      {c d : Cached G} (st : Step O F table_size c d) → point d.point ≡ effect st (point c.point)
  unfolding one zero double negate affine_negate add_assign sub_assign mul_assign copy effect
  Step-effect {c} by_one = ap point (drop_table-point (record c { point = O.one }))
  Step-effect {c} by_zero = ap point (drop_table-point (record c { point = O.zero })) ∙ P.point-zero
  Step-effect {c} by_double =
      ap point (drop_table-point (record c { point = O.double c.point })) ∙ P.point-double c.point
  Step-effect {c} by_negate =
      ap point (drop_table-point (record c { point = O.negate c.point })) ∙ P.point-negate c.point
  Step-effect {c} by_affine_negate =
      let a = O.affine_negate (O.into_affine c.point) in
      ap point (drop_table-point (record c { point = O.into_projective a }))
      ∙ P.point-into_projective a
      ∙ P.point-affine_negate (O.into_affine c.point)
      ∙ ap A.minus (P.point-into_affine c.point)
  Step-effect {c} (by_add_assign g) =
      ap point (drop_table-point (record c { point = O.add_assign c.point g }))
      ∙ P.point-add c.point g
  Step-effect {c} (by_sub_assign g) =
      ap point (drop_table-point (record c { point = O.sub_assign c.point g }))
      ∙ P.point-sub c.point g
  Step-effect {c} (by_mul_assign s) =
      ap point (drop_table-point (record c { point = O.mul_assign c.point s }))
      ∙ P.point-mul c.point s
  Step-effect {c} (by_copy g) = ap point (drop_table-point (record c { point = g }))
  Step-effect {c} (by_preprocess level E) =
      ap point (preprocess_lem O F A P R table_size Z c level E).1

  out-IsCached :
      (c : Cached G) (g : G)
      → c.pplevel ≡ 0
      → IsCached A point c
      → IsCached A point (record c { point = g })
  out-IsCached c g none_yet (plain none_left level) = plain none_left level
  out-IsCached c g none_yet (tabled full) = absurd (omega (arith, full.exact.at_least))

  -- An object is made by `new`, changed by calls of its methods that return, `preprocess` with
  -- levels of at most 32 whose windows end between the digits of a scalar and the letter F of its
  -- text, and written to by the `ppmul` of such objects only while it has no table. Then it has no
  -- table, or the table of its own point.
  pub Reachable-IsCached : {c : Cached G} → Reachable O F table_size c → IsCached A point c
  unfolding new
  Reachable-IsCached created = plain refl refl
  Reachable-IsCached (then_step r st) = Step-IsCached st (Reachable-IsCached r)
  Reachable-IsCached (then_out {out} {after} {self} s r none_yet of run) =
      let (g, written, same) = written_point O F self out after s run in
      subst (IsCached A point) same (out-IsCached out g none_yet (Reachable-IsCached r))

  pub cached_ppmul :
      (c : Cached G)
      → IsCached A point c
      → (s : S) (out : G)
      → (r : G) × (ppmul O F c s out ≡ some r) × (point r ≡ multiple A (number s) (point c.point))
  unfolding ppmul
  cached_ppmul c (plain none_left level) s out =
      (O.mul_assign c.point s, rw none_left refl, P.point-mul c.point s)
  cached_ppmul c (tabled full) s out = ppmul_lem O F A P R c full s out

  ppmul-point :
      (c : Cached G)
      → IsCached A point c
      → (s : S) (out g : G) → ppmul O F c s out ≡ some g
      → point g ≡ multiple A (number s) (point c.point)
  ppmul-point c h s out g run =
      let (r, e, v) = cached_ppmul c h s out in ap point (some-injective _ _ (sym run ∙ e)) ∙ v

  -- The object's point stands for the element that its calls make in the group.
  Reachable-element : {c : Cached G} (r : Reachable O F table_size c) → point c.point ≡ element r
  unfolding new element
  Reachable-element created = refl
  Reachable-element (then_step r st) = Step-effect st ∙ ap (effect st) (Reachable-element r)
  Reachable-element (then_out {out} {after} {self} s r none_yet of run) =
      let (g, written, same) = written_point O F self out after s run in
      ap (λ c. point c.point) (sym same)
      ∙ ppmul-point self (Reachable-IsCached of) s out.point g written
      ∙ ap (multiple A (number s)) (Reachable-element of)

  -- An object is made by `new`, changed by calls of its methods that return, `preprocess` with
  -- levels of at most 32 whose windows end between the digits of a scalar and the letter F of its
  -- text, and written to by the `ppmul` of such objects only while it has no table. Then its power
  -- returns a new object without a table: the multiple, of the element that the calls make in the
  -- group, by the scalar, or by a number congruent to the integer modulo the order.
  pub pow_lem :
      {c : Cached G} (r : Reachable O F table_size c)
      → ((s : S)
          → (g : G) × (pow O F c (fr s) ≡ returned (record { point = g; pp = []; pplevel = 0 }))
            × (point g ≡ multiple A (number s) (element r)))
        × ((z : ℤ)
            → (g : G) × (n : ℕ) × (pow O F c (int z)
                ≡ returned (record { point = g; pp = []; pplevel = 0 }))
              × IsResidue fr_modulus n z
              × (point g ≡ multiple A n (element r)))
  unfolding pow power reply
  pow_lem {c} r = (
    λ s.
        let (g, run, v) = cached_ppmul c (Reachable-IsCached r) s O.one in
        (
          g,
          ap (λ o. reply (o >>= λ x. some (record { point = x; pp = []; pplevel = 0 }))) run,
          v ∙ ap (multiple A (number s)) (Reachable-element r),
        ),
    λ z.
        let (s, made, residue) = bigint_to_pyfr_lem F R z in
        let (g, run, v) = cached_ppmul c (Reachable-IsCached r) s O.one in
        (
          g,
          number s,
          ap (power O F c) made
              ∙ ap (λ o. reply (o >>= λ x. some (record { point = x; pp = []; pplevel = 0 }))) run,
          residue,
          v ∙ ap (multiple A (number s)) (Reachable-element r),
        ),
  )

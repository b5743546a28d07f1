-- ===== src/Preprocess/Multiexp.antt =====
-- `blsmultiexp` (pairing/src/lib.rs): the sum of the powers, each by `pow` of its object. An
-- element of another class raises when the loop comes to it.
use mathlib.Core.Path.{subst}
use aws_dpid.Prelude.{ℕ, ◌≡◌, refl, sym, ap, ◌∙◌, Option, List, [], ◌∷◌}
use aws_dpid.Wnaf.{ℤ}
use aws_dpid.Wnaf.Group.{Group, multiple, plus-nought}
use aws_dpid.Preprocess.{PointOps, ScalarOps, Cached}
use aws_dpid.Preprocess.Table.{Carries}
use aws_dpid.Preprocess.Scalar.{IsFr, fr_modulus, IsResidue}
use aws_dpid.Preprocess.Fill.{Sizes}
use aws_dpid.Preprocess.Object.{
  drop_table, add_assign, pow, Reply, returned, raised, panicked, Exponent, fr, int,
}
use aws_dpid.Preprocess.History.{Reachable, element, pow_lem}

unfoldable pub zip : {A B : Type 0} → List A → List B → List (A × B)
zip [] bs = []
zip (a ∷ as') [] = []
zip (a ∷ as') (b ∷ bs) = (a, b) ∷ zip as' bs

-- An element of the first list, which `downcast` takes as a `PyG1` or not.
pub data Base (G : Type 0) : Type 0 where
  g1 : Cached G → Base G
  not_g1 : Base G

module _ {G S : Type 0} (O : PointOps G S) (F : ScalarOps S) where
  -- `downcast` and `pow` in the loop's body.
  unfoldable pub base_pow : Base G → Exponent S → Reply (Cached G)
  unfolding pow
  base_pow (g1 aif) bi = pow O F aif bi
  base_pow not_g1 bi = raised

  unfoldable pub multiexp_loop : List (Base G × Exponent S) → Cached G → Reply (Cached G)
  unfolding base_pow add_assign
  multiexp_loop [] output = returned output
  multiexp_loop ((a, b) ∷ pairs) output = elim (base_pow a b) [
    | returned temp ↦ multiexp_loop pairs (add_assign O output temp.point)
    | raised ↦ raised
    | panicked ↦ panicked
  ]

  unfoldable pub blsmultiexp : List (Base G) → List (Exponent S) → Reply (Cached G)
  unfolding zip multiexp_loop
  blsmultiexp gs zrs = multiexp_loop (zip gs zrs) (record { point = O.zero; pp = []; pplevel = 0 })

module _ {G S H : Type 0} (O : PointOps G S) (F : ScalarOps S) (A : Group H) {point : G → H}
    {number : S → ℕ} (P : Carries O A point number) (R : IsFr F number) (table_size : ℕ → Option ℕ)
    (Z : Sizes table_size) where
  -- Objects that their methods made, with exponents that are numbers.
  pub data AreSummands : List (Base G × Exponent S) → Type 0 where
    done : AreSummands []
    with_fr :
        (c : Cached G) (s : S) {l : List (Base G × Exponent S)}
        → Reachable O F table_size c
        → AreSummands l
        → AreSummands ((g1 c, fr s) ∷ l)
    with_int :
        (c : Cached G) (z : ℤ) {l : List (Base G × Exponent S)}
        → Reachable O F table_size c
        → AreSummands l
        → AreSummands ((g1 c, int z) ∷ l)

  -- The sum of the multiples of their elements; for an integer, the multiple by some number that is
  -- congruent to it.
  pub data IsSum : List (Base G × Exponent S) → H → Type 0 where
    sum_done : IsSum [] A.nought
    sum_fr :
        {c : Cached G} {s : S} {l : List (Base G × Exponent S)} (r : Reachable O F table_size c)
        {h : H}
        → IsSum l h
        → IsSum
            ((g1 c, fr s) ∷ l)
            (A.plus (multiple A (number s) ((element O F A P R table_size Z) r)) h)
    sum_int :
        {c : Cached G} {z : ℤ} {l : List (Base G × Exponent S)} (r : Reachable O F table_size c)
        (n : ℕ) {h : H}
        → IsResidue fr_modulus n z
        → IsSum l h
        → IsSum ((g1 c, int z) ∷ l) (A.plus (multiple A n ((element O F A P R table_size Z) r)) h)

  added :
      (out x : G) {a : H} (h : H)
      → point x ≡ a
      → A.plus (point (O.add_assign out x)) h ≡ A.plus (point out) (A.plus a h)
  added out x h v =
      ap (λ y. A.plus y h) (P.point-add out x ∙ ap (A.plus (point out)) v)
      ∙ A.plus_assoc (point out) _ h

  next :
      (c : Cached G) (e : Exponent S) (l : List (Base G × Exponent S)) (out x : G)
      → pow O F c e ≡ returned (record { point = x; pp = []; pplevel = 0 })
      → multiexp_loop O F ((g1 c, e) ∷ l) (record { point = out; pp = []; pplevel = 0 })
        ≡ multiexp_loop O F l (record { point = O.add_assign out x; pp = []; pplevel = 0 })
  unfolding multiexp_loop base_pow drop_table
  next c e l out x run = rw (run, multiexp_loop) refl

  multiexp_loop_lem :
      {l : List (Base G × Exponent S)} (t : AreSummands l) (out : G)
      → (g : G) × (h : H) × (multiexp_loop O F l (record { point = out; pp = []; pplevel = 0 })
          ≡ returned (record { point = g; pp = []; pplevel = 0 }))
        × IsSum l h
        × (point g ≡ A.plus (point out) h)
  unfolding multiexp_loop drop_table
  multiexp_loop_lem done out = (out, A.nought, refl, sum_done, sym (plus-nought A (point out)))
  multiexp_loop_lem (with_fr c s {l} r t) out =
      let (x, run, v) = ((pow_lem O F A P R table_size Z) r).0 s in
      let (g, h, rest, sum, w) = multiexp_loop_lem t (O.add_assign out x) in
      (
        g,
        A.plus (multiple A (number s) ((element O F A P R table_size Z) r)) h,
        next c (fr s) l out x run ∙ rest,
        sum_fr r sum,
        w ∙ added out x h v,
      )
  multiexp_loop_lem (with_int c z {l} r t) out =
      let (x, n, run, residue, v) = ((pow_lem O F A P R table_size Z) r).1 z in
      let (g, h, rest, sum, w) = multiexp_loop_lem t (O.add_assign out x) in
      (
        g,
        A.plus (multiple A n ((element O F A P R table_size Z) r)) h,
        next c (int z) l out x run ∙ rest,
        sum_int r n residue sum,
        w ∙ added out x h v,
      )

  -- The pairs are of objects of the class and of exponents that are numbers. Each object is made by
  -- `new`, changed by calls of its methods that return, `preprocess` with levels of at most 32 whose
  -- windows end between the digits of a scalar and the letter F of its text, and written to by the
  -- `ppmul` of such objects only while it has no table. Then `blsmultiexp` returns an object without
  -- a table that stands for the sum of the multiples of their elements by the scalars, or by numbers
  -- congruent to the integers modulo the order.
  pub blsmultiexp_lem :
      (gs : List (Base G)) (zrs : List (Exponent S))
      → AreSummands (zip gs zrs)
      → (g : G) × (blsmultiexp O F gs zrs ≡ returned (record { point = g; pp = []; pplevel = 0 }))
        × IsSum (zip gs zrs) (point g)
  unfolding blsmultiexp
  blsmultiexp_lem gs zrs t =
      let (g, h, run, sum, v) = multiexp_loop_lem t O.zero in
      let total = v ∙ ap (λ x. A.plus x h) P.point-zero ∙ A.nought-plus h in
      (g, run, subst (IsSum (zip gs zrs)) (sym total) sum)

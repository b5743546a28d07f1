-- ===== src/Wnaf/Window.antt =====
-- The window sizes that `curve_impl!` recommends for G1 and G2, pairing/src/bls12_381/ec.rs.
use aws_dpid.Prelude.{
  ℕ, suc, ◌+◌, ◌≤◌, if-elim, ltb, ◌≡◌, refl, Bool, true, ◌&&◌, and-left, and-right, Bool-cases, inl,
  inr, leb, if◌then◌else◌, List, [], ◌∷◌, length, arith,
}

-- `empirical_recommended_wnaf_for_scalar`, given `scalar.num_bits()`.
unfoldable pub g1_for_scalar : ℕ → ℕ
g1_for_scalar num_bits = if leb 130 num_bits then 4 else if leb 34 num_bits then 3 else 2

unfoldable pub g2_for_scalar : ℕ → ℕ
g2_for_scalar num_bits = if leb 103 num_bits then 4 else if leb 37 num_bits then 3 else 2

-- The loop of `empirical_recommended_wnaf_for_num_scalars`: one more for each bound exceeded, up to
-- the first that is not.
unfoldable pub recommend_loop : List ℕ → ℕ → ℕ → ℕ
recommend_loop [] num_scalars ret = ret
recommend_loop (r ∷ recommendations) num_scalars ret =
    let next = recommend_loop recommendations num_scalars (ret + 1) in
    if ltb r num_scalars then next else ret

abbrev pub g1_recommendations : List ℕ
g1_recommendations = 1 ∷ 3 ∷ 7 ∷ 20 ∷ 43 ∷ 120 ∷ 273 ∷ 563 ∷ 1630 ∷ 3128 ∷ 7933 ∷ 62569 ∷ []

abbrev pub g2_recommendations : List ℕ
g2_recommendations = 1 ∷ 3 ∷ 8 ∷ 20 ∷ 47 ∷ 126 ∷ 260 ∷ 826 ∷ 1501 ∷ 4555 ∷ 84071 ∷ []

unfoldable pub g1_for_num_scalars : ℕ → ℕ
unfolding recommend_loop
g1_for_num_scalars num_scalars = recommend_loop g1_recommendations num_scalars 4

unfoldable pub g2_for_num_scalars : ℕ → ℕ
unfolding recommend_loop
g2_for_num_scalars num_scalars = recommend_loop g2_recommendations num_scalars 4

pub recommend_loop-bounds :
    (rs : List ℕ) (n ret : ℕ)
    → (ret ≤ recommend_loop rs n ret) × (recommend_loop rs n ret ≤ ret + length rs)
unfolding recommend_loop
recommend_loop-bounds [] n ret = (omega arith, omega arith)
recommend_loop-bounds (r ∷ rs) n ret =
    let (low, high) = recommend_loop-bounds rs n (ret + 1) in
    if-elim (λ x. (ret ≤ x) × (x ≤ ret + suc (length rs))) (ltb r n)
      (λ e. (omega arith, omega arith)) (λ e. (omega arith, omega arith))

-- A window of at least one, and small enough for the shifts of `wnaf_form`.
unfoldable pub IsWindow : ℕ → Type 0
IsWindow w = (2 ≤ w) × (w ≤ 16)

recommended-IsWindow :
    (num_bits num_scalars : ℕ)
    → IsWindow (g1_for_scalar num_bits)
      × IsWindow (g2_for_scalar num_bits)
      × IsWindow (g1_for_num_scalars num_scalars)
      × IsWindow (g2_for_num_scalars num_scalars)
unfolding IsWindow g1_for_scalar g2_for_scalar g1_for_num_scalars g2_for_num_scalars
recommended-IsWindow num_bits num_scalars =
    let (a, b) = recommend_loop-bounds g1_recommendations num_scalars 4 in
    let (c, d) = recommend_loop-bounds g2_recommendations num_scalars 4 in
    (
      (ground arith, ground arith),
      (ground arith, ground arith),
      (omega (arith, a), b),
      (omega (arith, c), omega (arith, d)),
    )

recommend_loop_mono :
    (rs : List ℕ) (n m ret : ℕ) → n ≤ m → recommend_loop rs n ret ≤ recommend_loop rs m ret
unfolding recommend_loop
recommend_loop_mono [] n m ret le = omega arith
recommend_loop_mono (r ∷ rs) n m ret le =
    let (low, high) = recommend_loop-bounds rs m (ret + 1) in
    let rest = recommend_loop_mono rs n m (ret + 1) le in ground arith

-- How many bounds are below a number, wherever they stand in the list.
unfoldable pub exceeded : List ℕ → ℕ → ℕ
exceeded [] n = 0
exceeded (r ∷ rs) n = (if ltb r n then 1 else 0) + exceeded rs n

-- No bound is under `low`, nor under a bound before it.
data Ascending : ℕ → List ℕ → Type 0 where
  no_bounds : {low : ℕ} → Ascending low []
  bound_then : {low r : ℕ} {rs : List ℕ} → low ≤ r → Ascending r rs → Ascending low (r ∷ rs)

none_exceeded : {low : ℕ} {rs : List ℕ} (n : ℕ) → Ascending low rs → n ≤ low → exceeded rs n ≡ 0
unfolding exceeded
none_exceeded n no_bounds le = refl
none_exceeded {rs = r ∷ rs} n (bound_then more A) le =
    let rest : exceeded rs n ≡ 0 = none_exceeded n A (omega arith) in ground arith

recommend_loop_lem :
    {low : ℕ} {rs : List ℕ} (n ret : ℕ)
    → Ascending low rs
    → recommend_loop rs n ret ≡ ret + exceeded rs n
unfolding recommend_loop exceeded
recommend_loop_lem n ret no_bounds = omega arith
recommend_loop_lem {rs = r ∷ rs} n ret (bound_then more A) =
    let rest = recommend_loop_lem n (ret + 1) A in
    let stop : n ≤ r → exceeded rs n ≡ 0 = none_exceeded n A in
    elim (Bool-cases (ltb r n)) [
      | inl e ↦ rw e (omega (arith, rest))
      | inr e ↦ let le : n ≤ r = ground arith in rw e (omega (arith, stop le))
    ]

ascending : ℕ → List ℕ → Bool
ascending low [] = true
ascending low (r ∷ rs) = leb low r && ascending r rs

ascending-Ascending : (low : ℕ) (rs : List ℕ) → ascending low rs ≡ true → Ascending low rs
unfolding ascending
ascending-Ascending low [] h = no_bounds
ascending-Ascending low (r ∷ rs) h =
    let first : leb low r ≡ true = and-left _ _ h in
    bound_then (ground arith) (ascending-Ascending r rs (and-right _ _ h))

g1_recommendations-Ascending : Ascending 0 g1_recommendations
unfolding ascending
g1_recommendations-Ascending = ascending-Ascending 0 g1_recommendations refl

g2_recommendations-Ascending : Ascending 0 g2_recommendations
unfolding ascending
g2_recommendations-Ascending = ascending-Ascending 0 g2_recommendations refl

-- A recommended window is 2, and one more for each of the bounds that the bits of a single scalar
-- exceed, or 4, and one more for each of the recommendations that the number of scalars exceeds. It
-- lies between 2 and 16, and is never smaller for more bits, or for more scalars.
pub recommended_exact :
    (bits more_bits scalars more_scalars : ℕ)
    → bits ≤ more_bits
    → scalars ≤ more_scalars
    → (IsWindow (g1_for_scalar bits)
        × (g1_for_scalar bits ≤ g1_for_scalar more_bits)
        × (g1_for_scalar bits ≡ 2 + exceeded (33 ∷ 129 ∷ []) bits))
      × (IsWindow (g2_for_scalar bits)
          × (g2_for_scalar bits ≤ g2_for_scalar more_bits)
          × (g2_for_scalar bits ≡ 2 + exceeded (36 ∷ 102 ∷ []) bits))
      × (IsWindow (g1_for_num_scalars scalars)
          × (g1_for_num_scalars scalars ≤ g1_for_num_scalars more_scalars)
          × (g1_for_num_scalars scalars ≡ 4 + exceeded g1_recommendations scalars))
      × (IsWindow (g2_for_num_scalars scalars)
          × (g2_for_num_scalars scalars ≤ g2_for_num_scalars more_scalars)
          × (g2_for_num_scalars scalars ≡ 4 + exceeded g2_recommendations scalars))
unfolding g1_for_scalar g2_for_scalar g1_for_num_scalars g2_for_num_scalars exceeded
recommended_exact bits more_bits scalars more_scalars h k =
    let (a, b, c, d) = recommended-IsWindow bits scalars in
    (
      (a, ground arith, ground arith),
      (b, ground arith, ground arith),
      (
        c,
        recommend_loop_mono g1_recommendations scalars more_scalars 4 k,
        recommend_loop_lem scalars 4 g1_recommendations-Ascending,
      ),
      (
        d,
        recommend_loop_mono g2_recommendations scalars more_scalars 4 k,
        recommend_loop_lem scalars 4 g2_recommendations-Ascending,
      ),
    )

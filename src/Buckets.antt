-- ===== src/Buckets.antt =====
-- The buckets of `pippenger` in pairing/src/lib.rs: one column of digits. The digit of a scalar in
-- the column is widened to a signed integer; a bucket out of range is a panic, `none`.
pub mod Sums
pub mod Correct
use mathlib.Core.Option
use aws_dpid.Prelude.{ℕ, zero, suc, ◌-◌, Option, none, some, ◌>>=◌, List, [], ◌∷◌}
use aws_dpid.Wnaf.{GroupOps, ℤ, pos, negsuc}

module _ {G : Type 0} ⦃O : GroupOps G⦄ where
  -- `buckets[b]`, changed in place.
  unfoldable pub change : (G → G) → List G → ℕ → Option (List G)
  change f [] b = none
  change f (g ∷ buckets) zero = some (f g ∷ buckets)
  change f (g ∷ buckets) (suc b) = Option.map (λ rest. g ∷ rest) (change f buckets b)

  unfoldable pub place : ℤ → G → List G → Option (List G)
  unfolding change
  place (pos zero) pt buckets = some buckets
  place (pos (suc b)) pt buckets = change (λ g. O.add_assign g pt) buckets b
  place (negsuc b) pt buckets = change (λ g. O.sub_assign g pt) buckets b

  unfoldable pub place_all : List (ℤ × G) → List G → Option (List G)
  unfolding place
  place_all [] buckets = some buckets
  place_all ((digit, pt) ∷ scalars_points) buckets =
      place digit pt buckets >>= place_all scalars_points

  -- From the last bucket to the first: the intermediate sum, and the sum of those.
  unfoldable pub running_sums : List G → Option (G × G)
  running_sums [] = none
  running_sums (g ∷ []) = some (g, g)
  running_sums (g ∷ h ∷ buckets) =
      Option.map
        (λ s.
          let intermediate = O.add_assign s.0 g in (intermediate, O.add_assign s.1 intermediate))
        (running_sums (h ∷ buckets))

  unfoldable pub empty_buckets : ℕ → List G
  empty_buckets zero = []
  empty_buckets (suc buckets_count) = O.zero ∷ empty_buckets buckets_count

  -- The closure over `digit_index`: clear, place, sum.
  unfoldable pub column : ℕ → List (ℤ × G) → Option G
  unfolding place_all running_sums empty_buckets
  column buckets_count scalars_points =
      place_all scalars_points (empty_buckets buckets_count) >>= λ buckets.
      Option.map (λ s. s.1) (running_sums buckets)

  -- The loop of `mul_by_pow_2`, which the last doubling follows.
  unfoldable pub double_times : ℕ → G → G
  double_times zero s = s
  double_times (suc n) s = double_times n (O.double s)

  unfoldable pub mul_by_pow_2 : G → ℕ → G
  unfolding double_times
  mul_by_pow_2 point k = O.double (double_times (k - 1) point)

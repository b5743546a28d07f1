-- ===== src/Wnaf.antt =====
-- Windowed non-adjacent forms, pairing/src/wnaf.rs. The traits are of the crates `group` and `ff`:
-- a point has the operations of `CurveProjective`, a scalar those of `PrimeFieldRepr`. The digits
-- are signed integers; a panic is `none`, an overflow of a machine integer too.
pub mod Digits
pub mod Form
pub mod Group
pub mod Exp
pub mod Window
pub mod Correct
use mathlib.Core.List.{reverse}
use mathlib.Core.Option
use aws_dpid.Prelude.{
  ℕ, zero, suc, ◌+◌, ◌-◌, ◌/◌, ◌%◌, ◌^◌, Bool, true, false, ltb, ◌==◌, if◌then◌else◌, Option, none,
  some, ◌>>=◌, List, [], ◌∷◌,
}

-- The operations of `CurveProjective` that the code calls.
pub record GroupOps (G : Type 0) : Type 0 where
  pub zero : G
  pub double : G → G
  pub add_assign : G → G → G
  pub sub_assign : G → G → G

-- The operations of `PrimeFieldRepr` that the code calls; `low_limb` is `as_ref()[0]`.
pub record ReprOps (S : Type 0) : Type 0 where
  pub is_zero : S → Bool
  pub is_odd : S → Bool
  pub low_limb : S → ℕ
  pub from : ℕ → S
  pub sub_noborrow : S → S → S
  pub add_nocarry : S → S → S
  pub div2 : S → S

-- An `i64`: `negsuc n` is -(n + 1).
pub data ℤ : Type 0 where
  pos : ℕ → ℤ
  negsuc : ℕ → ℤ

-- The turns of `for _ in 0..(1 << (window - 1))`, a range of `i32`: at window 32 its end is
-- negative and it is empty, from window 33 on the shift overflows, and at 0 the subtraction does.
unfoldable pub table_turns : ℕ → Option ℕ
table_turns window =
    if window == 0
    then none
    else if ltb window 32
    then some (2 ^ (window - 1))
    else if window == 32
    then some 0
    else none

module _ {G : Type 0} ⦃O : GroupOps G⦄ where
  -- `base, base + dbl, ...`: what the loop pushes in `n` turns.
  unfoldable pub table_loop : ℕ → G → G → List G
  table_loop zero base dbl = []
  table_loop (suc n) base dbl = base ∷ table_loop n (O.add_assign base dbl) dbl

  unfoldable pub wnaf_table : G → ℕ → Option (List G)
  unfolding table_turns table_loop
  wnaf_table base window =
      Option.map (λ turns. table_loop turns base (O.double base)) (table_turns window)

  -- `table[i]`.
  unfoldable pub entry : List G → ℕ → Option G
  entry [] i = none
  entry (x ∷ table) zero = some x
  entry (x ∷ table) (suc i) = entry table i

  -- One turn of the loop of `wnaf_exp`, on `found_one` and `result`.
  unfoldable pub exp_step : List G → ℤ → Bool × G → Option (Bool × G)
  unfolding entry
  exp_step table n s = let result = if s.0 then O.double s.1 else s.1 in add_digit n s.0 result
    where
      add_digit : ℤ → Bool → G → Option (Bool × G)
      add_digit (pos zero) found_one result = some (found_one, result)
      add_digit (pos (suc n)) found_one result =
          Option.map (λ t. (true, O.add_assign result t)) (entry table (suc n / 2))
      add_digit (negsuc n) found_one result =
          Option.map (λ t. (true, O.sub_assign result t)) (entry table (suc n / 2))

  unfoldable pub exp_loop : List G → List ℤ → Bool × G → Option (Bool × G)
  unfolding exp_step
  exp_loop table [] s = some s
  exp_loop table (n ∷ wnaf) s = exp_step table n s >>= exp_loop table wnaf

  unfoldable pub wnaf_exp : List G → List ℤ → Option G
  unfolding exp_loop
  wnaf_exp table wnaf = Option.map (λ s. s.1) (exp_loop table (reverse wnaf) (false, O.zero))

-- The digit of an odd scalar, from its low limb. `1 << (window + 1)` overflows `u64` from window 63
-- on; at window 62 it is the least `i64`, and to subtract that from `u` overflows.
unfoldable pub digit : ℕ → ℕ → Option ℤ
digit window low =
    let u = low % 2 ^ (window + 1) in
    if ltb 62 window
    then none
    else if ltb (2 ^ window) u
    then (if window == 62 then none else some (negsuc (2 ^ (window + 1) - u - 1)))
    else some (pos u)

module _ {S : Type 0} ⦃R : ReprOps S⦄ where
  unfoldable pub subtract : ℤ → S → S
  subtract (pos zero) c = R.add_nocarry c (R.from 0)
  subtract (pos (suc n)) c = R.sub_noborrow c (R.from (suc n))
  subtract (negsuc n) c = R.add_nocarry c (R.from (suc n))

  unfoldable pub form_step : ℕ → S → Option (ℤ × S)
  unfolding digit subtract
  form_step window c =
      if R.is_odd c
      then Option.map (λ u. (u, R.div2 (subtract u c))) (digit window (R.low_limb c))
      else some (pos 0, R.div2 c)

  -- `while !c.is_zero()`; `none` is a panic, or a loop that is not finished after `fuel` turns.
  unfoldable pub wnaf_form : ℕ → S → ℕ → Option (List ℤ)
  unfolding form_step
  wnaf_form zero c window = none
  wnaf_form (suc fuel) c window =
      if R.is_zero c
      then some []
      else (form_step window c >>= λ turn.
          Option.map (λ wnaf. turn.0 ∷ wnaf) (wnaf_form fuel turn.1 window))

module _ {G S : Type 0} ⦃O : GroupOps G⦄ ⦃R : ReprOps S⦄ where
  -- `Wnaf::new().base(base, ..).scalar(scalar)`, and `Wnaf::new().scalar(scalar).base(base)`, with
  -- the window that the first call chose.
  unfoldable pub base_then_scalar : ℕ → G → S → ℕ → Option G
  unfolding wnaf_form wnaf_table wnaf_exp
  base_then_scalar fuel base scalar window = do
    table ← wnaf_table base window
    wnaf ← wnaf_form fuel scalar window
    wnaf_exp table wnaf

  unfoldable pub scalar_then_base : ℕ → S → G → ℕ → Option G
  unfolding wnaf_form wnaf_table wnaf_exp
  scalar_then_base fuel scalar base window = do
    wnaf ← wnaf_form fuel scalar window
    table ← wnaf_table base window
    wnaf_exp table wnaf

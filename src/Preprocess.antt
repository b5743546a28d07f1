-- ===== src/Preprocess.antt =====
-- Scalar multiplication by a table of multiples, the classes of pairing/src/lib.rs (`PyG1`, `PyG2`,
-- and `PyFq12` in multiplicative notation). A panic is `none`, and so is an overflow of the 64-bit
-- arithmetic. The operations of a point and of a scalar are of the crates `group` and `ff`.
pub mod Bounds
pub mod Table
pub mod Rows
pub mod Scan
pub mod Windows
pub mod Correct
pub mod Scalar
pub mod Fill
pub mod Object
pub mod History
pub mod Multiexp
pub mod Stale
use mathlib.Core.List.{reverse}
use aws_dpid.Prelude.{
  ℕ, zero, suc, ◌+◌, ◌-◌, ◌*◌, ◌/◌, ◌%◌, ◌^◌, Bool, true, false, ◌&&◌, not, ltb, ◌==◌,
  if◌then◌else◌, Option, none, some, ◌>>=◌, List, [], ◌∷◌, ◌++◌, get_elem?, length,
}
use aws_dpid.Hex.{hex_to_bin}

-- The operations of a point, multiplied by scalars `S`; `Aff` is the type of its affine form.
pub record PointOps (G S : Type 0) : Type 1 where
  pub Aff : Type 0
  pub one : G
  pub zero : G
  pub double : G → G
  pub negate : G → G
  pub into_affine : G → Aff
  pub affine_negate : Aff → Aff
  pub into_projective : Aff → G
  pub add_assign : G → G → G
  pub sub_assign : G → G → G
  pub mul_assign : G → S → G

-- `Fr::from_repr`, on the four limbs of an `FrRepr`, and `format!("{}", fr)`.
pub record ScalarOps (S : Type 0) : Type 0 where
  pub from_repr : List ℕ → Option S
  pub print : S → List ℕ

-- The result of arithmetic on 64 bits.
unfoldable pub checked : ℕ → Option ℕ
checked n = if ltb n 18446744073709551616 then some n else none

-- `FrRepr::from`.
abbrev pub limbs : ℕ → List ℕ
limbs n = n ∷ 0 ∷ 0 ∷ 0 ∷ []

-- `PyG1`: `g1` is the field `point`.
pub record Cached (G : Type 0) : Type 0 where
  pub point : G
  pub pp : List G
  pub pplevel : ℕ

-- The number of table entries that `PyG1::preprocess` makes room for.
unfoldable pub g1_table_size : ℕ → Option ℕ
unfolding checked
g1_table_size level = do
  base ← checked (2 ^ level)
  if level == 0 then none else checked ((base - 1) * ((255 + level - 1) / level))

-- `PyG2::preprocess` and `PyFq12::preprocess` divide the whole product, which may overflow first.
unfoldable pub g2_table_size : ℕ → Option ℕ
unfolding checked
g2_table_size level = do
  base ← checked (2 ^ level)
  product ← checked ((base - 1) * (255 + level - 1))
  if level == 0 then none else some (product / level)

-- The second test of the loop of `ppmul`.
unfoldable pub push_digit : {G : Type 0} → Cached G → ℕ → ℕ → ℕ → Option ℕ
unfolding checked
push_digit self i c buffer =
    if c == b'1'
    then (checked (2 ^ (i % self.pplevel)) >>= λ weight. some (buffer + weight))
    else some buffer

module _ {G S : Type 0} (O : PointOps G S) where
  -- `for i in 1..base-1`, with the turns left.
  unfoldable pub first_row : G → ℕ → ℕ → List G → Option (List G)
  first_row g zero i pp = some pp
  first_row g (suc turns) i pp =
      get_elem? pp (i - 1) >>= λ next. first_row g turns (i + 1) (pp ++ O.add_assign next g ∷ [])

  -- `for i in base-1..size`, with the turns left; `row` is `base - 1`.
  unfoldable pub other_rows : S → ℕ → ℕ → ℕ → List G → Option (List G)
  other_rows factor row zero i pp = some pp
  other_rows factor row (suc turns) i pp = get_elem? pp (i - row) >>= λ next.
      other_rows factor row turns (i + 1) (pp ++ O.mul_assign next factor ∷ [])

  -- The first test of the loop of `ppmul`, on `buffer` and `out`.
  unfoldable pub flush : Cached G → ℕ → ℕ × G → Option (ℕ × G)
  unfolding checked
  flush self i (buffer, out) =
      if i % self.pplevel == 0 && not (buffer == 0)
      then (do
        base ← checked (2 ^ self.pplevel)
        index ← checked ((base - 1) * (i / self.pplevel - 1) + (buffer - 1))
        entry ← get_elem? self.pp index
        some (0, O.add_assign out entry))
      else some (buffer, out)

  unfoldable pub scan : Cached G → List ℕ → ℕ → ℕ × G → Option G
  unfolding flush push_digit
  scan self [] i (buffer, out) = some out
  scan self (c ∷ digits) i s = do
    flushed ← flush self i s
    buffer ← push_digit self i c flushed.0
    scan self digits (i + 1) (buffer, flushed.1)

module _ {G S : Type 0} (O : PointOps G S) (F : ScalarOps S) where
  unfoldable pub fill_table : G → ℕ → ℕ → Option (List G)
  unfolding first_row other_rows
  fill_table g base size = do
    factor ← F.from_repr (limbs base)
    pp ← first_row O g (base - 1 - 1) 1 (g ∷ [])
    other_rows O factor (base - 1) (size - (base - 1)) (base - 1) pp

  -- The new state, and whether the call returned; a panic before the table is made leaves the old
  -- table, one after it an empty table.
  unfoldable pub preprocess : (ℕ → Option ℕ) → Cached G → ℕ → Cached G × Bool
  unfolding fill_table
  preprocess table_size self level = elim (table_size level) [
    | none ↦ (record self { pplevel = level }, false)
    | some size ↦ elim (fill_table self.point (2 ^ level) size) [
      | none ↦ (record self { pp = []; pplevel = level }, false)
      | some pp ↦ (record self { pp = pp; pplevel = level }, true)
    ]
  ]

  -- What `ppmul` writes to `out.g1`, the value of which was `out`.
  unfoldable pub ppmul : Cached G → S → G → Option G
  unfolding scan
  ppmul self prodend out =
      if length self.pp == 0 then some (O.mul_assign self.point prodend) else (do
        none_of ← F.from_repr (limbs 0)
        binstr ← hex_to_bin (F.print prodend)
        if self.pplevel == 0
            then none
            else scan O self (reverse binstr) 0 (0, O.mul_assign out none_of))

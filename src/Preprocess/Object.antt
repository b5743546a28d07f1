-- ===== src/Preprocess/Object.antt =====
-- The methods of `PyG1` that change the object, the write of `ppmul` to its `out`, and the powers
-- (pairing/src/lib.rs).
use aws_dpid.Prelude.{◌==◌, if◌then◌else◌, Option, none, some, ◌>>=◌, []}
use aws_dpid.Wnaf.{ℤ}
use aws_dpid.Preprocess.{PointOps, ScalarOps, Cached, ppmul}
use aws_dpid.Preprocess.Scalar.{bigint_to_pyfr}

-- `self.pp = Vec::new(); self.pplevel = 0;` where there is a table.
unfoldable pub drop_table : {G : Type 0} → Cached G → Cached G
drop_table self = if self.pplevel == 0 then self else record self { pp = []; pplevel = 0 }

module _ {G S : Type 0} (O : PointOps G S) where
  unfoldable pub new : Cached G
  new = record { point = O.one; pp = []; pplevel = 0 }

  unfoldable pub one : Cached G → Cached G
  unfolding drop_table
  one self = drop_table (record self { point = O.one })

  unfoldable pub zero : Cached G → Cached G
  unfolding drop_table
  zero self = drop_table (record self { point = O.zero })

  unfoldable pub double : Cached G → Cached G
  unfolding drop_table
  double self = drop_table (record self { point = O.double self.point })

  unfoldable pub negate : Cached G → Cached G
  unfolding drop_table
  negate self = drop_table (record self { point = O.negate self.point })

  unfoldable pub affine_negate : Cached G → Cached G
  unfolding drop_table
  affine_negate self =
      let a = O.affine_negate (O.into_affine self.point) in
      drop_table (record self { point = O.into_projective a })

  unfoldable pub add_assign : Cached G → G → Cached G
  unfolding drop_table
  add_assign self other = drop_table (record self { point = O.add_assign self.point other })

  unfoldable pub sub_assign : Cached G → G → Cached G
  unfolding drop_table
  sub_assign self other = drop_table (record self { point = O.sub_assign self.point other })

  unfoldable pub mul_assign : Cached G → S → Cached G
  unfolding drop_table
  mul_assign self other = drop_table (record self { point = O.mul_assign self.point other })

-- `copy`, and with the point that they build `randomize`, `load_fq_proj`, `load_fq_affine` and
-- `__setstate__`.
unfoldable pub copy : {G : Type 0} → Cached G → G → Cached G
unfolding drop_table
copy self other = drop_table (record self { point = other })

-- What the caller may pass as an exponent.
pub data Exponent (S : Type 0) : Type 0 where
  fr : S → Exponent S
  int : ℤ → Exponent S
  other_type : Exponent S

-- What a method call gives to the caller.
pub data Reply (A : Type 0) : Type 0 where
  returned : A → Reply A
  raised : Reply A
  panicked : Reply A

unfoldable pub reply : {A : Type 0} → Option A → Reply A
reply none = panicked
reply (some a) = returned a

module _ {G S : Type 0} (O : PointOps G S) (F : ScalarOps S) where
  -- `out` after `ppmul`, which sets its point only.
  unfoldable pub ppmul_into : Cached G → S → Cached G → Option (Cached G)
  unfolding ppmul
  ppmul_into self prodend out =
      ppmul O F self prodend out.point >>= λ g. some (record out { point = g })

  -- The power of an object with the scalar found, or not found.
  unfoldable pub power : Cached G → Option S → Reply (Cached G)
  unfolding ppmul reply new
  power self exp = reply (
      exp >>= λ e.
      ppmul O F self e O.one >>= λ g. some (record { point = g; pp = []; pplevel = 0 }))

  unfoldable pub pow : Cached G → Exponent S → Reply (Cached G)
  unfolding power bigint_to_pyfr
  pow self (fr exp) = power self (some exp)
  pow self (int exp) = power self (bigint_to_pyfr F exp)
  pow self other_type = raised

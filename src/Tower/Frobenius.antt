-- ===== src/Tower/Frobenius.antt =====
-- `frobenius_map` of pairing/src/bls12_381/fq2.rs, fq6.rs and fq12.rs keeps the operations of each
-- level, where the constants of fq.rs are the powers that its comments say.
pub mod Levels
pub mod Correct
use aws_dpid.Prelude.{ℕ, ◌%◌, ◌≡◌, List, get_or}
use aws_dpid.Ring.{RingOps, 𝟘, 𝟙, ◌⊗◌}
use aws_dpid.Tower.Fq2.{Fq2, fq2_ops, frobenius_map}
use aws_dpid.Tower.Fq6.{Fq6}
use aws_dpid.Tower.Fq6 as Fq6Mod
use aws_dpid.Tower.Fq12.{Fq12}
use aws_dpid.Tower.Fq12 as Fq12Mod
use aws_dpid.Tower.Fq2.Extension.{nonresidue}

-- The entries of the four tables at a power: with q the order of Fq they are the powers of -1 by
-- (q^n - 1) / 2 and of 1 + u by (q^n - 1) / 3, twice that, and (q^n - 1) / 6.
pub record IsTables {A : Type 0} ⦃F : RingOps A⦄ (fq2_c1 : List A)
    (fq6_c1 fq6_c2 fq12_c1 : List (Fq2 A)) (power : ℕ) : Type 0 where
  pub half : get_or fq2_c1 (power % 2) 𝟘 ⊗ get_or fq2_c1 (power % 2) 𝟘 ≡ 𝟙
  pub cube :
      nonresidue
        ⊗ (get_or fq6_c1 (power % 6) 𝟘 ⊗ get_or fq6_c1 (power % 6) 𝟘 ⊗ get_or fq6_c1 (power % 6) 𝟘)
      ≡ frobenius_map fq2_c1 power nonresidue
  pub square :
      get_or fq6_c2 (power % 6) 𝟘 ≡ get_or fq6_c1 (power % 6) 𝟘 ⊗ get_or fq6_c1 (power % 6) 𝟘
  pub root :
      get_or fq12_c1 (power % 12) 𝟘 ⊗ get_or fq12_c1 (power % 12) 𝟘 ≡ get_or fq6_c1 (power % 6) 𝟘

-- The map of each level, from the tables.
module _ {A : Type 0} ⦃F : RingOps A⦄ (fq2_c1 : List A) (fq6_c1 fq6_c2 fq12_c1 : List (Fq2 A)) where
  abbrev pub fq6_map : ℕ → Fq6 (Fq2 A) → Fq6 (Fq2 A)
  fq6_map n a = Fq6Mod.frobenius_map (frobenius_map fq2_c1) fq6_c1 fq6_c2 n a

  abbrev pub fq12_map : ℕ → Fq12 (Fq6 (Fq2 A)) → Fq12 (Fq6 (Fq2 A))
  fq12_map n a = Fq12Mod.frobenius_map fq6_map fq12_c1 n a

-- ===== src/Examples/Tower.antt =====
-- The theorems on the tower of pairing/src/bls12_381, over the integers modulo 19, where -1 is no
-- square and `1 + u` is neither a square nor a cube.
use aws_dpid.Prelude.{
  ℕ, ◌*◌, ◌%◌, ◌≡◌, ◌≢◌, refl, ap, Bool, true, false, ◌&&◌, not, ◌==◌, passes_under,
  passes_under_lem, arith,
}
use aws_dpid.Ring.{IsField, 𝟙, ◌⊗◌, negate}
use aws_dpid.Tower.Fq2.{Fq2, fq2_ops, fq2_field, fq2_nonresidue, mul_assign}
use aws_dpid.Tower.Fq2.Extension.{nonresidue}
use aws_dpid.Tower.Fq6.{Fq6, fq6_ops, fq6_field, fq6_nonresidue}
use aws_dpid.Tower.Fq12.{fq12_ops, fq12_field}
use aws_dpid.Tower.Field.{tower-IsField}
use aws_dpid.Ring.{IsCommRing, 𝟘, ◌⊕◌, twist}
use aws_dpid.Prelude.{◌+◌}
use aws_dpid.Tower.Fq2.Ring as Fq2Ring
use aws_dpid.Tower.Fq2.Extension as Fq2Extension
use aws_dpid.Tower.Fq6.{mul_by_01}
use aws_dpid.Tower.Fq6.Ring as Fq6Ring
use aws_dpid.Tower.Fq6.Extension.{mul_assign-cubic, mul_by_01_lem}
use aws_dpid.Tower.Fq12.{Fq12, mul_by_014}
use aws_dpid.Tower.Fq12.Extension.{sparse, mul_by_014_lem}
use aws_dpid.Examples.Zmod.{Zmod, residue, zmod_ops, zmod_field, val-lt, zmod19-IsField, Zmod-ext}

abbrev Q : Type 0
Q = Zmod 19

abbrev square_is_not : ℕ → Bool
square_is_not a = not (a * a % 19 == 18)

pub minus_one : (a : Q) → a ⊗ a ≢ negate 𝟙
unfolding passes_under
minus_one a h = ground (
  arith,
  passes_under_lem square_is_not a.val (val-lt (omega arith) a) refl,
  ap (λ (x : Q). x.val) h,
)

abbrev pub element : ℕ → ℕ → Fq2 Q
element x y = record { c0 = residue 19 x; c1 = residue 19 y }

-- Not `1 + u`.
abbrev differs : Fq2 Q → Bool
differs b = not (b.c0.val == 1 && b.c1.val == 1)

abbrev square_differs : ℕ → ℕ → Bool
square_differs x y = differs (element x y ⊗ element x y)

abbrev cube_differs : ℕ → ℕ → Bool
cube_differs x y = differs (element x y ⊗ element x y ⊗ element x y)

abbrev pub on_all : (ℕ → ℕ → Bool) → Bool
on_all p = passes_under (λ x. passes_under (p x) 19) 19

pub on_all_sound : (p : ℕ → ℕ → Bool) (b : Fq2 Q) → on_all p ≡ true → p b.c0.val b.c1.val ≡ true
on_all_sound p b h =
    passes_under_lem (p b.c0.val) b.c1.val (val-lt (omega arith) b.c1)
      (passes_under_lem (λ x. passes_under (p x) 19) b.c0.val (val-lt (omega arith) b.c0) h)

pub element_lem : (b : Fq2 Q) → element b.c0.val b.c1.val ≡ b
element_lem b i = record {
  c0 = Zmod-ext {a = residue 19 b.c0.val} {b = b.c0} b.c0.reduced i;
  c1 = Zmod-ext {a = residue 19 b.c1.val} {b = b.c1} b.c1.reduced i;
}

differs-nonresidue : differs nonresidue ≡ false
unfolding nonresidue
differs-nonresidue = refl

pub no_square : (b : Fq2 Q) → b ⊗ b ≢ nonresidue
unfolding passes_under mul_assign
no_square b h = cc (
  on_all_sound square_differs b refl,
  ap (λ a. differs (a ⊗ a)) (element_lem b),
  ap differs h,
  differs-nonresidue,
)

pub no_cube : (b : Fq2 Q) → b ⊗ b ⊗ b ≢ nonresidue
unfolding passes_under mul_assign
no_cube b h = cc (
  on_all_sound cube_differs b refl,
  ap (λ a. differs (a ⊗ a ⊗ a)) (element_lem b),
  ap differs h,
  differs-nonresidue,
)

tower-IsField_example : IsField (fq12_ops {C = Fq6 (Fq2 Q)}) fq12_field
tower-IsField_example = tower-IsField zmod19-IsField minus_one no_square no_cube

fq2_ring : IsCommRing (fq2_ops {A = Q})
fq2_ring = Fq2Ring.ring zmod19-IsField.ring

fq6_ring : IsCommRing (fq6_ops {B = Fq2 Q})
fq6_ring = Fq6Ring.ring fq2_ring nonresidue (Fq2Extension.mul_by_nonresidue_lem zmod19-IsField.ring)

abbrev pub six : ℕ → Fq6 (Fq2 Q)
six n = record { c0 = element n 2; c1 = element 3 (n + 4); c2 = element (n * 7) 5 }

abbrev pub twelve : ℕ → Fq12 (Fq6 (Fq2 Q))
twelve n = record { c0 = six n; c1 = six (n + 3) }

mul_assign-cubic_example : six 1 ⊗ six 2 ≡ record {
  c0 = element 1 2 ⊗ element 2 2 ⊕ twist (element 3 5 ⊗ element 14 5 ⊕ element 7 5 ⊗ element 3 6);
  c1 = element 1 2 ⊗ element 3 6 ⊕ element 3 5 ⊗ element 2 2 ⊕ twist (element 7 5 ⊗ element 14 5);
  c2 = element 1 2 ⊗ element 14 5 ⊕ element 3 5 ⊗ element 3 6 ⊕ element 7 5 ⊗ element 2 2;
}
mul_assign-cubic_example =
    mul_assign-cubic fq2_ring nonresidue (Fq2Extension.mul_by_nonresidue_lem zmod19-IsField.ring)
      (six 1) (six 2)

mul_by_01_lem_example :
    mul_by_01 (six 1) (element 4 6) (element 2 9)
    ≡ six 1 ⊗ record { c0 = element 4 6; c1 = element 2 9; c2 = 𝟘 }
mul_by_01_lem_example =
    mul_by_01_lem fq2_ring nonresidue (Fq2Extension.mul_by_nonresidue_lem zmod19-IsField.ring)
      (six 1) (element 4 6) (element 2 9)

mul_by_014_lem_example :
    mul_by_014 (twelve 1) (element 4 6) (element 2 9) (element 8 1)
    ≡ twelve 1 ⊗ sparse (element 4 6) (element 2 9) (element 8 1)
mul_by_014_lem_example =
    mul_by_014_lem fq2_ring nonresidue (Fq2Extension.mul_by_nonresidue_lem zmod19-IsField.ring)
      (twelve 1) (element 4 6) (element 2 9) (element 8 1)

-- ===== src/Ring.antt =====
-- The arithmetic that `ff::Field` gives every field of the tower (pairing/src/bls12_381), as an
-- interface: the operations, and the laws of a commutative ring that they are documented to meet.
pub mod Laws
pub mod Times
pub mod Poly
pub mod Solver
pub mod Field
pub mod Units
pub mod Hom
use aws_dpid.Prelude.{◌≡◌, ◌≢◌, ◌↔◌, Bool, true, Option, none, some}

-- The part of the trait `ff::Field` that adds and multiplies. A method that assigns to `self` is
-- a function to the new value.
pub record RingOps (A : Type 0) : Type 0 where
  pub zero : A
  pub one : A
  pub add : A → A → A
  pub sub : A → A → A
  pub mul : A → A → A
  pub negate : A → A
  pub square : A → A
  pub double : A → A

-- One name for the operations of every type that has an instance.
module _ {A : Type 0} ⦃F : RingOps A⦄ where
  abbrev pub 𝟘 : A
  𝟘 = F.zero

  abbrev pub 𝟙 : A
  𝟙 = F.one

  infixl 65 ◌⊕◌ ◌⊖◌
  infixl 70 ◌⊗◌
  abbrev pub ◌⊕◌ : A → A → A
  a ⊕ b = F.add a b

  abbrev pub ◌⊖◌ : A → A → A
  a ⊖ b = F.sub a b

  abbrev pub ◌⊗◌ : A → A → A
  a ⊗ b = F.mul a b

  abbrev pub negate : A → A
  negate a = F.negate a

  abbrev pub square : A → A
  square a = F.square a

  abbrev pub double : A → A
  double a = F.double a

-- The operations are those of a commutative ring.
pub record IsCommRing {A : Type 0} (F : RingOps A) : Type 0 where
  pub add_assoc : (a b c : A) → F.add (F.add a b) c ≡ F.add a (F.add b c)
  pub add_comm : (a b : A) → F.add a b ≡ F.add b a
  pub zero-add : (a : A) → F.add F.zero a ≡ a
  pub add-negate : (a : A) → F.add a (F.negate a) ≡ F.zero
  pub mul_assoc : (a b c : A) → F.mul (F.mul a b) c ≡ F.mul a (F.mul b c)
  pub mul_comm : (a b : A) → F.mul a b ≡ F.mul b a
  pub one-mul : (a : A) → F.mul F.one a ≡ a
  pub mul-add : (a b c : A) → F.mul a (F.add b c) ≡ F.add (F.mul a b) (F.mul a c)
  pub sub-eq : (a b : A) → F.sub a b ≡ F.add a (F.negate b)
  pub square-eq : (a : A) → F.square a ≡ F.mul a a
  pub double-eq : (a : A) → F.double a ≡ F.add a a

-- The rest of `ff::Field` that the tower calls, with the equality test that is derived.
pub record FieldOps (A : Type 0) : Type 0 where
  pub is_zero : A → Bool
  pub eq : A → A → Bool
  pub inverse : A → Option A

module _ {A : Type 0} ⦃K : FieldOps A⦄ where
  abbrev pub is_zero : A → Bool
  is_zero a = K.is_zero a

  infix 50 ◌=?◌
  abbrev pub ◌=?◌ : A → A → Bool
  a =? b = K.eq a b

  abbrev pub inverse : A → Option A
  inverse a = K.inverse a

-- The inherent method by which one level of the tower is built on the level below.
pub record NonresidueOps (A : Type 0) : Type 0 where
  pub mul_by_nonresidue : A → A

abbrev pub twist : {A : Type 0} ⦃N : NonresidueOps A⦄ → A → A
twist ⦃N = N⦄ a = N.mul_by_nonresidue a

-- A field, by what `ff::Field` documents: `inverse` fails at zero only.
pub record IsField {A : Type 0} (F : RingOps A) (K : FieldOps A) : Type 0 where
  pub ring : IsCommRing F
  pub is_zero_iff : (a : A) → (K.is_zero a ≡ true) ↔ (a ≡ F.zero)
  pub eq_iff : (a b : A) → (K.eq a b ≡ true) ↔ (a ≡ b)
  pub one-ne-zero : F.one ≢ F.zero
  pub inverse-zero : K.inverse F.zero ≡ none
  pub inverse-ne_zero :
      (a : A) → a ≢ F.zero → (b : A) × (K.inverse a ≡ some b) × (F.mul a b ≡ F.one)

-- What `ff::SqrtField` documents: a root where there is one.
pub record IsSqrt {B : Type 0} (F : RingOps B) (sqrt : B → Option B) : Type 0 where
  pub square-root : (a y : B) → sqrt a ≡ some y → F.square y ≡ a
  pub root_exists : (a y : B) → F.square y ≡ a → (r : B) × (sqrt a ≡ some r)

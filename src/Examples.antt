-- ===== src/Examples.antt =====
-- Concrete fields, and the theorems at concrete inputs.
pub mod Zmod
pub mod Tower
pub mod Frobenius
pub mod Curve
pub mod Pairing
pub mod Pippenger
pub mod Encoding
pub mod Wnaf
pub mod Preprocess
pub mod Cyclotomic
pub mod Root
pub mod Sqrt

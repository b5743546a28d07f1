-- ===== src/Tower.antt =====
-- The tower of extension fields, pairing/src/bls12_381/fq2.rs, fq6.rs and fq12.rs.
pub mod Fq2
pub mod Fq6
pub mod Fq12
pub mod Field
pub mod Frobenius

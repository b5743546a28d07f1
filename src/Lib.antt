-- ===== src/Lib.antt =====
-- The pairing library of this repository, pairing/src: the tower of fields of BLS12-381, the
-- curve groups G1 and G2, and the pairing engine.
--
-- The parts and their files:
--   * pairing/src/bls12_381/fq2.rs, fq6.rs, fq12.rs: Tower/Fq2, Tower/Fq6, Tower/Fq12. A struct
--     is a record, a method that assigns to `self` is a function to the new value, under its own
--     name. Each level is generic in the level below: it calls it by the operations of the trait
--     `ff::Field` (RingOps and FieldOps of Ring) and by `mul_by_nonresidue` (NonresidueOps).
--     Tower/Fq*/Ring has the ring laws, Extension the structure of the extension, Inverse the
--     inverse; Tower/Fq2/Sqrt the order and the square root; Tower/Field puts the three levels
--     together, and Tower/Frobenius is about `frobenius_map`, given the four tables of fq.rs.
--   * pairing/src/bls12_381/ec.rs, the macro `curve_impl!` that makes G1 and G2: Curve, over any
--     base field. The generic branches of `double`, `add_assign` and `add_assign_mixed` are named
--     `double_formula`, `add_formula` and `mixed_formula`. Curve/Equation and Curve/Valid are
--     about the equation of the curve, Curve/Law about the law of chord and tangent,
--     Curve/Points, Equal and Mixed about the affine points that are represented, Curve/Multiply
--     about the two loops of multiplication, Curve/Root and Unique about `get_point_from_x`,
--     Curve/Batch about `batch_normalization`.
--   * the encodings of points in ec.rs: Encoding. The code of G1 and of G2 is the same but for
--     the way a coordinate is read and written, a Codec. `FqRepr` is of the crate `ff`: IsFq of
--     Encoding/Laws states its big-endian bytes. Encoding/Uncompressed, Compressed, Canonical and
--     Exact have the theorems. The errors are of the crate `group`: GroupErrors has the values
--     that the code names.
--   * pairing/src/bls12_381/mod.rs: Pairing. `miller_loop` keeps for every pair the coefficients
--     that its iterator has not yielded; `none` is the panic of `unwrap`. Pairing/Lines is about
--     the two steps of `G2Prepared::from_affine`, Product and Fused about the Miller loop, Final
--     about the final exponentiation. Pairing/Pair has `Engine::pairing` and `pair` of
--     pairing/src/lib.rs.
--   * pairing/src/wnaf.rs: Wnaf. A digit, an `i64`, is a ℤ of its own, and a shift or a
--     subtraction that overflows is `none`; Wnaf/Form is about `wnaf_form`, Exp about
--     `wnaf_table` and `wnaf_exp`, Correct about the contexts `Wnaf`, and Window models the
--     window sizes that ec.rs recommends. A point is whatever represents an element of an abelian
--     group (Wnaf/Group), so that the theorems hold of Jacobian coordinates too.
--   * pairing/src/lib.rs, `pippenger`: Radix has `to_radix_2w`, over the four limbs of a scalar,
--     Buckets one column of digits and `mul_by_pow_2`, Pippenger the columns and their fold. The
--     `size_hint` of the scalars is their number. Radix/Window, Recenter, Value and Total go from
--     the bits of one window to the digits of a scalar, Pippenger/Columns, Rows and Correct from
--     one column to the sum. Preprocess/Multiexp has `blsmultiexp`.
--   * pairing/src/lib.rs, `preprocess` and `ppmul` of PyG1, PyG2 and PyFq12: Preprocess, over any
--     type of points; Hex models `hex_to_bin`. Preprocess/Rows is about the loops that fill the
--     table, Scan and Windows about the loop that reads it, Fill and Correct about the two
--     methods, Preprocess/Scalar about the integers that Python passes, Preprocess/Object has the
--     methods of PyG1, Preprocess/History the objects that sequences of them reach, and
--     Preprocess/Stale is about an object with a table that is the `out` of `ppmul`. A panic is
--     `none`, an overflow of 64 bits too, and so `preprocess` stops there before it makes the
--     table.
--   * Ring/Poly and Ring/Solver decide equations of commutative rings: generic code runs on
--     symbolic expressions, which are normalized to polynomials and compared.
--   * Examples: the integers modulo 19 as a concrete Fq, and the theorems at concrete points.
--
-- `Fq` and `Fr` (pairing/src/bls12_381/fq.rs, fr.rs) are derived by the crate `ff`, so `Fq` is a
-- parameter: any type with the operations of `Field`, and IsField states the documented laws that
-- a theorem needs. `BitIterator`, `Field::pow` and the square root and order of a base field are
-- arguments too. Loops run over lists and are structural recursion, but for the loop of
-- `wnaf_form`: it takes fuel, and any fuel above the scalar is enough, since each turn makes the
-- scalar smaller.
--
-- How `ff` prints a scalar and makes one from four limbs is a hypothesis (IsFr of
-- Preprocess/Scalar).
--
-- Not modelled: PyRistG, what a call of `ppmul` that panics has written to its `out`, the rest of
-- pairing/src/lib.rs, random sampling and printing, the copies of other libraries
-- (pairing/src/curve25519-dalek, pbc-0.5.14) and the Python code.
pub mod Prelude
pub mod Ring
pub mod Tower
pub mod Curve
pub mod Encoding
pub mod Pairing
pub mod Hex
pub mod Wnaf
pub mod Radix
pub mod Pippenger
pub mod Buckets
pub mod Preprocess
pub mod Examples

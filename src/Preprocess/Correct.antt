-- ===== src/Preprocess/Correct.antt =====
-- `preprocess` and `ppmul` together (pairing/src/lib.rs).
use mathlib.Core.List.{reverse, append_assoc}
use native.Mathlib.Nat.{lt-div-mul-add, mul_comm, mul-le-mul_left}
use aws_dpid.Prelude.{
  ℕ, zero, suc, ◌+◌, ◌-◌, ◌*◌, ◌/◌, ◌^◌, ◌<◌, ◌≤◌, ◌≡◌, refl, ap, ap₂, ◌∙◌, false, ◌==◌, some, List,
  ◌++◌, length, length-append, arith,
}
use aws_dpid.Wnaf.Group.{Group, multiple}
use aws_dpid.Hex.{hex_to_bin}
use aws_dpid.Hex.Bits.{value, value-low_bits, low_bits, low_bits-append, length-low_bits, halve}
use aws_dpid.Hex.Text.{ones, hex_to_bin-fr_text}
use aws_dpid.Preprocess.{PointOps, ScalarOps, Cached, limbs, scan, ppmul}
use aws_dpid.Preprocess.Bounds.{pow-le}
use aws_dpid.Preprocess.Table.{Carries, IsTable}
use aws_dpid.Preprocess.Scalar.{IsFr, limbs_value}
use aws_dpid.Preprocess.Windows.{windows_lem}

-- The windows of the 264 digits end between the digits of a scalar and the letter `F`.
pub record IsExact (level : ℕ) : Type 0 where
  pub at_least : 0 < level
  pub at_most : level ≤ 32
  pub covers : 255 ≤ level * (263 / level)
  pub stops : level * (263 / level) ≤ 260

abbrev pub rows : ℕ → ℕ
rows level = (255 + level - 1) / level

-- A table with all rows of 255 digits, and no more entries than 64 bits count.
pub record IsFull {G H : Type 0} (A : Group H) (point : G → H) (self : Cached G) : Type 0 where
  pub exact : IsExact self.pplevel
  pub table : IsTable A point (2 ^ self.pplevel - 1) self.pplevel (point self.point) self.pp
  pub full : (2 ^ self.pplevel - 1) * rows self.pplevel ≤ length self.pp
  pub fits : length self.pp < 18446744073709551616

pub rows_cover : (level : ℕ) → 0 < level → 255 ≤ level * rows level
rows_cover level pos =
    let e : (255 + level - 1) / level * level ≡ level * rows level = mul_comm (rows level) level in
    let h : 255 + level - 1 < rows level * level + level = lt-div-mul-add pos in omega arith

windows_cover : (level : ℕ) → 0 < level → 264 ≤ level * (263 / level) + level
windows_cover level pos =
    let e : 263 / level * level ≡ level * (263 / level) = mul_comm (263 / level) level in
    let h : 263 < 263 / level * level + level = lt-div-mul-add pos in omega arith

pub positive_factor : (m n : ℕ) → 255 ≤ m * n → 1 ≤ n
positive_factor m zero h = absurd (omega arith)
positive_factor m (suc n) h = omega arith

pub some_rows : (level : ℕ) → 0 < level → 0 < (2 ^ level - 1) * rows level
some_rows level pos =
    let two : 2 ^ 1 ≤ 2 ^ level = pow-le 1 level pos in
    let one_row : 1 ≤ rows level = positive_factor level (rows level) (rows_cover level pos) in
    let le : (2 ^ level - 1) * 1 ≤ (2 ^ level - 1) * rows level =
      mul-le-mul_left (2 ^ level - 1) one_row in
    omega arith

start_sum : (level x : ℕ) → 2 ^ (level * 0) * 0 + 2 ^ (level * 0 + 0) * x ≡ x
start_sum level x = omega (arith, ap (λ n. 2 ^ n * x) {x = level * 0 + 0} {y = 0} (omega arith))

module _ {G S H : Type 0} (O : PointOps G S) (F : ScalarOps S) (A : Group H) {point : G → H}
    {number : S → ℕ} (P : Carries O A point number) (R : IsFr F number) where
  ppmul-scan :
      (self : Cached G) (s none_of : S) (out : G) (t : List ℕ)
      → 0 < length self.pp
      → 0 < self.pplevel
      → F.from_repr (limbs 0) ≡ some none_of
      → hex_to_bin (F.print s) ≡ some t
      → ppmul O F self s out ≡ scan O self (reverse t) 0 (0, O.mul_assign out none_of)
  unfolding ppmul
  ppmul-scan self s none_of out t some_entries level made text =
      let filled : (length self.pp == 0) ≡ false = ground arith in
      let nonzero : (self.pplevel == 0) ≡ false = ground arith in
      rw (filled, made, text, nonzero) refl

  pub ppmul_lem :
      (self : Cached G)
      → IsFull A point self
      → (s : S) (out : G)
      → (r : G) × (ppmul O F self s out ≡ some r)
        × (point r ≡ multiple A (number s) (point self.point))
  unfolding limbs_value multiple
  ppmul_lem self C s out =
      let level = self.pplevel in
      let v = number s in
      let pos : 0 < level = C.exact.at_least in
      let small : v < 2 ^ 255 = omega (arith, R.number-lt s) in
      let (none_of, made, zero_of) = R.from_repr_lem (limbs 0) (omega arith) in
      let (t, text, digits) = hex_to_bin-fr_text v (omega arith) in
      let last = level * (263 / level) in
      let high = low_bits (260 - last) (halve last v) ++ ones in
      let spelled : value (low_bits last v) ≡ v =
        value-low_bits last v (omega (arith, pow-le 255 last C.exact.covers)) in
      let shape : reverse t ≡ low_bits last v ++ high =
        digits
        ∙ ap (λ n. low_bits n v ++ ones) {x = 260} {y = last + (260 - last)}
            (omega (arith, C.exact.stops))
        ∙ ap (λ l. l ++ ones) (low_bits-append last (260 - last) v)
        ∙ append_assoc (low_bits last v) (low_bits (260 - last) (halve last v)) ones in
      let some_entries : 0 < length self.pp = omega (arith, some_rows level pos, C.full) in
      let high_length : length high ≡ 260 - last + 4 =
        length-append (low_bits (260 - last) (halve last v)) ones
        ∙ ap (λ n. n + 4) (length-low_bits (260 - last) (halve last v)) in
      let sum = start_sum level (value (low_bits last v)) ∙ spelled in
      let top : 2 ^ 255 ≤ 2 ^ (level * rows level) =
        pow-le 255 (level * rows level) (rows_cover level pos) in
      let room : 2 ^ (level * 0) * 0 + 2 ^ (level * 0 + 0) * value (low_bits last v)
          < 2 ^ (level * rows level) =
        omega (arith, sum) in
      let start : 0 ≡ level * 0 + 0 = omega arith in
      let (r, run, w) =
        windows_lem O A P self (point self.point) (rows level) C.table C.full C.fits pos
          (omega arith) high (low_bits last v) (263 / level) 0 0 0 (O.mul_assign out none_of) pos
          (omega arith) (omega (arith, length-low_bits last v)) (omega (arith, high_length))
          (omega (arith, high_length, windows_cover level pos, C.exact.covers)) room in
      (
        r,
        ppmul-scan self s none_of out t some_entries pos made (ap hex_to_bin (R.print_lem s) ∙ text)
            ∙ ap₂ (λ l i. scan O self l i (0, O.mul_assign out none_of)) shape start
            ∙ run,
        w
            ∙ ap₂ (λ x n. A.plus x (multiple A n (point self.point)))
                (P.point-mul out none_of ∙ ap (λ n. multiple A n (point out)) zero_of) sum
            ∙ A.nought-plus (multiple A v (point self.point)),
      )

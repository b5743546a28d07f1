-- ===== src/Preprocess/Windows.antt =====
-- The loop of `ppmul` (pairing/src/lib.rs) with the table that `preprocess` makes: its result is
-- the multiple by the digits of the complete windows.
use native.Mathlib.Nat.{mul-suc, mul_comm, two-pow-succ, mul-le-mul_left}
use native.Mathlib.Decide.{dec_lt}
use aws_dpid.Prelude.{
  ℕ, zero, suc, ◌+◌, ◌-◌, ◌*◌, ◌^◌, ◌<◌, ◌≤◌, ◌≡◌, refl, sym, ap, ap₂, ◌∙◌, some, ◌>>=◌, List, [],
  ◌∷◌, ◌++◌, length, length-append, arith,
}
use aws_dpid.Wnaf.Group.{Group, multiple, multiple-add, plus-nought}
use aws_dpid.Hex.Bits.{bit, value}
use aws_dpid.Preprocess.{PointOps, Cached, push_digit, scan}
use aws_dpid.Preprocess.Bounds.{pow-add, lt_of_pow-lt}
use aws_dpid.Preprocess.Table.{Carries, IsTable}
use aws_dpid.Preprocess.Scan.{push-lt, scan_within, scan_last, flush_none, flush_full}

-- What a turn adds to the sum of the digits seen.
digit_weight :
    (n j b d v : ℕ)
    → 2 ^ n * (b + 2 ^ j * d) + 2 ^ (n + suc j) * v ≡ 2 ^ n * b + 2 ^ (n + j) * (d + 2 * v)
digit_weight n j b d v =
    let whole : 2 ^ (n + suc j) ≡ 2 ^ (n + j) + 2 ^ (n + j) =
      ap (λ m. 2 ^ m) {x = n + suc j} {y = suc (n + j)} (omega arith) ∙ two-pow-succ (n + j) in
    let split : 2 ^ (n + j) ≡ 2 ^ n * 2 ^ j = pow-add n j in rw (whole, split) (grind arith)

window_inside : (level k rows b : ℕ) → 2 ^ (level * k) * suc b < 2 ^ (level * rows) → k < rows
window_inside level k rows b h =
    let grows : 2 ^ (level * k) ≤ 2 ^ (level * k) * suc b =
      omega (arith, mul-suc (2 ^ (level * k)) b) in
    let below : level * k < level * rows = lt_of_pow-lt (level * k) (level * rows) (omega arith) in
    elim (dec_lt k rows) [
      | yes lt ↦ lt
      | no ge ↦
          let le : level * rows ≤ level * k = mul-le-mul_left level (omega arith) in
          absurd (omega arith)
    ]

no_digits : (level n j : ℕ) → j < level → j ≡ level * n → j ≡ 0
no_digits level zero j h e = omega arith
no_digits level (suc n) j h e = absurd (omega (arith, mul-suc level n))

nonempty : (l : List ℕ) → 0 < length l → (x : ℕ) × (xs : List ℕ) × (l ≡ x ∷ xs)
nonempty [] h = absurd (omega arith)
nonempty (x ∷ xs) h = (x, xs, refl)

module _ {G S H : Type 0} (O : PointOps G S) (A : Group H) {point : G → H} {number : S → ℕ}
    (P : Carries O A point number) (self : Cached G) (p : H) (rows : ℕ)
    (T : IsTable A point (2 ^ self.pplevel - 1) self.pplevel p self.pp)
    (full : (2 ^ self.pplevel - 1) * rows ≤ length self.pp)
    (fits : length self.pp < 18446744073709551616) (pos : 0 < self.pplevel)
    (small : self.pplevel < 64) where
  window_done :
      (k b : ℕ) (out : G)
      → b < 2 ^ self.pplevel
      → 2 ^ (self.pplevel * k) * b < 2 ^ (self.pplevel * rows)
      → (out' : G) × ((x : ℕ) (xs : List ℕ)
          → scan O self (x ∷ xs) (self.pplevel * suc k) (b, out)
            ≡ scan O self (x ∷ xs) (self.pplevel * suc k) (0, out'))
        × (point out' ≡ A.plus (point out) (multiple A (2 ^ (self.pplevel * k) * b) p))
  unfolding scan multiple
  window_done k zero out lt in_table = (
    out,
    λ x xs. refl,
    sym (plus-nought A (point out))
        ∙ ap (λ n. A.plus (point out) (multiple A n p)) {x = 0} {y = 2 ^ (self.pplevel * k) * 0}
            (omega arith),
  )
  window_done k (suc b) out lt in_table =
      let row = 2 ^ self.pplevel - 1 in
      let inside : k < rows = window_inside self.pplevel k rows b in_table in
      let before : row * suc k ≤ row * rows = mul-le-mul_left row inside in
      let place : row * k + b < length self.pp = omega (arith, mul-suc row k) in
      let (e, found, v) = T k b (omega arith) place in
      (
        O.add_assign out e,
        λ x xs.
            ap
              (λ o. o >>= λ f. push_digit self (self.pplevel * suc k) x f.0 >>= λ buffer.
                scan O self xs (self.pplevel * suc k + 1) (buffer, f.1))
              (flush_full O self k b out e pos small (omega arith) found
                ∙ sym (flush_none O self (self.pplevel * suc k) (O.add_assign out e))),
        P.point-add out e
            ∙ ap (A.plus (point out)) (
                v
                ∙ ap (λ n. multiple A n p) {x = (b + 1) * 2 ^ (self.pplevel * k)}
                    (mul_comm (b + 1) (2 ^ (self.pplevel * k))
                      ∙ ap (λ n. 2 ^ (self.pplevel * k) * n) {x = b + 1} {y = suc b}
                          (omega arith))),
      )

  -- All complete windows, from the digit `j` of window `k` on; `n` windows are left.
  pub windows_lem :
      (high cs : List ℕ) (n k j b : ℕ) (out : G)
      → j < self.pplevel
      → b < 2 ^ j
      → j + length cs ≡ self.pplevel * n
      → 0 < length high
      → length high ≤ self.pplevel
      → 2 ^ (self.pplevel * k) * b + 2 ^ (self.pplevel * k + j) * value cs
        < 2 ^ (self.pplevel * rows)
      → (r : G) × (scan O self (cs ++ high) (self.pplevel * k + j) (b, out) ≡ some r)
        × (point r
            ≡ A.plus
                (point out)
                (multiple A (2 ^ (self.pplevel * k) * b + 2 ^ (self.pplevel * k + j) * value cs) p))
  unfolding value multiple
  windows_lem high [] n k j b out h lt whole some_high few in_table =
      let first : j ≡ 0 = no_digits self.pplevel n j h (omega arith) in
      let none_left : b ≡ 0 = omega (arith, ap (λ m. 2 ^ m) first) in
      (
        out,
        scan_last O self k high j b out small lt (omega arith),
        sym (plus-nought A (point out))
            ∙ ap (λ m. A.plus (point out) (multiple A m p)) {x = 0}
                (omega (arith, ap (λ m. 2 ^ (self.pplevel * k) * m) none_left)),
      )
  windows_lem high (c ∷ cs) zero k j b out h lt whole some_high few in_table = absurd (omega arith)
  windows_lem high (c ∷ cs) (suc n) k j b out h lt whole some_high few in_table =
      let step = scan_within O self k j b c (cs ++ high) out small h lt in
      let weight = digit_weight (self.pplevel * k) j b (bit c) (value cs) in
      elim (dec_lt (suc j) self.pplevel) [
        | yes more ↦
            let (r, run, v) =
              windows_lem high cs (suc n) k (suc j) (b + 2 ^ j * bit c) out more (push-lt j b c lt)
                (omega arith) some_high few (omega arith) in
            (r, step ∙ run, v ∙ ap (λ m. A.plus (point out) (multiple A m p)) weight)
        | no last ↦
            let b' = b + 2 ^ j * bit c in
            let left : 2 ^ (self.pplevel * suc k + 0) * value cs
                ≡ 2 ^ (self.pplevel * k + suc j) * value cs =
              ap (λ m. 2 ^ m * value cs) {x = self.pplevel * suc k + 0}
                (omega (arith, mul-suc self.pplevel k)) in
            let (x, xs, shape) = nonempty (cs ++ high) (omega (arith, length-append {0} cs high)) in
            let filled : b' < 2 ^ self.pplevel = omega (
              arith,
              push-lt j b c lt,
              ap (λ m. 2 ^ m) {x = suc j} {y = self.pplevel} (omega arith),
            ) in
            let next_window : self.pplevel * k + suc j ≡ self.pplevel * suc k =
              omega (arith, mul-suc self.pplevel k) in
            let start : self.pplevel * suc k ≡ self.pplevel * suc k + 0 = omega arith in
            let (out', done, v) = window_done k b' out filled (omega arith) in
            let (r, run, w) =
              windows_lem high cs n (suc k) 0 0 out' pos (omega arith)
                (omega (arith, mul-suc self.pplevel n)) some_high few (omega arith) in
            (
              r,
              step
                  ∙ ap₂ (λ l i. scan O self l i (b', out)) shape next_window
                  ∙ done x xs
                  ∙ ap₂ (λ l i. scan O self l i (0, out')) (sym shape) start
                  ∙ run,
              w
                  ∙ ap
                      (λ y. A.plus y (
                        multiple A
                          (2 ^ (self.pplevel * suc k) * 0
                            + 2 ^ (self.pplevel * suc k + 0) * value cs)
                          p))
                      v
                  ∙ A.plus_assoc (point out) _ _
                  ∙ ap (A.plus (point out)) (
                      sym (multiple-add A (2 ^ (self.pplevel * k) * b') _ p)
                      ∙ ap (λ m. multiple A m p) (omega arith)),
            )
      ]

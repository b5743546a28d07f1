-- ===== src/Preprocess/Rows.antt =====
-- The rows that `preprocess` pushes (pairing/src/lib.rs): a table of multiples of the point.
use native.Mathlib.Nat.{div-add-mod, mod-lt, mul-suc, mul_left_comm}
use mathlib.Core.Option.{some_inj}
use aws_dpid.Prelude.{
  ℕ, zero, suc, ◌+◌, ◌-◌, ◌*◌, ◌/◌, ◌%◌, ◌^◌, ◌<◌, ◌≤◌, ◌≡◌, refl, sym, ap, ap₂, ◌∙◌, some, ◌>>=◌,
  List, [], ◌∷◌, ◌++◌, length, get_elem?, length-append, arith,
}
use aws_dpid.Wnaf.Group.{Group, multiple, multiple-multiple, plus-nought}
use aws_dpid.Preprocess.{PointOps, ScalarOps, limbs, first_row, other_rows, fill_table}
use aws_dpid.Preprocess.Scalar.{IsFr, limbs_value}
use aws_dpid.Preprocess.Bounds.{pow-add, pow-le}
use aws_dpid.Preprocess.Table.{Carries, IsTable, push-IsTable}

first_block : (row k b : ℕ) → row * k + b < row → k ≡ 0
first_block row zero b h = refl
first_block row (suc k) b h = absurd (omega (arith, mul-suc row k))

module _ {G S H : Type 0} (O : PointOps G S) (A : Group H) {point : G → H} {number : S → ℕ}
    (P : Carries O A point number) where
  first_entry :
      (level i : ℕ) (a x : H)
      → x ≡ multiple A ((i + 1) * 2 ^ (level * 0)) a
      → A.plus x a ≡ multiple A ((suc i + 1) * 2 ^ (level * 0)) a
  unfolding multiple
  first_entry level i a x h =
      let unit : 2 ^ (level * 0) ≡ 1 = ap (λ n. 2 ^ n) {x = level * 0} {y = 0} (omega arith) in
      ap (λ y. A.plus y a) h
      ∙ A.plus_comm _ a
      ∙ ap (λ n. multiple A n a) {x = suc ((i + 1) * 2 ^ (level * 0))} (rw unit (omega arith))

  first_row_lem :
      (row level : ℕ) (g : G) (turns i : ℕ) (pp : List G)
      → length pp ≡ suc i
      → suc i + turns ≡ row
      → IsTable A point row level (point g) pp
      → (t : List G) × (first_row O g turns (suc i) pp ≡ some t)
        × (length t ≡ row)
        × IsTable A point row level (point g) t
  unfolding first_row
  first_row_lem row level g zero i pp l e T = (pp, refl, omega arith, T)
  first_row_lem row level g (suc turns) i pp l e T =
      let origin : row * 0 + i ≡ suc i - 1 = omega arith in
      let (next, found, v) = T 0 i (omega arith) (omega arith) in
      let pushed = push-IsTable A point row level (point g) pp (O.add_assign next g) T (λ k b lt at.
        let first : k ≡ 0 = first_block row k b (omega arith) in
        let same : b ≡ suc i = omega (arith, ap (λ n. row * n) first) in
        P.point-add next g
        ∙ first_entry level i (point g) (point next) v
        ∙ ap₂ (λ n m. multiple A ((n + 1) * 2 ^ (level * m)) (point g)) (sym same) (sym first)) in
      let longer : length (pp ++ O.add_assign next g ∷ []) ≡ suc (suc i) =
        length-append pp (O.add_assign next g ∷ []) ∙ omega arith in
      let (t, run, size, U) =
        first_row_lem row level g turns (suc i) (pp ++ O.add_assign next g ∷ []) longer
          (omega arith) pushed in
      (
        t,
        ap (λ o. o >>= λ x. first_row O g turns (suc i + 1) (pp ++ O.add_assign x g ∷ []))
              (ap (get_elem? pp) (sym origin) ∙ found)
            ∙ ap (λ j. first_row O g turns j (pp ++ O.add_assign next g ∷ [])) {x = suc i + 1}
                {y = suc (suc i)} (omega arith)
            ∙ run,
        size,
        U,
      )

  other_entry :
      (level k b : ℕ) (a x : H) (factor : S)
      → number factor ≡ 2 ^ level
      → x ≡ multiple A ((b + 1) * 2 ^ (level * k)) a
      → multiple A (number factor) x ≡ multiple A ((b + 1) * 2 ^ (level * suc k)) a
  other_entry level k b a x factor n h =
      ap₂ (multiple A) n h
      ∙ multiple-multiple A (2 ^ level) ((b + 1) * 2 ^ (level * k)) a
      ∙ ap (λ m. multiple A m a)
          (mul_left_comm (2 ^ level) (b + 1) (2 ^ (level * k))
            ∙ ap (λ m. (b + 1) * m)
                (sym (pow-add level (level * k))
                  ∙ ap (λ m. 2 ^ m) {x = level + level * k} {y = level * suc k}
                      (omega (arith, mul-suc level k))))

  -- What the turn at `row * k + b` pushes.
  new_entry :
      (row level : ℕ) (a : H) (factor : S) (i : ℕ) (pp : List G) (next : G)
      → number factor ≡ 2 ^ level
      → length pp ≡ i
      → 0 < row
      → row ≤ i
      → IsTable A point row level a pp
      → get_elem? pp (i - row) ≡ some next
      → (k b : ℕ) → b < row
      → row * k + b ≡ i
      → point (O.mul_assign next factor) ≡ multiple A ((b + 1) * 2 ^ (level * k)) a
  new_entry row level a factor i pp next n l pos le T here zero b lt at = absurd (omega arith)
  new_entry row level a factor i pp next n l pos le T here (suc k) b lt at =
      let before : row * k + b ≡ i - row = omega (arith, mul-suc row k) in
      let (x, found, v) = T k b lt (omega (arith, mul-suc row k)) in
      let same : x ≡ next = some_inj.0 (sym found ∙ ap (get_elem? pp) before ∙ here) in
      P.point-mul next factor
      ∙ ap (multiple A (number factor)) (ap point (sym same))
      ∙ other_entry level k b a (point x) factor n v

  other_rows_lem :
      (row level : ℕ) (a : H) (factor : S) (turns i : ℕ) (pp : List G)
      → 0 < row
      → number factor ≡ 2 ^ level
      → length pp ≡ i
      → row ≤ i
      → IsTable A point row level a pp
      → (t : List G) × (other_rows O factor row turns i pp ≡ some t)
        × (length t ≡ i + turns)
        × IsTable A point row level a t
  unfolding other_rows
  other_rows_lem row level a factor zero i pp pos n l le T = (pp, refl, omega arith, T)
  other_rows_lem row level a factor (suc turns) i pp pos n l le T =
      let j = i - row in
      let parts : row * (j / row) + j % row ≡ j = div-add-mod j row in
      let (next, found, v) = T (j / row) (j % row) (mod-lt j pos) (omega arith) in
      let here : get_elem? pp j ≡ some next = ap (get_elem? pp) (sym parts) ∙ found in
      let pushed = push-IsTable A point row level a pp (O.mul_assign next factor) T (λ k b lt at.
        new_entry row level a factor i pp next n l pos le T here k b lt (omega arith)) in
      let longer : length (pp ++ O.mul_assign next factor ∷ []) ≡ i + 1 =
        length-append pp (O.mul_assign next factor ∷ []) ∙ omega arith in
      let (t, run, size, U) =
        other_rows_lem row level a factor turns (i + 1) (pp ++ O.mul_assign next factor ∷ []) pos n
          longer (omega arith) pushed in
      (
        t,
        ap
              (λ o.
                o >>= λ x. other_rows O factor row turns (i + 1) (pp ++ O.mul_assign x factor ∷ []))
              here
            ∙ run,
        omega arith,
        U,
      )

  single-IsTable : (row level : ℕ) (g : G) → IsTable A point row level (point g) (g ∷ [])
  unfolding multiple
  single-IsTable row level g k b lt h =
      let first : k ≡ 0 = first_block row k b (omega arith) in
      let same : b ≡ 0 = omega arith in
      (
        g,
        ap (get_elem? (g ∷ [])) {x = row * k + b} {y = 0} (omega arith),
        sym (plus-nought A (point g))
            ∙ ap (λ n. multiple A n (point g)) {x = 1}
                (ap (λ n. 2 ^ n) {x = 0} {y = level * 0} (omega arith)
                  ∙ omega arith
                  ∙ ap₂ (λ n m. (n + 1) * 2 ^ (level * m)) (sym same) (sym first)),
      )

  -- The whole table, for every level at which the numbers fit.
  pub fill_table_lem :
      (F : ScalarOps S)
      → IsFr F number
      → (g : G) (level size : ℕ) → 0 < level
      → level < 64
      → 2 ^ level - 1 ≤ size
      → (t : List G) × (fill_table O F g (2 ^ level) size ≡ some t)
        × (length t ≡ size)
        × IsTable A point (2 ^ level - 1) level (point g) t
  unfolding fill_table limbs_value
  fill_table_lem F R g level size pos small le =
      let below : 2 ^ level ≤ 2 ^ 63 = pow-le level 63 (omega arith) in
      let above : 2 ^ 1 ≤ 2 ^ level = pow-le 1 level (omega arith) in
      let (factor, made, n) = R.from_repr_lem (limbs (2 ^ level)) (omega arith) in
      let row = 2 ^ level - 1 in
      let (pp, run, l, T) =
        first_row_lem row level g (row - 1) 0 (g ∷ []) refl (omega arith)
          (single-IsTable row level g) in
      let (t, run', l', U) =
        other_rows_lem row level (point g) factor (size - row) row pp (omega arith)
          (n ∙ omega arith) l (omega arith) T in
      (
        t,
        ap
              (λ o. o >>= λ f.
                first_row O g (row - 1) 1 (g ∷ []) >>= other_rows O f row (size - row) row)
              made
            ∙ ap (λ o. o >>= other_rows O factor row (size - row) row) run
            ∙ run',
        omega arith,
        U,
      )

-- ===== src/Wnaf/Exp.antt =====
-- `wnaf_table` and `wnaf_exp` of pairing/src/wnaf.rs: the multiple that they compute.
use mathlib.Core.List.{reverse, reverse-cons}
use mathlib.Core.Option
use native.Mathlib.Nat.{two-pow-succ}
use aws_dpid.Prelude.{
  ℕ, zero, suc, ◌+◌, ◌-◌, ◌*◌, ◌/◌, ◌%◌, ◌^◌, ◌<◌, ◌≡◌, refl, sym, ap, ap₂, ◌∙◌, Bool, true, false,
  ltb, ◌==◌, if◌then◌else◌, Option, none, some, ◌>>=◌, List, [], ◌∷◌, ◌++◌, arith,
}
use aws_dpid.Wnaf.{
  GroupOps, ℤ, table_turns, table_loop, wnaf_table, entry, exp_step, exp_loop, wnaf_exp,
}
use aws_dpid.Wnaf.Digits.{
  pos_part, neg_part, pos_value, neg_value, IsDigit, none_here, above, below, IsForm, finished,
  digit_then,
}
use aws_dpid.Wnaf.Group.{
  Group, Represents, multiple, difference, multiple-add, difference-add, difference-zero,
  difference_positive, difference_negative, difference_shift,
}

module _ {G H : Type 0} ⦃O : GroupOps G⦄ (A : Group H) {point : G → H}
    (P : Represents O A point) where
  table_loop-entry :
      (n k : ℕ) (base dbl : G) (a : H) (i : ℕ)
      → point base ≡ multiple A k a
      → point dbl ≡ multiple A 2 a
      → i < n
      → (t : G) × (entry (table_loop n base dbl) i ≡ some t) × (point t ≡ multiple A (k + 2 * i) a)
  unfolding table_loop entry
  table_loop-entry zero k base dbl a i h e lt = absurd (omega arith)
  table_loop-entry (suc n) k base dbl a zero h e lt =
      (base, refl, h ∙ ap (λ m. multiple A m a) {x = k} {y = k + 2 * 0} (omega arith))
  table_loop-entry (suc n) k base dbl a (suc i) h e lt =
      let (t, f, g) =
        table_loop-entry n (k + 2) (O.add_assign base dbl) dbl a i
          (P.point-add base dbl ∙ ap₂ A.plus h e ∙ sym (multiple-add A k 2 a)) e (omega arith) in
      (t, f, g ∙ ap (λ m. multiple A m a) {x = k + 2 + 2 * i} {y = k + 2 * suc i} (omega arith))

  multiple-one : (a : H) → a ≡ multiple A 1 a
  unfolding multiple
  multiple-one a = sym (A.plus_comm a A.nought ∙ A.nought-plus a)

  -- The entries of `wnaf_table`, where no shift overflows.
  abbrev pub odd_multiples : G → ℕ → List G
  odd_multiples base window = table_loop (2 ^ (window - 1)) base (O.double base)

  pub wnaf_table_lem :
      (base : G) (window : ℕ)
      → 0 < window
      → window < 32
      → wnaf_table base window ≡ some (odd_multiples base window)
  unfolding wnaf_table table_turns
  wnaf_table_lem base window le lt =
      let some_window : (window == 0) ≡ false = ground arith in
      let small : ltb window 32 ≡ true = ground arith in rw (some_window, small) refl

  -- The odd multiple of the base by `m`, under 2^window.
  wnaf_table-entry :
      (base : G) (window m : ℕ)
      → 0 < window
      → m % 2 ≡ 1
      → m < 2 ^ window
      → (t : G) × (entry (odd_multiples base window) (m / 2) ≡ some t)
        × (point t ≡ multiple A m (point base))
  wnaf_table-entry base zero m le odd lt = absurd (omega arith)
  wnaf_table-entry base (suc window) m le odd lt =
      let half : m / 2 < 2 ^ window = omega (arith, two-pow-succ window) in
      let (t, f, g) =
        table_loop-entry (2 ^ window) 1 base (O.double base) (point base) (m / 2)
          (multiple-one (point base))
          (P.point-double base
            ∙ ap₂ A.plus (multiple-one (point base)) (multiple-one (point base))
            ∙ sym (multiple-add A 1 1 (point base)))
          half in
      (
        t,
        ap (λ k. entry (table_loop (2 ^ k) base (O.double base)) (m / 2)) {x = suc window - 1}
              {y = window} (omega arith)
            ∙ f,
        g ∙ ap (λ k. multiple A k (point base)) {x = 1 + 2 * (m / 2)} {y = m} (omega arith),
      )

  same_difference : (p q m n : ℕ) (a : H) → p ≡ q → m ≡ n → difference A p m a ≡ difference A q n a
  same_difference p q m n a e f = ap₂ (λ i j. difference A i j a) e f

  -- What the loop keeps: `result` stands for `p - n` times the base, and before the first digit that
  -- is not zero both are zero.
  Holds : H → ℕ → ℕ → Bool × G → Type 0
  Holds a p n s = (point s.1 ≡ difference A p n a) × (s.0 ≡ false → (p ≡ 0) × (n ≡ 0))

  doubled : Bool × G → G
  doubled s = if s.0 then O.double s.1 else s.1

  doubled_lem :
      (a : H) (p n : ℕ) (s : Bool × G)
      → Holds a p n s
      → point (doubled s) ≡ difference A (2 * p) (2 * n) a
  unfolding Holds doubled
  doubled_lem a p n (true, g) (h, k) =
      P.point-double g
      ∙ ap₂ A.plus h h
      ∙ difference-add A p n p n a
      ∙ same_difference (p + p) (2 * p) (n + n) (2 * n) a (omega arith) (omega arith)
  doubled_lem a p n (false, g) (h, k) =
      let (e, f) = k refl in
      h ∙ same_difference (p) (2 * p) (n) (2 * n) a (omega (arith, e)) (omega (arith, f))

  module _ (base : G) (window : ℕ) (le : 0 < window) where
    abbrev a : H
    a = point base

    abbrev table : List G
    table = odd_multiples base window

    exp_step_lem :
        (d : ℤ) (p n : ℕ) (s : Bool × G)
        → IsDigit (2 ^ window) d
        → Holds a p n s
        → (r : Bool × G) × (exp_step table d s ≡ some r)
          × Holds a (pos_part d + 2 * p) (neg_part d + 2 * n) r
    unfolding exp_step Holds doubled
    exp_step_lem d p n s none_here h = (
      (s.0, doubled s),
      refl,
      (
        doubled_lem a p n s h
            ∙ same_difference (2 * p) (0 + 2 * p) (2 * n) (0 + 2 * n) a (omega arith) (omega arith),
        λ e. let (i, j) = h.1 e in (omega (arith, i), omega (arith, j)),
      ),
    )
    exp_step_lem d p n s (above m odd lt) h =
        let (t, f, g) = wnaf_table-entry base window (suc m) le odd lt in
        (
          (true, O.add_assign (doubled s) t),
          ap (Option.map (λ x. (true, O.add_assign (doubled s) x))) f,
          (
            P.point-add (doubled s) t
                ∙ ap₂ A.plus (doubled_lem a p n s h) (g ∙ sym (difference_positive A (suc m) a))
                ∙ difference-add A (2 * p) (2 * n) (suc m) 0 a
                ∙ same_difference (2 * p + suc m) (suc m + 2 * p) (2 * n + 0) (0 + 2 * n) a
                    (omega arith) (omega arith),
            λ e. cc,
          ),
        )
    exp_step_lem d p n s (below m odd lt) h =
        let (t, f, g) = wnaf_table-entry base window (suc m) le odd lt in
        (
          (true, O.sub_assign (doubled s) t),
          ap (Option.map (λ x. (true, O.sub_assign (doubled s) x))) f,
          (
            P.point-sub (doubled s) t
                ∙ ap₂ A.plus (doubled_lem a p n s h)
                    (ap A.minus g ∙ sym (difference_negative A (suc m) a))
                ∙ difference-add A (2 * p) (2 * n) 0 (suc m) a
                ∙ same_difference (2 * p + 0) (0 + 2 * p) (2 * n + suc m) (suc m + 2 * n) a
                    (omega arith) (omega arith),
            λ e. cc,
          ),
        )

    exp_loop-append :
        (ds : List ℤ) (d : ℤ) (s : Bool × G)
        → exp_loop table (ds ++ d ∷ []) s ≡ (exp_loop table ds s >>= exp_step table d)
    unfolding exp_loop
    exp_loop-append [] d s = bind-some (exp_step table d s)
      where
        bind-some : (o : Option (Bool × G)) → (o >>= λ r. some r) ≡ o
        bind-some none = refl
        bind-some (some r) = refl
    exp_loop-append (x ∷ ds) d s = bind-bind (exp_step table x s) (λ r. exp_loop-append ds d r)
      where
        bind-bind :
            (o : Option (Bool × G))
            → ((r : Bool × G)
                → exp_loop table (ds ++ d ∷ []) r ≡ (exp_loop table ds r >>= exp_step table d))
            → (o >>= exp_loop table (ds ++ d ∷ []))
              ≡ ((o >>= exp_loop table ds) >>= exp_step table d)
        bind-bind none h = refl
        bind-bind (some r) h = h r

    exp_loop_lem :
        (ds : List ℤ)
        → IsForm (2 ^ window) ds
        → (r : Bool × G) × (exp_loop table (reverse ds) (false, O.zero) ≡ some r)
          × Holds a (pos_value ds) (neg_value ds) r
    unfolding exp_loop Holds pos_value neg_value
    exp_loop_lem ds finished =
        ((false, O.zero), refl, (P.point-zero ∙ sym (difference-zero A a), λ e. (refl, refl)))
    exp_loop_lem ds (digit_then d rest digit form) =
        let (s, f, h) = exp_loop_lem rest form in
        let (r, g, k) = exp_step_lem d (pos_value rest) (neg_value rest) s digit h in
        (
          r,
          ap (λ l. exp_loop table l (false, O.zero)) (reverse-cons d rest)
              ∙ exp_loop-append (reverse rest) d (false, O.zero)
              ∙ ap (λ o. o >>= exp_step table d) f
              ∙ g,
          k,
        )

    -- For a window from 1 to 31, where `wnaf_table` returns, the exponentiation by a form of the same
    -- window never indexes past its table, and gives the multiple of the base that the form stands for.
    pub wnaf_exp_lem :
        window < 32
        → (ds : List ℤ) (n : ℕ) → IsForm (2 ^ window) ds
        → pos_value ds ≡ n + neg_value ds
        → (t : List G) × (g : G) × (wnaf_table base window ≡ some t)
          × (wnaf_exp t ds ≡ some g)
          × (point g ≡ multiple A n (point base))
    unfolding wnaf_exp Holds
    wnaf_exp_lem lt ds n form e =
        let (r, f, h) = exp_loop_lem ds form in
        (
          table,
          r.1,
          wnaf_table_lem base window le lt,
          ap (Option.map (λ (s : Bool × G). s.1)) f,
          h.0 ∙ ap (λ p. difference A p (neg_value ds) a) e ∙ difference_shift A n (neg_value ds) a,
        )

-- ===== src/Examples/Zmod.antt =====
-- The integers modulo `m` as a concrete `Fq`: the operations of `ff::Field` and their laws.
use Prim.Native.Nat.{◌-◌, ◌/◌}
use mathlib.Core.HLevel.{is_prop→PathP}
use native.Mathlib.Nat.{
  ℕ_set, mod-mod, mod-lt, mod-add-mod, add-mod-mod, mod-eq_of_lt, div-add-mod,
  mul-add-mod_self_left, zero-mod, mul_comm, mod_self,
}
use aws_dpid.Prelude.{
  ℕ, zero, suc, ◌+◌, ◌*◌, ◌%◌, ◌<◌, ◌≡◌, refl, sym, ap, ◌∙◌, Bool, true, Option, none, some, ◌≢◌,
  ◌↔◌, ◌||◌, inl, inr, Bool-cases, ◌==◌, ==→eq, ==_refl, passes_under, passes_under_lem, or-resolve,
  if◌then◌else◌, arith,
}
use aws_dpid.Ring.{RingOps, FieldOps, IsCommRing, IsField}

pub record Zmod (m : ℕ) : Type 0 where
  pub val : ℕ
  pub reduced : val % m ≡ val

pub Zmod-ext : {m : ℕ} {a b : Zmod m} → a.val ≡ b.val → a ≡ b
Zmod-ext {m} {a} {b} e i = record {
  val = e i;
  reduced = is_prop→PathP (λ j. e j % m ≡ e j) (λ j. ℕ_set (e j % m) (e j)) a.reduced b.reduced i;
}

abbrev pub residue : (m : ℕ) → ℕ → Zmod m
residue m n = record { val = n % m; reduced = mod-mod n m }

-- `a ^ e` by repeated squaring; `fuel` bounds the number of binary digits of `e`.
pub power_mod : (m fuel a e : ℕ) → ℕ
power_mod m zero a e = 1 % m
power_mod m (suc fuel) a e =
    let half = power_mod m fuel (a * a % m) (e / 2) in
    if e == 0 then 1 % m else if e % 2 == 1 then a * half % m else half

module _ {m : ℕ} where
  instance abbrev pub zmod_ops : RingOps (Zmod m)
  zmod_ops = record {
    zero = residue m 0;
    one = residue m 1;
    add = λ a b. residue m (a.val + b.val);
    sub = λ a b. residue m (a.val + (m - b.val));
    mul = λ a b. residue m (a.val * b.val);
    negate = λ a. residue m (m - a.val);
    square = λ a. residue m (a.val * a.val);
    double = λ a. residue m (a.val + a.val);
  }

  -- The inverse by Fermat's theorem, which holds where `m` is prime.
  unfoldable pub fermat_inverse : Zmod m → Option (Zmod m)
  unfolding power_mod
  fermat_inverse a = if a.val == 0 then none else some (residue m (power_mod m 400 a.val (m - 2)))

  instance abbrev pub zmod_field : FieldOps (Zmod m)
  zmod_field = record {
    is_zero = λ a. a.val == 0;
    eq = λ a b. a.val == b.val;
    inverse = fermat_inverse;
  }

mul-mod : (a b m : ℕ) → a % m * b % m ≡ a * b % m
mul-mod a b m =
    sym (mul-add-mod_self_left m (a / m * b) (a % m * b))
    ∙ ap (λ t. t % m) {y = a * b} (omega (arith, ap (λ (t : ℕ). t * b) (div-add-mod a m)))

mod-mul : (a b m : ℕ) → a * (b % m) % m ≡ a * b % m
mod-mul a b m =
    ap (λ t. t % m) (mul_comm a (b % m)) ∙ mul-mod b a m ∙ ap (λ t. t % m) (mul_comm b a)

module _ {m : ℕ} (pos : 0 < m) where
  pub val-lt : (a : Zmod m) → a.val < m
  val-lt a = omega (arith, mod-lt a.val pos, a.reduced)

  pub zmod-IsCommRing : IsCommRing (zmod_ops {m = m})
  zmod-IsCommRing = record {
    add_assoc = λ a b c. Zmod-ext (
        mod-add-mod (a.val + b.val) m c.val
        ∙ ap (λ t. t % m) {y = a.val + (b.val + c.val)} (omega arith)
        ∙ sym (add-mod-mod a.val (b.val + c.val) m));
    add_comm =
        λ a b. Zmod-ext (ap (λ t. t % m) {x = a.val + b.val} {y = b.val + a.val} (omega arith));
    zero-add = λ a. Zmod-ext (
        mod-add-mod 0 m a.val
        ∙ ap (λ t. t % m) {x = 0 + a.val} {y = a.val} (omega arith)
        ∙ a.reduced);
    add-negate = λ a. Zmod-ext (
        add-mod-mod a.val (m - a.val) m
        ∙ ap (λ t. t % m) {x = a.val + (m - a.val)} {y = m} (omega (arith, val-lt a))
        ∙ mod_self m
        ∙ sym (zero-mod m));
    mul_assoc = λ a b c. Zmod-ext (
        mul-mod (a.val * b.val) c.val m
        ∙ ap (λ t. t % m) {x = a.val * b.val * c.val} {y = a.val * (b.val * c.val)} (omega arith)
        ∙ sym (mod-mul a.val (b.val * c.val) m));
    mul_comm = λ a b. Zmod-ext (ap (λ t. t % m) (mul_comm a.val b.val));
    one-mul = λ a.
        Zmod-ext (
          mul-mod 1 a.val m
          ∙ ap (λ t. t % m) {x = 1 * a.val} {y = a.val} (omega arith)
          ∙ a.reduced);
    mul-add = λ a b c. Zmod-ext (
        mod-mul a.val (b.val + c.val) m
        ∙ ap (λ t. t % m) {x = a.val * (b.val + c.val)} {y = a.val * b.val + a.val * c.val}
            (omega arith)
        ∙ sym (mod-add-mod (a.val * b.val) m (a.val * c.val))
        ∙ sym (add-mod-mod (a.val * b.val % m) (a.val * c.val) m));
    sub-eq = λ a b. Zmod-ext (sym (add-mod-mod a.val (m - b.val) m));
    square-eq = λ a. refl;
    double-eq = λ a. refl;
  }

  is_zero_iff : (a : Zmod m) → ((a.val == 0) ≡ true) ↔ (a ≡ residue m 0)
  is_zero_iff a = (
    λ h. Zmod-ext (==→eq a.val 0 h ∙ sym (zero-mod m)),
    λ e. rw (ap (λ (x : Zmod m). x.val) e ∙ zero-mod m) refl,
  )

  eq_iff : (a b : Zmod m) → ((a.val == b.val) ≡ true) ↔ (a ≡ b)
  eq_iff a b =
      (λ h. Zmod-ext (==→eq a.val b.val h), λ e. rw (ap (λ (x : Zmod m). x.val) e) (==_refl b.val))

  -- Every element but 0 is inverted, which a table shows for a given prime.
  abbrev inverts : ℕ → Bool
  inverts a = a == 0 || a * power_mod m 400 a (m - 2) % m == 1 % m

  module _ (one_lt : 1 < m) (table : passes_under inverts m ≡ true) where
    inverse-ne_zero :
        (a : Zmod m)
        → a ≢ residue m 0
        → (b : Zmod m) × (fermat_inverse a ≡ some b) × (zmod_ops.mul a b ≡ residue m 1)
    unfolding fermat_inverse
    inverse-ne_zero a n = elim (Bool-cases (a.val == 0)) [
      | inl e ↦ absurd (n ((is_zero_iff a).0 e))
      | inr e ↦
          let t = residue m (power_mod m 400 a.val (m - 2)) in
          (
            t,
            rw e,
            Zmod-ext (
                mod-mul a.val (power_mod m 400 a.val (m - 2)) m
                ∙ ==→eq _ _ (or-resolve _ _ (passes_under_lem inverts a.val (val-lt a) table) e)),
          )
    ]

    pub zmod-IsField : IsField (zmod_ops {m = m}) zmod_field
    unfolding fermat_inverse
    zmod-IsField = record {
      ring = zmod-IsCommRing;
      is_zero_iff = is_zero_iff;
      eq_iff = eq_iff;
      one-ne-zero = λ e.
          absurd (omega (arith, ap (λ (x : Zmod m). x.val) e, zero-mod m, mod-eq_of_lt one_lt));
      inverse-zero = rw (zero-mod m) refl;
      inverse-ne_zero = inverse-ne_zero;
    }

pub zmod19-IsField : IsField (zmod_ops {m = 19}) zmod_field
unfolding power_mod passes_under
zmod19-IsField = zmod-IsField (omega arith) (omega arith) refl

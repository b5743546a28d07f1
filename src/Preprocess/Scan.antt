-- ===== src/Preprocess/Scan.antt =====
-- The loop of `ppmul` (pairing/src/lib.rs) over the binary digits: it adds up the table entries of
-- the windows that are complete, and drops the last window.
use native.Mathlib.Nat.{
  two-pow-succ, mul-add-mod_self_left, mod-eq_of_lt, mul-div_cancel_left, mul-mod_right,
}
use aws_dpid.Prelude.{
  ℕ, zero, suc, ◌+◌, ◌-◌, ◌*◌, ◌/◌, ◌%◌, ◌^◌, ◌<◌, ◌≤◌, ◌≡◌, refl, sym, ap, ap₂, ◌∙◌, inl, inr,
  false, Bool-cases, ◌==◌, some, ◌>>=◌, List, [], ◌∷◌, length, get_elem?, arith,
}
use aws_dpid.Hex.Bits.{bit}
use aws_dpid.Preprocess.{PointOps, Cached, checked, flush, push_digit, scan}
use aws_dpid.Preprocess.Bounds.{checked-some, pow-le}

offset_mod : (level k j : ℕ) → j < level → (level * k + j) % level ≡ j
offset_mod level k j h = mul-add-mod_self_left level k j ∙ mod-eq_of_lt h

push_digit_lem :
    {G : Type 0} (self : Cached G) (k j c b : ℕ)
    → j < self.pplevel
    → self.pplevel < 64
    → push_digit self (self.pplevel * k + j) c b ≡ some (b + 2 ^ j * bit c)
unfolding push_digit bit
push_digit_lem self k j c b h small =
    let fits : 2 ^ j ≤ 2 ^ 63 = pow-le j 63 (omega arith) in
    let weight : checked (2 ^ ((self.pplevel * k + j) % self.pplevel)) ≡ some (2 ^ j) =
      ap (λ n. checked (2 ^ n)) (offset_mod self.pplevel k j h)
      ∙ checked-some (2 ^ j) (omega arith) in
    elim (Bool-cases (c == b'1')) [
      | inl e ↦ rw (e, weight) (ap some {x = b + 2 ^ j} (omega arith))
      | inr e ↦ rw e (ap some {x = b} (omega arith))
    ]

suc_test : (j : ℕ) → (suc j == 0) ≡ false
suc_test j = ground arith

pub push-lt : (j b c : ℕ) → b < 2 ^ j → b + 2 ^ j * bit c < 2 ^ suc j
unfolding bit
push-lt j b c h = elim (Bool-cases (c == b'1')) [
  | inl e ↦ rw e (omega (arith, two-pow-succ j))
  | inr e ↦ rw e (omega (arith, two-pow-succ j))
]

module _ {G S : Type 0} (O : PointOps G S) where
  pub flush_none : (self : Cached G) (i : ℕ) (out : G) → flush O self i (0, out) ≡ some (0, out)
  unfolding flush
  flush_none self i out = elim (Bool-cases (i % self.pplevel == 0)) [
    | inl e ↦ rw e refl
    | inr e ↦ rw e refl
  ]

  -- Nothing is added within a window.
  flush_within :
      (self : Cached G) (k j b : ℕ) (out : G)
      → j < self.pplevel
      → b < 2 ^ j
      → flush O self (self.pplevel * k + j) (b, out) ≡ some (b, out)
  unfolding flush
  flush_within self k zero b out h lt =
      let e : b ≡ 0 = omega arith in
      ap (λ n. flush O self (self.pplevel * k + 0) (n, out)) e
      ∙ flush_none self (self.pplevel * k + 0) out
      ∙ ap (λ n. some (n, out)) (sym e)
  flush_within self k (suc j) b out h lt = rw (offset_mod self.pplevel k (suc j) h, suc_test j) refl

  -- A turn within a window.
  pub scan_within :
      (self : Cached G) (k j b c : ℕ) (digits : List ℕ) (out : G)
      → self.pplevel < 64
      → j < self.pplevel
      → b < 2 ^ j
      → scan O self (c ∷ digits) (self.pplevel * k + j) (b, out)
        ≡ scan O self digits (self.pplevel * k + suc j) (b + 2 ^ j * bit c, out)
  unfolding scan
  scan_within self k j b c digits out small h lt =
      let i = self.pplevel * k + j in
      ap
        (λ o.
          o >>= λ f. push_digit self i c f.0 >>= λ buffer. scan O self digits (i + 1) (buffer, f.1))
        (flush_within self k j b out h lt)
      ∙ ap (λ o. o >>= λ buffer. scan O self digits (i + 1) (buffer, out))
          (push_digit_lem self k j c b h small)
      ∙ ap (λ n. scan O self digits n (b + 2 ^ j * bit c, out)) {x = i + 1}
          {y = self.pplevel * k + suc j} (omega arith)

  -- The digits after the last complete window are dropped.
  pub scan_last :
      (self : Cached G) (k : ℕ) (high : List ℕ) (j b : ℕ) (out : G)
      → self.pplevel < 64
      → b < 2 ^ j
      → j + length high ≤ self.pplevel
      → scan O self high (self.pplevel * k + j) (b, out) ≡ some out
  unfolding scan
  scan_last self k [] j b out small lt le = refl
  scan_last self k (c ∷ high) j b out small lt le =
      scan_within self k j b c high out small (omega arith) lt
      ∙ scan_last self k high (suc j) (b + 2 ^ j * bit c) out small (push-lt j b c lt) (omega arith)

  -- At the end of a window its entry is added.
  pub flush_full :
      (self : Cached G) (k b : ℕ) (out e : G)
      → 0 < self.pplevel
      → self.pplevel < 64
      → (2 ^ self.pplevel - 1) * k + b < 18446744073709551616
      → get_elem? self.pp ((2 ^ self.pplevel - 1) * k + b) ≡ some e
      → flush O self (self.pplevel * suc k) (suc b, out) ≡ some (0, O.add_assign out e)
  unfolding flush
  flush_full self k b out e pos small fits found =
      let start : (self.pplevel * suc k) % self.pplevel ≡ 0 = mul-mod_right self.pplevel (suc k) in
      let window : (self.pplevel * suc k) / self.pplevel ≡ suc k =
        mul-div_cancel_left (suc k) pos in
      let whole : checked (2 ^ self.pplevel) ≡ some (2 ^ self.pplevel) =
        checked-some (2 ^ self.pplevel) (
          let le : 2 ^ self.pplevel ≤ 2 ^ 63 = pow-le self.pplevel 63 (omega arith) in
          omega arith) in
      let row = 2 ^ self.pplevel - 1 in
      let index : checked (row * (suc k - 1) + (suc b - 1)) ≡ some (row * k + b) =
        ap checked {x = row * (suc k - 1) + (suc b - 1)} {y = row * k + b}
          (ap₂ (λ m n. row * m + n) {x = suc k - 1} (omega arith) (omega arith))
        ∙ checked-some (row * k + b) fits in
      rw (start, window, suc_test b, whole, index, found) refl

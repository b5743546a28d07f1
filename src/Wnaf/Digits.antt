-- ===== src/Wnaf/Digits.antt =====
-- Digits and what a list of digits stands for, least significant digit first (pairing/src/wnaf.rs).
use aws_dpid.Prelude.{ℕ, suc, ◌+◌, ◌*◌, ◌%◌, ◌<◌, ◌≡◌, List, [], ◌∷◌}
use aws_dpid.Wnaf.{ℤ, pos, negsuc}

abbrev pub pos_part : ℤ → ℕ
pos_part (pos n) = n
pos_part (negsuc n) = 0

abbrev pub neg_part : ℤ → ℕ
neg_part (pos n) = 0
neg_part (negsuc n) = suc n

-- The value of a list of digits is `pos_value - neg_value`.
unfoldable pub pos_value : List ℤ → ℕ
pos_value [] = 0
pos_value (d ∷ ds) = pos_part d + 2 * pos_value ds

unfoldable pub neg_value : List ℤ → ℕ
neg_value [] = 0
neg_value (d ∷ ds) = neg_part d + 2 * neg_value ds

-- Zero, or odd and of absolute value under the bound.
pub data IsDigit (bound : ℕ) : ℤ → Type 0 where
  none_here : IsDigit bound (pos 0)
  above : (n : ℕ) → suc n % 2 ≡ 1 → suc n < bound → IsDigit bound (pos (suc n))
  below : (n : ℕ) → suc n % 2 ≡ 1 → suc n < bound → IsDigit bound (negsuc n)

pub data IsForm (bound : ℕ) : List ℤ → Type 0 where
  finished : IsForm bound []
  digit_then : (d : ℤ) (ds : List ℤ) → IsDigit bound d → IsForm bound ds → IsForm bound (d ∷ ds)

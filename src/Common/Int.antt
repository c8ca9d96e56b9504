-- ===== src/Common/Int.antt =====
-- Signed integers over the native numbers: what a C `int` holds.
use sunxi_babelfish.Common.{ℕ, zero, ◌-◌, ◌≡◌, ◌↔◌, Bool, true, false, arith, leb, if◌then◌else◌}

-- `negsuc n` is -(n + 1).
pub data ℤ : Type 0 where
  pos : ℕ → ℤ
  negsuc : ℕ → ℤ

-- a - b, as an integer.
abbrev pub sub_ℕ : ℕ → ℕ → ℤ
sub_ℕ a b = if leb b a then pos (a - b) else negsuc (b - a - 1)

abbrev pub is_neg : ℤ → Bool
is_neg (pos n) = false
is_neg (negsuc n) = true

-- The value of a C `int` in a condition: true unless zero.
abbrev pub is_zero : ℤ → Bool
is_zero (pos zero) = true
is_zero i = false

pub sub_ℕ-zero_iff : (a b : ℕ) → (is_zero (sub_ℕ a b) ≡ true) ↔ (a ≡ b)
sub_ℕ-zero_iff a b = ground arith

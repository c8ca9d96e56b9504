-- ===== src/Serial/Hex.antt =====
-- `printhex` loses nothing: its eight digits read back as the word.
use sunxi_babelfish.Common.{
  ℕ, zero, suc, ◌+◌, ◌-◌, ◌*◌, ◌/◌, ◌%◌, ◌^◌, ◌<◌, ◌≤◌, ◌≡◌, refl, Bool, true, List, [], ◌∷◌, ◌==◌,
  ltb, ◌&&◌, if◌then◌else◌, arith, get_or, length,
}
use sunxi_babelfish.Serial.{hexdigets, hex_digit}
use sunxi_babelfish.Serial.Output.{hex_text}

-- The value of a hexadecimal digit, and of a text of them.
unfoldable pub digit_value : ℕ → ℕ
digit_value c = if ltb c b'a' then c - b'0' else c - b'a' + 10

unfoldable pub hex_value : ℕ → List ℕ → ℕ
hex_value acc [] = acc
hex_value acc (c ∷ cs) = hex_value (acc * 16 + digit_value c) cs

-- A test of the digits, from `i` on, `k` of them.
reads_back : (k i : ℕ) → Bool
reads_back zero i = true
reads_back (suc k) i = (digit_value (get_or hexdigets i 0) == i) && reads_back k (suc i)

reads_back_lem :
    (k i d : ℕ) → reads_back k i ≡ true → i ≤ d → d < i + k → digit_value (get_or hexdigets d 0) ≡ d
unfolding reads_back
reads_back_lem zero i d h ge lt = absurd (omega arith)
reads_back_lem (suc k) i d h ge lt = ground (arith, reads_back_lem k (suc i) d)

digit_table : reads_back 16 0 ≡ true
unfolding reads_back digit_value
digit_table = refl

digit_lem : (d : ℕ) → d < 16 → digit_value (get_or hexdigets d 0) ≡ d
digit_lem d h = reads_back_lem 16 0 d digit_table (omega arith) (omega arith)

value_at : (u i : ℕ) → digit_value (hex_digit u i) ≡ u / 2 ^ (28 - i * 4) % 16
value_at u i = digit_lem (u / 2 ^ (28 - i * 4) % 16) (omega arith)

-- The text of a 32-bit word has eight digits, and its value is the word.
pub hex_value-hex_text :
    (u : ℕ) → u < 2 ^ 32 → (length (hex_text u) ≡ 8) × (hex_value 0 (hex_text u) ≡ u)
unfolding hex_value
hex_value-hex_text u h = (
  refl,
  omega (
    arith,
    value_at u 0,
    value_at u 1,
    value_at u 2,
    value_at u 3,
    value_at u 4,
    value_at u 5,
    value_at u 6,
    value_at u 7,
  ),
)

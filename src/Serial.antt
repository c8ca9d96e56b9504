-- ===== src/Serial.antt =====
-- The UART driver of src/serial-8250.c and the printing of src/print.c, over the bus. Polling
-- takes fuel, the number of status reads that the driver may have to make.
mod Tests
pub mod Output
pub mod Hex
use sunxi_babelfish.Common.{
  ℕ, zero, suc, ◌+◌, ◌-◌, ◌*◌, ◌/◌, ◌%◌, ◌^◌, Bool, List, [], ◌∷◌, Option, some, none, ◌>>=◌, pure,
  ◌==◌, if◌then◌else◌, get_or,
}
use sunxi_babelfish.Bus.{bit, Device, Trace, readl, writel}
use sunxi_babelfish.Console.{Printed, str, text, hex, Log, codes}

abbrev pub uart_base : ℕ
uart_base = 0x01c28000

-- `UART_BASE + UART_THR` and `UART_BASE + UART_LSR`.
abbrev pub thr : ℕ
thr = uart_base + 0x00

abbrev pub lsr : ℕ
lsr = uart_base + 0x14

-- `v & LSR_THRE`, where `LSR_THRE` is `BIT(5)`.
abbrev pub is_thre : ℕ → Bool
is_thre v = v / bit 5 % 2 == 1

-- `while (!(readl(UART_BASE + UART_LSR) & LSR_THRE));`
unfoldable pub poll : (fuel : ℕ) → Device → Trace → Option Trace
unfolding readl
poll zero dev t = none
poll (suc f) dev t =
    let (v, t1) = readl dev lsr t in let rest = poll f dev t1 in if is_thre v then some t1 else rest

-- `__putch`.
unfoldable pub raw_putch : (fuel : ℕ) → Device → (c : ℕ) → Trace → Option Trace
raw_putch fuel dev c t = do t1 ← poll fuel dev t; poll fuel dev (writel c thr t1)

unfoldable pub putch : (fuel : ℕ) → Device → (c : ℕ) → Trace → Option Trace
putch fuel dev c t = do
  t1 ← raw_putch fuel dev c t
  if c == b'\n' then raw_putch fuel dev b'\r' t1 else pure t1

-- `putstr` on the characters of a string.
unfoldable pub putstr : (fuel : ℕ) → Device → (s : List ℕ) → Trace → Option Trace
putstr fuel dev [] t = some t
putstr fuel dev (c ∷ s) t = do t1 ← putch fuel dev c t; putstr fuel dev s t1

-- The array `hexdigets`.
abbrev pub hexdigets : List ℕ
hexdigets =
    b'0' ∷ b'1' ∷ b'2' ∷ b'3' ∷ b'4' ∷ b'5' ∷ b'6' ∷ b'7' ∷ b'8' ∷ b'9' ∷ b'a' ∷ b'b' ∷ b'c' ∷ b'd'
    ∷ b'e' ∷ b'f' ∷ []

-- `hexdigets[(u >> (28 - (i * 4))) & 0xf]`.
abbrev pub hex_digit : (u i : ℕ) → ℕ
hex_digit u i = get_or hexdigets (u / 2 ^ (28 - i * 4) % 2 ^ 4) 0

-- `for (i = 0; i < 8; i++)`, with `k` rounds left.
unfoldable pub printhex_loop : (fuel : ℕ) → Device → (k u i : ℕ) → Trace → Option Trace
printhex_loop fuel dev zero u i t = some t
printhex_loop fuel dev (suc k) u i t = do
  t1 ← raw_putch fuel dev (hex_digit u i) t
  printhex_loop fuel dev k u (suc i) t1

unfoldable pub printhex : (fuel : ℕ) → Device → (u : ℕ) → Trace → Option Trace
printhex fuel dev u t = printhex_loop fuel dev 8 u 0 t

-- The calls of a log, in order, on the UART.
unfoldable pub print_log : (fuel : ℕ) → Device → Log → Trace → Option Trace
print_log fuel dev [] t = some t
print_log fuel dev (str s ∷ log) t = do t1 ← putstr fuel dev (codes s) t; print_log fuel dev log t1
print_log fuel dev (text s ∷ log) t = do t1 ← putstr fuel dev s t; print_log fuel dev log t1
print_log fuel dev (hex u ∷ log) t = do t1 ← printhex fuel dev u t; print_log fuel dev log t1

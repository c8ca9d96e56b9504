-- ===== src/Bus.antt =====
-- Registers: src/register.c. A device decides what a read gives by all the accesses that came
-- before, so a run is a trace of accesses and the device is a function of it.
use sunxi_babelfish.Common.{ℕ, ◌^◌, List, ◌∷◌}

pub data Access : Type 0 where
  read : (addr val : ℕ) → Access
  write : (addr val : ℕ) → Access

-- The accesses so far, the latest first.
abbrev pub Trace : Type 0
Trace = List Access

-- The value that a read of an address gives, after a trace.
abbrev pub Device : Type 0
Device = Trace → ℕ → ℕ

unfoldable pub readl : Device → (addr : ℕ) → Trace → ℕ × Trace
readl dev addr t = (dev t addr, read addr (dev t addr) ∷ t)

unfoldable pub writel : (val addr : ℕ) → Trace → Trace
writel val addr t = write addr val ∷ t

-- `BIT(nr)`.
abbrev pub bit : ℕ → ℕ
bit nr = 2 ^ nr

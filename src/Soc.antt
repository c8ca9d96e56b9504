-- ===== src/Soc.antt =====
-- The detection of the SoC: `match_soc` of src/soc.c and include/soc.h, over the bus. The blobs
-- that are linked into the binary are known by their addresses.
mod Tests
pub mod Laws
use Prim.Native.Nat.{bit_or}
use sunxi_babelfish.Common.{
  ℕ, ◌+◌, ◌*◌, ◌/◌, ◌%◌, ◌^◌, List, [], ◌∷◌, ◌++◌, Option, some, none, ◌==◌, if◌then◌else◌,
}
use sunxi_babelfish.Memory.{null}
use sunxi_babelfish.Bus.{Device, Trace, readl, writel}
use sunxi_babelfish.Console.{str, hex, codes}
use sunxi_babelfish.Script.Store.{Store, allocate}

-- The addresses of the blobs: `dtb_sun4i_a10` and the others.
pub record Blobs : Type 0 where
  pub sun4i_a10 : ℕ
  pub sun5i_a10s : ℕ
  pub sun5i_a13 : ℕ
  pub sun6i_a31 : ℕ
  pub sun7i_a20 : ℕ

-- `struct soc`; none stands for a variable that has never been set.
pub record Soc : Type 0 where
  pub compatible : Option (List ℕ)
  pub fdt : Option ℕ

abbrev pub sram_base : ℕ
sram_base = 0x01c00000

abbrev pub sid_base : ℕ
sid_base = 0x01c23800

-- `SRAM_BASE + 0x24`, and `SID_BASE + 0x08`.
abbrev pub version_reg : ℕ
version_reg = sram_base + 0x24

abbrev pub sid_reg : ℕ
sid_reg = sid_base + 0x08

abbrev pub sram_id_sun4i : ℕ
sram_id_sun4i = 0x1623

abbrev pub sram_id_sun5i : ℕ
sram_id_sun5i = 0x1625

abbrev pub sram_id_sun6i : ℕ
sram_id_sun6i = 0x1633

abbrev pub sram_id_sun7i : ℕ
sram_id_sun7i = 0x1651

abbrev pub compatible_a10 : List ℕ
compatible_a10 = codes "allwinner,sun4i-a10"

abbrev pub compatible_a10s : List ℕ
compatible_a10s = codes "allwinner,sun5i-a10s"

abbrev pub compatible_a13 : List ℕ
compatible_a13 = codes "allwinner,sun5i-a13"

abbrev pub compatible_a31 : List ℕ
compatible_a31 = codes "allwinner,sun6i-a31"

abbrev pub compatible_a20 : List ℕ
compatible_a20 = codes "allwinner,sun7i-a20"

abbrev soc : List ℕ → ℕ → Soc
soc c b = record { compatible = some c; fdt = some b }

-- The inner `switch`, on a field of the SID: it has no `default`.
unfoldable pub match_sun5i : Blobs → (field : ℕ) → Soc
match_sun5i b field =
    if field == 3
    then soc compatible_a13 b.sun5i_a13
    else if field == 7
    then soc compatible_a10s b.sun5i_a10s
    else record { compatible = none; fdt = none }

-- The outer `switch`, with the accesses of the `SRAM_ID_SUN5I` case; none is `default`.
unfoldable pub match_id : Device → Blobs → (id : ℕ) → Trace → Option Soc × Trace
unfolding match_sun5i readl
match_id dev b id t =
    if id == sram_id_sun4i
    then (some (soc compatible_a10 b.sun4i_a10), t)
    else if id == sram_id_sun5i
    then (let (reg, t1) = readl dev sid_reg t in (some (match_sun5i b (reg / 2 ^ 12 % 2 ^ 4)), t1))
    else if id == sram_id_sun6i
    then (some (soc compatible_a31 b.sun6i_a31), t)
    else if id == sram_id_sun7i
    then (some (soc compatible_a20 b.sun7i_a20), t)
    else (none, t)

-- Setting bit 15 of the register makes it show the version.
unfoldable pub read_id : Device → Trace → ℕ × Trace
unfolding readl writel
read_id dev t =
    let (old, t1) = readl dev version_reg t in
    let t2 = writel (bit_or old (2 ^ 15)) version_reg t1 in
    let (reg, t3) = readl dev version_reg t2 in (reg / 2 ^ 16 % 2 ^ 16, t3)

-- The end of `match_soc`: `default` prints and returns NULL; else the SoC is put in a block of 8
-- bytes.
unfoldable pub finish_match : (id : ℕ) → Option Soc → Store → Option Soc × Store
finish_match id none st =
    (none, record st { log = st.log ++ str "Unknown sram-id: 0x" ∷ hex id ∷ str "\n" ∷ [] })
finish_match id (some s) st =
    let (p, st1) = allocate 8 st in (if p == null then none else some s, st1)

-- None is NULL.
unfoldable pub match_soc : Device → Blobs → Trace → Store → Option Soc × Trace × Store
unfolding read_id match_id finish_match
match_soc dev b t st =
    let (id, t1) = read_id dev t in
    let (found, t2) = match_id dev b id t1 in
    let (s, st1) = finish_match id found st in (s, t2, st1)

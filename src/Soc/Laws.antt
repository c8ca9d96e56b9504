-- ===== src/Soc/Laws.antt =====
-- What `match_soc` gives on each kind of chip.
use sunxi_babelfish.Common.{ℕ, ◌/◌, ◌%◌, ◌^◌, ◌<◌, ◌≡◌, ◌≢◌, ◌↔◌, List, ◌∷◌, some, none, arith}
use Prim.Native.Nat.{bit_or}
use sunxi_babelfish.Bus.{Device, Trace, read, write, readl, writel}
use sunxi_babelfish.Console.{codes}
use sunxi_babelfish.Malloc.{malloc}
use sunxi_babelfish.Script.Store.{Store}
use sunxi_babelfish.Soc.{
  Blobs, sid_reg, sram_id_sun4i, sram_id_sun5i, sram_id_sun6i, sram_id_sun7i, version_reg, read_id,
  match_soc,
}

pub data Chip : Type 0 where
  a10 a10s a13 a31 a20 : Chip

abbrev pub compatible_of : Chip → List ℕ
compatible_of a10 = codes "allwinner,sun4i-a10"
compatible_of a10s = codes "allwinner,sun5i-a10s"
compatible_of a13 = codes "allwinner,sun5i-a13"
compatible_of a31 = codes "allwinner,sun6i-a31"
compatible_of a20 = codes "allwinner,sun7i-a20"

abbrev pub blob_of : Blobs → Chip → ℕ
blob_of b a10 = b.sun4i_a10
blob_of b a10s = b.sun5i_a10s
blob_of b a13 = b.sun5i_a13
blob_of b a31 = b.sun6i_a31
blob_of b a20 = b.sun7i_a20

-- The identification of a chip: the SRAM's version, and for sun5i the field of the SID.
abbrev pub Identifies : (id field : ℕ) → Chip → Type 0
Identifies id field a10 = id ≡ sram_id_sun4i
Identifies id field a10s = (id ≡ sram_id_sun5i) × (field ≡ 7)
Identifies id field a13 = (id ≡ sram_id_sun5i) × (field ≡ 3)
Identifies id field a31 = id ≡ sram_id_sun6i
Identifies id field a20 = id ≡ sram_id_sun7i

abbrev pub sid_field : Device → Trace → ℕ
sid_field dev t = dev t sid_reg / 2 ^ 12 % 2 ^ 4

-- The accesses after which the version register shows the chip's id: it is read, and written back
-- with bit 15 set.
abbrev unlocked : Device → Trace → Trace
unlocked dev t =
    let old = dev t version_reg in
    write version_reg (bit_or old (2 ^ 15)) ∷ read version_reg old ∷ t

-- What the register shows then, and the trace when it has been read.
abbrev pub id_of : Device → Trace → ℕ
id_of dev t = dev (unlocked dev t) version_reg / 2 ^ 16 % 2 ^ 16

abbrev pub after_id : Device → Trace → Trace
after_id dev t = read version_reg (dev (unlocked dev t) version_reg) ∷ unlocked dev t

module _ (dev : Device) (b : Blobs) (t : Trace) (st : Store) (low : 0 < st.heap_base) where
  -- A chip that its registers identify is found with its own name and its own blob.
  pub match_soc_found :
      (c : Chip)
      → Identifies (id_of dev t) (sid_field dev (after_id dev t)) c
      → (match_soc dev b t st).0
        ≡ some (record { compatible = some (compatible_of c); fdt = some (blob_of b c) })
  unfolding match_soc malloc read_id readl writel
  match_soc_found a10 i = ground arith
  match_soc_found a10s i = ground arith
  match_soc_found a13 i = ground arith
  match_soc_found a31 i = ground arith
  match_soc_found a20 i = ground arith

  -- The block of an identified SoC is taken from the heap.
  pub match_soc-heap :
      (c : Chip)
      → Identifies (id_of dev t) (sid_field dev (after_id dev t)) c
      → (match_soc dev b t st).2.heap_base ≡ (malloc 8 st.heap_base).1
  unfolding match_soc malloc read_id readl writel
  match_soc-heap a10 i = ground arith
  match_soc-heap a10s i = ground arith
  match_soc-heap a13 i = ground arith
  match_soc-heap a31 i = ground arith
  match_soc-heap a20 i = ground arith

  -- `match_soc` gives NULL exactly on an unknown version, and a SoC whose fields were never set
  -- exactly on a sun5i whose field of the SID is neither 3 nor 7.
  pub match_soc_other :
      let id = id_of dev t in
      let field = sid_field dev (after_id dev t) in
      (((match_soc dev b t st).0 ≡ none) ↔ (
        (id ≢ sram_id_sun4i) × (id ≢ sram_id_sun5i) × (id ≢ sram_id_sun6i) × (id ≢ sram_id_sun7i)))
      × (((match_soc dev b t st).0 ≡ some (record { compatible = none; fdt = none }))
          ↔ ((id ≡ sram_id_sun5i) × (field ≢ 3) × (field ≢ 7)))
  unfolding match_soc malloc read_id readl writel
  match_soc_other = ((λ h. ground arith, λ h. ground arith), (λ h. ground arith, λ h. ground arith))

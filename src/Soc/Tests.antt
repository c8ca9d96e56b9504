-- ===== src/Soc/Tests.antt =====
-- The detection of src/soc.c on an A13, and on a sun5i with an unknown field in the SID.
use sunxi_babelfish.Common.{ℕ, ◌≡◌, ◌≢◌, ◌↔◌, ◌*◌, ◌^◌, [], some, none, ◌==◌, if◌then◌else◌, arith}
use sunxi_babelfish.Bus.{Device}
use sunxi_babelfish.Script.Store.{Store, null_entry}
use sunxi_babelfish.Soc.{
  Blobs, match_soc, version_reg, sram_id_sun4i, sram_id_sun5i, sram_id_sun6i, sram_id_sun7i,
}
use sunxi_babelfish.Soc.Laws.{id_of, sid_field, after_id, match_soc_other}

-- A sun5i with a field in its SID.
abbrev sun5i : ℕ → Device
sun5i field t a = if a == version_reg then sram_id_sun5i * 2 ^ 16 else field * 2 ^ 12

abbrev blobs : Blobs
blobs = record { sun4i_a10 = 1; sun5i_a10s = 2; sun5i_a13 = 3; sun6i_a31 = 4; sun7i_a20 = 5 }

abbrev start : Store
start = record {
  hooks = record { prev = λ _. 0; next = λ _. 0 };
  heap_base = 4096;
  section_name = λ _. [];
  entry_name = λ _. [];
  entry_type = λ _. 0;
  payload = λ _. null_entry;
  log = [];
}

match_soc_other_example :
    let id = id_of (sun5i 0) [] in
    let field = sid_field (sun5i 0) (after_id (sun5i 0) []) in
    (((match_soc (sun5i 0) blobs [] start).0 ≡ none)
      ↔ ((id ≢ sram_id_sun4i) × (id ≢ sram_id_sun5i) × (id ≢ sram_id_sun6i) × (id ≢ sram_id_sun7i)))
    × (((match_soc (sun5i 0) blobs [] start).0 ≡ some (record { compatible = none; fdt = none }))
        ↔ ((id ≡ sram_id_sun5i) × (field ≢ 3) × (field ≢ 7)))
match_soc_other_example = match_soc_other (sun5i 0) blobs [] start (omega arith)

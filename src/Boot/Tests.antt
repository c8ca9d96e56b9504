-- ===== src/Boot/Tests.antt =====
-- `main` of src/main.c on an A13 with a custom tree and a bank of memory in the tags.
use sunxi_babelfish.Common.{
  inr, ℕ, ◌-◌, ◌*◌, ◌^◌, refl, true, List, [], ◌∷◌, ◌==◌, if◌then◌else◌, get_or, some, none, arith,
}
use sunxi_babelfish.Memory.{Memory}
use sunxi_babelfish.Bus.{Device, readl, writel}
use sunxi_babelfish.Script.Store.{Store, null_entry}
use sunxi_babelfish.ScriptBin.Image.{word}
use sunxi_babelfish.Soc.{version_reg, sram_id_sun5i, read_id}
use sunxi_babelfish.Soc.Laws.{a13, Identifies, id_of, sid_field, after_id}
use sunxi_babelfish.Common.Int.{negsuc}
use sunxi_babelfish.Console.{codes}
use sunxi_babelfish.Soc.{compatible_a10}
use sunxi_babelfish.Libfdt.{Libfdt}
use sunxi_babelfish.Libfdt.Small.{small, view, set, same_text}
use sunxi_babelfish.Libfdt.Errors.{nospace}
use sunxi_babelfish.Fixup.Machine.{Machine}
use sunxi_babelfish.Fixup.Model.{at_model}
use sunxi_babelfish.Fixup.Model.Sample.{model, made, made-Names}
use sunxi_babelfish.Boot.Faults.{Reported, apply_fex-Reported}
use sunxi_babelfish.Fixup.Atags.{Tag, mem, tag_at}
use sunxi_babelfish.Fixup.Tags.{TagList, last, next}
use sunxi_babelfish.Boot.{Config, main, apply_fex}
use sunxi_babelfish.Boot.Start.{Booted, main-Booted, Starts, main-Starts, opened}

abbrev config : Config
config = record {
  version = "1.0";
  custom_dtb = true;
  exec_base = 0x40008000;
  zimage_start = 0x10000;
  blobs = record { sun4i_a10 = 1; sun5i_a10s = 1; sun5i_a13 = 1; sun6i_a31 = 1; sun7i_a20 = 1 };
  cp15 = record { midr = 0x413fc082; actlr = 0; cntfrq = 0 };
}

abbrev chip : Device
chip t a = if a == version_reg then sram_id_sun5i * 2 ^ 16 else 3 * 2 ^ 12

abbrev tags_at : ℕ
tags_at = 256

abbrev bytes : List ℕ
bytes = 4 ∷ 0 ∷ 0 ∷ 0 ∷ 2 ∷ 0 ∷ 0x41 ∷ 0x54 ∷ 0 ∷ 0 ∷ 0 ∷ 4 ∷ 0 ∷ 0 ∷ 0 ∷ 0x40 ∷ []

abbrev memory : Memory
memory a = get_or bytes (a - tags_at) 0

abbrev tags : List Tag
tags = mem 0x04000000 0x40000000 ∷ []

tags-TagList : TagList 1 memory tags_at tags
unfolding tag_at word
tags-TagList = next refl refl (last refl)

abbrev start : Store
start = record {
  hooks = record { prev = λ _. 0; next = λ _. 0 };
  heap_base = 4096;
  section_name = λ _. [];
  entry_name = λ _. [];
  entry_type = λ _. 0;
  payload = λ _. null_entry;
  log = [];
}

chip-Identifies : Identifies (id_of chip []) (sid_field chip (after_id chip [])) a13
unfolding read_id readl writel
chip-Identifies = (refl, refl)

main-Starts_example :
    Starts small 2 1 config memory view 4 8
      (λ e. omega arith)
      tags
      (opened small 2 1 config memory 1).1
      (main small 2 1 config memory chip tags_at [] start)
main-Starts_example =
    main-Starts small 2 1 config memory chip [] start a13 view 4 8 (λ e. omega arith) tags_at tags
      refl (omega arith) chip-Identifies refl (record { chosen = refl; memory = refl }) tags-TagList
      (omega arith) (inr refl, tt)

-- The same run, for the theorem on what has gone before.
abbrev run :
    Starts small 2 1 config memory view 4 8
      (λ e. omega arith)
      tags
      (opened small 2 1 config memory 1).1
      (main small 2 1 config memory chip tags_at [] start)
run =
    main-Starts small 2 1 config memory chip [] start a13 view 4 8 (λ e. omega arith) tags_at tags
      refl (omega arith) chip-Identifies refl (record { chosen = refl; memory = refl }) tags-TagList
      (omega arith) (inr refl, tt)

main-Booted_example : Booted small 2 1 config memory chip tags_at [] start run.j (some run.f')
main-Booted_example =
    main-Booted small 2 1 config memory chip tags_at [] start run.j (some run.f') run.st' run.run

-- A tree with no space for the model's name.
abbrev full : Libfdt
full = record small {
  setprop = λ f o k v. if same_text k (codes "model") then (negsuc 2, f) else set f o k v;
}

abbrev begin : Machine full
begin = record { fdt = λ m j. none; store = made.st' }

apply_fex-Reported_example :
    Reported full 2 2 config memory nospace begin
      (apply_fex full 2 2 config memory compatible_a10 4096 begin)
apply_fex-Reported_example =
    apply_fex-Reported full 2 2 config memory nospace compatible_a10 4096 model begin
      (at_model made-Names refl refl)

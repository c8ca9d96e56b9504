-- ===== src/Boot/Fex/Tests.antt =====
-- `main` of src/main.c on an A20, with the sample and a small tree.
use sunxi_babelfish.Fixup.Fits.{after_tags}
use sunxi_babelfish.Common.{
  inr, ℕ, zero, suc, ◌+◌, ◌*◌, ◌^◌, ◌≡◌, ◌≢◌, ◌==◌, if◌then◌else◌, refl, true, false, [], arith,
}
use sunxi_babelfish.Console.{codes}
use sunxi_babelfish.Libfdt.Small.{small, view, fresh}
use sunxi_babelfish.Script.Store.{Store, null_entry}
use sunxi_babelfish.Bus.{Device, readl, writel}
use sunxi_babelfish.Malloc.{malloc, aligned}
use sunxi_babelfish.Soc.{version_reg, sram_id_sun7i, read_id}
use sunxi_babelfish.Soc.Laws.{a20, Identifies, id_of, sid_field, after_id, compatible_of}
use sunxi_babelfish.Fixup.Effect.{tag_effect, tags_effect, tag_heap, tags_heap}
use sunxi_babelfish.Libfdt.Laws.{AliasAt}
use sunxi_babelfish.Fixup.Translation.{FexFits}
use sunxi_babelfish.Fixup.Uarts.Enable.Fits.{set, skip, all_set}
use sunxi_babelfish.Fixup.Uarts.Enable.{alias}
use sunxi_babelfish.Fixup.Uarts.Sample.Beside.{small-FdtFrame, small-Covers}
use sunxi_babelfish.Boot.{Config, main}
use sunxi_babelfish.Boot.Start.{opened}
use sunxi_babelfish.Boot.Fex.{Tools}
use sunxi_babelfish.Boot.Fex.Main.{HasAll, Ready, main-Ready}
use sunxi_babelfish.Boot.Fex.Sample.{
  tags, tags_at, image, groups, image-TagList, image-ImageIn, is_used, image-FileSays,
}

abbrev tools : Tools
tools = record { l = small; w = view; frame = small-FdtFrame; fuel = 20; covers = small-Covers 19 }

abbrev config : Config
config = record {
  version = "1.0";
  custom_dtb = false;
  exec_base = 0x40008000;
  zimage_start = 0x10000;
  blobs = record { sun4i_a10 = 1; sun5i_a10s = 1; sun5i_a13 = 1; sun6i_a31 = 1; sun7i_a20 = 1 };
  cp15 = record { midr = 0x413fc082; actlr = 0; cntfrq = 0 };
}

abbrev start : Store
start = record {
  hooks = record { prev = λ _. 0; next = λ _. 0 };
  heap_base = 4096;
  section_name = λ _. [];
  entry_name = λ _. [];
  entry_type = λ _. 0;
  payload = λ _. null_entry;
  log = [];
}

abbrev node : ℕ → ℕ
node j = 12 + j

apart : (i j : ℕ) → i ≢ j → node i ≢ node j
apart i j d e = d (omega arith)

distinct : ◌≢◌ {A = ℕ} 8 4
distinct e = omega arith

first_node : (j : ℕ) → is_used j ≡ true → AliasAt small view fresh (alias j) (node j)
first_node zero on = record {
  holder = 16;
  path = codes "/serial0";
  aliases = refl;
  value = refl;
  absolute = refl;
  node = refl;
}
first_node (suc j) on = absurd (ground arith)

begin-HasAll : HasAll tools 3 config image is_used node apart 0 4 8 distinct fresh
begin-HasAll = record {
  top = refl;
  nodes = record { chosen = refl; memory = refl };
  uarts = λ j hi on. first_node j on;
}

abbrev chip : Device
chip t a = if a == version_reg then sram_id_sun7i * 2 ^ 16 else 0

chip-Identifies : Identifies (id_of chip []) (sid_field chip (after_id chip [])) a20
unfolding read_id readl writel
chip-Identifies = refl

fresh-FexFits :
    FexFits small 20 is_used (compatible_of a20) (codes "a20x") 0 (after_tags small tags fresh)
fresh-FexFits = record {
  machine = (refl, refl);
  console = refl;
  uarts = set refl refl (λ f' group.
      skip refl (skip refl (skip refl (skip refl (skip refl (skip refl (skip refl all_set)))))));
}

main-Ready_example :
    Ready tools 3 config image is_used node apart 0 4 8 distinct
      (compatible_of a20)
      (codes "a20x")
      0
      tags
      (opened small 3 20 config image 1).1
      (main small 3 20 config image chip tags_at [] start)
unfolding tag_effect tags_effect tag_heap tags_heap malloc aligned
main-Ready_example =
    main-Ready tools 3 config image is_used node apart 0 4 8 distinct chip [] start a20 tags_at tags
      (codes "a20x") 0 groups refl (omega arith) chip-Identifies refl begin-HasAll image-TagList
      (omega arith) (refl, (inr refl, tt)) fresh-FexFits image-ImageIn image-FileSays (omega arith)
      (omega arith)

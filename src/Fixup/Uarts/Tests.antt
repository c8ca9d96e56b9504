-- ===== src/Fixup/Uarts/Tests.antt =====
-- `fdt_fixup_from_fex` on the sample and a small tree.
use sunxi_babelfish.Common.{ℕ, zero, suc, true, ◌+◌, ◌≡◌, ◌≢◌, refl, arith}
use sunxi_babelfish.Console.{codes}
use sunxi_babelfish.Soc.{compatible_a20}
use sunxi_babelfish.Fixup.Fex.{fdt_fixup_from_fex}
use sunxi_babelfish.Fixup.Translation.{Translated, fdt_fixup_from_fex-Translated}
use sunxi_babelfish.Libfdt.Small.{small, view, fresh}
use sunxi_babelfish.Libfdt.Laws.{AliasAt}
use sunxi_babelfish.Fixup.Translation.{FexFits}
use sunxi_babelfish.Fixup.Uarts.Enable.Fits.{set, skip, all_set}
use sunxi_babelfish.Fixup.Uarts.Enable.{At, alias}
use sunxi_babelfish.Fixup.Uarts.Enable.Loop.{UartsIn}
use sunxi_babelfish.Fixup.Uarts.Console.{}
use sunxi_babelfish.Fixup.Uarts.Sample.Beside.{board}
use sunxi_babelfish.Fixup.Uarts.Sample.Place.{
  is_used, said, debug-SectionIn, debug-EntryIn, named-MachineIn,
}

abbrev node : ℕ → ℕ
node j = 12 + j

apart : (i j : ℕ) → i ≢ j → node i ≢ node j
apart i j d e = d (omega arith)

abbrev blob : small.Fdt
blob = fresh

first_node : (j : ℕ) → is_used j ≡ true → AliasAt small view fresh (alias j) (node j)
first_node zero on = record {
  holder = 16;
  path = codes "/serial0";
  aliases = refl;
  value = refl;
  absolute = refl;
  node = refl;
}
first_node (suc j) on = absurd (ground arith)

blob-UartsIn : UartsIn board is_used node apart 8 0 blob
blob-UartsIn = record { said = λ j lo hi. said j hi; nodes = λ j lo hi on. first_node j on }

blob-FexFits : FexFits small 11 is_used compatible_a20 (codes "a20x") 0 blob
blob-FexFits = record {
  machine = (refl, refl);
  console = refl;
  uarts = set refl refl (λ f' group.
      skip refl (skip refl (skip refl (skip refl (skip refl (skip refl (skip refl all_set)))))));
}

fdt_fixup_from_fex-Translated_example :
    Translated board is_used node apart 0 4 compatible_a20
      (codes "a20x")
      0
      blob
      (fdt_fixup_from_fex small 11 compatible_a20 4096 (At board blob board.st.heap_base))
fdt_fixup_from_fex-Translated_example =
    fdt_fixup_from_fex-Translated board is_used node apart 0 4 compatible_a20 (codes "a20x") _ 0
      blob named-MachineIn debug-SectionIn debug-EntryIn refl refl blob-UartsIn blob-FexFits

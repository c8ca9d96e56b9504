-- ===== src/Fixup/Model/Tests.antt =====
-- `fdt_fixup_machine` on the sample and a small tree.
use sunxi_babelfish.Common.{refl, none}
use sunxi_babelfish.Console.{}
use sunxi_babelfish.Libfdt.Small.{small, view}
use sunxi_babelfish.Fixup.Machine.{Machine}
use sunxi_babelfish.Fixup.Fex.{fdt_fixup_machine}
use sunxi_babelfish.Fixup.Model.{Named, fdt_fixup_machine-Named}
use sunxi_babelfish.Fixup.Model.Sample.{model, made, made-Names}
use sunxi_babelfish.Soc.{compatible_a10}

abbrev begin : Machine small
begin = record { fdt = λ m j. none; store = made.st' }

fdt_fixup_machine-Named_example :
    Named small view 0 compatible_a10 model begin
      (fdt_fixup_machine small 2 compatible_a10 4096 begin)
fdt_fixup_machine-Named_example =
    fdt_fixup_machine-Named small view 0 2 compatible_a10 4096 model begin made-Names refl
      (refl, refl)

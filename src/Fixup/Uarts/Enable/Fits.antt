-- ===== src/Fixup/Uarts/Enable/Fits.antt =====
-- The calls of `fdt_setprop` that `fdt_fixup_uarts` of src/fixup.c makes for the status of the UARTs.
use sunxi_babelfish.Common.{ℕ, suc, ◌+◌, ◌≡◌, Bool, true, false}
use mathlib.Core.Path.{}
use sunxi_babelfish.Common.Int.{}
use sunxi_babelfish.Console.{codes}
use sunxi_babelfish.Script.Store.{}
use sunxi_babelfish.Script.Tree.{}
use sunxi_babelfish.Script.Tree.Reading.{}
use sunxi_babelfish.FdtTools.Pins.Frame.{}
use sunxi_babelfish.FdtTools.Pins.{add_char}
use sunxi_babelfish.Libfdt.{Libfdt}
use sunxi_babelfish.Libfdt.Laws.{}
use sunxi_babelfish.Fixup.Effect.{}
use sunxi_babelfish.Fixup.Fits.{SetFits, after_set}
use sunxi_babelfish.Fixup.Machine.{}
use sunxi_babelfish.Fixup.Fex.{}
use sunxi_babelfish.Fixup.Uarts.{}
use sunxi_babelfish.Fixup.Uarts.Enable.{Grouped, alias, okay}

module _ (l : Libfdt) (fuel : ℕ) (is_used : ℕ → Bool) where
  -- The calls that set the status of each of these UARTs that are used fit, whatever pins the UARTs
  -- before it have.
  pub data UartsFit : (k i : ℕ) → l.Fdt → Type 0 where
    all_set : {i : ℕ} {f : l.Fdt} → UartsFit 0 i f
    skip : {k i : ℕ} {f : l.Fdt} → is_used i ≡ false → UartsFit k (suc i) f → UartsFit (suc k) i f
    set :
        {k i : ℕ} {f : l.Fdt}
        → is_used i ≡ true
        → SetFits l f (alias i) (codes "status") okay
        → ((f' : l.Fdt)
            → Grouped l fuel
                (alias i)
                (add_char (codes "uart") (b'0' + i))
                (after_set l f (alias i) (codes "status") okay)
                f'
            → UartsFit k (suc i) f')
        → UartsFit (suc k) i f

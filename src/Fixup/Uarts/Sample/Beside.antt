-- ===== src/Fixup/Uarts/Sample/Beside.antt =====
-- The sample FEX file beside a small tree, and libfdt's laws on it.
use sunxi_babelfish.Common.{ℕ, suc, ◌≡◌, ◌≢◌, List, refl, arith, inr}
use sunxi_babelfish.Common.Int.{ℤ, pos, negsuc}
use sunxi_babelfish.Console.{}
use sunxi_babelfish.Libfdt.Small.{Props, small, view, set, set_at_other}
use sunxi_babelfish.Script.Store.{}
use sunxi_babelfish.Script.Tree.{}
use sunxi_babelfish.Script.Tree.Append.{}
use sunxi_babelfish.Script.Tree.Reading.{}
use sunxi_babelfish.FdtTools.{fdt_alloc_phandle}
use sunxi_babelfish.FdtTools.Pins.Frame.{FdtFrame}
use sunxi_babelfish.FdtTools.Pins.Group.{Covers}
use sunxi_babelfish.Fixup.Effect.{}
use sunxi_babelfish.Fixup.Uarts.{}
use sunxi_babelfish.Fixup.Uarts.Enable.{Board}
use sunxi_babelfish.Fixup.Uarts.Sample.{tree, made}

pub small_others :
    (f : Props) (o : ℤ) (k v : List ℕ) (m : ℕ) (j : List ℕ) → j ≢ k → (set f o k v).1 m j ≡ f m j
small_others f (pos n) k v m j d = set_at_other f n m k j v (inr d)
small_others f (negsuc n) k v m j d = refl

pub small-FdtFrame : FdtFrame small view
small-FdtFrame = record {
  setprop_others = small_others;
  setprop_paths = λ f o k v p n ab h. h;
  appendprop_others = λ f o k v m j d. refl;
  appendprop_paths = λ f o k v p n ab h. h;
  add_subnode_others = λ f o name m j v h. h;
  add_subnode_paths = λ f o name p n bare ab h. h;
  root_path = λ f n h. h;
}

pub small-Covers : (fuel : ℕ) → Covers small (suc fuel)
unfolding fdt_alloc_phandle
small-Covers fuel = record { ends = λ f. (1, refl) }

abbrev pub board : Board
board = record {
  l = small;
  w = view;
  frame = small-FdtFrame;
  fuel = 11;
  covers = small-Covers 10;
  script = 4096;
  st = made.st';
  ss = tree;
  tree = made.tree;
  short = (
    omega arith,
    (
      omega arith,
      (
        omega arith,
        (
          omega arith,
          (
            omega arith,
            (omega arith, (omega arith, (omega arith, (omega arith, (omega arith, tt))))),
          ),
        ),
      ),
    ),
  );
  fewer = omega arith;
}

-- ===== src/Boot/Fex.antt =====
-- What follows the fixups from the tags in `main` of src/main.c, with a FEX image.
pub mod Start
pub mod Main
mod Sample
mod Tests
use sunxi_babelfish.Common.{
  ℕ, ◌+◌, ◌<◌, ◌≤◌, ◌^◌, ◌≡◌, ◌≢◌, ◌∙◌, ap, sym, refl, Bool, true, false, List, Option, some,
  length, if◌then◌else◌, arith,
}
use mathlib.Core.Path.{subst}
use sunxi_babelfish.Common.Int.{ℤ, pos, is_zero}
use sunxi_babelfish.Console.{codes}
use sunxi_babelfish.Memory.{Memory}
use sunxi_babelfish.Malloc.{aligned, aligned_lem}
use sunxi_babelfish.Libfdt.{Libfdt, c_string}
use sunxi_babelfish.Libfdt.Laws.{FdtView}
use sunxi_babelfish.Script.Store.{Store, single, script_size}
use sunxi_babelfish.Script.New.{script_new}
use sunxi_babelfish.Script.Tree.{Tree, Section, IsTree}
use sunxi_babelfish.Script.Tree.Grow.{HasRoom, script_new-IsTree}
use sunxi_babelfish.Script.Calls.Lifetime.{script_new-heap_base}
use sunxi_babelfish.ScriptBin.{section_count, script_decompile_bin}
use sunxi_babelfish.ScriptBin.Image.{head_size}
use sunxi_babelfish.ScriptBin.Parse.{Group, groups_of, groups_room, parse_sections}
use sunxi_babelfish.ScriptBin.Reading.{AreShort, groups_of-IsShort, length-groups_of}
use sunxi_babelfish.ScriptBin.Sections.{script_decompile_bin-IsTree}
use sunxi_babelfish.FdtTools.Pins.Frame.{FdtFrame}
use sunxi_babelfish.FdtTools.Pins.Group.{Covers}
use sunxi_babelfish.Fixup.Machine.{Machine}
use sunxi_babelfish.Fixup.Uarts.Enable.{Board, alias}
use sunxi_babelfish.Fixup.Translation.{Translated, fdt_fixup_from_fex-Translated}
use sunxi_babelfish.Fixup.Said.{FileSays, said-MachineIn, said_port, said-UartIn}
use sunxi_babelfish.Boot.{
  Config, End, jumped, script_base_address, start_kernel, jump, apply_fex, boot_from_fex,
}

-- The image at its address is read as these groups.
pub record ImageIn (fuel : ℕ) (m : Memory) (gs : List Group) : Type 0 where
  pub parsed :
      let bin = script_base_address in
      parse_sections fuel m bin (section_count m bin) (bin + head_size) ≡ some gs
  pub short : AreShort fuel gs
  pub fewer : length gs < fuel

-- The tree that the decompiler has made of the image.
pub record Decompiled (fuel : ℕ) (m : Memory) (st : Store) (gs : List Group) : Type 0 where
  pub st' : Store
  pub tree : Tree
  pub run :
      script_decompile_bin fuel m script_base_address (script_new st).0 (script_new st).1
      ≡ some (true, st')
  pub holds : IsTree st' (script_new st).0 tree
  pub groups_eq : groups_of tree ≡ gs

image-Decompiled :
    (fuel : ℕ) (m : Memory) (st : Store) (gs : List Group)
    → ImageIn fuel m gs
    → 40 < st.heap_base
    → st.heap_base + script_size + 4 + groups_room gs ≤ 2 ^ 32
    → Decompiled fuel m st gs
image-Decompiled fuel m st gs q low room =
    let room_for : HasRoom script_size st = record { positive = omega arith; fits = omega arith } in
    let n = script_new-IsTree st room_for in
    let base = script_new-heap_base st room_for in
    let (ge, lt, whole) = aligned_lem script_size (omega arith) in
    let d =
      script_decompile_bin-IsTree fuel m script_base_address (script_new st).0 (script_new st).1 gs
        n.1 q.parsed (omega arith) (omega arith) in
    record { st' = d.0; tree = d.1; run = d.2; holds = d.3; groups_eq = d.4 }

-- libfdt with its laws, and the fuel that covers its nodes.
pub record Tools : Type 1 where
  pub l : Libfdt
  pub w : FdtView l
  pub frame : FdtFrame l w
  pub fuel : ℕ
  pub covers : Covers l fuel

-- The board with the tree of the image.
abbrev pub board_of :
    (t : Tools) (m : Memory) (st : Store) (gs : List Group)
    → ImageIn t.fuel m gs
    → Decompiled t.fuel m st gs
    → Board
board_of t m st gs q d = record {
  l = t.l;
  w = t.w;
  frame = t.frame;
  fuel = t.fuel;
  covers = t.covers;
  script = (script_new st).0;
  st = d.st';
  ss = d.tree;
  tree = d.holds;
  short =
      groups_of-IsShort t.fuel d.tree
        (subst (λ (x : List Group). AreShort t.fuel x) (sym d.groups_eq) q.short);
  fewer =
      subst (λ (k : ℕ). k < t.fuel) (length-groups_of d.tree)
        (subst (λ (x : List Group). length x < t.fuel) (sym d.groups_eq) q.fewer);
}

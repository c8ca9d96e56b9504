-- ===== src/Fixup/Fits.antt =====
-- The calls of `fdt_setprop` that src/fixup.c makes in a run, one after another, and that there is
-- space for them: each returns 0 on the blob that the ones before it leave.
use sunxi_babelfish.Common.{
  ℕ, ◌+◌, ◌%◌, ◌^◌, ◌≡◌, ◌⊎◌, true, List, [], ◌∷◌, ◌++◌, ◌==◌, if◌then◌else◌,
}
use sunxi_babelfish.Common.Int.{pos}
use sunxi_babelfish.Console.{codes}
use sunxi_babelfish.Libfdt.{Libfdt, cell, c_string}
use sunxi_babelfish.Fixup.Bootargs.{joined_args}
use sunxi_babelfish.Fixup.Atags.{Tag, cmdline, mem, initrd2, other}

module _ (l : Libfdt) where
  open l use {Fdt, path_offset, setprop, getprop}

  -- Setting a property of the node of a path.
  abbrev pub SetFits : Fdt → (path k v : List ℕ) → Type 0
  SetFits f path k v = (setprop f (path_offset f path) k v).0 ≡ pos 0

  abbrev pub after_set : Fdt → (path k v : List ℕ) → Fdt
  after_set f path k v = (setprop f (path_offset f path) k v).1

  -- Setting the command line.
  abbrev pub args_of : Fdt → List ℕ → List ℕ
  args_of f text =
      c_string (joined_args (getprop f (path_offset f (codes "/chosen")) (codes "bootargs")) text)

  abbrev pub ArgsFit : Fdt → List ℕ → Type 0
  ArgsFit f text = SetFits f (codes "/chosen") (codes "bootargs") (args_of f text)

  abbrev pub after_args : Fdt → List ℕ → Fdt
  after_args f text = after_set f (codes "/chosen") (codes "bootargs") (args_of f text)

  -- The two calls for a ramdisk have the offset of `/chosen` from before the first.
  abbrev with_start : Fdt → (start : ℕ) → Fdt
  with_start f start = after_set f (codes "/chosen") (codes "linux,initrd-start") (cell start)

  abbrev pub TagFits : Tag → Fdt → Type 0
  TagFits (cmdline text) f = ArgsFit f text
  TagFits (mem size start) f =
      ((size == 0) ≡ true) ⊎ SetFits f (codes "/memory") (codes "reg") (cell start ++ cell size)
  TagFits (initrd2 start size) f =
      SetFits f (codes "/chosen") (codes "linux,initrd-start") (cell start)
      × ((setprop (with_start f start) (path_offset f (codes "/chosen")) (codes "linux,initrd-end")
            (cell ((start + size) % 2 ^ 32))).0
          ≡ pos 0)
  TagFits other f = Unit {0}

  abbrev pub after_tag : Tag → Fdt → Fdt
  after_tag (cmdline text) f = after_args f text
  after_tag (mem size start) f =
      if size == 0 then f else after_set f (codes "/memory") (codes "reg") (cell start ++ cell size)
  after_tag (initrd2 start size) f =
      (setprop (with_start f start) (path_offset f (codes "/chosen")) (codes "linux,initrd-end")
        (cell ((start + size) % 2 ^ 32))).1
  after_tag other f = f

  abbrev pub TagsFit : List Tag → Fdt → Type 0
  TagsFit [] f = Unit {0}
  TagsFit (t ∷ ts) f = TagFits t f × TagsFit ts (after_tag t f)

  abbrev pub after_tags : List Tag → Fdt → Fdt
  after_tags [] f = f
  after_tags (t ∷ ts) f = after_tags ts (after_tag t f)

  -- The two calls for the root.
  abbrev with_compatible : Fdt → (compatible : List ℕ) → Fdt
  with_compatible f compatible = (setprop f (pos 0) (codes "compatible") (c_string compatible)).1

  abbrev pub MachineFits : Fdt → (compatible model : List ℕ) → Type 0
  MachineFits f compatible model =
      ((setprop f (pos 0) (codes "compatible") (c_string compatible)).0 ≡ pos 0)
      × ((setprop (with_compatible f compatible) (pos 0) (codes "model") (c_string model)).0
          ≡ pos 0)

  abbrev pub after_machine : Fdt → (compatible model : List ℕ) → Fdt
  after_machine f compatible model =
      (setprop (with_compatible f compatible) (pos 0) (codes "model") (c_string model)).1

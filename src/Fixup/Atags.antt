-- ===== src/Fixup/Atags.antt =====
-- `fdt_fixup_from_atags` of src/fixup.c, over the list of tags of include/uapi/asm/setup.h in
-- memory. A tag is a header of two words, its size in words and its kind, and a body.
use sunxi_babelfish.Common.{
  ℕ, zero, suc, ◌+◌, ◌*◌, ◌%◌, ◌^◌, List, ◌++◌, Option, some, none, ◌==◌, if◌then◌else◌,
}
use sunxi_babelfish.Common.Int.{ℤ, pos}
use sunxi_babelfish.Console.{codes}
use sunxi_babelfish.Memory.{Memory}
use sunxi_babelfish.Libfdt.{Libfdt, setprop_u32, cell}
use sunxi_babelfish.ScriptBin.Image.{word, read_text}
use sunxi_babelfish.Fixup.Machine.{Step, pure, ◌>>=◌, ◌>>◌, ask, change}
use sunxi_babelfish.Fixup.Bootargs.{fdt_fixup_append_bootargs}

abbrev pub atag_mem : ℕ
atag_mem = 0x54410002

abbrev pub atag_initrd2 : ℕ
atag_initrd2 = 0x54420005

abbrev pub atag_cmdline : ℕ
atag_cmdline = 0x54410009

-- The tags that the function looks at.
pub data Tag : Type 0 where
  cmdline : (text : List ℕ) → Tag
  mem : (size start : ℕ) → Tag
  initrd2 : (start size : ℕ) → Tag
  other : Tag

-- The tag at `t`; `fuel` bounds the bytes of a command line.
unfoldable pub tag_at : (fuel : ℕ) → Memory → (t : ℕ) → Option Tag
tag_at fuel m t =
    let kind = word m (t + 4) in
    if kind == atag_cmdline
    then elim (read_text fuel m (t + 8)) [ none ↦ none | some s ↦ some (cmdline s) ]
    else if kind == atag_mem
    then some (mem (word m (t + 8)) (word m (t + 12)))
    else if kind == atag_initrd2
    then some (initrd2 (word m (t + 8)) (word m (t + 12)))
    else some other

-- `tag_next(t)`.
abbrev pub tag_next : Memory → ℕ → ℕ
tag_next m t = (t + word m t * 4) % 2 ^ 32

module _ (l : Libfdt) where
  open l use {path_offset, setprop}

  -- The body of the loop.
  unfoldable pub apply_tag : Tag → Step l (Unit {0})
  unfolding setprop_u32
  apply_tag (cmdline text) = fdt_fixup_append_bootargs l text >> pure tt
  apply_tag (mem size start) = if size == 0 then pure tt else (do
    offset ← ask (λ f. path_offset f (codes "/memory"))
    change (λ f. setprop f offset (codes "reg") (cell start ++ cell size))
    pure tt)
  apply_tag (initrd2 start size) = do
    offset ← ask (λ f. path_offset f (codes "/chosen"))
    change (λ f. setprop_u32 l f offset (codes "linux,initrd-start") start)
    change (λ f. setprop_u32 l f offset (codes "linux,initrd-end") ((start + size) % 2 ^ 32))
    pure tt
  apply_tag other = pure tt

  -- `for_each_tag(atag, atags)`; `rounds` bounds the number of tags.
  unfoldable pub atags_loop : (rounds fuel : ℕ) → Memory → (t : ℕ) → Step l (Unit {0})
  unfolding tag_at
  atags_loop zero fuel m t s = none
  atags_loop (suc r) fuel m t s =
      let rest : Step l (Unit {0}) = atags_loop r fuel m (tag_next m t) in
      if word m t == 0
      then some (tt, s)
      else elim (tag_at fuel m t) [ none ↦ none | some tag ↦ (apply_tag tag >> rest) s ]

  unfoldable pub fdt_fixup_from_atags : (rounds fuel : ℕ) → Memory → (atags : ℕ) → Step l ℤ
  unfolding atags_loop
  fdt_fixup_from_atags rounds fuel m atags = atags_loop rounds fuel m atags >> pure (pos 0)

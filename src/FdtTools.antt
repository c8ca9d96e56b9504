-- ===== src/FdtTools.antt =====
-- src/fdt_tools.c and include/fdt_tools.h: phandles and groups of pins.
pub mod Pins
pub mod Phandle
mod Tests
use sunxi_babelfish.Common.{
  ℕ, zero, suc, ◌+◌, ◌^◌, ◌%◌, List, Option, some, none, ◌>>=◌, pure, ◌==◌, ltb, ◌&&◌,
  if◌then◌else◌,
}
use sunxi_babelfish.Common.Int.{ℤ, pos, negsuc, is_neg}
use sunxi_babelfish.Console.{codes}
use sunxi_babelfish.Libfdt.{Libfdt, setprop_u32}

module _ (l : Libfdt) where
  open l use {Fdt, next_node, get_phandle}

  -- `if (new_phandle > phandle) phandle = new_phandle;`, on `int`: a phandle of 2 ^ 31 or more is
  -- negative there.
  abbrev pub larger : (new phandle : ℕ) → ℕ
  larger new phandle = if ltb phandle new && ltb new (2 ^ 31) then new else phandle

  -- The loop over the nodes from `offset` on; `fuel` bounds the number of nodes.
  unfoldable pub alloc_phandle_loop : (fuel : ℕ) → Fdt → (offset : ℤ) → (phandle : ℕ) → Option ℕ
  alloc_phandle_loop zero f offset phandle = none
  alloc_phandle_loop (suc k) f offset phandle =
      let rest =
        alloc_phandle_loop k f (next_node f offset) (larger (get_phandle f offset) phandle) in
      if is_neg offset then some phandle else rest

  -- The bits of the `int` that is returned: after 2 ^ 31 - 1 they are those of a negative one.
  unfoldable pub fdt_alloc_phandle : (fuel : ℕ) → Fdt → Option ℕ
  unfolding alloc_phandle_loop
  fdt_alloc_phandle fuel f = do
    phandle ← alloc_phandle_loop fuel f (next_node f (negsuc 0)) 0
    pure ((phandle + 1) % 2 ^ 32)

  unfoldable pub fdt_set_phandle : Fdt → (nodeoffset : ℤ) → (phandle : ℕ) → ℤ × Fdt
  unfolding setprop_u32
  fdt_set_phandle f nodeoffset phandle =
      let (ret, f1) = setprop_u32 l f nodeoffset (codes "phandle") phandle in
      if is_neg ret then (ret, f1) else setprop_u32 l f1 nodeoffset (codes "linux,phandle") phandle

  -- The phandle, 0 on an error.
  unfoldable pub fdt_create_phandle : (fuel : ℕ) → Fdt → (nodeoffset : ℤ) → Option (ℕ × Fdt)
  unfolding fdt_alloc_phandle fdt_set_phandle
  fdt_create_phandle fuel f nodeoffset =
      let old = get_phandle f nodeoffset in
      if old == 0
      then (do
        phandle ← fdt_alloc_phandle fuel f
        let (ret, f1) = fdt_set_phandle f nodeoffset phandle
        pure (if is_neg ret then 0 else phandle, f1))
      else some (old, f)

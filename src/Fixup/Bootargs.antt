-- ===== src/Fixup/Bootargs.antt =====
-- `fdt_fixup_append_bootargs` of src/fixup.c.
use sunxi_babelfish.Common.{ℕ, ◌+◌, List, [], ◌∷◌, ◌++◌, Option, some, none, if◌then◌else◌, length}
use sunxi_babelfish.Common.Int.{ℤ, pos, is_neg}
use sunxi_babelfish.Console.{codes}
use sunxi_babelfish.Libfdt.{Libfdt, setprop_string}
use sunxi_babelfish.Fixup.Machine.{Step, pure, ◌>>=◌, ◌>>◌, ask, change, take_block, c_text}

-- What `new_args` is set to: `len > 0` asks whether the property is there and not empty.
unfoldable pub joined_args : (old : Option (List ℕ)) → (bootargs : List ℕ) → List ℕ
joined_args none bootargs = bootargs
joined_args (some []) bootargs = bootargs
joined_args (some (c ∷ cs)) bootargs = c_text (c ∷ cs) ++ codes " " ++ bootargs

-- The size of the block for it.
abbrev pub args_size : (old : Option (List ℕ)) → (bootargs : List ℕ) → ℕ
args_size none bootargs = length bootargs + 2
args_size (some []) bootargs = length bootargs + 2
args_size (some (c ∷ cs)) bootargs = length (c ∷ cs) + length bootargs + 2

module _ (l : Libfdt) where
  open l use {path_offset, add_subnode, getprop}

  -- The second half, from the node's offset on.
  unfoldable pub set_bootargs : (offset : ℤ) → (bootargs : List ℕ) → Step l ℤ
  unfolding joined_args setprop_string
  set_bootargs offset bootargs = do
    old ← ask (λ f. getprop f offset (codes "bootargs"))
    take_block (args_size old bootargs)
    ret ← change (λ f. setprop_string l f offset (codes "bootargs") (joined_args old bootargs))
    pure (if is_neg ret then ret else pos 0)

  unfoldable pub fdt_fixup_append_bootargs : (bootargs : List ℕ) → Step l ℤ
  unfolding set_bootargs
  fdt_fixup_append_bootargs bootargs = do
    offset ← ask (λ f. path_offset f (codes "/chosen"))
    if is_neg offset
        then (do
          new ← change (λ f. add_subnode f (pos 0) (codes "chosen"))
          if is_neg new then pure new else set_bootargs new bootargs)
        else set_bootargs offset bootargs

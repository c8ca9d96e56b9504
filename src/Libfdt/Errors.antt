-- ===== src/Libfdt/Errors.antt =====
-- The error codes of lib/libfdt/libfdt.h. A call that fails gives the negative of one of them.
use sunxi_babelfish.Common.{ℕ, ◌-◌, ◌≤◌, arith}
use sunxi_babelfish.Common.Int.{ℤ, negsuc}

pub data FdtError : Type 0 where
  -- The node or property that is asked for does not exist.
  notfound : FdtError
  -- A node or property that is to be made exists already.
  exists : FdtError
  -- The buffer has no space for the tree as it would be.
  nospace : FdtError
  -- An offset out of bounds, or at a part that the operation cannot work on.
  badoffset : FdtError
  -- A path in a bad format.
  badpath : FdtError
  -- An invalid phandle value.
  badphandle : FdtError
  -- A tree that the sequential-write functions have not completed.
  badstate : FdtError
  -- A structure block without an end.
  truncated : FdtError
  -- No magic number, so not a device tree.
  badmagic : FdtError
  -- A version that the operation cannot handle.
  badversion : FdtError
  -- A corrupt structure block.
  badstructure : FdtError
  -- Blocks in an order that the operation cannot handle.
  badlayout : FdtError
  -- A failed assertion of libfdt itself.
  internal : FdtError

abbrev pub code_of : FdtError → ℕ
code_of notfound = 1
code_of exists = 2
code_of nospace = 3
code_of badoffset = 4
code_of badpath = 5
code_of badphandle = 6
code_of badstate = 7
code_of truncated = 8
code_of badmagic = 9
code_of badversion = 10
code_of badstructure = 11
code_of badlayout = 12
code_of internal = 13

abbrev pub fdt_err_max : ℕ
fdt_err_max = 13

-- `-FDT_ERR_...`, as a result.
abbrev pub failure : FdtError → ℤ
failure e = negsuc (code_of e - 1)

pub code_of_bounds : (e : FdtError) → (1 ≤ code_of e) × (code_of e ≤ fdt_err_max)
code_of_bounds notfound = (omega arith, omega arith)
code_of_bounds exists = (omega arith, omega arith)
code_of_bounds nospace = (omega arith, omega arith)
code_of_bounds badoffset = (omega arith, omega arith)
code_of_bounds badpath = (omega arith, omega arith)
code_of_bounds badphandle = (omega arith, omega arith)
code_of_bounds badstate = (omega arith, omega arith)
code_of_bounds truncated = (omega arith, omega arith)
code_of_bounds badmagic = (omega arith, omega arith)
code_of_bounds badversion = (omega arith, omega arith)
code_of_bounds badstructure = (omega arith, omega arith)
code_of_bounds badlayout = (omega arith, omega arith)
code_of_bounds internal = (omega arith, omega arith)

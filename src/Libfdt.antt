-- ===== src/Libfdt.antt =====
-- The calls of libfdt (lib/libfdt, a copy of the device tree compiler's library), as an interface:
-- a blob is a value of the type `Fdt`, and a call that changes it gives the new blob. A
-- path, a name or a string is its text; an offset and a result are an `int`. The inline functions
-- and macros of lib/libfdt/libfdt.h that the program calls are written out over `setprop` and
-- `appendprop`.
pub mod Laws
pub mod Errors
pub mod Small
use sunxi_babelfish.Common.{ℕ, ◌+◌, ◌*◌, ◌/◌, ◌%◌, ◌^◌, List, [], ◌∷◌, ◌++◌, Option}
use sunxi_babelfish.Common.Int.{ℤ}

pub record Libfdt : Type 1 where
  pub Fdt : Type 0
  -- `fdt_path_offset`, `fdt_subnode_offset`, `fdt_next_node`, with a negative error.
  pub path_offset : Fdt → (path : List ℕ) → ℤ
  pub subnode_offset : Fdt → (parent : ℤ) → (name : List ℕ) → ℤ
  pub next_node : Fdt → (offset : ℤ) → ℤ
  -- `fdt_add_subnode`: the new node's offset or an error.
  pub add_subnode : Fdt → (parent : ℤ) → (name : List ℕ) → ℤ × Fdt
  -- `fdt_getprop`: the value's bytes; none stands for NULL with a negative length.
  pub getprop : Fdt → (offset : ℤ) → (name : List ℕ) → Option (List ℕ)
  -- `fdt_get_phandle`: 0 for none.
  pub get_phandle : Fdt → (offset : ℤ) → ℕ
  -- `fdt_setprop` and `fdt_appendprop`: 0 or a negative error.
  pub setprop : Fdt → (offset : ℤ) → (name val : List ℕ) → ℤ × Fdt
  pub appendprop : Fdt → (offset : ℤ) → (name val : List ℕ) → ℤ × Fdt
  -- `fdt_totalsize` of the blob at an address, and `fdt_open_into` from there, with the size of
  -- the buffer.
  pub totalsize : (blob : ℕ) → ℕ
  pub open_into : (blob bufsize : ℕ) → ℤ × Fdt

-- The four bytes of `cpu_to_fdt32(v)`, the most significant first.
abbrev pub cell : ℕ → List ℕ
cell v = v / 2 ^ 24 % 2 ^ 8 ∷ v / 2 ^ 16 % 2 ^ 8 ∷ v / 2 ^ 8 % 2 ^ 8 ∷ v % 2 ^ 8 ∷ []

-- The bytes of a string, with its terminator.
abbrev pub c_string : List ℕ → List ℕ
c_string s = s ++ 0 ∷ []

module _ (l : Libfdt) where
  open l use {Fdt, setprop, appendprop}

  -- `fdt_setprop_u32` and `fdt_setprop_cell`.
  unfoldable pub setprop_u32 : Fdt → (offset : ℤ) → (name : List ℕ) → (val : ℕ) → ℤ × Fdt
  setprop_u32 f o name val = setprop f o name (cell val)

  unfoldable pub setprop_string : Fdt → (offset : ℤ) → (name str : List ℕ) → ℤ × Fdt
  setprop_string f o name s = setprop f o name (c_string s)

  unfoldable pub appendprop_string : Fdt → (offset : ℤ) → (name str : List ℕ) → ℤ × Fdt
  appendprop_string f o name s = appendprop f o name (c_string s)

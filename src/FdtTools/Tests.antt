-- ===== src/FdtTools/Tests.antt =====
-- Phandles on a tree of two nodes, and the names of pins.
use sunxi_babelfish.Common.{
  ◌^◌, ◌-◌, ◌≢◌, ℕ, zero, suc, ◌≡◌, refl, List, [], ◌∷◌, none, arith, get_or,
}
use sunxi_babelfish.Common.Int.{ℤ, pos, negsuc}
use sunxi_babelfish.Console.{}
use sunxi_babelfish.Libfdt.{Libfdt}
use sunxi_babelfish.FdtTools.{fdt_alloc_phandle}
use sunxi_babelfish.FdtTools.Phandle.{Chain, end, node, Allocated, fdt_alloc_phandle-Allocated}
use sunxi_babelfish.FdtTools.Pins.{Gpio, pin_name}
use sunxi_babelfish.FdtTools.Pins.Names.{HasName, pin_name-injective}

-- A blob that is only its nodes' phandles; nodes are 4 bytes apart.
-- The nodes' offsets are 0 and 4.
abbrev after : List ℕ → ℤ → ℤ
after ps (negsuc n) = pos 0
after ps (pos zero) = pos 4
after ps (pos (suc n)) = negsuc 0

abbrev phandle_at : List ℕ → ℤ → ℕ
phandle_at ps (pos zero) = get_or ps 0 0
phandle_at ps (pos (suc n)) = get_or ps 1 0
phandle_at ps (negsuc n) = 0

abbrev phandles_only : Libfdt
phandles_only = record {
  Fdt = List ℕ;
  path_offset = λ f p. negsuc 0;
  subnode_offset = λ f o n. negsuc 0;
  next_node = after;
  add_subnode = λ f o n. (negsuc 2, f);
  getprop = λ f o n. none;
  get_phandle = phandle_at;
  setprop = λ f o n v. (negsuc 2, f);
  appendprop = λ f o n v. (negsuc 2, f);
  totalsize = λ b. 0;
  open_into = λ b s. (negsuc 2, []);
}

abbrev two_phandles : List ℕ
two_phandles = 7 ∷ 3 ∷ []

abbrev offsets : List ℤ
offsets = pos 0 ∷ pos 4 ∷ []

offsets-Chain : Chain phandles_only two_phandles (pos 0) offsets
offsets-Chain = node refl (node refl (end refl))

small_phandle : (o : ℤ) → phandle_at two_phandles o ≢ 2 ^ 31 - 1
small_phandle (pos zero) e = omega arith
small_phandle (pos (suc n)) e = omega arith
small_phandle (negsuc n) e = omega arith

fdt_alloc_phandle-Allocated_example :
    Allocated phandles_only two_phandles offsets (fdt_alloc_phandle phandles_only 3 two_phandles)
fdt_alloc_phandle-Allocated_example =
    fdt_alloc_phandle-Allocated phandles_only two_phandles 3 offsets-Chain (omega arith)
      (λ i o e. small_phandle o)

abbrev tx : Gpio
tx = record { port = 2; port_num = 22; drive = 1; pull = 2 }

abbrev rx : Gpio
rx = record { port = 2; port_num = 22; drive = 1; pull = 6 }

tx-HasName : HasName tx
tx-HasName = record { first = omega arith; last = omega arith; digits = omega arith }

rx-HasName : HasName rx
rx-HasName = record { first = omega arith; last = omega arith; digits = omega arith }

pin_name-injective_example : (tx.port ≡ rx.port) × (tx.port_num ≡ rx.port_num)
unfolding pin_name
pin_name-injective_example = pin_name-injective tx rx tx-HasName rx-HasName refl

-- ===== src/Boot.antt =====
-- `main` of src/main.c: from the detection of the SoC to the jump into the kernel. `none` stands
-- for fuel that has run out, and for a run that reads what was never set. The text of the version
-- and the addresses that the linker and src/head.S decide are parameters.

pub mod Quirks
pub mod Laws
pub mod Fex
pub mod Start
pub mod Faults
mod Tests
use Prim.Native.String.{String}
use sunxi_babelfish.Common.{
  ℕ, ◌+◌, ◌-◌, ◌*◌, ◌/◌, ◌%◌, ◌^◌, Bool, true, false, List, [], ◌∷◌, ◌++◌, Option, some, none, ◌==◌,
  if◌then◌else◌, ◌>>=◌, pure,
}
use sunxi_babelfish.Common.Int.{ℤ, pos, negsuc, is_zero}
use sunxi_babelfish.Memory.{Memory}
use sunxi_babelfish.Bus.{Device, Trace}
use sunxi_babelfish.Console.{Log, str, text, hex}
use sunxi_babelfish.Script.Store.{Store}
use sunxi_babelfish.Script.New.{script_new}
use sunxi_babelfish.ScriptBin.{script_decompile_bin}
use sunxi_babelfish.Soc.{Blobs, Soc, match_soc}
use sunxi_babelfish.Libfdt.{Libfdt}
use sunxi_babelfish.Fixup.Machine.{Machine}
use sunxi_babelfish.Fixup.Atags.{fdt_fixup_from_atags}
use sunxi_babelfish.Fixup.Fex.{fdt_fixup_from_fex}
use sunxi_babelfish.Boot.Quirks.{Cp15, cortex_a7_init_quirks}

-- How the binary is built and where it runs: `VERSION`, `CUSTOM_DTB`, `exec_base`,
-- `&zImage_start`, the blobs, and the registers of the coprocessor when `main` starts.
pub record Config : Type 0 where
  pub version : String
  pub custom_dtb : Bool
  pub exec_base : ℕ
  pub zimage_start : ℕ
  pub blobs : Blobs
  pub cp15 : Cp15

abbrev pub script_base_address : ℕ
script_base_address = 0x43000000

abbrev pub fdt_base_address : ℕ
fdt_base_address = 0x45000000

-- The arguments of the kernel, where it is entered, and the registers of the coprocessor then.
pub record Jump : Type 0 where
  pub entry : ℕ
  pub dummy : ℕ
  pub machid : ℕ
  pub dtb : ℕ
  pub cp15 : Cp15

-- A return from `main`, or the jump.
pub data End : Type 0 where
  stopped : End
  jumped : Jump → End

abbrev pub abs_addr : Config → (rel_addr : ℕ) → ℕ
abs_addr c rel_addr = (rel_addr + c.exec_base) % 2 ^ 32

abbrev pub cpuid : Config → ℕ
cpuid c = c.cp15.midr % 2 ^ 16 / 2 ^ 4

abbrev pub say : Log → Store → Store
say more st = record st { log = st.log ++ more }

-- An `int` as `printhex` sees it.
abbrev pub as_word : ℤ → ℕ
as_word (pos n) = n % 2 ^ 32
as_word (negsuc n) = 2 ^ 32 - n - 1

-- The end of `main`, from the Main ID Register on.
unfoldable pub start_kernel : Config → Store → Jump × Store
start_kernel c st =
    let a7 = cpuid c == 0xc07 in
    let st1 =
      if a7
      then say (str "Cortex-A7 based SoCs.... Applying appropriate init quirks\n" ∷ []) st
      else st in
    (
      record {
        entry = abs_addr c c.zimage_start;
        dummy = 0;
        machid = 0xffffffff;
        dtb = fdt_base_address;
        cp15 = if a7 then cortex_a7_init_quirks c.cp15 else c.cp15;
      },
      say (str "Booting Linux...\n" ∷ []) st1,
    )

module _ (l : Libfdt) (rounds fuel : ℕ) (c : Config) (m : Memory) where
  abbrev stop : Log → Machine l → End × Machine l
  stop more s = (stopped, record s { store = say more s.store })

  abbrev pub jump : Machine l → End × Machine l
  jump s = let (j, st) = start_kernel c s.store in (jumped j, record s { store = st })

  -- `ret = fdt_fixup_from_fex(...)` and its error path.
  unfoldable pub apply_fex :
      (compatible : List ℕ) → (script : ℕ) → Machine l → Option (End × Machine l)
  unfolding start_kernel
  apply_fex compatible script s = do
    (ret, s1) ← fdt_fixup_from_fex l fuel compatible script s
    pure (
        if is_zero ret
        then jump s1
        else stop (str "Error in fdt_fixup " ∷ hex (as_word ret) ∷ str "\n" ∷ []) s1)

  -- The part that `#ifndef CUSTOM_DTB` guards, and what follows.
  unfoldable pub boot_from_fex : (compatible : List ℕ) → Machine l → Option (End × Machine l)
  boot_from_fex compatible s =
      let (script, st) = script_new s.store in
      let translated = (do
        (good, st1) ← script_decompile_bin fuel m script_base_address script st
        let rest = apply_fex compatible script (record s { store = st1 }) in
            if good then rest else some (stopped, record s { store = st1 })) in
      if c.custom_dtb then some (jump s) else translated

  -- `ret = fdt_fixup_from_atags(...)` and what follows.
  unfoldable pub boot_with_tree :
      (compatible : List ℕ) → (tags : ℕ) → Machine l → Option (End × Machine l)
  boot_with_tree compatible tags s = do
    (ret, s1) ← fdt_fixup_from_atags l rounds fuel m tags s
    let rest = boot_from_fex compatible s1 in
        if is_zero ret
        then rest
        else some (stop (str "Couldn't fixup the device tree with ATAGS\n" ∷ []) s1)

  -- `fdt_open_into` and what follows. The result has the tree, once it is open.
  unfoldable pub open_tree :
      (compatible : List ℕ) → (blob tags : ℕ) → Store → Option (End × Option l.Fdt × Store)
  open_tree compatible blob tags st =
      let abs_fdt = abs_addr c blob in
      let (ret, f) = l.open_into abs_fdt (2 * l.totalsize abs_fdt % 2 ^ 32) in
      let rest = (do
        (e, s) ← boot_with_tree compatible tags (record { fdt = f; store = st })
        pure (e, some s.fdt, s.store)) in
      if is_zero ret
      then rest
      else some (stopped, none, say (str "Error opening the device tree\n" ∷ []) st)

  -- What follows `match_soc`. A field of the SoC that was never set is read here, which gives `none`;
  -- no name that `match_soc` sets is NULL, so the branch that prints "Unknown." is not taken.
  unfoldable pub boot_soc : Soc → (tags : ℕ) → Store → Option (End × Option l.Fdt × Store)
  boot_soc soc tags st = do
    compatible ← soc.compatible
    blob ← soc.fdt
    open_tree compatible blob tags (say (str "Detected SoC: " ∷ text compatible ∷ str "\n" ∷ []) st)

  abbrev pub greeting : Log
  greeting =
      str "++ Allwinner Babelfish " ∷ str c.version ∷ str " (FEX to DT translator) ++\n\n" ∷ []

  -- `main(dummy, machid, tags)`.
  unfoldable pub main : Device → (tags : ℕ) → Trace → Store → Option (End × Option l.Fdt × Store)
  unfolding boot_soc
  main dev tags t st =
      let (found, t1, st1) = match_soc dev c.blobs t (say greeting st) in
      elim found [ none ↦ some (stopped, none, st1) | some soc ↦ boot_soc soc tags st1 ]

-- ===== src/Boot/Fex/Start.antt =====
-- `main` of src/main.c starts the kernel with a tree that has what the FEX image says.
use sunxi_babelfish.Common.{
  ℕ, ◌+◌, ◌<◌, ◌≤◌, ◌^◌, ◌≡◌, ◌≢◌, refl, sym, Bool, true, false, List, Option, some,
}
use mathlib.Core.Path.{subst}
use sunxi_babelfish.Common.Int.{pos}
use sunxi_babelfish.Console.{codes}
use sunxi_babelfish.Memory.{Memory}
use sunxi_babelfish.Libfdt.{Libfdt, c_string}
use sunxi_babelfish.Libfdt.Laws.{AliasAt}
use sunxi_babelfish.Script.Store.{Store, script_size}
use sunxi_babelfish.Script.New.{script_new}
use sunxi_babelfish.ScriptBin.{script_decompile_bin}
use sunxi_babelfish.ScriptBin.Parse.{Group, groups_room}
use sunxi_babelfish.FdtTools.Pins.Frame.{IsForeign}
use sunxi_babelfish.Fixup.Machine.{Machine}
use sunxi_babelfish.Fixup.Bootargs.{joined_args}
use sunxi_babelfish.Fixup.Fex.{console_args, fdt_fixup_from_fex}
use sunxi_babelfish.Fixup.Uarts.Enable.{alias, okay}
use sunxi_babelfish.Fixup.Uarts.Enable.Loop.{UartsIn}
use sunxi_babelfish.Fixup.Translation.{FexFits, IsUnnamed, fdt_fixup_from_fex-Translated}
use sunxi_babelfish.Fixup.Said.{FileSays, said-MachineIn, said_port, said-UartIn}
use sunxi_babelfish.Boot.{
  Config, End, Jump, jumped, script_base_address, start_kernel, jump, apply_fex, boot_from_fex,
}
use sunxi_babelfish.Boot.Fex.{ImageIn, image-Decompiled, Tools, board_of}

-- The stages of `boot_from_fex` that have succeeded make it start the kernel.
boot_from_fex_run :
    (l : Libfdt) (rounds fuel : ℕ) (c : Config) (m : Memory) (compatible : List ℕ) (s : Machine l)
    (st : Store) (s2 : Machine l)
    → c.custom_dtb ≡ false
    → script_decompile_bin fuel m script_base_address (script_new s.store).0 (script_new s.store).1
      ≡ some (true, st)
    → fdt_fixup_from_fex l fuel compatible (script_new s.store).0 (record s { store = st })
      ≡ some (pos 0, s2)
    → boot_from_fex l rounds fuel c m compatible s ≡ some (jump l rounds fuel c m s2)
unfolding boot_from_fex apply_fex
boot_from_fex_run l rounds fuel c m compatible s st s2 plain run fixed = rw (plain, run, fixed) refl

module _ (t : Tools) (rounds : ℕ) (c : Config) (m : Memory) (is_used : ℕ → Bool)
    (node : ℕ → t.w.Node) (apart : (i j : ℕ) → i ≢ j → node i ≢ node j)
    (root chosen : t.w.Node) where
  -- The nodes that the image's settings go to.
  pub record HasBoard (f : t.l.Fdt) : Type 0 where
    pub top : t.w.node_at f 0 ≡ some root
    pub command_line : t.w.resolve f (codes "/chosen") ≡ some chosen
    pub uarts : (j : ℕ) → j < 8 → is_used j ≡ true → AliasAt t.l t.w f (alias j) (node j)

  -- The kernel is started, with a tree that has the image's settings.
  pub record Fitted (compatible model : List ℕ) (port : ℕ) (s : Machine t.l)
      (r : Option (End × Machine t.l)) : Type 0 where
    pub j : Jump
    pub s' : Machine t.l
    pub run : r ≡ some (jumped j, s')
    pub compatible_set : t.w.prop s'.fdt root (codes "compatible") ≡ some (c_string compatible)
    pub model_set : t.w.prop s'.fdt root (codes "model") ≡ some (c_string model)
    pub bootargs :
        t.w.prop s'.fdt chosen (codes "bootargs")
        ≡ some (
            c_string (
              joined_args
                (t.w.prop s.fdt chosen (codes "bootargs"))
                (console_args t.l t.fuel port)))
    pub enabled :
        (i : ℕ) → i < 8 → is_used i ≡ true → t.w.prop s'.fdt (node i) (codes "status") ≡ some okay
    pub others :
        (n : t.w.Node) (v : List ℕ)
        → ((i : ℕ) → i < 8 → is_used i ≡ true → n ≢ node i)
        → t.w.prop s.fdt n (codes "status") ≡ some v
        → t.w.prop s'.fdt n (codes "status") ≡ some v
    pub kept :
        (n : t.w.Node) (k v : List ℕ)
        → IsForeign k
        → IsUnnamed k
        → t.w.prop s.fdt n k ≡ some v
        → t.w.prop s'.fdt n k ≡ some v

  -- Without a custom tree, on an image that can be read, has fewer sections and entries than the
  -- fuel, names the machine and the debug port and says of each of the eight UARTs whether it is
  -- used, and of those that are used the type and the pins that this type needs; with room on the
  -- heap for what the image needs; on a device tree that has the root at offset 0, `/chosen` and
  -- for each UART that is used a node of its own that an alias leads to, when each `fdt_setprop`
  -- that is made for the root, the command line and the status of the UARTs has space, with
  -- whatever groups of pins are made in between, and the fuel covers the nodes: `main` decompiles
  -- the image, applies it and starts the kernel. The root then has the SoC's `compatible` and the
  -- machine's name as `model`, the arguments of the console are behind the command line, the UARTs
  -- that are used have the status "okay", every other node that had a status has it still, and so
  -- has every node each property of another name than these that begins with none of the letters a,
  -- l and p.
  pub boot_from_fex-Fitted :
      (compatible model : List ℕ) (port : ℕ) (gs : List Group) (s : Machine t.l)
      → c.custom_dtb ≡ false
      → ImageIn t.fuel m gs
      → FileSays model port is_used gs
      → 40 < s.store.heap_base
      → s.store.heap_base + script_size + 4 + groups_room gs ≤ 2 ^ 32
      → HasBoard s.fdt
      → FexFits t.l t.fuel is_used compatible model port s.fdt
      → Fitted compatible model port s (boot_from_fex t.l rounds t.fuel c m compatible s)
  unfolding start_kernel
  boot_from_fex-Fitted compatible model port gs s plain image file low room nodes fits =
      let d = image-Decompiled t.fuel m s.store gs image low room in
      let p = board_of t m s.store gs image d in
      let says = subst (λ (x : List Group). FileSays model port is_used x) (sym d.groups_eq) file in
      let (s0, here, entry) = said_port d.tree says in
      let uarts : UartsIn p is_used node apart 8 0 s.fdt = record {
        said = λ j lo hi. said-UartIn d.tree j (is_used j) (says.uarts j hi);
        nodes = λ j lo hi on. nodes.uarts j hi on;
      } in
      let r =
        fdt_fixup_from_fex-Translated p is_used node apart root chosen compatible model s0 port
          s.fdt (said-MachineIn d.tree says) here entry nodes.top nodes.command_line uarts fits in
      let s2 : Machine t.l = record { fdt = r.f'; store = record d.st' { heap_base = r.b' } } in
      record {
        j = (start_kernel c s2.store).0;
        s' = record s2 { store = (start_kernel c s2.store).1 };
        run = boot_from_fex_run t.l rounds t.fuel c m compatible s d.st' s2 plain d.run r.run;
        compatible_set = r.compatible_set;
        model_set = r.model_set;
        bootargs = r.bootargs;
        enabled = r.enabled;
        others = λ n v h e. r.others n v (λ i lo hi on. h i hi on) e;
        kept = r.kept;
      }

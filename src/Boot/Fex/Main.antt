-- ===== src/Boot/Fex/Main.antt =====
-- The whole of `main` of src/main.c with a FEX image.
use sunxi_babelfish.Common.{
  ℕ, sym, ◌+◌, ◌<◌, ◌≤◌, ◌^◌, ◌≡◌, ◌≢◌, ◌∙◌, refl, ap, Bool, true, false, List, Option, some,
  length, arith,
}
use mathlib.Core.Path.{subst}
use sunxi_babelfish.Common.Int.{pos}
use sunxi_babelfish.Console.{codes}
use sunxi_babelfish.Memory.{Memory}
use sunxi_babelfish.Malloc.{malloc}
use sunxi_babelfish.Bus.{Device, Trace}
use sunxi_babelfish.Libfdt.{Libfdt, c_string}
use sunxi_babelfish.Libfdt.Laws.{AliasAt, AliasAt-kept}
use sunxi_babelfish.Fixup.Uarts.Enable.Names.{alias-other}
use sunxi_babelfish.Fixup.Translation.{FexFits}
use sunxi_babelfish.Fixup.Fits.{TagsFit, after_tags}
use sunxi_babelfish.Script.Store.{Store, script_size}
use sunxi_babelfish.ScriptBin.Parse.{Group, groups_room}
use sunxi_babelfish.Soc.{match_soc}
use sunxi_babelfish.Soc.Laws.{
  Chip, Identifies, id_of, sid_field, after_id, compatible_of, blob_of, match_soc_found,
  match_soc-heap,
}
use sunxi_babelfish.FdtTools.Pins.Frame.{}
use sunxi_babelfish.Fixup.Machine.{Machine}
use sunxi_babelfish.Fixup.Bootargs.{joined_args}
use sunxi_babelfish.Fixup.Atags.{Tag, fdt_fixup_from_atags}
use sunxi_babelfish.Fixup.Effect.{IsElse, tags_effect, tags_heap, differ}
use sunxi_babelfish.Fixup.Tags.{boot_of, HasNodes, TagList, fdt_fixup_from_atags_lem}
use sunxi_babelfish.Fixup.Fex.{console_args}
use sunxi_babelfish.Fixup.Uarts.Enable.{alias, okay}
use sunxi_babelfish.Fixup.Said.{FileSays}
use sunxi_babelfish.Boot.{
  Config, End, Jump, jumped, greeting, say, boot_from_fex, boot_with_tree, open_tree, boot_soc,
  main,
}
use sunxi_babelfish.Boot.Start.{opened, detected}
use sunxi_babelfish.Boot.Fex.{ImageIn, Tools}
use sunxi_babelfish.Boot.Fex.Start.{HasBoard, boot_from_fex-Fitted}

module _ (l : Libfdt) (rounds fuel : ℕ) (c : Config) (m : Memory) where
  boot_with_tree_run :
      (compatible : List ℕ) (tags : ℕ) (s s1 s2 : Machine l) (j : Jump)
      → fdt_fixup_from_atags l rounds fuel m tags s ≡ some (pos 0, s1)
      → boot_from_fex l rounds fuel c m compatible s1 ≡ some (jumped j, s2)
      → boot_with_tree l rounds fuel c m compatible tags s ≡ some (jumped j, s2)
  unfolding boot_with_tree
  boot_with_tree_run compatible tags s s1 s2 j run fex = rw (run, fex) refl

  open_tree_run :
      (compatible : List ℕ) (blob tags : ℕ) (st : Store) (s1 s2 : Machine l) (j : Jump)
      → (opened l rounds fuel c m blob).0 ≡ pos 0
      → fdt_fixup_from_atags l rounds fuel m tags
          (record { fdt = (opened l rounds fuel c m blob).1; store = st })
        ≡ some (pos 0, s1)
      → boot_from_fex l rounds fuel c m compatible s1 ≡ some (jumped j, s2)
      → open_tree l rounds fuel c m compatible blob tags st ≡ some (jumped j, some s2.fdt, s2.store)
  unfolding open_tree
  open_tree_run compatible blob tags st s1 s2 j good run fex =
      rw
        (
          good,
          boot_with_tree_run compatible tags
              (record { fdt = (opened l rounds fuel c m blob).1; store = st }) s1 s2 j run fex,
        )
        refl

alias-IsElse : (j : ℕ) → IsElse (alias j)
alias-IsElse j = (
  alias-other j (codes "bootargs") (λ q. omega arith),
  alias-other j (codes "linux,initrd-start") (λ q. omega arith),
  alias-other j (codes "linux,initrd-end") (λ q. omega arith),
  alias-other j (codes "reg") (λ q. omega arith),
)

module _ (t : Tools) (rounds : ℕ) (c : Config) (m : Memory) (is_used : ℕ → Bool)
    (node : ℕ → t.w.Node) (apart : (i j : ℕ) → i ≢ j → node i ≢ node j)
    (root chosen memory : t.w.Node) (distinct : memory ≢ chosen) where
  abbrev tree_of : Chip → t.l.Fdt
  tree_of chip = (opened t.l rounds t.fuel c m (blob_of c.blobs chip)).1

  abbrev told : List Tag → t.l.Fdt → Option (List ℕ)
  told tags f = (tags_effect tags (boot_of t.l t.w chosen memory distinct f)).bootargs

  -- The nodes that the tags' and the image's settings go to.
  pub record HasAll (f : t.l.Fdt) : Type 0 where
    pub top : t.w.resolve f (codes "/") ≡ some root
    pub nodes : HasNodes t.l t.w chosen memory distinct f
    pub uarts : (j : ℕ) → j < 8 → is_used j ≡ true → AliasAt t.l t.w f (alias j) (node j)

  -- The kernel is started, with a tree that has the settings of the tags and of the image.
  pub record Ready (compatible model : List ℕ) (port : ℕ) (tags : List Tag) (f : t.l.Fdt)
      (r : Option (End × Option t.l.Fdt × Store)) : Type 0 where
    pub j : Jump
    pub f' : t.l.Fdt
    pub st' : Store
    pub run : r ≡ some (jumped j, some f', st')
    pub compatible_set : t.w.prop f' root (codes "compatible") ≡ some (c_string compatible)
    pub model_set : t.w.prop f' root (codes "model") ≡ some (c_string model)
    pub bootargs :
        t.w.prop f' chosen (codes "bootargs")
        ≡ some (c_string (joined_args (told tags f) (console_args t.l t.fuel port)))
    pub bank :
        (v : List ℕ)
        → (tags_effect tags (boot_of t.l t.w chosen memory distinct f)).memory ≡ some v
        → t.w.prop f' memory (codes "reg") ≡ some v
    pub enabled :
        (i : ℕ) → i < 8 → is_used i ≡ true → t.w.prop f' (node i) (codes "status") ≡ some okay
    pub others :
        (n : t.w.Node) (v : List ℕ)
        → ((i : ℕ) → i < 8 → is_used i ≡ true → n ≢ node i)
        → t.w.prop f n (codes "status") ≡ some v
        → t.w.prop f' n (codes "status") ≡ some v

  -- Where the heap's base is when the image is read.
  abbrev pub base_of : List Tag → Chip → Store → ℕ
  base_of tags chip st =
      tags_heap tags (boot_of t.l t.w chosen memory distinct (tree_of chip))
        (malloc 8 st.heap_base).1

  -- Without a custom tree, on a chip that is identified, when the heap is not at NULL, the blob
  -- opens, and its tree has the root, `/chosen` and another node `/memory`, and for each UART that
  -- is used a node of its own that an alias leads to; for every list of tags, with rounds for its
  -- length; for an image that can be read, has fewer sections and entries than the fuel, names the
  -- machine and the debug port and says of each of the eight UARTs whether it is used, and of those
  -- that are used the type and the pins that this type needs; with room on the heap for the image
  -- behind what the tags take, when each `fdt_setprop` that is made for the tags, the root, the
  -- command line and the status of the UARTs has space, with whatever groups of pins are made in
  -- between, and the fuel covers the nodes: `main` starts the kernel. Its tree has the chip's
  -- `compatible` and the machine's name as `model`, the tags' command line with the console's
  -- arguments behind it, the memory bank that the tags decide, and the status "okay" at the UARTs
  -- that are used; every other node that had a status has it still.
  pub main-Ready :
      (dev : Device) (tr : Trace) (st : Store) (chip : Chip) (at : ℕ) (tags : List Tag)
      (model : List ℕ) (port : ℕ) (gs : List Group)
      → c.custom_dtb ≡ false
      → 0 < st.heap_base
      → Identifies (id_of dev tr) (sid_field dev (after_id dev tr)) chip
      → (opened t.l rounds t.fuel c m (blob_of c.blobs chip)).0 ≡ pos 0
      → HasAll (tree_of chip)
      → TagList t.fuel m at tags
      → length tags < rounds
      → TagsFit t.l tags (tree_of chip)
      → FexFits t.l t.fuel is_used
          (compatible_of chip)
          model
          port
          (after_tags t.l tags (tree_of chip))
      → ImageIn t.fuel m gs
      → FileSays model port is_used gs
      → 40 < base_of tags chip st
      → base_of tags chip st + script_size + 4 + groups_room gs ≤ 2 ^ 32
      → Ready
          (compatible_of chip)
          model
          port
          tags
          (tree_of chip)
          (main t.l rounds t.fuel c m dev at tr st)
  unfolding main boot_soc
  main-Ready dev tr st chip at tags model port gs plain low known good all list enough tags_fit
        fex_fits image file above room =
      let st0 = say (greeting t.l rounds t.fuel c m) st in
      let found = match_soc_found dev c.blobs tr st0 low chip known in
      let st1 =
        detected t.l rounds t.fuel c m (compatible_of chip) (match_soc dev c.blobs tr st0).2 in
      let f = tree_of chip in
      let s : Machine t.l = record { fdt = f; store = st1 } in
      let d =
        fdt_fixup_from_atags_lem t.l t.w chosen memory distinct rounds list enough s all.nodes
          tags_fit in
      let b = boot_of t.l t.w chosen memory distinct f in
      let base : d.s'.store.heap_base ≡ base_of tags chip st =
        d.heap ∙ ap (tags_heap tags b) (match_soc-heap dev c.blobs tr st0 low chip known) in
      let board : HasBoard t rounds c m is_used node apart root chosen d.s'.fdt = record {
        top = t.frame.root_path d.s'.fdt root (d.paths (codes "/") refl ∙ all.top);
        command_line = d.paths (codes "/chosen") refl ∙ all.nodes.chosen;
        uarts = λ j hi on.
            AliasAt-kept t.l t.w (λ n v h. d.others n (alias j) (alias-IsElse j) ∙ h)
              (λ q n ab h. d.paths q ab ∙ h) (all.uarts j hi on);
      } in
      let r =
        boot_from_fex-Fitted t rounds c m is_used node apart root chosen (compatible_of chip) model
          port gs d.s' plain image file (omega (arith, base, above)) (omega (arith, base, room))
          board
          (subst (λ (g : t.l.Fdt). FexFits t.l t.fuel is_used (compatible_of chip) model port g)
            (sym d.blob) fex_fits) in
      let start =
        open_tree_run t.l rounds t.fuel c m (compatible_of chip) (blob_of c.blobs chip) at st1 d.s'
          r.s' r.j good d.run r.run in
      record {
        j = r.j;
        f' = r.s'.fdt;
        st' = r.s'.store;
        run = rw (found, main) start;
        compatible_set = r.compatible_set;
        model_set = r.model_set;
        bootargs =
            r.bootargs
            ∙ ap
                (λ (x : Option (List ℕ)).
                  some (c_string (joined_args x (console_args t.l t.fuel port))))
                (ap (λ x. x.bootargs) d.boot);
        bank = λ v h.
            r.kept memory (codes "reg") v (λ e. omega arith, λ e. omega arith, λ e. omega arith)
              (
                differ 0 (omega arith),
                differ 0 (omega arith),
                differ 0 (omega arith),
                differ 0 (omega arith),
              )
              (ap (λ x. x.memory) d.boot ∙ h);
        enabled = r.enabled;
        others = λ n v h e. r.others n v h (
            d.others n (codes "status") (
              differ 0 (omega arith),
              differ 0 (omega arith),
              differ 0 (omega arith),
              differ 0 (omega arith),
            )
            ∙ e);
      }

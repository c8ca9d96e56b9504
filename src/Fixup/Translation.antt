-- ===== src/Fixup/Translation.antt =====
-- The whole of `fdt_fixup_from_fex` of src/fixup.c.
use sunxi_babelfish.Common.{
  refl, ℕ, ◌<◌, ◌≡◌, ◌≢◌, ◌∙◌, inr, sym, Bool, true, List, Option, some, length, if◌then◌else◌,
  arith,
}
use mathlib.Core.Path.{subst}
use sunxi_babelfish.Common.Int.{ℤ, pos, is_zero}
use sunxi_babelfish.Console.{codes}
use sunxi_babelfish.Libfdt.{Libfdt, c_string}
use sunxi_babelfish.Libfdt.Laws.{}
use sunxi_babelfish.Script.Store.{single, string}
use sunxi_babelfish.Script.Tree.{Tree, Section, IsTree, IsShort}
use sunxi_babelfish.Script.Tree.Reading.{SectionIn, EntryIn, IsShort-at}
use sunxi_babelfish.FdtTools.Pins.Frame.{IsForeign}
use sunxi_babelfish.Fixup.Machine.{Machine, Step, pure, bind_run, c_text}
use sunxi_babelfish.Fixup.Bootargs.{joined_args}
use sunxi_babelfish.Libfdt.Laws.{AliasAt-kept}
use sunxi_babelfish.Fixup.Fits.{MachineFits, after_machine, ArgsFit, after_args}
use sunxi_babelfish.Fixup.Effect.{differ}
use sunxi_babelfish.Fixup.Fex.{console_args, fdt_fixup_machine, fdt_fixup_uarts, fdt_fixup_from_fex}
use sunxi_babelfish.Fixup.Model.{Names, fdt_fixup_machine-Named}
use sunxi_babelfish.Fixup.Uarts.Enable.{alias, Board, At, okay}
use sunxi_babelfish.Fixup.Uarts.Enable.Names.{alias-other}
use sunxi_babelfish.Fixup.Uarts.Enable.Fits.{UartsFit}
use sunxi_babelfish.Fixup.Uarts.Enable.Loop.{UartsIn, IsOther}
use sunxi_babelfish.Fixup.Uarts.Console.{fdt_fixup_uarts-Configured}

-- The FEX file's tree names the machine.
pub record MachineIn (ss : Tree) (model : List ℕ) : Type 0 where
  pub product : Section
  pub size : ℕ
  pub text : List ℕ
  pub section : SectionIn ss (codes "product") product
  pub entry : EntryIn product (codes "machine") (string size text)
  pub reads : c_text text ≡ model

-- A property with none of the names that are set here.
abbrev pub IsUnnamed : List ℕ → Type 0
IsUnnamed k =
    (k ≢ codes "status") × (k ≢ codes "bootargs") × (k ≢ codes "compatible") × (k ≢ codes "model")

-- The calls of `fdt_setprop` of `fdt_fixup_from_fex` fit, one after another.
pub record FexFits (l : Libfdt) (fuel : ℕ) (is_used : ℕ → Bool) (compatible model : List ℕ)
    (port : ℕ) (f : l.Fdt) : Type 0 where
  pub machine : MachineFits l f compatible model
  pub console : ArgsFit l (after_machine l f compatible model) (console_args l fuel port)
  pub uarts :
      UartsFit l fuel is_used 8 0
        (after_args l (after_machine l f compatible model) (console_args l fuel port))

machine-Names :
    (p : Board) (model : List ℕ) → MachineIn p.ss model → Names p.fuel p.script p.st model
machine-Names p model n = record {
  before = n.section.before;
  product = n.product;
  after = n.section.after;
  tree = subst (λ (ss : Tree). IsTree p.st p.script ss) n.section.here p.tree;
  first_section = n.section.first;
  section_named = n.section.named;
  sections_short = subst (λ (ss : Tree). length ss < p.fuel) n.section.here p.fewer;
  entries_before = n.entry.before;
  machine = n.entry.entry;
  entries_after = n.entry.after;
  entries = n.entry.here;
  first_entry = n.entry.first;
  entry_named = n.entry.named;
  entries_short =
      IsShort-at p.fuel n.section.before n.product n.section.after
        (subst (λ (ss : Tree). IsShort p.fuel ss) n.section.here p.short);
  size = n.size;
  text = n.text;
  is_string = n.entry.holds;
  reads = n.reads;
}

module _ (p : Board) (is_used : ℕ → Bool) (node : ℕ → p.w.Node)
    (apart : (i j : ℕ) → i ≢ j → node i ≢ node j) (root c : p.w.Node) where
  -- The board has its names, the console's arguments are behind the command line that there was, and
  -- the UARTs that are used are enabled, those and no others.
  pub record Translated (compatible model : List ℕ) (port : ℕ) (f : p.l.Fdt)
      (r : Option (ℤ × Machine p.l)) : Type 0 where
    pub f' : p.l.Fdt
    pub b' : ℕ
    pub run : r ≡ some (pos 0, At p f' b')
    pub compatible_set : p.w.prop f' root (codes "compatible") ≡ some (c_string compatible)
    pub model_set : p.w.prop f' root (codes "model") ≡ some (c_string model)
    pub bootargs :
        p.w.prop f' c (codes "bootargs")
        ≡ some (
            c_string (joined_args (p.w.prop f c (codes "bootargs")) (console_args p.l p.fuel port)))
    pub enabled :
        (j : ℕ) → j < 8 → is_used j ≡ true → p.w.prop f' (node j) (codes "status") ≡ some okay
    pub others :
        (m : p.w.Node) (v : List ℕ)
        → IsOther p is_used node apart 8 0 m
        → p.w.prop f m (codes "status") ≡ some v
        → p.w.prop f' m (codes "status") ≡ some v
    pub kept :
        (m : p.w.Node) (k v : List ℕ)
        → IsForeign k
        → IsUnnamed k
        → p.w.prop f m k ≡ some v
        → p.w.prop f' m k ≡ some v

  -- On a FEX file that names the machine and the debug port and says of each of the eight UARTs
  -- whether it is used, and of those that are used the type and the pins that this type needs; on a
  -- device tree that has the root at offset 0, `/chosen` and for each UART that is used a node of
  -- its own that an alias leads to, when each `fdt_setprop` that is made for the root, the command
  -- line and the status of the UARTs has space, with whatever groups of pins are made in between,
  -- and the fuel covers the nodes and the file's lists: `fdt_fixup_from_fex` returns 0, the root
  -- has the SoC's `compatible` and the machine's name as `model`, the arguments of the console are
  -- behind the command line, the UARTs that are used have the status "okay", every other node that
  -- had a status has it still, and so has every node each property of another name than these that
  -- begins with none of the letters a, l and p.
  pub fdt_fixup_from_fex-Translated :
      (compatible model : List ℕ) (s0 : Section) (port : ℕ) (f : p.l.Fdt)
      → MachineIn p.ss model
      → SectionIn p.ss (codes "uart_para") s0
      → EntryIn s0 (codes "uart_debug_port") (single port)
      → p.w.node_at f 0 ≡ some root
      → p.w.resolve f (codes "/chosen") ≡ some c
      → UartsIn p is_used node apart 8 0 f
      → FexFits p.l p.fuel is_used compatible model port f
      → Translated compatible model port f
          (fdt_fixup_from_fex p.l p.fuel compatible p.script (At p f p.st.heap_base))
  unfolding fdt_fixup_from_fex
  fdt_fixup_from_fex-Translated compatible model s0 port f names here entry top chosen uarts fits =
      let s : Machine p.l = At p f p.st.heap_base in
      let n =
        fdt_fixup_machine-Named p.l p.w root p.fuel compatible p.script model s
          (machine-Names p model names) top fits.machine in
      let f1 = n.s'.fdt in
      let args = console_args p.l p.fuel port in
      let s1 : Machine p.l = At p f1 p.st.heap_base in
      let same : n.s' ≡ s1 = λ i. record { fdt = f1; store = n.store i } in
      let kept_uarts : UartsIn p is_used node apart 8 0 f1 = record {
        said = uarts.said;
        nodes = λ j lo hi on.
            AliasAt-kept p.l p.w
              (λ m v h.
                n.others m (alias j) (
                  inr (
                    alias-other j (codes "compatible") (λ q. omega arith),
                    alias-other j (codes "model") (λ q. omega arith),
                  ))
                ∙ h)
              (λ q m ab h. n.paths q ab ∙ h) (uarts.nodes j lo hi on);
      } in
      let next : ℤ → Step p.l ℤ =
        λ ret. if is_zero ret then fdt_fixup_uarts p.l p.fuel p.script else pure ret in
      let r =
        fdt_fixup_uarts-Configured p is_used node apart c s0 port f1 p.st.heap_base here entry
          (n.paths (codes "/chosen") refl ∙ chosen) kept_uarts
          (subst (λ (g : p.l.Fdt). ArgsFit p.l g args) (sym n.blob) fits.console)
          (subst (λ (g : p.l.Fdt). UartsFit p.l p.fuel is_used 8 0 (after_args p.l g args))
            (sym n.blob) fits.uarts) in
      let before : p.w.prop f1 c (codes "bootargs") ≡ p.w.prop f c (codes "bootargs") =
        n.others c (codes "bootargs") (inr (differ 0 (omega arith), differ 0 (omega arith))) in
      record {
        f' = r.f';
        b' = r.b';
        run =
            bind_run (fdt_fixup_machine p.l p.fuel compatible p.script) next {s = s} n.run
            ∙ subst (λ (x : Machine p.l). next (pos 0) x ≡ some (pos 0, At p r.f' r.b')) (sym same)
                r.run;
        compatible_set =
            r.kept root (codes "compatible") (c_string compatible)
              (λ e. omega arith, λ e. omega arith, λ e. omega arith) (differ 0 (omega arith))
              (differ 0 (omega arith)) n.compatible_set;
        model_set =
            r.kept root (codes "model") (c_string model)
              (λ e. omega arith, λ e. omega arith, λ e. omega arith) (differ 0 (omega arith))
              (differ 0 (omega arith)) n.model_set;
        bootargs =
            subst
              (λ (x : Option (List ℕ)).
                p.w.prop r.f' c (codes "bootargs")
                ≡ some (c_string (joined_args x (console_args p.l p.fuel port))))
              before r.bootargs;
        enabled = r.enabled;
        others = λ m v d h. r.others m v d (
            n.others m (codes "status") (inr (differ 0 (omega arith), differ 0 (omega arith))) ∙ h);
        kept = λ m k v own d h. r.kept m k v own d.0 d.1 (n.others m k (inr (d.2, d.3)) ∙ h);
      }

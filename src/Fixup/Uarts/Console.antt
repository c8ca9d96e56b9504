-- ===== src/Fixup/Uarts/Console.antt =====
-- The whole of `fdt_fixup_uarts` of src/fixup.c.
use sunxi_babelfish.Common.{
  ℕ, ◌<◌, ◌≡◌, ◌≢◌, ◌∙◌, inl, inr, refl, sym, Bool, true, List, Option, some, arith,
}
use mathlib.Core.Path.{subst}
use sunxi_babelfish.Common.Int.{ℤ, pos}
use sunxi_babelfish.Console.{codes}
use sunxi_babelfish.Libfdt.{c_string}
use sunxi_babelfish.Script.Store.{single}
use sunxi_babelfish.Script.Tree.{Section}
use sunxi_babelfish.Script.Tree.Reading.{SectionIn, EntryIn}
use sunxi_babelfish.FdtTools.Pins.Frame.{IsForeign}
use sunxi_babelfish.Fixup.Machine.{
  Machine, Step, ◌>>=◌, ◌>>◌, bind_run, two_steps, find_section, find_entry, read_entry, value_of,
}
use sunxi_babelfish.Fixup.Bootargs.{joined_args, fdt_fixup_append_bootargs}
use sunxi_babelfish.Libfdt.Laws.{AliasAt-kept}
use sunxi_babelfish.Fixup.Fits.{ArgsFit, after_args}
use sunxi_babelfish.Fixup.Effect.{append_bootargs-Appended, differ}
use sunxi_babelfish.Fixup.Fex.{uart_loop, console_args, max_uarts, fdt_fixup_uarts}
use sunxi_babelfish.Fixup.Uarts.{finds_section, reads_entry}
use sunxi_babelfish.Fixup.Uarts.Enable.{alias, Board, At, okay, status-IsForeign}
use sunxi_babelfish.Fixup.Uarts.Enable.Names.{alias-other}
use sunxi_babelfish.Fixup.Uarts.Enable.Fits.{UartsFit}
use sunxi_babelfish.Fixup.Uarts.Enable.Loop.{UartsIn, IsOther, Looped, uart_loop-Looped}

bootargs-IsForeign : IsForeign (codes "bootargs")
bootargs-IsForeign = (λ e. omega arith, λ e. omega arith, λ e. omega arith)

module _ (p : Board) (is_used : ℕ → Bool) (node : ℕ → p.w.Node)
    (apart : (i j : ℕ) → i ≢ j → node i ≢ node j) (c : p.w.Node) where
  -- The console's arguments are behind the command line that there was, the UARTs that are used are
  -- enabled, and every other `status` that there was is as it was.
  pub record Configured (port : ℕ) (f : p.l.Fdt) (r : Option (ℤ × Machine p.l)) : Type 0 where
    pub f' : p.l.Fdt
    pub b' : ℕ
    pub run : r ≡ some (pos 0, At p f' b')
    pub bootargs :
        p.w.prop f' c (codes "bootargs")
        ≡ some (
            c_string (joined_args (p.w.prop f c (codes "bootargs")) (console_args p.l p.fuel port)))
    pub enabled :
        (j : ℕ) → j < 8 → is_used j ≡ true → p.w.prop f' (node j) (codes "status") ≡ some okay
    pub others :
        (m : p.w.Node) (v : List ℕ)
        → IsOther p is_used node apart 8 0 m
        → p.w.prop f m (codes "status") ≡ some v
        → p.w.prop f' m (codes "status") ≡ some v
    pub kept :
        (m : p.w.Node) (j v : List ℕ)
        → IsForeign j
        → j ≢ codes "status"
        → j ≢ codes "bootargs"
        → p.w.prop f m j ≡ some v
        → p.w.prop f' m j ≡ some v

  abbrev loop : Step p.l ℤ
  loop = uart_loop p.l p.fuel (max_uarts p.l p.fuel) 0 p.script

  -- The loop from the machine that the command line has left.
  loop_from :
      (s : Machine p.l) (f1 : p.l.Fdt) (b1 : ℕ)
      → s ≡ At p f1 b1
      → UartsIn p is_used node apart 8 0 f1
      → UartsFit p.l p.fuel is_used 8 0 f1
      → Looped p is_used node apart 8 0 f1 (loop s)
  loop_from s f1 b1 e u fit =
      subst (λ (x : Machine p.l). Looped p is_used node apart 8 0 f1 (loop x)) (sym e)
        (uart_loop-Looped p is_used node apart 8 0 f1 b1 u fit (omega arith))

  -- On a FEX file that names the debug port and says of each of the eight UARTs whether it is used,
  -- and of those that are used the type and the pins that this type needs; on a device tree that
  -- has `/chosen` and for each UART that is used a node of its own that an alias leads to, when
  -- each `fdt_setprop` for the command line and the status has space, with whatever groups of pins
  -- are made in between, and the fuel covers the nodes and the file's lists: `fdt_fixup_uarts`
  -- returns 0, the arguments of the console on the debug port are behind the command line, the
  -- UARTs that are used have the status "okay", every other node that had a status has it still,
  -- and so has every node each property of another name that begins with none of the letters a, l
  -- and p.
  pub fdt_fixup_uarts-Configured :
      (s0 : Section) (port : ℕ) (f : p.l.Fdt) (b : ℕ)
      → SectionIn p.ss (codes "uart_para") s0
      → EntryIn s0 (codes "uart_debug_port") (single port)
      → p.w.resolve f (codes "/chosen") ≡ some c
      → UartsIn p is_used node apart 8 0 f
      → ArgsFit p.l f (console_args p.l p.fuel port)
      → UartsFit p.l p.fuel is_used 8 0 (after_args p.l f (console_args p.l p.fuel port))
      → Configured port f (fdt_fixup_uarts p.l p.fuel p.script (At p f b))
  unfolding fdt_fixup_uarts
  fdt_fixup_uarts-Configured s0 port f b here entry chosen uarts args_fit uarts_fit =
      let a =
        append_bootargs-Appended p.l p.w (At p f b) c (console_args p.l p.fuel port) chosen
          args_fit in
      let f1 = a.s'.fdt in
      let same : a.s' ≡ At p f1 a.heap_base = λ i. record { fdt = f1; store = a.store i } in
      let kept_uarts : UartsIn p is_used node apart 8 0 f1 = record {
        said = uarts.said;
        nodes = λ j lo hi on.
            AliasAt-kept p.l p.w
              (λ m v h.
                a.others m (alias j) (inr (alias-other j (codes "bootargs") (λ q. omega arith)))
                ∙ h)
              (λ q m ab h. a.paths q ab ∙ h) (uarts.nodes j lo hi on);
      } in
      let r =
        loop_from a.s' f1 a.heap_base same kept_uarts
          (subst (λ (g : p.l.Fdt). UartsFit p.l p.fuel is_used 8 0 g) (sym a.blob) uarts_fit) in
      let set : ℕ → Step p.l ℤ =
        λ v. fdt_fixup_append_bootargs p.l (console_args p.l p.fuel v) >> loop in
      let read : ℕ → Step p.l ℤ =
        λ x. find_entry p.fuel x (codes "uart_debug_port") >>= λ e. read_entry value_of e >>= set in
      record {
        f' = r.f';
        b' = r.b';
        run =
            bind_run (find_section p.fuel p.script (codes "uart_para")) read {s = At p f b}
              (finds_section p.l p.fuel p.script p.st p.ss p.tree p.short p.fewer f b here)
            ∙ two_steps (find_entry p.fuel s0.addr (codes "uart_debug_port")) (read_entry value_of)
                set (At p f b)
                (reads_entry p.l p.fuel p.script p.st p.ss p.tree p.short p.fewer value_of f b here
                  entry refl)
            ∙ bind_run (fdt_fixup_append_bootargs p.l (console_args p.l p.fuel port)) (λ _. loop)
                {s = At p f b} a.run
            ∙ r.run;
        bootargs =
            r.others c (codes "bootargs") _ bootargs-IsForeign (inr (differ 0 (omega arith)))
              a.self;
        enabled = λ j hi on. r.enabled j (omega arith) (omega arith) on;
        others = λ m v d h.
            r.others m (codes "status") v status-IsForeign (inl d)
              (a.others m (codes "status") (inr (differ 0 (omega arith))) ∙ h);
        kept = λ m j v own d e h. r.others m j v own (inr d) (a.others m j (inr e) ∙ h);
      }

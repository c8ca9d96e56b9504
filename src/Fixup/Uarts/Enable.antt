-- ===== src/Fixup/Uarts/Enable.antt =====
-- What `fdt_fixup_uarts` of src/fixup.c does for a UART that is used.

pub mod Names
pub mod Fits
pub mod Loop
use sunxi_babelfish.Common.{
  ℕ, ◌+◌, ◌*◌, ◌<◌, ◌≤◌, ◌≡◌, ◌≢◌, ◌∙◌, ◌⊎◌, refl, ap, List, Option, some, none, ◌==◌,
  if◌then◌else◌, length, arith,
}
use sunxi_babelfish.Common.Int.{ℤ, pos, is_zero}
use sunxi_babelfish.Console.{codes}
use sunxi_babelfish.Malloc.{malloc}
use sunxi_babelfish.Libfdt.{Libfdt, c_string, setprop_string}
use sunxi_babelfish.Libfdt.Laws.{FdtView, IsAbsolute, HasNoSlash, AliasAt}
use sunxi_babelfish.Script.Store.{Store, single}
use sunxi_babelfish.Script.Tree.{Tree, Section, IsTree, IsShort}
use sunxi_babelfish.Script.Tree.Reading.{SectionIn, EntryIn}
use sunxi_babelfish.FdtTools.Pins.{Gpio, add_char, fdt_add_pinctrl_group}
use sunxi_babelfish.FdtTools.Pins.Frame.{FdtFrame, HasNoUnit, IsForeign, Keeps, Keeps-refl}
use sunxi_babelfish.FdtTools.Pins.Group.{Covers, fdt_add_pinctrl_group-Ended}
use sunxi_babelfish.Fixup.Machine.{
  Machine, Step, pure, ◌>>=◌, ◌>>◌, bind_run, two_steps, attempt, attempt_run, take_block,
  find_entry, read_entry, value_of,
}
use sunxi_babelfish.Fixup.Effect.{set_at, LeadsTo}
use sunxi_babelfish.Fixup.Fits.{SetFits, after_set}
use mathlib.Core.Path.{subst}
use sunxi_babelfish.Fixup.Fex.{pinctrl_path, uart_pins, add_group, enable_uart}
use sunxi_babelfish.Fixup.Uarts.{PinsIn, AtMostEight, at_heap, reads_entry, pins-Gives}

abbrev pub alias : ℕ → List ℕ
alias i = add_char (codes "serial") (b'0' + i)

abbrev pub okay : List ℕ
okay = c_string (codes "okay")

pub status-IsForeign : IsForeign (codes "status")
status-IsForeign = (λ e. omega arith, λ e. omega arith, λ e. omega arith)

-- The parts that all UARTs share: libfdt with its laws, and the FEX file's tree.
pub record Board : Type 1 where
  pub l : Libfdt
  pub w : FdtView l
  pub frame : FdtFrame l w
  pub fuel : ℕ
  pub covers : Covers l fuel
  pub script : ℕ
  pub st : Store
  pub ss : Tree
  pub tree : IsTree st script ss
  pub short : IsShort fuel ss
  pub fewer : length ss < fuel

-- What the groups of a UART's pins leave: the blob as it was, or what `fdt_add_pinctrl_group` leaves
-- for eight pins at most.
pub data Grouped (l : Libfdt) (fuel : ℕ) (parent device : List ℕ) (f : l.Fdt) : l.Fdt → Type 0 where
  no_group : Grouped l fuel parent device f f
  grouped :
      (pins : List Gpio) (ret : ℤ) (f' : l.Fdt)
      → length pins ≤ 8
      → fdt_add_pinctrl_group l fuel f pinctrl_path parent pins device ≡ some (ret, f')
      → Grouped l fuel parent device f f'

module _ (p : Board) where
  abbrev pub At : p.l.Fdt → ℕ → Machine p.l
  At f b = at_heap p.l p.fuel p.script p.st p.ss p.tree p.short p.fewer f b

  -- A step has returned 0, with a blob that keeps what is not the pins'.
  record Kept (parent device : List ℕ) (f : p.l.Fdt) (b : ℕ) (r : Option (ℤ × Machine p.l))
      : Type 0 where
    f' : p.l.Fdt
    run : r ≡ some (pos 0, At f' b)
    kept : Keeps p.l p.w p.frame f f'
    group_is : Grouped p.l p.fuel parent device f f'

  add_group-Kept :
      (f : p.l.Fdt) (b : ℕ) (parent device : List ℕ) (pins : Option (List Gpio))
      → HasNoUnit device
      → AtMostEight pins
      → Kept parent device f b (add_group p.l p.fuel parent device pins (At f b))
  unfolding add_group
  add_group-Kept f b parent device none bare few = record {
    f' = f;
    run = refl;
    kept = Keeps-refl p.l p.w p.frame f;
    group_is = no_group;
  }
  add_group-Kept f b parent device (some gs) bare few =
      let e =
        fdt_add_pinctrl_group-Ended p.l p.w p.frame p.fuel p.covers f pinctrl_path parent gs device
          bare in
      let add : p.l.Fdt → Option (ℤ × p.l.Fdt) =
        λ h. fdt_add_pinctrl_group p.l p.fuel h pinctrl_path parent gs device in
      record {
        f' = e.f';
        run =
            bind_run (attempt add) (λ _. pure (pos 0)) {s = At f b}
              (attempt_run add (At f b) e.run);
        kept = e.kept;
        group_is = grouped gs e.val e.f' few e.run;
      }

  -- The UART whose node is `n` is enabled, and every other property that there was and that is not
  -- the pins' is as it was.
  pub record Enabled (idx : ℕ) (n : p.w.Node) (f : p.l.Fdt) (r : Option (ℤ × Machine p.l))
      : Type 0 where
    pub f' : p.l.Fdt
    pub b' : ℕ
    pub run : r ≡ some (pos 0, At f' b')
    pub status : p.w.prop f' n (codes "status") ≡ some okay
    pub others :
        (m : p.w.Node) (j v : List ℕ)
        → IsForeign j
        → (m ≢ n) ⊎ (j ≢ codes "status")
        → p.w.prop f m j ≡ some v
        → p.w.prop f' m j ≡ some v
    pub paths :
        (q : List ℕ) (m : p.w.Node)
        → IsAbsolute q
        → p.w.resolve f q ≡ some m
        → p.w.resolve f' q ≡ some m
    pub group_is :
        Grouped p.l p.fuel
          (add_char (codes "serial") idx)
          (add_char (codes "uart") idx)
          (after_set p.l f (add_char (codes "serial") idx) (codes "status") okay)
          f'

  module _ {section : List ℕ} {s : Section} (i : SectionIn p.ss section s) (type idx : ℕ)
      (typed : EntryIn s (codes "uart_type") (single type)) (has : PinsIn s type)
      (bare : HasNoUnit (add_char (codes "uart") idx)) where
    abbrev parent : List ℕ
    parent = add_char (codes "serial") idx

    abbrev device : List ℕ
    device = add_char (codes "uart") idx

    abbrev group : Option (List Gpio) → Step p.l ℤ
    group = add_group p.l p.fuel parent device

    abbrev with_type : ℕ → Step p.l ℤ
    with_type t = take_block (t * 16) >> (uart_pins p.l p.fuel t s.addr >>= group)

    -- The second half, from the type on.
    rest-Kept :
        (f : p.l.Fdt) (b : ℕ)
        → Kept parent device f (malloc (type * 16) b).1 (
            (find_entry p.fuel s.addr (codes "uart_type") >>= λ e.
            read_entry value_of e >>= with_type)
              (At f b))
    rest-Kept f b =
        let b1 = (malloc (type * 16) b).1 in
        let look =
          reads_entry p.l p.fuel p.script p.st p.ss p.tree p.short p.fewer value_of f b i typed
            refl in
        let pins =
          pins-Gives p.l p.fuel p.script p.st p.ss p.tree p.short p.fewer i f b1 type has in
        let g = add_group-Kept f b1 parent device pins.0 bare pins.2 in
        record {
          f' = g.f';
          run =
              two_steps (find_entry p.fuel s.addr (codes "uart_type")) (read_entry value_of)
                with_type (At f b) look
              ∙ bind_run (uart_pins p.l p.fuel type s.addr) group {s = At f b1} pins.1
              ∙ g.run;
          kept = g.kept;
          group_is = g.group_is;
        }

    pub enable_uart-Enabled :
        (n : p.w.Node) (f : p.l.Fdt) (b : ℕ)
        → LeadsTo p.l p.w f parent n
        → SetFits p.l f parent (codes "status") okay
        → Enabled idx n f (enable_uart p.l p.fuel s.addr idx (At f b))
    unfolding enable_uart setprop_string
    enable_uart-Enabled n f b h fits =
        let a = set_at p.l p.w f parent n (codes "status") okay h fits in
        let f1 = (p.l.setprop f (pos a.o) (codes "status") okay).1 in
        let r = rest-Kept f1 b in
        record {
          f' = r.f';
          b' = (malloc (type * 16) b).1;
          run = rw (a.offset, a.good) r.run;
          status = r.kept.props n (codes "status") okay status-IsForeign a.set.self;
          others = λ m j v own d e. r.kept.props m j v own (a.set.others m j d ∙ e);
          paths = λ q m ab e. r.kept.paths q m ab (a.set.paths q ab ∙ e);
          group_is =
              subst (λ (g : p.l.Fdt). Grouped p.l p.fuel parent device g r.f') a.blob r.group_is;
        }

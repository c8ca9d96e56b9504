-- ===== src/Fixup/Uarts/Enable/Loop.antt =====
-- The loop of `fdt_fixup_uarts` of src/fixup.c over the UARTs.
use sunxi_babelfish.Common.{
  ℕ, zero, suc, ◌+◌, ◌<◌, ◌≤◌, ◌≡◌, ◌≢◌, ◌⊎◌, ◌∙◌, inl, inr, refl, sym, ap, Bool, true, false, List,
  Option, some, ◌==◌, if◌then◌else◌, arith, Bool-cases,
}
use mathlib.Core.Path.{}
use sunxi_babelfish.Common.Int.{ℤ, pos, is_zero}
use sunxi_babelfish.Console.{codes}
use sunxi_babelfish.Script.Store.{single}
use sunxi_babelfish.Script.Tree.{Section}
use sunxi_babelfish.Script.Tree.Reading.{SectionIn, EntryIn}
use sunxi_babelfish.FdtTools.Pins.Frame.{IsForeign}
use sunxi_babelfish.FdtTools.Pins.{add_char}
use sunxi_babelfish.Libfdt.{}
use sunxi_babelfish.Libfdt.Laws.{IsAbsolute, AliasAt, AliasAt-kept}
use sunxi_babelfish.Fixup.Effect.{LeadsTo}
use sunxi_babelfish.Fixup.Fits.{SetFits, after_set}
use sunxi_babelfish.Fixup.Machine.{
  Machine, Step, pure, ◌>>=◌, bind_run, two_steps, find_section, find_entry, read_entry, value_of,
}
use sunxi_babelfish.Fixup.Fex.{enable_uart, uart_loop}
use sunxi_babelfish.Fixup.Uarts.{UartIn, unused, used, para, finds_section, reads_entry}
use sunxi_babelfish.Fixup.Uarts.Enable.{
  Grouped, Board, At, alias, okay, status-IsForeign, enable_uart-Enabled,
}
use sunxi_babelfish.Fixup.Uarts.Enable.Names.{
  alias-IsForeign, alias-status, alias-HasNoSlash, uart-HasNoUnit,
}
use sunxi_babelfish.Fixup.Uarts.Enable.Fits.{UartsFit, skip, set}

split_le : (i j : ℕ) → i ≤ j → (i ≡ j) ⊎ (suc i ≤ j)
split_le i j h = elim (Bool-cases (i == j)) [
  | inl e ↦ inl (ground arith)
  | inr e ↦ inr (ground arith)
]

true-false : true ≢ false
true-false h = cc

module _ (p : Board) (is_used : ℕ → Bool) (node : ℕ → p.w.Node)
    (apart : (i j : ℕ) → i ≢ j → node i ≢ node j) where
  -- What the FEX file says of `k` UARTs from `i` on; those that are used have nodes.
  pub record UartsIn (k i : ℕ) (f : p.l.Fdt) : Type 0 where
    pub said : (j : ℕ) → i ≤ j → j < i + k → UartIn p.ss j (is_used j)
    pub nodes :
        (j : ℕ) → i ≤ j → j < i + k → is_used j ≡ true → AliasAt p.l p.w f (alias j) (node j)

  -- The node is of none of these UARTs that are used.
  abbrev pub IsOther : (k i : ℕ) → p.w.Node → Type 0
  IsOther k i m = (j : ℕ) → i ≤ j → j < i + k → is_used j ≡ true → m ≢ node j

  -- Those that are used are enabled, and nothing else has changed that is not the pins'.
  pub record Looped (k i : ℕ) (f : p.l.Fdt) (r : Option (ℤ × Machine p.l)) : Type 0 where
    pub f' : p.l.Fdt
    pub b' : ℕ
    pub run : r ≡ some (pos 0, At p f' b')
    pub enabled :
        (j : ℕ)
        → i ≤ j
        → j < i + k
        → is_used j ≡ true
        → p.w.prop f' (node j) (codes "status") ≡ some okay
    pub others :
        (m : p.w.Node) (j v : List ℕ)
        → IsForeign j
        → IsOther k i m ⊎ (j ≢ codes "status")
        → p.w.prop f m j ≡ some v
        → p.w.prop f' m j ≡ some v

  abbrev rest : (k i : ℕ) → Step p.l ℤ
  rest k i = uart_loop p.l p.fuel k (suc i) p.script

  abbrev enable_then : (k i section : ℕ) → Step p.l ℤ
  enable_then k i section = enable_uart p.l p.fuel section (b'0' + i) >>= λ ret.
      if is_zero ret then rest k i else pure ret

  abbrev decide : (k i section : ℕ) → ℕ → Step p.l ℤ
  decide k i section v = if v == 1 then enable_then k i section else rest k i

  -- A round up to the decision.
  round_reads :
      {s : Section} {v : ℕ} (k i : ℕ) (f : p.l.Fdt) (b : ℕ)
      → SectionIn p.ss (para i) s
      → EntryIn s (codes "uart_used") (single v)
      → uart_loop p.l p.fuel (suc k) i p.script (At p f b) ≡ decide k i s.addr v (At p f b)
  unfolding uart_loop
  round_reads {s = s} {v = v} k i f b here e =
      let read : ℕ → Step p.l ℤ = λ a.
        find_entry p.fuel a (codes "uart_used") >>= λ x. read_entry value_of x >>= decide k i a in
      bind_run (find_section p.fuel p.script (para i)) read {s = At p f b}
        (finds_section p.l p.fuel p.script p.st p.ss p.tree p.short p.fewer f b here)
      ∙ two_steps (find_entry p.fuel s.addr (codes "uart_used")) (read_entry value_of)
          (decide k i s.addr) (At p f b)
          (reads_entry p.l p.fuel p.script p.st p.ss p.tree p.short p.fewer value_of f b here e
            refl)

  later :
      (k i : ℕ) (f g : p.l.Fdt)
      → ((m : p.w.Node) (j v : List ℕ)
          → IsForeign j
          → j ≢ codes "status"
          → p.w.prop f m j ≡ some v
          → p.w.prop g m j ≡ some v)
      → ((q : List ℕ) (m : p.w.Node)
          → IsAbsolute q
          → p.w.resolve f q ≡ some m
          → p.w.resolve g q ≡ some m)
      → UartsIn (suc k) i f
      → UartsIn k (suc i) g
  later k i f g props paths u = record {
    said = λ j lo hi. u.said j (omega arith) (omega arith);
    nodes = λ j lo hi e.
        AliasAt-kept p.l p.w (λ m v. props m (alias j) v (alias-IsForeign j) (alias-status j)) paths
          (u.nodes j (omega arith) (omega arith) e);
  }

  narrow :
      (k i : ℕ) (m : p.w.Node) (j : List ℕ)
      → IsOther (suc k) i m ⊎ (j ≢ codes "status")
      → IsOther k (suc i) m ⊎ (j ≢ codes "status")
  narrow k i m j (inl d) = inl (λ x lo hi on. d x (omega arith) (omega arith) on)
  narrow k i m j (inr d) = inr d

  this_one :
      (k i : ℕ) (m : p.w.Node) (j : List ℕ)
      → is_used i ≡ true
      → IsOther (suc k) i m ⊎ (j ≢ codes "status")
      → (m ≢ node i) ⊎ (j ≢ codes "status")
  this_one k i m j on (inl d) = inl (d i (omega arith) (omega arith) on)
  this_one k i m j on (inr d) = inr d

  -- What is left of the calls that fit.
  skipped :
      (k i : ℕ) (f : p.l.Fdt)
      → is_used i ≡ false
      → UartsFit p.l p.fuel is_used (suc k) i f
      → UartsFit p.l p.fuel is_used k (suc i) f
  skipped k i f off (skip e rest) = rest
  skipped k i f off (set on fits rest) = absurd (true-false (sym on ∙ off))

  fits_now :
      (k i : ℕ) (f : p.l.Fdt)
      → is_used i ≡ true
      → UartsFit p.l p.fuel is_used (suc k) i f
      → SetFits p.l f (alias i) (codes "status") okay
        × ((f' : p.l.Fdt)
            → Grouped p.l p.fuel
                (alias i)
                (add_char (codes "uart") (b'0' + i))
                (after_set p.l f (alias i) (codes "status") okay)
                f'
            → UartsFit p.l p.fuel is_used k (suc i) f')
  fits_now k i f on (skip off rest) = absurd (true-false (sym on ∙ off))
  fits_now k i f on (set e fits rest) = (fits, rest)

  alias_leads :
      (i : ℕ) (f : p.l.Fdt) (n : p.w.Node)
      → i < 8
      → AliasAt p.l p.w f (alias i) n
      → LeadsTo p.l p.w f (alias i) n
  alias_leads i f n low a =
      p.w.path_alias f (alias i) a.path a.holder n (alias-HasNoSlash i low) a.aliases a.value
        a.absolute a.node

  round_Looped :
      (k i : ℕ) (u : Bool) (f : p.l.Fdt) (b : ℕ)
      → is_used i ≡ u
      → UartIn p.ss i u
      → UartsIn (suc k) i f
      → UartsFit p.l p.fuel is_used (suc k) i f
      → i < 8
      → ((g : p.l.Fdt) (c : ℕ)
          → UartsIn k (suc i) g
          → UartsFit p.l p.fuel is_used k (suc i) g
          → Looped k (suc i) g (rest k i (At p g c)))
      → Looped (suc k) i f (uart_loop p.l p.fuel (suc k) i p.script (At p f b))
  round_Looped k i u f b e (unused s v here entry off) all fit low next =
      let r =
        next f b (later k i f f (λ m j v own d h. h) (λ q m ab h. h) all) (skipped k i f e fit) in
      record {
        f' = r.f';
        b' = r.b';
        run = round_reads k i f b here entry ∙ rw off r.run;
        enabled = λ j lo hi on. elim (split_le i j lo) [
          | inl same ↦ absurd (true-false (sym on ∙ ap is_used (sym same) ∙ e))
          | inr more ↦ r.enabled j more (omega arith) on
        ];
        others = λ m j v own d h. r.others m j v own (narrow k i m j d) h;
      }
  round_Looped k i u f b e (used s type here entry typed pins) all fit low next =
      let here_node = all.nodes i (omega arith) (omega arith) e in
      let (set_fits, more) = fits_now k i f e fit in
      let a =
        enable_uart-Enabled p here type (b'0' + i) typed pins (uart-HasNoUnit i low) (node i) f b
          (alias_leads i f (node i) low here_node) set_fits in
      let r =
        next a.f' a.b'
          (later k i f a.f' (λ m j v own d h. a.others m j v own (inr d) h) a.paths all)
          (more a.f' a.group_is) in
      record {
        f' = r.f';
        b' = r.b';
        run =
            round_reads k i f b here entry
            ∙ bind_run (enable_uart p.l p.fuel s.addr (b'0' + i))
                (λ ret. if is_zero ret then rest k i else pure ret) {s = At p f b} a.run
            ∙ r.run;
        enabled = λ j lo hi on. elim (split_le i j lo) [
          | inl same ↦
              ap (λ x. p.w.prop r.f' (node x) (codes "status")) (sym same)
              ∙ r.others (node i) (codes "status") okay status-IsForeign
                  (inl (λ x low high _. apart i x (λ q. omega arith))) a.status
          | inr more ↦ r.enabled j more (omega arith) on
        ];
        others = λ m j v own d h.
            r.others m j v own (narrow k i m j d) (a.others m j v own (this_one k i m j e d) h);
      }

  pub uart_loop-Looped :
      (k i : ℕ) (f : p.l.Fdt) (b : ℕ)
      → UartsIn k i f
      → UartsFit p.l p.fuel is_used k i f
      → i + k ≤ 8
      → Looped k i f (uart_loop p.l p.fuel k i p.script (At p f b))
  unfolding uart_loop
  uart_loop-Looped zero i f b all fit low = record {
    f' = f;
    b' = b;
    run = refl;
    enabled = λ j lo hi on. absurd (omega arith);
    others = λ m j v own d h. h;
  }
  uart_loop-Looped (suc k) i f b all fit low =
      round_Looped k i (is_used i) f b refl (all.said i (omega arith) (omega arith)) all fit
        (omega arith)
        (λ g c later_all later_fit.
          uart_loop-Looped k (suc i) g c later_all later_fit (omega arith))

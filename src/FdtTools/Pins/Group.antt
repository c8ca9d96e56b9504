-- ===== src/FdtTools/Pins/Group.antt =====
-- The loop of `fdt_add_pinctrl_group` of src/fdt_tools.c, round by round.
use sunxi_babelfish.Common.{
  ℕ, ◌+◌, ◌≡◌, inl, inr, refl, List, [], ◌∷◌, Option, some, ◌>>=◌, ◌==◌, if◌then◌else◌, Bool-cases,
}
use sunxi_babelfish.Common.Int.{ℤ, pos, is_neg}
use sunxi_babelfish.Console.{codes}
use sunxi_babelfish.Libfdt.{Libfdt, cell, c_string, setprop_u32, setprop_string, appendprop_string}
use sunxi_babelfish.Libfdt.Laws.{FdtView}
use sunxi_babelfish.FdtTools.{fdt_alloc_phandle, fdt_set_phandle, fdt_create_phandle}
use sunxi_babelfish.FdtTools.Pins.{
  Gpio, add_char, group_name, pin_name, Flow, return, next, new_group, pin_round, pin_loop,
  fdt_add_pinctrl_group, known_drive, known_pull,
}
use sunxi_babelfish.FdtTools.Pins.Frame.{
  FdtFrame, HasNoUnit, allwinner-IsOwn, pins-IsOwn, add_char-first, Keeps, Keeps-refl, Keeps-trans,
  setprop-Keeps, appendprop-Keeps, add_subnode-Keeps, set_phandle-Keeps, Ended,
}
use sunxi_babelfish.FdtTools.Pins.Unit.{group_name-HasNoUnit}

-- The fuel covers the nodes of every blob.
pub record Covers (l : Libfdt) (fuel : ℕ) : Type 0 where
  pub ends : (f : l.Fdt) → (p : ℕ) × (fdt_alloc_phandle l fuel f ≡ some p)

module _ (l : Libfdt) (w : FdtView l) (frame : FdtFrame l w) (fuel : ℕ)
    (covers : Covers l fuel) where
  abbrev Keep : l.Fdt → l.Fdt → Type 0
  Keep = Keeps l w frame

  -- A step that gives the new blob alone.
  record Left (f : l.Fdt) (r : Option l.Fdt) : Type 0 where
    f' : l.Fdt
    run : r ≡ some f'
    kept : Keeps l w frame f f'

  create_phandle-Ended : (f : l.Fdt) (o : ℤ) → Ended l w frame f (fdt_create_phandle l fuel f o)
  unfolding fdt_create_phandle
  create_phandle-Ended f o =
      let old = l.get_phandle f o in
      elim (Bool-cases (old == 0)) [
        | inl e ↦
            let (p, run) = covers.ends f in
            let r = fdt_set_phandle l f o p in
            record {
              val = if is_neg r.0 then 0 else p;
              f' = r.1;
              run = rw (e, run) refl;
              kept = set_phandle-Keeps l w frame f o p;
            }
        | inr e ↦ record { val = old; f' = f; run = rw e refl; kept = Keeps-refl l w frame f }
      ]

  new_group-Left :
      (f : l.Fdt) (o : ℤ) (parent device : List ℕ) (ngroup : ℕ) (g : Gpio)
      → Left f (new_group l fuel f o parent device ngroup g)
  unfolding new_group setprop_u32 setprop_string appendprop_string
  new_group-Left f o parent device ngroup g =
      let drive = cell (known_drive g.drive) in
      let pull = cell (known_pull g.pull) in
      let name = c_string device in
      let f1 = (l.setprop f o (codes "allwinner,drive") drive).1 in
      let f2 = (l.setprop f1 o (codes "allwinner,pull") pull).1 in
      let f3 = (l.setprop f2 o (codes "allwinner,function") name).1 in
      let f4 =
        (l.appendprop f3 (l.path_offset f3 parent) (codes "pinctrl-names")
          (c_string (codes "default"))).1 in
      let a1 =
        setprop-Keeps l w frame f o (codes "allwinner,drive") drive
          (allwinner-IsOwn (codes "allwinner,drive") refl) in
      let a2 =
        setprop-Keeps l w frame f1 o (codes "allwinner,pull") pull
          (allwinner-IsOwn (codes "allwinner,pull") refl) in
      let a3 =
        setprop-Keeps l w frame f2 o (codes "allwinner,function") name
          (allwinner-IsOwn (codes "allwinner,function") refl) in
      let a4 =
        appendprop-Keeps l w frame f3 (l.path_offset f3 parent) (codes "pinctrl-names")
          (c_string (codes "default")) (pins-IsOwn (codes "pinctrl-names") refl) in
      let e = create_phandle-Ended f4 o in
      let k = add_char (codes "pinctrl-") (b'0' + ngroup) in
      let at = l.path_offset e.f' parent in
      let a5 =
        setprop-Keeps l w frame e.f' at k (cell e.val)
          (pins-IsOwn k (add_char-first b'p' (codes "inctrl-") (b'0' + ngroup))) in
      record {
        f' = (l.setprop e.f' at k (cell e.val)).1;
        run = rw e.run refl;
        kept = Keeps-trans l w frame a1 (
            Keeps-trans l w frame a2 (
              Keeps-trans l w frame a3
                (Keeps-trans l w frame a4 (Keeps-trans l w frame e.kept a5))));
      }

  -- What a round leaves.
  abbrev blob_of : Flow l → l.Fdt
  blob_of (return ret f) = f
  blob_of (next n f) = f

  record Round (f : l.Fdt) (r : Option (Flow l)) : Type 0 where
    flow : Flow l
    run : r ≡ some flow
    kept : Keeps l w frame f (blob_of flow)

  pin_round-Round :
      (pctrl : ℤ) (parent device : List ℕ) (g : Gpio) (n : ℕ) (f : l.Fdt)
      → HasNoUnit device
      → Round f (pin_round l fuel pctrl parent device g n f)
  unfolding pin_round appendprop_string
  pin_round-Round pctrl parent device g n f bare =
      let name = group_name device g in
      let old = l.subnode_offset f pctrl name in
      let new = l.add_subnode f pctrl name in
      let pin = c_string (pin_name g) in
      let added = add_subnode-Keeps l w frame f pctrl name (group_name-HasNoUnit device g bare) in
      let pins : (h : l.Fdt) (o : ℤ) → Keep h (l.appendprop h o (codes "allwinner,pins") pin).1 =
        λ h o.
          appendprop-Keeps l w frame h o (codes "allwinner,pins") pin
            (allwinner-IsOwn (codes "allwinner,pins") refl) in
      elim (Bool-cases (is_neg old)) [
        | inl absent ↦ elim (Bool-cases (is_neg new.0)) [
          | inl failed ↦ record {
            flow = return new.0 new.1;
            run = rw (absent, failed) refl;
            kept = added;
          }
          | inr made ↦
              let group = new_group-Left new.1 new.0 parent device n g in
              record {
                flow = next (n + 1) (l.appendprop group.f' new.0 (codes "allwinner,pins") pin).1;
                run = rw (absent, made, group.run) refl;
                kept =
                    Keeps-trans l w frame added
                      (Keeps-trans l w frame group.kept (pins group.f' new.0));
              }
        ]
        | inr found ↦ record {
          flow = next n (l.appendprop f old (codes "allwinner,pins") pin).1;
          run = rw found refl;
          kept = pins f old;
        }
      ]

  -- The rest of the loop after a round.
  go_on :
      (pctrl : ℤ) (parent device : List ℕ) (gs : List Gpio) (f : l.Fdt) (flow : Flow l)
      (o : Option (Flow l))
      → o ≡ some flow
      → Keep f (blob_of flow)
      → ((k : ℕ) (h : l.Fdt) → Ended l w frame h (pin_loop l fuel pctrl parent device gs k h))
      → Ended l w frame f (
          o >>= λ flow. elim flow [
            | return ret f1 ↦ some (ret, f1)
            | next k f1 ↦ pin_loop l fuel pctrl parent device gs k f1
          ])
  go_on pctrl parent device gs f (return ret f1) o run kept rest = record {
    val = ret;
    f' = f1;
    run = rw run refl;
    kept = kept;
  }
  go_on pctrl parent device gs f (next k f1) o run kept rest =
      let r = rest k f1 in
      record {
        val = r.val;
        f' = r.f';
        run = rw run r.run;
        kept = Keeps-trans l w frame kept r.kept;
      }

  pin_loop-Ended :
      (pctrl : ℤ) (parent device : List ℕ) (gs : List Gpio) (n : ℕ) (f : l.Fdt)
      → HasNoUnit device
      → Ended l w frame f (pin_loop l fuel pctrl parent device gs n f)
  unfolding pin_loop
  pin_loop-Ended pctrl parent device [] n f bare = record {
    val = pos 0;
    f' = f;
    run = refl;
    kept = Keeps-refl l w frame f;
  }
  pin_loop-Ended pctrl parent device (g ∷ gs) n f bare =
      let r = pin_round-Round pctrl parent device g n f bare in
      go_on pctrl parent device gs f r.flow (pin_round l fuel pctrl parent device g n f) r.run
        r.kept (λ k h. pin_loop-Ended pctrl parent device gs k h bare)

  -- For a device whose name has no unit address, `fdt_add_pinctrl_group` ends, with whatever result, and
  -- keeps the properties that it does not set and the absolute paths.
  pub fdt_add_pinctrl_group-Ended :
      (f : l.Fdt) (pinctrl parent : List ℕ) (gs : List Gpio) (device : List ℕ)
      → HasNoUnit device
      → Ended l w frame f (fdt_add_pinctrl_group l fuel f pinctrl parent gs device)
  unfolding fdt_add_pinctrl_group
  fdt_add_pinctrl_group-Ended f pinctrl parent gs device bare =
      let pctrl = l.path_offset f pinctrl in
      elim (Bool-cases (is_neg pctrl)) [
        | inl e ↦ record { val = pctrl; f' = f; run = rw e refl; kept = Keeps-refl l w frame f }
        | inr e ↦
            let r = pin_loop-Ended pctrl parent device gs 0 f bare in
            record { val = r.val; f' = r.f'; run = rw e r.run; kept = r.kept }
      ]

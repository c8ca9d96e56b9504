-- ===== src/Fixup/Tags/Each.antt =====
-- What one tag does in `fdt_fixup_from_atags` of src/fixup.c.
use mathlib.Core.Path.{}
use sunxi_babelfish.Common.{
  ℕ, ◌+◌, ◌%◌, ◌^◌, ◌≡◌, ◌≢◌, ◌⊎◌, inl, inr, ◌∙◌, sym, ap, refl, List, ◌++◌, Option, some, ◌==◌,
  arith, Bool-cases,
}
use sunxi_babelfish.Common.Int.{ℤ, pos}
use sunxi_babelfish.Console.{codes}
use sunxi_babelfish.Memory.{}
use sunxi_babelfish.ScriptBin.Image.{}
use sunxi_babelfish.Libfdt.{Libfdt, cell, setprop_u32}
use sunxi_babelfish.Libfdt.Laws.{FdtView, IsAbsolute}
use sunxi_babelfish.Fixup.Machine.{Machine, pure, bind_run}
use sunxi_babelfish.Fixup.Bootargs.{fdt_fixup_append_bootargs}
use sunxi_babelfish.Fixup.Atags.{Tag, cmdline, mem, initrd2, other, apply_tag}
use sunxi_babelfish.Fixup.Fits.{SetFits, TagFits, after_tag}
use sunxi_babelfish.Fixup.Effect.{
  Boot, IsElse, tag_effect, tag_heap, set_at, setprop-Sets, append_bootargs-Appended, differ,
}

Boot-eq :
    {a b : Boot}
    → a.bootargs ≡ b.bootargs
    → a.initrd_start ≡ b.initrd_start
    → a.initrd_end ≡ b.initrd_end
    → a.memory ≡ b.memory
    → a ≡ b
Boot-eq p q r s i = record { bootargs = p i; initrd_start = q i; initrd_end = r i; memory = s i }

module _ (l : Libfdt) (w : FdtView l) (c k : w.Node) (apart : k ≢ c) where
  open w use {Node, resolve, prop}

  abbrev pub boot_of : l.Fdt → Boot
  boot_of f = record {
    bootargs = prop f c (codes "bootargs");
    initrd_start = prop f c (codes "linux,initrd-start");
    initrd_end = prop f c (codes "linux,initrd-end");
    memory = prop f k (codes "reg");
  }

  -- `/chosen` and `/memory` are there.
  pub record HasNodes (f : l.Fdt) : Type 0 where
    pub chosen : resolve f (codes "/chosen") ≡ some c
    pub memory : resolve f (codes "/memory") ≡ some k

  HasNodes-transfer :
      {f f' : l.Fdt}
      → ((p : List ℕ) → IsAbsolute p → resolve f' p ≡ resolve f p)
      → HasNodes f
      → HasNodes f'
  HasNodes-transfer e h = record {
    chosen = e (codes "/chosen") refl ∙ h.chosen;
    memory = e (codes "/memory") refl ∙ h.memory;
  }

  pub record Applied (t : Tag) (s : Machine l) (r : Option (Unit {0} × Machine l)) : Type 0 where
    pub s' : Machine l
    pub run : r ≡ some (tt, s')
    pub nodes : HasNodes s'.fdt
    pub boot : boot_of s'.fdt ≡ tag_effect t (boot_of s.fdt)
    pub paths : (p : List ℕ) → IsAbsolute p → resolve s'.fdt p ≡ resolve s.fdt p
    pub blob : s'.fdt ≡ after_tag l t s.fdt
    pub others : (n : Node) (j : List ℕ) → IsElse j → prop s'.fdt n j ≡ prop s.fdt n j
    pub heap : s'.store.heap_base ≡ tag_heap t (boot_of s.fdt) s.store.heap_base

  cmdline-Applied :
      (text : List ℕ) (s : Machine l)
      → HasNodes s.fdt
      → TagFits l (cmdline text) s.fdt
      → Applied (cmdline text) s (apply_tag l (cmdline text) s)
  unfolding apply_tag tag_effect tag_heap
  cmdline-Applied text s h fits =
      let a = append_bootargs-Appended l w s c text h.chosen fits in
      record {
        s' = a.s';
        run = bind_run (fdt_fixup_append_bootargs l text) (λ _. pure tt) {s = s} a.run;
        nodes = HasNodes-transfer a.paths h;
        boot =
            Boot-eq a.self (a.others c (codes "linux,initrd-start") (inr (differ 0 (omega arith))))
              (a.others c (codes "linux,initrd-end") (inr (differ 0 (omega arith))))
              (a.others k (codes "reg") (inl apart));
        paths = a.paths;
        others = λ n j d. a.others n j (inr d.0);
        heap = a.heap;
        blob = a.blob;
      }

  mem-Applied :
      (size start : ℕ) (s : Machine l)
      → HasNodes s.fdt
      → TagFits l (mem size start) s.fdt
      → Applied (mem size start) s (apply_tag l (mem size start) s)
  unfolding apply_tag tag_effect tag_heap
  mem-Applied size start s h fits = elim (Bool-cases (size == 0)) [
    | inl e ↦ record {
      s' = s;
      run = rw e refl;
      nodes = h;
      boot = rw e refl;
      paths = λ p ab. refl;
      others = λ n j d. refl;
      heap = refl;
      blob = rw e refl;
    }
    | inr e ↦
        let fits_now : SetFits l s.fdt (codes "/memory") (codes "reg") (cell start ++ cell size) =
          elim fits [ inl empty ↦ absurd (ground (arith, e, empty)) | inr fit ↦ fit ] in
        let a =
          set_at l w s.fdt (codes "/memory") k (codes "reg") (cell start ++ cell size)
            (w.path_some s.fdt (codes "/memory") k refl h.memory) fits_now in
        let from_chosen : (j : List ℕ)
            → prop (l.setprop s.fdt (pos a.o) (codes "reg") (cell start ++ cell size)).1 c j
              ≡ prop s.fdt c j =
          λ j. a.set.others c j (inl (λ q. apart (sym q))) in
        record {
          s' = record s {
            fdt = (l.setprop s.fdt (pos a.o) (codes "reg") (cell start ++ cell size)).1;
          };
          run = rw (e, a.offset) refl;
          nodes = HasNodes-transfer a.set.paths h;
          boot = rw e (
              Boot-eq (from_chosen (codes "bootargs")) (from_chosen (codes "linux,initrd-start"))
                (from_chosen (codes "linux,initrd-end")) a.set.self);
          paths = a.set.paths;
          others = λ n j d. a.set.others n j (inr d.3);
          heap = refl;
          blob = rw e a.blob;
        }
  ]

  initrd2-Applied :
      (start size : ℕ) (s : Machine l)
      → HasNodes s.fdt
      → TagFits l (initrd2 start size) s.fdt
      → Applied (initrd2 start size) s (apply_tag l (initrd2 start size) s)
  unfolding apply_tag tag_effect tag_heap setprop_u32
  initrd2-Applied start size s h fits =
      let last = (start + size) % 2 ^ 32 in
      let a =
        set_at l w s.fdt (codes "/chosen") c (codes "linux,initrd-start") (cell start)
          (w.path_some s.fdt (codes "/chosen") c refl h.chosen) fits.0 in
      let ends : ℤ → ℤ × l.Fdt = λ x.
        l.setprop (l.setprop s.fdt x (codes "linux,initrd-start") (cell start)).1 x
          (codes "linux,initrd-end") (cell last) in
      let f = (l.setprop s.fdt (pos a.o) (codes "linux,initrd-start") (cell start)).1 in
      let b =
        setprop-Sets l w f a.o c (codes "linux,initrd-end") (cell last) a.set.stays
          (ap (λ x. (ends x).0) (sym a.offset) ∙ fits.1) in
      let f' = (l.setprop f (pos a.o) (codes "linux,initrd-end") (cell last)).1 in
      let kept : (m : Node) (j : List ℕ)
          → (m ≢ c) ⊎ (j ≢ codes "linux,initrd-start")
          → (m ≢ c) ⊎ (j ≢ codes "linux,initrd-end")
          → prop f' m j ≡ prop s.fdt m j =
        λ m j p q. b.others m j q ∙ a.set.others m j p in
      record {
        s' = record s { fdt = f' };
        run = rw a.offset refl;
        nodes = HasNodes-transfer (λ p ab. b.paths p ab ∙ a.set.paths p ab) h;
        boot =
            Boot-eq
              (kept c (codes "bootargs") (inr (differ 0 (omega arith)))
                (inr (differ 0 (omega arith))))
              (b.others c (codes "linux,initrd-start") (inr (differ 13 (omega arith))) ∙ a.set.self)
              b.self (kept k (codes "reg") (inl apart) (inl apart));
        paths = λ p ab. b.paths p ab ∙ a.set.paths p ab;
        others = λ n j d. kept n j (inr d.1) (inr d.2);
        heap = refl;
        blob = ap (λ x. (ends x).1) (sym a.offset);
      }

  other-Applied : (s : Machine l) → HasNodes s.fdt → Applied other s (apply_tag l other s)
  unfolding apply_tag tag_effect tag_heap
  other-Applied s h = record {
    s' = s;
    run = refl;
    nodes = h;
    boot = refl;
    paths = λ p ab. refl;
    others = λ n j d. refl;
    heap = refl;
    blob = refl;
  }

  pub tag-Applied :
      (t : Tag) (s : Machine l) → HasNodes s.fdt → TagFits l t s.fdt → Applied t s (apply_tag l t s)
  tag-Applied (cmdline text) s h fits = cmdline-Applied text s h fits
  tag-Applied (mem size start) s h fits = mem-Applied size start s h fits
  tag-Applied (initrd2 start size) s h fits = initrd2-Applied start size s h fits
  tag-Applied other s h fits = other-Applied s h

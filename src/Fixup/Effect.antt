-- ===== src/Fixup/Effect.antt =====
-- What `fdt_fixup_from_atags` does to the properties of `/chosen` and `/memory`.
use mathlib.Core.Path.{subst}
use sunxi_babelfish.Common.{
  ℕ, ◌+◌, ◌%◌, ◌^◌, ◌≡◌, ◌≢◌, ◌⊎◌, refl, ap, sym, ◌∙◌, get_or, List, [], ◌∷◌, ◌++◌, Option, some,
  ◌==◌, if◌then◌else◌,
}
use sunxi_babelfish.Common.Int.{ℤ, pos}
use sunxi_babelfish.Console.{codes}
use sunxi_babelfish.Memory.{}
use sunxi_babelfish.Malloc.{malloc}
use sunxi_babelfish.Libfdt.{Libfdt, cell, c_string, setprop_string}
use sunxi_babelfish.Libfdt.Laws.{FdtView, IsAbsolute}
use sunxi_babelfish.Script.Store.{allocate}
use sunxi_babelfish.Fixup.Machine.{Machine}
use sunxi_babelfish.Fixup.Bootargs.{joined_args, args_size, fdt_fixup_append_bootargs}
use sunxi_babelfish.Fixup.Fits.{SetFits, after_set, args_of, ArgsFit, after_args}
use sunxi_babelfish.Fixup.Atags.{Tag, cmdline, mem, initrd2, other}

-- The properties that the tags decide.
pub record Boot : Type 0 where
  pub bootargs : Option (List ℕ)
  pub initrd_start : Option (List ℕ)
  pub initrd_end : Option (List ℕ)
  pub memory : Option (List ℕ)

-- The reference: a command line is appended, a bank of memory or a ramdisk replaces what was there,
-- and an empty bank is ignored.
unfoldable pub tag_effect : Tag → Boot → Boot
tag_effect (cmdline text) b = record b { bootargs = some (c_string (joined_args b.bootargs text)) }
tag_effect (mem size start) b =
    if size == 0 then b else record b { memory = some (cell start ++ cell size) }
tag_effect (initrd2 start size) b = record b {
  initrd_start = some (cell start);
  initrd_end = some (cell ((start + size) % 2 ^ 32));
}
tag_effect other b = b

unfoldable pub tags_effect : List Tag → Boot → Boot
tags_effect [] b = b
tags_effect (t ∷ ts) b = tags_effect ts (tag_effect t b)

-- Where the heap's base is after the tags: each command line takes a block.
unfoldable pub tag_heap : Tag → Boot → ℕ → ℕ
tag_heap (cmdline text) b base = (malloc (args_size b.bootargs text) base).1
tag_heap (mem size start) b base = base
tag_heap (initrd2 start size) b base = base
tag_heap other b base = base

unfoldable pub tags_heap : List Tag → Boot → ℕ → ℕ
tags_heap [] b base = base
tags_heap (t ∷ ts) b base = tags_heap ts (tag_effect t b) (tag_heap t b base)

-- A property that no tag decides.
abbrev pub IsElse : List ℕ → Type 0
IsElse j =
    (j ≢ codes "bootargs")
    × (j ≢ codes "linux,initrd-start")
    × (j ≢ codes "linux,initrd-end")
    × (j ≢ codes "reg")

-- Two names that differ in one place.
pub differ : (i : ℕ) {a b : List ℕ} → get_or a i 0 ≢ get_or b i 0 → a ≢ b
differ i h e = h (ap (λ x. get_or x i 0) e)

module _ (l : Libfdt) (w : FdtView l) where
  open w use {Node, node_at, resolve, prop}

  -- Setting a property of a node at an offset that is known.
  pub record Sets (f f' : l.Fdt) (o : ℕ) (n : Node) (k v : List ℕ) : Type 0 where
    pub self : prop f' n k ≡ some v
    pub others : (m : Node) (j : List ℕ) → (m ≢ n) ⊎ (j ≢ k) → prop f' m j ≡ prop f m j
    pub paths : (p : List ℕ) → IsAbsolute p → resolve f' p ≡ resolve f p
    pub stays : node_at f' o ≡ some n

  pub setprop-Sets :
      (f : l.Fdt) (o : ℕ) (n : Node) (k v : List ℕ)
      → node_at f o ≡ some n
      → (l.setprop f (pos o) k v).0 ≡ pos 0
      → Sets f (l.setprop f (pos o) k v).1 o n k v
  setprop-Sets f o n k v h good = record {
    self = w.setprop_self f o n k v h good;
    others = λ m j d. w.setprop_other f o n m k j v h good d;
    paths = λ p a. w.setprop_resolve f o n k v p a h good;
    stays = w.setprop_stays f o n k v h good;
  }

  -- `fdt_path_offset` gives the node's offset.
  abbrev pub LeadsTo : l.Fdt → List ℕ → Node → Type 0
  LeadsTo f p n = (o : ℕ) × (l.path_offset f p ≡ pos o) × (node_at f o ≡ some n)

  -- A call of `setprop` on the node of a path.
  pub record SetAt (f : l.Fdt) (p : List ℕ) (n : Node) (k v : List ℕ) : Type 0 where
    pub o : ℕ
    pub offset : l.path_offset f p ≡ pos o
    pub good : (l.setprop f (pos o) k v).0 ≡ pos 0
    pub here : node_at f o ≡ some n
    pub set : Sets f (l.setprop f (pos o) k v).1 o n k v
    pub blob : (l.setprop f (pos o) k v).1 ≡ after_set l f p k v

  pub set_at :
      (f : l.Fdt) (p : List ℕ) (n : Node) (k v : List ℕ)
      → LeadsTo f p n
      → SetFits l f p k v
      → SetAt f p n k v
  set_at f p n k v (o, offset, here) fits =
      let good : (l.setprop f (pos o) k v).0 ≡ pos 0 =
        ap (λ x. (l.setprop f x k v).0) (sym offset) ∙ fits in
      record {
        o = o;
        offset = offset;
        good = good;
        here = here;
        set = setprop-Sets f o n k v here good;
        blob = ap (λ x. (l.setprop f x k v).1) (sym offset);
      }

  -- The command line is appended to what `/chosen` has, and nothing else of the tree changes.
  pub record Appended (s : Machine l) (n : Node) (text : List ℕ) (r : Option (ℤ × Machine l))
      : Type 0 where
    pub s' : Machine l
    pub run : r ≡ some (pos 0, s')
    pub self :
        prop s'.fdt n (codes "bootargs")
        ≡ some (c_string (joined_args (prop s.fdt n (codes "bootargs")) text))
    pub others :
        (m : Node) (j : List ℕ)
        → (m ≢ n) ⊎ (j ≢ codes "bootargs")
        → prop s'.fdt m j ≡ prop s.fdt m j
    pub paths : (p : List ℕ) → IsAbsolute p → resolve s'.fdt p ≡ resolve s.fdt p
    pub blob : s'.fdt ≡ after_args l s.fdt text
    pub heap_base : ℕ
    pub store : s'.store ≡ record s.store { heap_base = heap_base }
    pub heap :
        s'.store.heap_base
        ≡ (malloc (args_size (prop s.fdt n (codes "bootargs")) text) s.store.heap_base).1

  pub append_bootargs-Appended :
      (s : Machine l) (n : Node) (text : List ℕ)
      → resolve s.fdt (codes "/chosen") ≡ some n
      → ArgsFit l s.fdt text
      → Appended s n text (fdt_fixup_append_bootargs l text s)
  unfolding fdt_fixup_append_bootargs setprop_string
  append_bootargs-Appended s n text h fits =
      let k = codes "bootargs" in
      let v = c_string (joined_args (prop s.fdt n k) text) in
      let (o, offset, here) = w.path_some s.fdt (codes "/chosen") n refl h in
      let got : l.getprop s.fdt (l.path_offset s.fdt (codes "/chosen")) k ≡ prop s.fdt n k =
        ap (λ x. l.getprop s.fdt x k) offset ∙ w.getprop_at s.fdt o n k here in
      let same : args_of l s.fdt text ≡ v = ap (λ x. c_string (joined_args x text)) got in
      let a =
        set_at s.fdt (codes "/chosen") n k v (o, offset, here)
          (subst (λ (x : List ℕ). SetFits l s.fdt (codes "/chosen") k x) same fits) in
      record {
        s' = record {
          fdt = (l.setprop s.fdt (pos a.o) k v).1;
          store = (allocate (args_size (prop s.fdt n k) text) s.store).1;
        };
        run = rw (a.offset, w.getprop_at s.fdt a.o n k a.here, a.good) refl;
        self = a.set.self;
        others = a.set.others;
        paths = a.set.paths;
        blob = a.blob ∙ ap (after_set l s.fdt (codes "/chosen") k) (sym same);
        heap_base = (allocate (args_size (prop s.fdt n k) text) s.store).1.heap_base;
        store = refl;
        heap = refl;
      }

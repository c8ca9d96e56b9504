-- ===== src/Fixup/Tags.antt =====
-- `fdt_fixup_from_atags` of src/fixup.c on a whole list of tags.
pub mod Each
use mathlib.Core.Path.{subst}
use sunxi_babelfish.Common.{
  ℕ, zero, suc, ◌+◌, ◌%◌, ◌^◌, ◌<◌, ◌≡◌, ◌≢◌, ◌⊎◌, inl, inr, ◌∙◌, ap, sym, refl, false, List, [],
  ◌∷◌, ◌++◌, Option, some, ◌==◌, arith, Bool-cases, length,
}
use sunxi_babelfish.Common.Int.{ℤ, pos}
use sunxi_babelfish.Console.{codes}
use sunxi_babelfish.Memory.{Memory}
use sunxi_babelfish.ScriptBin.Image.{word}
use sunxi_babelfish.Libfdt.{Libfdt, cell, setprop_u32}
use sunxi_babelfish.Libfdt.Laws.{FdtView, IsAbsolute}
use sunxi_babelfish.Fixup.Machine.{Machine, pure, bind_run}
use sunxi_babelfish.Fixup.Bootargs.{fdt_fixup_append_bootargs}
use sunxi_babelfish.Fixup.Atags.{
  Tag, cmdline, mem, initrd2, other, apply_tag, tag_at, tag_next, atags_loop, fdt_fixup_from_atags,
}
use sunxi_babelfish.Fixup.Fits.{TagsFit, after_tags}
use sunxi_babelfish.Fixup.Effect.{
  Boot, IsElse, tag_effect, tags_effect, tag_heap, tags_heap, set_at, setprop-Sets,
  append_bootargs-Appended, differ,
}
pub use sunxi_babelfish.Fixup.Tags.Each.{boot_of, HasNodes}
use sunxi_babelfish.Fixup.Tags.Each.{tag-Applied}

-- The list of tags at `t`, which a tag of size 0 ends.
pub data TagList (fuel : ℕ) (m : Memory) : ℕ → List Tag → Type 0 where
  last : {t : ℕ} → word m t ≡ 0 → TagList fuel m t []
  next :
      {t : ℕ} {tag : Tag} {tags : List Tag}
      → (word m t == 0) ≡ false
      → tag_at fuel m t ≡ some tag
      → TagList fuel m (tag_next m t) tags
      → TagList fuel m t (tag ∷ tags)

module _ (l : Libfdt) (w : FdtView l) (c k : w.Node) (apart : k ≢ c) where
  -- The tree after the tags.
  pub record Decided (tags : List Tag) (s : Machine l) (r : Option (ℤ × Machine l)) : Type 0 where
    pub s' : Machine l
    pub run : r ≡ some (pos 0, s')
    pub boot : boot_of l w c k apart s'.fdt ≡ tags_effect tags (boot_of l w c k apart s.fdt)
    pub paths : (p : List ℕ) → IsAbsolute p → w.resolve s'.fdt p ≡ w.resolve s.fdt p
    pub blob : s'.fdt ≡ after_tags l tags s.fdt
    pub others : (n : w.Node) (j : List ℕ) → IsElse j → w.prop s'.fdt n j ≡ w.prop s.fdt n j
    pub heap : s'.store.heap_base ≡ tags_heap tags (boot_of l w c k apart s.fdt) s.store.heap_base

  record Looped (tags : List Tag) (s : Machine l) (r : Option (Unit {0} × Machine l)) : Type 0 where
    s' : Machine l
    run : r ≡ some (tt, s')
    boot : boot_of l w c k apart s'.fdt ≡ tags_effect tags (boot_of l w c k apart s.fdt)
    paths : (p : List ℕ) → IsAbsolute p → w.resolve s'.fdt p ≡ w.resolve s.fdt p
    blob : s'.fdt ≡ after_tags l tags s.fdt
    others : (n : w.Node) (j : List ℕ) → IsElse j → w.prop s'.fdt n j ≡ w.prop s.fdt n j
    heap : s'.store.heap_base ≡ tags_heap tags (boot_of l w c k apart s.fdt) s.store.heap_base

  loop-Looped :
      {fuel : ℕ} {m : Memory} (r : ℕ) {t : ℕ} {tags : List Tag}
      → TagList fuel m t tags
      → length tags < r
      → (s : Machine l) → HasNodes l w c k apart s.fdt
      → TagsFit l tags s.fdt
      → Looped tags s (atags_loop l r fuel m t s)
  unfolding atags_loop tags_effect tags_heap
  loop-Looped zero tl lt s h fits = absurd (omega arith)
  loop-Looped {fuel = fuel} {m = m} (suc r) {t = t} (last e) lt s h fits = record {
    s' = s;
    run = rw e refl;
    boot = refl;
    paths = λ p ab. refl;
    blob = refl;
    others = λ n j d. refl;
    heap = refl;
  }
  loop-Looped {fuel = fuel} {m = m} (suc r) {t = t} (next {tag = tag} {tags = tags} e d tl) lt s h
        fits =
      let a = tag-Applied l w c k apart tag s h fits.0 in
      let rest =
        loop-Looped {fuel = fuel} {m = m} r {t = tag_next m t} {tags = tags} tl (omega arith) a.s'
          a.nodes (subst (λ (f : l.Fdt). TagsFit l tags f) (sym a.blob) fits.1) in
      record {
        s' = rest.s';
        run =
            rw (e, d)
              (bind_run (apply_tag l tag) (λ _. atags_loop l r fuel m (tag_next m t)) {s = s} a.run
                ∙ rest.run);
        boot = rest.boot ∙ ap (tags_effect tags) a.boot;
        paths = λ p ab. rest.paths p ab ∙ a.paths p ab;
        blob = rest.blob ∙ ap (after_tags l tags) a.blob;
        others = λ n j d. rest.others n j d ∙ a.others n j d;
        heap =
            rest.heap
            ∙ (λ i. tags_heap tags (a.boot i) a.s'.store.heap_base)
            ∙ ap (tags_heap tags (tag_effect tag (boot_of l w c k apart s.fdt))) a.heap;
      }

  -- On a tree that has `/chosen` and `/memory` as different nodes, when each `fdt_setprop` that the
  -- tags ask for has space, and with rounds for the list of tags: `fdt_fixup_from_atags` returns 0,
  -- and the command line, the ends of the ramdisk and the memory bank are those that the tags give
  -- one after another; no property of another name changes, every absolute path leads where it did,
  -- and the heap's base is behind the blocks that the command lines take.
  pub fdt_fixup_from_atags_lem :
      {fuel : ℕ} {m : Memory} {t : ℕ} {tags : List Tag} (r : ℕ)
      → TagList fuel m t tags
      → length tags < r
      → (s : Machine l) → HasNodes l w c k apart s.fdt
      → TagsFit l tags s.fdt
      → Decided tags s (fdt_fixup_from_atags l r fuel m t s)
  unfolding fdt_fixup_from_atags
  fdt_fixup_from_atags_lem {fuel = fuel} {m = m} {t = t} r tl lt s h fits =
      let a = loop-Looped r tl lt s h fits in
      record {
        s' = a.s';
        run = bind_run (atags_loop l r fuel m t) (λ _. pure (pos 0)) {s = s} a.run;
        boot = a.boot;
        paths = a.paths;
        blob = a.blob;
        others = a.others;
        heap = a.heap;
      }

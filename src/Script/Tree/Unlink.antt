-- ===== src/Script/Tree/Unlink.antt =====
-- Taking an empty section out of the tree: the end of `script_section_delete` (lib/libfex/script.c).
use sunxi_babelfish.Common.{ℕ, ◌+◌, ◌≤◌, ◌<◌, ◌≡◌, ap, sym, List, [], ◌∷◌, ◌++◌, arith}
use sunxi_babelfish.Hook.{list_remove}
use sunxi_babelfish.Hook.Ring.{IsRing}
use sunxi_babelfish.Hook.Edit.{list_remove-IsRing}
use sunxi_babelfish.Script.Store.{Store, entries_hook, sections_hook}
use sunxi_babelfish.Script.Tree.{Section, Tree, count, section_hooks, count_entries, owned, IsTree}
use sunxi_babelfish.Script.Tree.Hooks.{
  not_has-count, count-append, section_hooks-append, count_entries-append, owned-lt,
}
use sunxi_babelfish.Script.Tree.Frame.{SameBelow, SameHook, SectionsHold-frame}
use sunxi_babelfish.Script.Tree.Append.{SectionsHold-split, SectionsHold-join}
use sunxi_babelfish.Script.Tree.Remove.{with_entries}

module _ (st st' : Store) (script : ℕ) (ss : Tree) (s : Section) (ts : Tree)
    (t : IsTree st script (ss ++ with_entries s [] ∷ ts)) where
  abbrev all : Tree
  all = ss ++ with_entries s [] ∷ ts

  abbrev main_hooks : List ℕ
  main_hooks = script ∷ section_hooks all

  -- How the hooks of the section stand to all others.
  counts :
      (a : ℕ)
      → owned a script all
        ≡ owned a script (ss ++ ts)
          + count a (sections_hook s.addr ∷ [])
          + count a (entries_hook s.addr ∷ [])
  counts a = omega (
    arith,
    count_entries-append a ss (with_entries s [] ∷ ts),
    count_entries-append a ss ts,
    ap (count a) (section_hooks-append ss (with_entries s [] ∷ ts)),
    ap (count a) (section_hooks-append ss ts),
    count-append a (section_hooks ss) (sections_hook s.addr ∷ section_hooks ts),
    count-append a (section_hooks ss) (section_hooks ts),
  )

  pub main_parts :
      IsRing st.hooks script (section_hooks ss ++ sections_hook s.addr ∷ section_hooks ts)
  main_parts = rw (sym (section_hooks-append ss (with_entries s [] ∷ ts))) t.ring

  pub remove_section-IsTree :
      SameBelow st.heap_base st st'
      → st'.hooks ≡ list_remove (sections_hook s.addr) st.hooks
      → st'.heap_base ≡ st.heap_base
      → IsTree st' script (ss ++ ts)
  remove_section-IsTree below hooks base =
      let p = st.heap_base in
      let (front, (middle, back)) = SectionsHold-split st ss (with_entries s [] ∷ ts) t.sections in
      let (ring2, off) =
        list_remove-IsRing st.hooks script (sections_hook s.addr) (section_hooks ss)
          (section_hooks ts) main_parts in
      let same_list = section_hooks-append ss (with_entries s [] ∷ ts) in
      let frame : (a : ℕ)
          → 1 ≤ count_entries a (ss ++ ts)
          → (a < p) × SameHook st.hooks st'.hooks a =
        λ a o.
          let parts = count_entries-append a ss (with_entries s [] ∷ ts) in
          let rest = count_entries-append a ss ts in
          let free : count a main_hooks ≡ 0 = omega (arith, t.once a) in
          (
            owned-lt st script all t a (omega arith),
            rw hooks (off a (rw (sym same_list) (not_has-count a main_hooks free))),
          ) in
      record {
        ring = rw (hooks, section_hooks-append ss ts) ring2;
        sections =
            SectionsHold-join st' ss ts
              (SectionsHold-frame p st st' below ss
                (λ a i. frame a (omega (arith, count_entries-append a ss ts))) front)
              (SectionsHold-frame p st st' below ts
                (λ a i. frame a (omega (arith, count_entries-append a ss ts))) back);
        once = λ a. omega (arith, counts a, t.once a);
        fresh = λ a q. omega (arith, counts a, t.fresh a (omega (arith, base)));
        above = λ a q. omega (arith, counts a, t.above a q);
      }

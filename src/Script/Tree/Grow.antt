-- ===== src/Script/Tree/Grow.antt =====
-- `script_new` and `script_section_new` on the tree that a store stands for.
use sunxi_babelfish.Common.{
  ℕ, ◌+◌, ◌%◌, ◌^◌, ◌≤◌, ◌<◌, ◌≡◌, ◌≢◌, ◌∙◌, refl, List, [], ◌∷◌, ◌++◌, arith, false, take, ◌==◌,
}
use sunxi_babelfish.Memory.{null}
use sunxi_babelfish.Malloc.{aligned, malloc, aligned_lem}
use sunxi_babelfish.Hook.{Hooks, list_init, list_append}
use sunxi_babelfish.Hook.Ring.{IsRing}
use sunxi_babelfish.Hook.Edit.{list_init-IsRing, list_append-IsRing, SameOff-IsRing}
use sunxi_babelfish.Script.Store.{Store, script_size, section_size, sections_hook, entries_hook}
use sunxi_babelfish.Script.New.{script_new, script_section_new}
use sunxi_babelfish.Script.Tree.{Section, Tree, section_hooks, SectionHolds, SectionsHold, IsTree}
use sunxi_babelfish.Script.Tree.Hooks.{
  not_has-count, section_hooks-append, owned_snoc, owned-lt, main-lt, not-main,
}
use sunxi_babelfish.Script.Tree.Frame.{SameBelow, SameHook, IsRing-frame, SectionsHold-frame}

-- There is room for a block of this size: the heap's base is above 40 and stays in 32 bits.
pub record HasRoom (size : ℕ) (st : Store) : Type 0 where
  pub positive : 40 < st.heap_base
  pub fits : st.heap_base + size + 4 ≤ 2 ^ 32

pub malloc_room :
    (size : ℕ) (st : Store)
    → HasRoom size st
    → (malloc size st.heap_base ≡ (st.heap_base, st.heap_base + aligned size))
      × (st.heap_base + size ≤ st.heap_base + aligned size)
unfolding malloc
malloc_room size st room =
    let (ge, lt, whole) = aligned_lem size (omega arith) in
    let e : (st.heap_base + aligned size) % 2 ^ 32 ≡ st.heap_base + aligned size = omega arith in
    (rw e, omega arith)

pub list_init-SameHook : (m : Hooks) (h a : ℕ) → a ≢ h → SameHook m (list_init h m) a
unfolding list_init
list_init-SameHook m h a ne = ground arith

-- With room for it, `script_new` makes an empty tree.
pub script_new-IsTree :
    (st : Store)
    → HasRoom script_size st
    → let (script, st') = script_new st in (script ≡ st.heap_base) × IsTree st' script []
unfolding script_new
script_new-IsTree st room =
    let p = st.heap_base in
    let (e, ge) = malloc_room script_size st room in
    let not_null : (p == null) ≡ false = ground arith in
    rw (e, not_null)
      (
        refl,
        record {
          ring = list_init-IsRing st.hooks p;
          sections = tt;
          once = λ a. ground arith;
          fresh = λ a l. ground arith;
          above = λ a l. ground arith;
        },
      )

-- The section that `script_section_new` adds.
abbrev pub new_section : ℕ → List ℕ → Section
new_section p name = record { addr = p; name = take 31 name; entries = [] }

pub SectionsHold-snoc :
    (st : Store) (ss : Tree) (s : Section)
    → SectionsHold st ss
    → SectionHolds st s
    → SectionsHold st (ss ++ s ∷ [])
SectionsHold-snoc st [] s h k = (k, tt)
SectionsHold-snoc st (r ∷ ss) s h k = (h.0, SectionsHold-snoc st ss s h.1 k)

module _ (st st' : Store) (script : ℕ) (name : List ℕ) (ss : Tree) (t : IsTree st script ss) where
  abbrev p : ℕ
  p = st.heap_base

  fill_section-IsTree :
      SameBelow p st st'
      → st'.section_name p ≡ take 31 name
      → st'.hooks ≡ list_append script (sections_hook p) (list_init (entries_hook p) st.hooks)
      → p + section_size ≤ st'.heap_base
      → 40 < p
      → IsTree st' script (ss ++ new_section p name ∷ [])
  fill_section-IsTree below named hooks ge pos =
      let main = script ∷ section_hooks ss in
      let m1 = list_init (entries_hook p) st.hooks in
      let m2 = list_append script (sections_hook p) m1 in
      let ring1 : IsRing m1 script (section_hooks ss) =
        IsRing-frame st.hooks m1 script (section_hooks ss)
          (λ a i.
            list_init-SameHook st.hooks (entries_hook p) a
              (omega (arith, main-lt st script ss t a i)))
          t.ring in
      let f1 = not_has-count (sections_hook p) main (omega (arith, t.fresh (sections_hook p))) in
      let f2 = not_has-count (entries_hook p) main (omega (arith, t.fresh (entries_hook p))) in
      let (ring2, off) =
        list_append-IsRing m1 script (sections_hook p) (section_hooks ss) ring1 f1 in
      record {
        ring = rw (hooks, section_hooks-append ss (new_section p name ∷ [])) ring2;
        sections =
            SectionsHold-snoc st' ss (new_section p name)
              (SectionsHold-frame p st st' below ss
                (λ a i.
                  let l = owned-lt st script ss t a (omega arith) in
                  let (n1, p1) = list_init-SameHook st.hooks (entries_hook p) a (omega arith) in
                  let (n2, p2) = off a (ground (arith, not-main st script ss t a i)) in
                  (l, rw hooks (n2 ∙ n1, p2 ∙ p1)))
                t.sections)
              (record {
                name = named;
                ring = rw hooks (
                    SameOff-IsRing (sections_hook p ∷ main) m1 m2 (entries_hook p) [] off
                      (λ a i. ground (arith, f2)) (list_init-IsRing st.hooks (entries_hook p)));
                entries = tt;
              });
        once =
            λ a. ground (arith, owned_snoc a script ss (new_section p name), t.once a, t.fresh a);
        fresh = λ a l. ground (arith, owned_snoc a script ss (new_section p name), t.fresh a);
        above = λ a l. ground (arith, owned_snoc a script ss (new_section p name), t.above a);
      }

-- With room for it, `script_section_new` adds a section at the end of the tree. Its name is cut to
-- 31 characters, and it has no entries.
pub script_section_new-IsTree :
    (st : Store) (script : ℕ) (name : List ℕ) (ss : Tree)
    → IsTree st script ss
    → HasRoom section_size st
    → let (section, st') = script_section_new script name st in
      (section ≡ st.heap_base)
      × (st'.heap_base ≡ st.heap_base + aligned section_size)
      × IsTree st' script (ss ++ new_section section name ∷ [])
unfolding script_section_new
script_section_new-IsTree st script name ss t room =
    let (e, ge) = malloc_room section_size st room in
    let not_null : (st.heap_base == null) ≡ false = ground arith in
    rw (e, not_null)
      (
        refl,
        refl,
        fill_section-IsTree st _ script name ss t
            (record {
              section_name = λ x l. ground arith;
              entry_name = λ x l. refl;
              entry_type = λ x l. refl;
              payload = λ x l. refl;
            })
            (ground arith) refl ge room.positive,
      )

-- ===== src/Script/Tree/Drop.antt =====
-- `script_section_delete` and `script_delete` of lib/libfex/script.c on the tree that a store
-- stands for.
use sunxi_babelfish.Common.{
  ℕ, zero, suc, ◌+◌, ◌-◌, ◌<◌, ◌≡◌, ◌∙◌, ap, refl, false, [], ◌∷◌, ◌++◌, inl, inr, Option, some,
  ◌==◌, arith, length,
}
use mathlib.Core.Path.{subst}
use mathlib.Core.List.{append-nil}
use sunxi_babelfish.Memory.{null}
use sunxi_babelfish.Console.{assert}
use sunxi_babelfish.Hook.{list_last, list_remove}
use sunxi_babelfish.Hook.Walk.{list_ends, last_or_null}
use sunxi_babelfish.Script.Store.{Store, sections_hook, entries_hook}
use sunxi_babelfish.Script.Delete.{script_section_delete, delete_sections, script_delete}
use sunxi_babelfish.Script.Tree.{Section, Tree, section_hooks, IsTree, IsShort}
use sunxi_babelfish.Script.Tree.Hooks.{section_hooks-append, count_entries-append}
use sunxi_babelfish.Script.Tree.Remove.{with_entries, list_empty-on_ring}
use sunxi_babelfish.Script.Tree.Unlink.{main_parts, remove_section-IsTree}
use sunxi_babelfish.Script.Tree.Empty.{
  snoc_view, length-snoc, last_or_null-snoc, delete_entries-Emptied,
}

-- What a destructor comes to: it ends, and the script is the tree `ss`.
pub record Dropped (script : ℕ) (ss : Tree) (r : Option Store) : Type 0 where
  pub st' : Store
  pub run : r ≡ some st'
  pub tree : IsTree st' script ss

-- A section of the tree is not at NULL.
section-not_null :
    (st : Store) (script : ℕ) (ss : Tree) (s : Section) (ts : Tree)
    → IsTree st script (ss ++ s ∷ ts)
    → (s.addr == null) ≡ false
section-not_null st script ss s ts t =
    let o = entries_hook s.addr in
    let high : 40 < o = ground (arith, t.above o, count_entries-append o ss (s ∷ ts)) in
    ground arith

unlink_section-IsTree :
    (st : Store) (script : ℕ) (ss : Tree) (s : Section) (ts : Tree)
    → IsTree st script (ss ++ with_entries s [] ∷ ts)
    → IsTree (record st { hooks = list_remove (sections_hook s.addr) st.hooks }) script (ss ++ ts)
unlink_section-IsTree st script ss s ts t =
    remove_section-IsTree st _ script ss s ts t
      (record {
        section_name = λ x q. refl;
        entry_name = λ x q. refl;
        entry_type = λ x q. refl;
        payload = λ x q. refl;
      })
      refl refl

-- With fuel for its entries, `script_section_delete` ends, and takes the section out of the tree.
pub script_section_delete-Dropped :
    (fuel : ℕ) (st : Store) (script : ℕ) (ss : Tree) (s : Section) (ts : Tree)
    → IsTree st script (ss ++ s ∷ ts)
    → length s.entries < fuel
    → Dropped script (ss ++ ts) (script_section_delete fuel s.addr st)
unfolding script_section_delete assert
script_section_delete-Dropped fuel st script ss s ts t short =
    let not_null = section-not_null st script ss s ts t in
    let r = delete_entries-Emptied script ss s ts fuel st s.entries t short in
    let listed =
      list_empty-on_ring r.st'.hooks script (sections_hook s.addr) (section_hooks ss)
        (section_hooks ts) (main_parts r.st' r.st' script ss s ts r.tree) in
    record {
      st' = record r.st' { hooks = list_remove (sections_hook s.addr) r.st'.hooks };
      run = rw (not_null, r.run, listed) refl;
      tree = unlink_section-IsTree r.st' script ss s ts r.tree;
    }

IsShort-snoc :
    (fuel : ℕ) (front : Tree) (s : Section)
    → IsShort fuel (front ++ s ∷ [])
    → IsShort fuel front × (length s.entries < fuel)
IsShort-snoc fuel [] s h = (tt, h.0)
IsShort-snoc fuel (x ∷ front) s h =
    let (rest, last) = IsShort-snoc fuel front s h.1 in ((h.0, rest), last)

delete_sections-Dropped :
    (rounds fuel : ℕ) (st : Store) (script : ℕ) (ss : Tree)
    → IsTree st script ss
    → IsShort fuel ss
    → length ss < rounds
    → Dropped script [] (delete_sections rounds fuel script st)
unfolding delete_sections
delete_sections-Dropped zero fuel st script ss t short lt = absurd (omega arith)
delete_sections-Dropped (suc k) fuel st script ss t short lt =
    let last = (list_ends st.hooks script (section_hooks ss) t.ring).1 in
    elim (snoc_view ss) [
      | inl empty ↦
          let none_left = last ∙ ap (λ (l : Tree). last_or_null (section_hooks l)) empty in
          record {
            st' = st;
            run = rw none_left refl;
            tree = subst (λ (l : Tree). IsTree st script l) empty t;
          }
      | inr (front, s, eq) ↦
          let t1 = subst (λ (l : Tree). IsTree st script l) eq t in
          let (shorter, small) =
            IsShort-snoc fuel front s (subst (λ (l : Tree). IsShort fuel l) eq short) in
          let d = script_section_delete-Dropped fuel st script front s [] t1 small in
          let t2 = subst (λ (l : Tree). IsTree d.st' script l) (append-nil front) d.tree in
          let hook : list_last script st.hooks ≡ sections_hook s.addr =
            last
            ∙ ap (λ (l : Tree). last_or_null (section_hooks l)) eq
            ∙ ap last_or_null (section_hooks-append front (s ∷ []))
            ∙ last_or_null-snoc (section_hooks front) (sections_hook s.addr) in
          let back : s.addr + 32 - 32 ≡ s.addr = omega arith in
          let some_hook : (sections_hook s.addr == null) ≡ false = ground arith in
          let fewer = ap length eq ∙ length-snoc front s in
          let r = delete_sections-Dropped k fuel d.st' script front t2 shorter (omega arith) in
          record { st' = r.st'; run = rw (hook, some_hook, back, d.run) r.run; tree = r.tree }
    ]

-- With fuel for the sections and for the entries of each, `script_delete` ends, and leaves an empty
-- tree.
pub script_delete-Dropped :
    (fuel : ℕ) (st : Store) (script : ℕ) (ss : Tree)
    → IsTree st script ss
    → IsShort fuel ss
    → length ss < fuel
    → Dropped script [] (script_delete fuel script st)
unfolding script_delete assert
script_delete-Dropped fuel st script ss t short lt =
    let not_null : (script == null) ≡ false = ground (arith, t.above script) in
    let r = delete_sections-Dropped fuel fuel st script ss t short lt in
    record { st' = r.st'; run = rw (not_null, r.run) refl; tree = r.tree }

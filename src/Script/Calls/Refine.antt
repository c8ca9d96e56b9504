-- ===== src/Script/Calls/Refine.antt =====
-- The functions of lib/libfex/script.c make the changes of the tree that Script.Calls says.
use sunxi_babelfish.Common.{
  ℕ, ◌+◌, ◌^◌, ◌<◌, ◌≤◌, ◌≡◌, ◌∙◌, refl, sym, List, [], ◌∷◌, ◌++◌, Option, some, ◌==◌, arith,
}
use mathlib.Core.Path.{subst}
use Prim.Native.String.{String}
use sunxi_babelfish.Memory.{null}
use sunxi_babelfish.Malloc.{aligned, aligned_lem}
use sunxi_babelfish.Script.Store.{
  Payload, single, string, gpio, null_entry, Store, null_size, check,
}
use sunxi_babelfish.Script.New.{
  script_section_new, entry_new, script_null_entry_new, script_single_entry_new,
  script_string_entry_new, script_gpio_entry_new,
}
use sunxi_babelfish.Script.Find.{}
use sunxi_babelfish.Script.Delete.{script_entry_delete}
use sunxi_babelfish.Script.Tree.{Tree, Section, IsTree}
use sunxi_babelfish.Script.Tree.Frame.{IsTree-log}
use sunxi_babelfish.Script.Tree.Grow.{HasRoom, new_section, script_section_new-IsTree}
use sunxi_babelfish.Script.Tree.Append.{new_entry, add_entry, entry_new-IsTree}
use sunxi_babelfish.Script.Tree.Remove.{script_entry_delete-IsTree}
use sunxi_babelfish.Script.Tree.Drop.{Dropped, script_section_delete-Dropped}
use sunxi_babelfish.Script.Tree.Lookup.{search_sections, search_entries}
use sunxi_babelfish.Script.Calls.{
  Call, construct, call, calls, kept, entry_size, requested, needed, Change, section_added,
  section_removed, section_sought, entry_removed, entry_added, entry_sought, Changes, done, after,
}
use sunxi_babelfish.Script.Calls.Base.{
  script_entry_delete-heap_base, script_section_delete-heap_base,
}

-- A call has ended, with the tree `ss` and the heap moved by what it asked for.
pub record Made (script base : ℕ) (ss : Tree) (r : Option Store) : Type 0 where
  pub st' : Store
  pub run : r ≡ some st'
  pub tree : IsTree st' script ss
  pub heap : st'.heap_base ≡ base

-- The part that the four constructors of entries share.
module _ (script : ℕ) (name : List ℕ) (ss : Tree) (s : Section) (ts : Tree) where
  entry_new-Made :
      (size : ℕ) (v : Payload) (func : String) (st : Store)
      → IsTree st script (ss ++ s ∷ ts)
      → null_size ≤ size
      → HasRoom size st
      → Made script
          (st.heap_base + aligned size)
          (ss ++ add_entry s (new_entry st.heap_base name v) ∷ ts)
          (some (entry_new size s.addr name v (check (s.addr == null) "section" func st)).1)
  entry_new-Made size v func st t big room =
      let st1 = check (s.addr == null) "section" func st in
      let (e, heap, tree) =
        entry_new-IsTree st1 script size name v ss s ts
          (IsTree-log st st1.log script (ss ++ s ∷ ts) t) big
          (record { positive = room.positive; fits = room.fits }) in
      record {
        st' = (entry_new size s.addr name v st1).1;
        run = refl;
        tree =
            subst
              (λ (p : ℕ).
                IsTree (entry_new size s.addr name v st1).1 script
                  (ss ++ add_entry s (new_entry p name v) ∷ ts))
              e tree;
        heap = heap;
      }

  construct-Made :
      (v : Payload) (st : Store)
      → IsTree st script (ss ++ s ∷ ts)
      → HasRoom (entry_size v) st
      → Made script
          (st.heap_base + aligned (entry_size v))
          (ss ++ add_entry s (new_entry st.heap_base name (kept v)) ∷ ts)
          (some (construct s.addr name v st).1)
  unfolding construct script_null_entry_new script_single_entry_new script_string_entry_new
      script_gpio_entry_new
  construct-Made null_entry st t room =
      entry_new-Made (entry_size null_entry) null_entry "script_null_entry_new" st t (omega arith)
        room
  construct-Made (single value) st t room =
      entry_new-Made (entry_size (single value)) (single value) "script_single_entry_new" st t
        (omega arith) room
  construct-Made (string l x) st t room =
      entry_new-Made (entry_size (string l x)) (kept (string l x)) "script_string_entry_new" st t
        (omega arith) room
  construct-Made (gpio port num a b c d) st t room =
      entry_new-Made (entry_size (gpio port num a b c d)) (gpio port num a b c d)
        "script_gpio_entry_new" st t (omega arith) room

aligned_zero : (n : ℕ) → n + aligned 0 ≡ n
aligned_zero n = omega (arith, aligned_lem 0 (omega arith))

module _ (fuel script : ℕ) where
  call-Made :
      (c : Call) (st : Store) {ss ts : Tree}
      → IsTree st script ss
      → HasRoom (requested c) st
      → Change fuel st.heap_base c ss ts
      → Made script (st.heap_base + aligned (requested c)) ts (call fuel script c st)
  unfolding call
  call-Made c st t room (section_added {ss = ss} name) =
      let (e, heap, tree) = script_section_new-IsTree st script name ss t room in
      record {
        st' = (script_section_new script name st).1;
        run = refl;
        tree =
            subst
              (λ (p : ℕ).
                IsTree (script_section_new script name st).1 script (ss ++ new_section p name ∷ []))
              e tree;
        heap = heap;
      }
  call-Made c st t room (section_removed ss s ts short) =
      let d = script_section_delete-Dropped fuel st script ss s ts t short in
      record {
        st' = d.st';
        run = d.run;
        tree = d.tree;
        heap =
            script_section_delete-heap_base fuel s.addr st d.run ∙ sym (aligned_zero st.heap_base);
      }
  call-Made c st t room (section_sought {ss = ss} name short) = record {
    st' = st;
    run = rw (search_sections fuel st script name ss t short) refl;
    tree = t;
    heap = sym (aligned_zero st.heap_base);
  }
  call-Made c st t room (entry_removed ss s es e fs ts) = record {
    st' = script_entry_delete e.addr st;
    run = refl;
    tree = script_entry_delete-IsTree st script ss s es e fs ts t;
    heap = script_entry_delete-heap_base e.addr st ∙ sym (aligned_zero st.heap_base);
  }
  call-Made c st t room (entry_added ss s ts name v) =
      construct-Made script name ss s ts v st t room
  call-Made c st t room (entry_sought ss s ts name short) = record {
    st' = st;
    run = rw (search_entries fuel st script name ss s ts t short) refl;
    tree = t;
    heap = sym (aligned_zero st.heap_base);
  }

  pub calls-Dropped :
      (cs : List Call) (st : Store) {ss us : Tree}
      → IsTree st script ss
      → 40 < st.heap_base
      → st.heap_base + needed cs ≤ 2 ^ 32
      → Changes fuel st.heap_base cs ss us
      → Dropped script us (calls fuel script cs st)
  unfolding calls
  calls-Dropped [] st t low fits done = record { st' = st; run = refl; tree = t }
  calls-Dropped (c ∷ rest) st t low fits (after {ts = ts} {us = us} change more) =
      let m = call-Made c st t (record { positive = low; fits = omega arith }) change in
      let bound = aligned_lem (requested c) (omega arith) in
      let r =
        calls-Dropped rest m.st' m.tree (omega (arith, m.heap)) (omega (arith, m.heap, bound.1))
          (subst (λ (p : ℕ). Changes fuel p rest ts us) (sym m.heap) more) in
      record { st' = r.st'; run = rw m.run r.run; tree = r.tree }

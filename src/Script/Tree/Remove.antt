-- ===== src/Script/Tree/Remove.antt =====
-- `script_entry_delete` of lib/libfex/script.c on the tree that a store stands for.
use sunxi_babelfish.Common.{
  ℕ, ◌+◌, ◌≤◌, ◌<◌, ◌≡◌, ◌∙◌, ap, sym, refl, false, List, [], ◌∷◌, ◌++◌, ◌==◌, arith,
}
use sunxi_babelfish.Memory.{null}
use sunxi_babelfish.Console.{assert}
use sunxi_babelfish.Hook.{Hooks, list_remove, list_empty}
use sunxi_babelfish.Hook.Ring.{final, final-has, IsRing, Links-prev, Links-split}
use sunxi_babelfish.Hook.Edit.{list_remove-IsRing, IsDistinct-parts}
use sunxi_babelfish.Script.Store.{
  Payload, single, string, gpio, null_entry, type_of, Store, entries_hook, entry_hook,
}
use sunxi_babelfish.Script.Delete.{script_entry_delete}
use sunxi_babelfish.Script.Tree.{
  Entry, Section, Tree, count, entry_hooks, section_hooks, count_entries, owned, EntriesHold,
  SectionHolds, IsTree,
}
use sunxi_babelfish.Script.Tree.Hooks.{
  not_has-count, has-count, count-append, entry_hooks-append, count_entries-append, owned-lt,
}
use sunxi_babelfish.Script.Tree.Frame.{
  SameBelow, SameHook, IsRing-frame, EntriesHold-frame, SectionsHold-frame,
}
use sunxi_babelfish.Script.Tree.Append.{SectionsHold-split, SectionsHold-join}

-- The section with other entries.
abbrev pub with_entries : Section → List Entry → Section
with_entries s es = record s { entries = es }

section_hooks-with_entries :
    (ss : Tree) (s : Section) (es fs : List Entry) (ts : Tree)
    → section_hooks (ss ++ with_entries s es ∷ ts) ≡ section_hooks (ss ++ with_entries s fs ∷ ts)
section_hooks-with_entries [] s es fs ts = refl
section_hooks-with_entries (r ∷ ss) s es fs ts =
    ground (arith, section_hooks-with_entries ss s es fs ts)

EntriesHold-delete :
    (st : Store) (es : List Entry) (e : Entry) (fs : List Entry)
    → EntriesHold st (es ++ e ∷ fs)
    → EntriesHold st (es ++ fs) × EntriesHold st (e ∷ [])
EntriesHold-delete st [] e fs h = (h.3, (h.0, h.1, h.2, tt))
EntriesHold-delete st (x ∷ es) e fs h =
    let (rest, here) = EntriesHold-delete st es e fs h.3 in ((h.0, h.1, h.2, rest), here)

-- A hook on a list does not lead back to itself.
pub list_empty-on_ring :
    (m : Hooks) (h o : ℕ) (xs ys : List ℕ) → IsRing m h (xs ++ o ∷ ys) → list_empty o m ≡ false
unfolding list_empty
list_empty-on_ring m h o xs ys r =
    let (front, back) = Links-split m h xs o ys h r.links in
    let (df, db, apart) = IsDistinct-parts (h ∷ xs) (o ∷ ys) r.distinct in
    ground (arith, Links-prev m h xs o front, final-has h xs, apart (final h xs))

-- On an entry that is on a list, the destructor takes the hook out and may print.
script_entry_delete-runs :
    (st : Store) (a : ℕ) (v : Payload)
    → (a == null) ≡ false
    → st.entry_type a ≡ type_of v
    → list_empty (entry_hook a) st.hooks ≡ false
    → script_entry_delete a st ≡ record st {
      hooks = list_remove (entry_hook a) st.hooks;
      log = (script_entry_delete a st).log;
    }
unfolding script_entry_delete assert
script_entry_delete-runs st a (single v) nn t e = rw (nn, e, t) refl
script_entry_delete-runs st a (string l s) nn t e = rw (nn, e, t) refl
script_entry_delete-runs st a (gpio p n d0 d1 d2 d3) nn t e = rw (nn, e, t) refl
script_entry_delete-runs st a null_entry nn t e = rw (nn, e, t) refl

count_entries-with_entries :
    (a : ℕ) (ss : Tree) (s : Section) (es : List Entry) (e : Entry) (fs : List Entry) (ts : Tree)
    → count_entries a (ss ++ with_entries s (es ++ e ∷ fs) ∷ ts)
      ≡ count_entries a (ss ++ with_entries s (es ++ fs) ∷ ts) + count a (entry_hook e.addr ∷ [])
count_entries-with_entries a ss s es e fs ts = omega (
  arith,
  count_entries-append a ss (with_entries s (es ++ e ∷ fs) ∷ ts),
  count_entries-append a ss (with_entries s (es ++ fs) ∷ ts),
  ap (count a) (entry_hooks-append es (e ∷ fs)),
  ap (count a) (entry_hooks-append es fs),
  count-append a (entry_hooks es) (entry_hook e.addr ∷ entry_hooks fs),
  count-append a (entry_hooks es) (entry_hooks fs),
)

owned-with_entries :
    (a script : ℕ) (ss : Tree) (s : Section) (es : List Entry) (e : Entry) (fs : List Entry)
    (ts : Tree)
    → owned a script (ss ++ with_entries s (es ++ e ∷ fs) ∷ ts)
      ≡ owned a script (ss ++ with_entries s (es ++ fs) ∷ ts) + count a (entry_hook e.addr ∷ [])
owned-with_entries a script ss s es e fs ts =
    rw (section_hooks-with_entries ss s (es ++ e ∷ fs) (es ++ fs) ts)
      (omega (arith, count_entries-with_entries a ss s es e fs ts))

module _ (st st' : Store) (script : ℕ) (ss : Tree) (s : Section) (es : List Entry) (e : Entry)
    (fs : List Entry) (ts : Tree)
    (t : IsTree st script (ss ++ with_entries s (es ++ e ∷ fs) ∷ ts)) where
  abbrev before : Section
  before = with_entries s (es ++ e ∷ fs)

  abbrev after : Section
  after = with_entries s (es ++ fs)

  abbrev list_hooks : List ℕ
  list_hooks = entries_hook s.addr ∷ entry_hooks (es ++ e ∷ fs)

  -- How the hooks of the section stand to all others.
  counts :
      (a : ℕ)
      → owned a script (ss ++ before ∷ ts)
        ≡ count a (script ∷ section_hooks (ss ++ before ∷ ts))
          + count_entries a ss
          + count a list_hooks
          + count_entries a ts
  counts a = omega (arith, count_entries-append a ss (before ∷ ts))

  here : SectionHolds st before
  here = (SectionsHold-split st ss (before ∷ ts) t.sections).1.0

  IsRing-parts :
      IsRing st.hooks (entries_hook s.addr) (entry_hooks es ++ entry_hook e.addr ∷ entry_hooks fs)
  IsRing-parts = rw (sym (entry_hooks-append es (e ∷ fs))) here.ring

  remove_entry-IsTree :
      SameBelow st.heap_base st st'
      → st'.hooks ≡ list_remove (entry_hook e.addr) st.hooks
      → st'.heap_base ≡ st.heap_base
      → IsTree st' script (ss ++ after ∷ ts)
  remove_entry-IsTree below hooks base =
      let p = st.heap_base in
      let all = ss ++ before ∷ ts in
      let main = script ∷ section_hooks all in
      let (front, (middle, back)) = SectionsHold-split st ss (before ∷ ts) t.sections in
      let (ring2, off) =
        list_remove-IsRing st.hooks (entries_hook s.addr) (entry_hook e.addr) (entry_hooks es)
          (entry_hooks fs) IsRing-parts in
      let same_list = entry_hooks-append es (e ∷ fs) in
      let frame : (a : ℕ)
          → 1 ≤ owned a script all
          → count a list_hooks ≡ 0
          → (a < p) × SameHook st.hooks st'.hooks a =
        λ a o z. (
          owned-lt st script all t a o,
          rw hooks (off a (rw (sym same_list) (not_has-count a list_hooks z))),
        ) in
      let low : s.addr < p =
        ground
          (arith, owned-lt st script all t (entries_hook s.addr), counts (entries_hook s.addr)) in
      let (kept, gone) = EntriesHold-delete st es e fs middle.entries in
      record {
        ring = rw (section_hooks-with_entries ss s (es ++ fs) (es ++ e ∷ fs) ts) (
            IsRing-frame st.hooks st'.hooks script (section_hooks all)
              (λ a i.
                let c = has-count a main i in
                (frame a (omega arith) (omega (arith, counts a, t.once a))).1)
              t.ring);
        sections =
            SectionsHold-join st' ss (after ∷ ts)
              (SectionsHold-frame p st st' below ss
                (λ a i. frame a (omega (arith, counts a)) (omega (arith, counts a, t.once a)))
                front)
              (
                record {
                  name = below.section_name s.addr low ∙ middle.name;
                  ring = rw (hooks, entry_hooks-append es fs) ring2;
                  entries =
                      EntriesHold-frame p st st' below (es ++ fs)
                        (λ a i. owned-lt st script all t a (
                          omega (
                            arith,
                            counts a,
                            count_entries-with_entries a ss s es e fs ts,
                            count_entries-append a ss (after ∷ ts),
                          )))
                        kept;
                },
                SectionsHold-frame p st st' below ts
                    (λ a i. frame a (omega (arith, counts a)) (omega (arith, counts a, t.once a)))
                    back,
              );
        once = λ a. omega (arith, owned-with_entries a script ss s es e fs ts, t.once a);
        fresh = λ a q.
            omega
              (arith, owned-with_entries a script ss s es e fs ts, t.fresh a (omega (arith, base)));
        above = λ a q. omega (arith, owned-with_entries a script ss s es e fs ts, t.above a q);
      }

-- `script_entry_delete` takes an entry that is in the tree out of its section, keeps the others in
-- order, and leaves all other sections as they were.
pub script_entry_delete-IsTree :
    (st : Store) (script : ℕ) (ss : Tree) (s : Section) (es : List Entry) (e : Entry)
    (fs : List Entry) (ts : Tree)
    → IsTree st script (ss ++ with_entries s (es ++ e ∷ fs) ∷ ts)
    → IsTree (script_entry_delete e.addr st) script (ss ++ with_entries s (es ++ fs) ∷ ts)
script_entry_delete-IsTree st script ss s es e fs ts t =
    let here = (SectionsHold-split st ss (with_entries s (es ++ e ∷ fs) ∷ ts) t.sections).1.0 in
    let (kept, gone) = EntriesHold-delete st es e fs here.entries in
    let o = entry_hook e.addr in
    let one : count o (o ∷ []) ≡ 1 = ground arith in
    let owns = owned-with_entries o script ss s es e fs ts in
    let high : 40 < o = ground (arith, t.above o) in
    let not_null : (e.addr == null) ≡ false = ground arith in
    let listed =
      list_empty-on_ring st.hooks (entries_hook s.addr) o (entry_hooks es) (entry_hooks fs)
        (rw (sym (entry_hooks-append es (e ∷ fs))) here.ring) in
    rw (script_entry_delete-runs st e.addr e.payload not_null gone.1 listed) (
      remove_entry-IsTree st _ script ss s es e fs ts t
        (record {
          section_name = λ x q. refl;
          entry_name = λ x q. refl;
          entry_type = λ x q. refl;
          payload = λ x q. refl;
        })
        refl refl)

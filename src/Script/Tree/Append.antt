-- ===== src/Script/Tree/Append.antt =====
-- The constructors of entries on the tree that a store stands for.
use sunxi_babelfish.Common.{
  ℕ, ◌+◌, ◌≤◌, ◌<◌, ◌≡◌, ◌∙◌, refl, List, [], ◌∷◌, ◌++◌, arith, false, take, ◌==◌,
}
use sunxi_babelfish.Memory.{null}
use sunxi_babelfish.Malloc.{aligned}
use sunxi_babelfish.Hook.{list_append}
use sunxi_babelfish.Hook.Ring.{}
use sunxi_babelfish.Hook.Edit.{list_append-IsRing}
use sunxi_babelfish.Script.Store.{Payload, Store, entries_hook, entry_hook, null_size}
use sunxi_babelfish.Script.New.{entry_new}
use sunxi_babelfish.Script.Tree.{
  Entry, Section, Tree, count, entry_hooks, section_hooks, count_entries, owned, EntriesHold,
  SectionsHold, IsTree,
}
use sunxi_babelfish.Script.Tree.Hooks.{
  not_has-count, has-count, count-append, entry_hooks-append, count_entries-append, owned-lt,
}
use sunxi_babelfish.Script.Tree.Frame.{
  SameBelow, SameHook, IsRing-frame, EntriesHold-frame, SectionsHold-frame,
}
use sunxi_babelfish.Script.Tree.Grow.{HasRoom, malloc_room}

abbrev pub new_entry : ℕ → List ℕ → Payload → Entry
new_entry p name v = record { addr = p; name = take 31 name; payload = v }

-- The section with one more entry at its end.
abbrev pub add_entry : Section → Entry → Section
add_entry s e = record s { entries = s.entries ++ e ∷ [] }

pub SectionsHold-split :
    (st : Store) (ss ts : Tree)
    → SectionsHold st (ss ++ ts)
    → SectionsHold st ss × SectionsHold st ts
SectionsHold-split st [] ts h = (tt, h)
SectionsHold-split st (s ∷ ss) ts h =
    let (front, back) = SectionsHold-split st ss ts h.1 in ((h.0, front), back)

pub SectionsHold-join :
    (st : Store) (ss ts : Tree)
    → SectionsHold st ss
    → SectionsHold st ts
    → SectionsHold st (ss ++ ts)
SectionsHold-join st [] ts h k = k
SectionsHold-join st (s ∷ ss) ts h k = (h.0, SectionsHold-join st ss ts h.1 k)

EntriesHold-snoc :
    (st : Store) (es : List Entry) (e : Entry)
    → EntriesHold st es
    → EntriesHold st (e ∷ [])
    → EntriesHold st (es ++ e ∷ [])
EntriesHold-snoc st [] e h k = k
EntriesHold-snoc st (f ∷ es) e h k = (h.0, h.1, h.2, EntriesHold-snoc st es e h.3 k)

section_hooks-add_entry :
    (ss : Tree) (s : Section) (e : Entry) (ts : Tree)
    → section_hooks (ss ++ add_entry s e ∷ ts) ≡ section_hooks (ss ++ s ∷ ts)
section_hooks-add_entry [] s e ts = refl
section_hooks-add_entry (r ∷ ss) s e ts = ground (arith, section_hooks-add_entry ss s e ts)

count_entries-add_entry :
    (a : ℕ) (ss : Tree) (s : Section) (e : Entry) (ts : Tree)
    → count_entries a (ss ++ add_entry s e ∷ ts)
      ≡ count_entries a (ss ++ s ∷ ts) + count a (entry_hook e.addr ∷ [])
count_entries-add_entry a [] s e ts =
    rw
      (
        entry_hooks-append s.entries (e ∷ []),
        count-append a (entry_hooks s.entries) (entry_hook e.addr ∷ []),
      )
      (omega arith)
count_entries-add_entry a (r ∷ ss) s e ts = omega (arith, count_entries-add_entry a ss s e ts)

owned-add_entry :
    (a script : ℕ) (ss : Tree) (s : Section) (e : Entry) (ts : Tree)
    → owned a script (ss ++ add_entry s e ∷ ts)
      ≡ owned a script (ss ++ s ∷ ts) + count a (entry_hook e.addr ∷ [])
owned-add_entry a script ss s e ts =
    rw (section_hooks-add_entry ss s e ts, count_entries-add_entry a ss s e ts) (omega arith)

module _ (st st' : Store) (script : ℕ) (name : List ℕ) (v : Payload) (ss : Tree) (s : Section)
    (ts : Tree) (t : IsTree st script (ss ++ s ∷ ts)) where
  abbrev p : ℕ
  p = st.heap_base

  abbrev list_hooks : List ℕ
  list_hooks = entries_hook s.addr ∷ entry_hooks s.entries

  -- How the hooks of the section stand to all others.
  counts :
      (a : ℕ)
      → owned a script (ss ++ s ∷ ts)
        ≡ count a (script ∷ section_hooks (ss ++ s ∷ ts))
          + count_entries a ss
          + count a list_hooks
          + count_entries a ts
  counts a = omega (arith, count_entries-append a ss (s ∷ ts))

  fill_entry-IsTree :
      SameBelow p st st'
      → EntriesHold st' (new_entry p name v ∷ [])
      → st'.hooks ≡ list_append (entries_hook s.addr) (entry_hook p) st.hooks
      → p + null_size ≤ st'.heap_base
      → 40 < p
      → IsTree st' script (ss ++ add_entry s (new_entry p name v) ∷ ts)
  fill_entry-IsTree below holds hooks ge pos =
      let all = ss ++ s ∷ ts in
      let main = script ∷ section_hooks all in
      let e = new_entry p name v in
      let m' = list_append (entries_hook s.addr) (entry_hook p) st.hooks in
      let (front, (here, back)) = SectionsHold-split st ss (s ∷ ts) t.sections in
      let f =
        not_has-count (entry_hook p) list_hooks
          (omega (arith, counts (entry_hook p), t.fresh (entry_hook p))) in
      let (ring2, off) =
        list_append-IsRing st.hooks (entries_hook s.addr) (entry_hook p) (entry_hooks s.entries)
          here.ring f in
      let frame : (a : ℕ)
          → 1 ≤ owned a script all
          → count a list_hooks ≡ 0
          → (a < p) × SameHook st.hooks st'.hooks a =
        λ a o z.
          let l = owned-lt st script all t a o in
          (l, rw hooks (off a (ground (arith, not_has-count a list_hooks z)))) in
      let low : s.addr < p =
        ground
          (arith, owned-lt st script all t (entries_hook s.addr), counts (entries_hook s.addr)) in
      record {
        ring = rw (section_hooks-add_entry ss s e ts) (
            IsRing-frame st.hooks st'.hooks script (section_hooks all)
              (λ a i.
                let c = has-count a main i in
                (frame a (omega arith) (omega (arith, counts a, t.once a))).1)
              t.ring);
        sections =
            SectionsHold-join st' ss (add_entry s e ∷ ts)
              (SectionsHold-frame p st st' below ss
                (λ a i. frame a (omega (arith, counts a)) (omega (arith, counts a, t.once a)))
                front)
              (
                record {
                  name = below.section_name s.addr low ∙ here.name;
                  ring = rw (hooks, entry_hooks-append s.entries (e ∷ [])) ring2;
                  entries =
                      EntriesHold-snoc st' s.entries e
                        (EntriesHold-frame p st st' below s.entries
                          (λ a i. owned-lt st script all t a (omega (arith, counts a)))
                          here.entries)
                        holds;
                },
                SectionsHold-frame p st st' below ts
                    (λ a i. frame a (omega (arith, counts a)) (omega (arith, counts a, t.once a)))
                    back,
              );
        once = λ a. ground (arith, owned-add_entry a script ss s e ts, t.once a, t.fresh a);
        fresh = λ a l. ground (arith, owned-add_entry a script ss s e ts, t.fresh a);
        above = λ a l. ground (arith, owned-add_entry a script ss s e ts, t.above a);
      }

-- With room for it, the constructor of an entry adds the entry at the end of its section, and
-- leaves all other sections as they were. Its name is cut to 31 characters.
pub entry_new-IsTree :
    (st : Store) (script size : ℕ) (name : List ℕ) (v : Payload) (ss : Tree) (s : Section)
    (ts : Tree)
    → IsTree st script (ss ++ s ∷ ts)
    → null_size ≤ size
    → HasRoom size st
    → let (entry, st') = entry_new size s.addr name v st in
      (entry ≡ st.heap_base)
      × (st'.heap_base ≡ st.heap_base + aligned size)
      × IsTree st' script (ss ++ add_entry s (new_entry entry name v) ∷ ts)
unfolding entry_new
entry_new-IsTree st script size name v ss s ts t big room =
    let (e, ge) = malloc_room size st room in
    let not_null : (st.heap_base == null) ≡ false = ground arith in
    rw (e, not_null)
      (
        refl,
        refl,
        fill_entry-IsTree st _ script name v ss s ts t
            (record {
              section_name = λ x l. refl;
              entry_name = λ x l. ground arith;
              entry_type = λ x l. ground arith;
              payload = λ x l. ground arith;
            })
            (ground arith) refl (omega arith) room.positive,
      )

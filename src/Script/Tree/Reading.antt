-- ===== src/Script/Tree/Reading.antt =====
-- What a FEX file says under a name, and that the searches of lib/libfex/script.c find it whatever the
-- heap has given away since.
use sunxi_babelfish.Common.{
  ℕ, ◌<◌, ◌≡◌, ◌∙◌, ap, List, [], ◌∷◌, ◌++◌, ◌>>=◌, Option, none, some, ◌==◌, if◌then◌else◌, length,
  eq_of_some,
}
use mathlib.Core.Path.{subst}
use sunxi_babelfish.Memory.{null}
use sunxi_babelfish.Script.Store.{Store, Payload, check, entries_hook, section_of, entry_of}
use sunxi_babelfish.Hook.Walk.{find_hook}
use sunxi_babelfish.Script.Find.{section_named, entry_named, script_find_section, script_find_entry}
use sunxi_babelfish.Script.Tree.{Tree, Section, Entry, IsTree, IsShort, EntriesHold}
use sunxi_babelfish.Script.Tree.Append.{SectionsHold-split}
use sunxi_babelfish.Script.Tree.Lookup.{
  NoSection, NoEntry, script_find_section_lem, script_find_entry_lem,
}

-- The first section with the name is `s`.
pub record SectionIn (ss : Tree) (name : List ℕ) (s : Section) : Type 0 where
  pub before : Tree
  pub after : Tree
  pub here : ss ≡ before ++ s ∷ after
  pub first : NoSection name before
  pub named : s.name ≡ name

-- The first entry of the section with the name has this payload.
pub record EntryIn (s : Section) (name : List ℕ) (v : Payload) : Type 0 where
  pub before : List Entry
  pub entry : Entry
  pub after : List Entry
  pub here : s.entries ≡ before ++ entry ∷ after
  pub first : NoEntry name before
  pub named : entry.name ≡ name
  pub holds : entry.payload ≡ v

-- The store with the heap's base at `b`.
abbrev pub heap_at : Store → ℕ → Store
heap_at st b = record st { heap_base = b }

pub EntriesHold-payload :
    (st : Store) (es : List Entry) (e : Entry) (fs : List Entry)
    → EntriesHold st (es ++ e ∷ fs)
    → st.payload e.addr ≡ e.payload
EntriesHold-payload st [] e fs h = h.2
EntriesHold-payload st (_ ∷ es) e fs h = EntriesHold-payload st es e fs h.3

pub IsShort-at :
    (fuel : ℕ) (ss : Tree) (s : Section) (ts : Tree)
    → IsShort fuel (ss ++ s ∷ ts)
    → length s.entries < fuel
IsShort-at fuel [] s ts h = h.0
IsShort-at fuel (_ ∷ ss) s ts h = IsShort-at fuel ss s ts h.1

abbrev result_of : Option ℕ → (ℕ → ℕ) → Store → Option (ℕ × Store)
result_of o g st = o >>= λ x. some (g x, st)

-- A search whose heap has moved.
moved :
    (o : Option ℕ) (g : ℕ → ℕ) (st1 : Store) (b : ℕ) {a : ℕ} {st : Store}
    → result_of o g st1 ≡ some (a, st)
    → result_of o g (heap_at st1 b) ≡ some (a, heap_at st b)
moved none g st1 b h = absurd cc
moved (some x) g st1 b h =
    let e = eq_of_some h in
    λ i. some (ap (λ (r : ℕ × Store). r.0) e i, heap_at (ap (λ (r : ℕ × Store). r.1) e i) b)

module _ (fuel script : ℕ) (st : Store) (ss : Tree) (t : IsTree st script ss)
    (short : IsShort fuel ss) (lt : length ss < fuel) where
  pub section_found :
      {name : List ℕ} {s : Section} (b : ℕ)
      → SectionIn ss name s
      → script_find_section fuel script name (heap_at st b) ≡ some (s.addr, heap_at st b)
  unfolding script_find_section
  section_found {name = name} {s = s} b i =
      moved (find_hook fuel (section_named st name) script st.hooks)
        (λ o. if o == null then null else section_of o)
        (check (script == null) "script" "script_find_section" st) b
        ((script_find_section_lem fuel st script name ss t lt).0 i.before s i.after i.here i.first
          i.named)

  pub entry_found :
      {section name : List ℕ} {s : Section} {v : Payload} (b : ℕ)
      → SectionIn ss section s
      → (e : EntryIn s name v)
      → script_find_entry fuel s.addr name (heap_at st b) ≡ some (e.entry.addr, heap_at st b)
  unfolding script_find_entry
  entry_found {name = name} {s = s} b i e =
      let t1 = subst (λ (l : Tree). IsTree st script l) i.here t in
      let short1 =
        IsShort-at fuel i.before s i.after (subst (λ (l : Tree). IsShort fuel l) i.here short) in
      moved (find_hook fuel (entry_named st name) (entries_hook s.addr) st.hooks)
        (λ o. if o == null then null else entry_of o)
        (check (s.addr == null) "section" "script_find_entry" st) b
        ((script_find_entry_lem fuel st script name i.before s i.after t1 short1).0 e.before e.entry
          e.after e.here e.first e.named)

  pub payload_found :
      {section name : List ℕ} {s : Section} {v : Payload}
      → SectionIn ss section s
      → (e : EntryIn s name v) → st.payload e.entry.addr ≡ v
  payload_found {s = s} i e =
      let t1 = subst (λ (l : Tree). IsTree st script l) i.here t in
      let here = (SectionsHold-split st i.before (s ∷ i.after) t1.sections).1.0 in
      EntriesHold-payload st e.before e.entry e.after
        (subst (λ (es : List Entry). EntriesHold st es) e.here here.entries)
      ∙ e.holds

-- ===== src/Script/Tree/Lookup.antt =====
-- `script_find_section` and `script_find_entry` on the tree that a store stands for.
use sunxi_babelfish.Common.{
  ℕ, suc, ◌-◌, ◌≤◌, ◌<◌, ◌≡◌, ◌≢◌, ◌∙◌, ap, refl, List, [], ◌∷◌, ◌++◌, arith, true, false, ◌==◌,
  if◌then◌else◌, length, some, Bool-cases, inl, inr,
}
use sunxi_babelfish.Common.Int.{ℤ, pos, is_zero}
use sunxi_babelfish.Memory.{null}
use sunxi_babelfish.Cstring.Compare.{compare_texts, compare_texts-zero_iff}
use sunxi_babelfish.Console.{assert}
use sunxi_babelfish.Hook.Ring.{}
use sunxi_babelfish.Hook.Walk.{first_match, find_hook-first_match}
use sunxi_babelfish.Script.Store.{Store, sections_hook, entries_hook, entry_hook}
use sunxi_babelfish.Script.Find.{section_named, entry_named, script_find_section, script_find_entry}
use sunxi_babelfish.Script.Tree.{
  Entry, Section, Tree, count, section_hooks, entry_hooks, EntriesHold, SectionHolds, SectionsHold,
  IsTree,
}
use sunxi_babelfish.Script.Tree.Hooks.{not_has-count, count_entries-append}
use sunxi_babelfish.Script.Tree.Append.{SectionsHold-split}

-- No section (no entry) of the list has the name.
abbrev pub NoSection : List ℕ → Tree → Type 0
NoSection name [] = Unit {0}
NoSection name (s ∷ ss) = (s.name ≢ name) × NoSection name ss

abbrev pub NoEntry : List ℕ → List Entry → Type 0
NoEntry name [] = Unit {0}
NoEntry name (e ∷ es) = (e.name ≢ name) × NoEntry name es

-- The test of the search, on a name that is known.
named_true : (xs ys : List ℕ) → xs ≡ ys → is_zero (compare_texts xs ys) ≡ true
named_true xs ys e = rw ((compare_texts-zero_iff xs ys).1 e)

pub zero_of : (i : ℤ) → is_zero i ≡ true → i ≡ pos 0
zero_of i h = ground arith

named_false : (xs ys : List ℕ) → xs ≢ ys → is_zero (compare_texts xs ys) ≡ false
named_false xs ys ne = elim (Bool-cases (is_zero (compare_texts xs ys))) [
  | inl same ↦ absurd (ne ((compare_texts-zero_iff xs ys).0 (zero_of (compare_texts xs ys) same)))
  | inr other ↦ other
]

module _ (st : Store) (name : List ℕ) where
  match_section :
      (ss : Tree) (s : Section) (ts : Tree)
      → SectionsHold st (ss ++ s ∷ ts)
      → NoSection name ss
      → s.name ≡ name
      → first_match (section_named st name) (section_hooks (ss ++ s ∷ ts)) ≡ sections_hook s.addr
  match_section [] s ts h none_before e =
      let hit = named_true (st.section_name s.addr) name (h.0.name ∙ e) in ground arith
  match_section (r ∷ ss) s ts h none_before e =
      let miss =
        named_false (st.section_name r.addr) name (λ q. none_before.0 (ground (arith, h.0.name))) in
      ground (arith, match_section ss s ts h.1 none_before.1 e)

  section_absent :
      (ss : Tree)
      → SectionsHold st ss
      → NoSection name ss
      → first_match (section_named st name) (section_hooks ss) ≡ null
  section_absent [] h absent = refl
  section_absent (r ∷ ss) h absent =
      let miss =
        named_false (st.section_name r.addr) name (λ q. absent.0 (ground (arith, h.0.name))) in
      ground (arith, section_absent ss h.1 absent.1)

  match_entry :
      (es : List Entry) (e : Entry) (fs : List Entry)
      → EntriesHold st (es ++ e ∷ fs)
      → NoEntry name es
      → e.name ≡ name
      → first_match (entry_named st name) (entry_hooks (es ++ e ∷ fs)) ≡ entry_hook e.addr
  match_entry [] e fs h none_before q =
      let hit = named_true (st.entry_name e.addr) name (h.0 ∙ q) in ground arith
  match_entry (r ∷ es) e fs h none_before q =
      let miss =
        named_false (st.entry_name r.addr) name (λ q. none_before.0 (ground (arith, h.0))) in
      ground (arith, match_entry es e fs h.3 none_before.1 q)

  entry_absent :
      (es : List Entry)
      → EntriesHold st es
      → NoEntry name es
      → first_match (entry_named st name) (entry_hooks es) ≡ null
  entry_absent [] h absent = refl
  entry_absent (r ∷ es) h absent =
      let miss = named_false (st.entry_name r.addr) name (λ q. absent.0 (ground (arith, h.0))) in
      ground (arith, entry_absent es h.3 absent.1)

pub length-section_hooks : (ss : Tree) → length (section_hooks ss) ≡ length ss
length-section_hooks [] = refl
length-section_hooks (s ∷ ss) = ap suc (length-section_hooks ss)

pub length-entry_hooks : (es : List Entry) → length (entry_hooks es) ≡ length es
length-entry_hooks [] = refl
length-entry_hooks (e ∷ es) = ap suc (length-entry_hooks es)

module _ (fuel : ℕ) (st : Store) (script : ℕ) (name : List ℕ) where
  pub search_sections :
      (ss : Tree)
      → IsTree st script ss
      → length ss < fuel
      → script_find_section fuel script name st ≡ (
          let o = first_match (section_named st name) (section_hooks ss) in
          some (if o == null then null else o - 32, st))
  unfolding script_find_section assert
  search_sections ss t q =
      let ok : (script == null) ≡ false = ground (arith, t.above 0) in
      let l = length-section_hooks ss in
      rw (
        ok,
        find_hook-first_match fuel (section_named st name) st.hooks script (section_hooks ss) t.ring
            (not_has-count 0 (section_hooks ss) (omega (arith, t.above 0 (omega arith))))
            (omega (arith, l)),
      )

  -- `script_find_section` gives the first section of the tree with the name, and NULL where there is
  -- none; it changes nothing.
  pub script_find_section_lem :
      (ss : Tree)
      → IsTree st script ss
      → length ss < fuel
      → ((front : Tree) (s : Section) (back : Tree)
          → ss ≡ front ++ s ∷ back
          → NoSection name front
          → s.name ≡ name
          → script_find_section fuel script name st ≡ some (s.addr, st))
        × (NoSection name ss → script_find_section fuel script name st ≡ some (null, st))
  script_find_section_lem ss t q = (
    λ front s back e before hit.
        search_sections ss t q
        ∙ rw (e, match_section st name front s back (rw e at t.sections) before hit) (ground arith),
    λ absent.
        search_sections ss t q ∙ rw (section_absent st name ss t.sections absent) (ground arith),
  )

module _ (fuel : ℕ) (st : Store) (script : ℕ) (name : List ℕ) (ss : Tree) (s : Section) (ts : Tree)
    (t : IsTree st script (ss ++ s ∷ ts)) where
  here : SectionHolds st s
  here = (SectionsHold-split st ss (s ∷ ts) t.sections).1.0

  low_free : (a : ℕ) → a ≤ 40 → count a (entries_hook s.addr ∷ entry_hooks s.entries) ≡ 0
  low_free a l = omega (arith, count_entries-append a ss (s ∷ ts), t.above a l)

  pub search_entries :
      length s.entries < fuel
      → script_find_entry fuel s.addr name st ≡ (
          let o = first_match (entry_named st name) (entry_hooks s.entries) in
          some (if o == null then null else o - 36, st))
  unfolding script_find_entry assert
  search_entries q =
      let ok : (s.addr == null) ≡ false = ground (arith, low_free (entries_hook s.addr)) in
      let l = length-entry_hooks s.entries in
      rw (
        ok,
        find_hook-first_match fuel (entry_named st name) st.hooks (entries_hook s.addr)
            (entry_hooks s.entries) here.ring
            (not_has-count 0 (entry_hooks s.entries) (omega (arith, low_free 0 (omega arith))))
            (omega (arith, l)),
      )

  -- `script_find_entry` gives the first entry of the section with the name, and NULL where there is
  -- none; it changes nothing.
  pub script_find_entry_lem :
      length s.entries < fuel
      → ((front : List Entry) (e : Entry) (back : List Entry)
          → s.entries ≡ front ++ e ∷ back
          → NoEntry name front
          → e.name ≡ name
          → script_find_entry fuel s.addr name st ≡ some (e.addr, st))
        × (NoEntry name s.entries → script_find_entry fuel s.addr name st ≡ some (null, st))
  script_find_entry_lem q = (
    λ front e back eq before hit.
        search_entries q
        ∙ rw (eq, match_entry st name front e back (rw eq at here.entries) before hit)
            (ground arith),
    λ absent.
        search_entries q ∙ rw (entry_absent st name s.entries here.entries absent) (ground arith),
  )

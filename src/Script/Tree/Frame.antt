-- ===== src/Script/Tree/Frame.antt =====
-- Sections that no write has touched.
use sunxi_babelfish.Common.{ℕ, ◌≤◌, ◌<◌, ◌≡◌, refl, List, [], ◌∷◌, arith, true}
use sunxi_babelfish.Hook.{Hooks}
use sunxi_babelfish.Hook.Ring.{has, IsRing, Links-frame}
use sunxi_babelfish.Script.Store.{Store, entries_hook, entry_hook}
use sunxi_babelfish.Script.Tree.{
  Entry, Section, Tree, count, entry_hooks, count_entries, EntriesHold, SectionHolds, SectionsHold,
  IsTree,
}
use sunxi_babelfish.Console.{Log}
use sunxi_babelfish.Script.Tree.Hooks.{has-count}

-- The fields of the structures below `p` are the same in both stores.
pub record SameBelow (p : ℕ) (st st' : Store) : Type 0 where
  pub section_name : (x : ℕ) → x < p → st'.section_name x ≡ st.section_name x
  pub entry_name : (x : ℕ) → x < p → st'.entry_name x ≡ st.entry_name x
  pub entry_type : (x : ℕ) → x < p → st'.entry_type x ≡ st.entry_type x
  pub payload : (x : ℕ) → x < p → st'.payload x ≡ st.payload x

-- A hook that has the same fields in both.
abbrev pub SameHook : Hooks → Hooks → ℕ → Type 0
SameHook m m' a = (m'.next a ≡ m.next a) × (m'.prev a ≡ m.prev a)

pub IsRing-frame :
    (m m' : Hooks) (h : ℕ) (xs : List ℕ)
    → ((a : ℕ) → has a (h ∷ xs) ≡ true → SameHook m m' a)
    → IsRing m h xs
    → IsRing m' h xs
IsRing-frame m m' h xs same r = record {
  links = Links-frame m m' h xs h (λ a i. (same a i).0) (λ a i. (same a i).1) r.links;
  distinct = r.distinct;
}

module _ (p : ℕ) (st st' : Store) (below : SameBelow p st st') where
  pub EntriesHold-frame :
      (es : List Entry)
      → ((a : ℕ) → 1 ≤ count a (entry_hooks es) → a < p)
      → EntriesHold st es
      → EntriesHold st' es
  EntriesHold-frame [] low h = tt
  EntriesHold-frame (e ∷ es) low h =
      let l : e.addr < p = ground (arith, low (entry_hook e.addr)) in
      (
        ground (arith, below.entry_name e.addr, h.0),
        ground (arith, below.entry_type e.addr, h.1),
        ground (arith, below.payload e.addr, h.2),
        EntriesHold-frame es (λ a i. low a (ground arith)) h.3,
      )

  pub SectionHolds-frame :
      (s : Section)
      → ((a : ℕ)
          → 1 ≤ count a (entries_hook s.addr ∷ entry_hooks s.entries)
          → (a < p) × SameHook st.hooks st'.hooks a)
      → SectionHolds st s
      → SectionHolds st' s
  SectionHolds-frame s same h =
      let l : s.addr < p = ground (arith, same (entries_hook s.addr)) in
      record {
        name = ground (arith, below.section_name s.addr, h.name);
        ring =
            IsRing-frame st.hooks st'.hooks (entries_hook s.addr) (entry_hooks s.entries)
              (λ a i. (same a (has-count a (entries_hook s.addr ∷ entry_hooks s.entries) i)).1)
              h.ring;
        entries = EntriesHold-frame s.entries (λ a i. (same a (ground arith)).0) h.entries;
      }

  pub SectionsHold-frame :
      (ss : Tree)
      → ((a : ℕ) → 1 ≤ count_entries a ss → (a < p) × SameHook st.hooks st'.hooks a)
      → SectionsHold st ss
      → SectionsHold st' ss
  SectionsHold-frame [] same h = tt
  SectionsHold-frame (s ∷ ss) same h = (
    SectionHolds-frame s (λ a i. same a (omega arith)) h.0,
    SectionsHold-frame ss (λ a i. same a (omega arith)) h.1,
  )

-- A tree stands for what it did after more has been printed.
pub IsTree-log :
    (st : Store) (l : Log) (script : ℕ) (ss : Tree)
    → IsTree st script ss
    → IsTree (record st { log = l }) script ss
IsTree-log st l script ss t = record {
  ring = t.ring;
  sections =
      SectionsHold-frame st.heap_base st (record st { log = l })
        (record {
          section_name = λ x q. refl;
          entry_name = λ x q. refl;
          entry_type = λ x q. refl;
          payload = λ x q. refl;
        })
        ss (λ a i. (ground (arith, t.fresh a), (refl, refl))) t.sections;
  once = t.once;
  fresh = t.fresh;
  above = t.above;
}

-- ===== src/Script/Tree/Hooks.antt =====
-- Counting the hooks of a tree.
use sunxi_babelfish.Common.{ℕ, ◌+◌, ◌≤◌, ◌<◌, ◌≡◌, refl, List, [], ◌∷◌, ◌++◌, arith, true, false}
use sunxi_babelfish.Hook.Ring.{has}
use sunxi_babelfish.Script.Store.{Store, entries_hook, sections_hook}
use sunxi_babelfish.Script.Tree.{
  Entry, Section, Tree, count, entry_hooks, section_hooks, count_entries, owned, IsTree,
}

pub count-append :
    (h : ℕ) (front back : List ℕ) → count h (front ++ back) ≡ count h front + count h back
count-append h [] back = omega arith
count-append h (o ∷ front) back = omega (arith, count-append h front back)

-- Membership by counting.
pub has-count : (a : ℕ) (xs : List ℕ) → has a xs ≡ true → 1 ≤ count a xs
has-count a [] h = absurd (ground arith)
has-count a (x ∷ xs) h = ground (arith, has-count a xs)

pub not_has-count : (a : ℕ) (xs : List ℕ) → count a xs ≡ 0 → has a xs ≡ false
not_has-count a [] h = refl
not_has-count a (x ∷ xs) h = ground (arith, not_has-count a xs)

pub section_hooks-append :
    (ss ts : Tree) → section_hooks (ss ++ ts) ≡ section_hooks ss ++ section_hooks ts
section_hooks-append [] ts = refl
section_hooks-append (s ∷ ss) ts = ground (arith, section_hooks-append ss ts)

pub entry_hooks-append :
    (es fs : List Entry) → entry_hooks (es ++ fs) ≡ entry_hooks es ++ entry_hooks fs
entry_hooks-append [] fs = refl
entry_hooks-append (e ∷ es) fs = ground (arith, entry_hooks-append es fs)

pub count_entries-append :
    (a : ℕ) (ss ts : Tree) → count_entries a (ss ++ ts) ≡ count_entries a ss + count_entries a ts
count_entries-append a [] ts = omega arith
count_entries-append a (s ∷ ss) ts = omega (arith, count_entries-append a ss ts)

-- What one more section uses.
pub owned_snoc :
    (a script : ℕ) (ss : Tree) (s : Section)
    → owned a script (ss ++ s ∷ [])
      ≡ owned a script ss
        + count a (sections_hook s.addr ∷ [])
        + count a (entries_hook s.addr ∷ entry_hooks s.entries)
owned_snoc a script ss s =
    rw
      (
        section_hooks-append ss (s ∷ []),
        count-append a (section_hooks ss) (sections_hook s.addr ∷ []),
        count_entries-append a ss (s ∷ []),
      )
      (omega arith)

module _ (st : Store) (script : ℕ) (ss : Tree) (t : IsTree st script ss) where
  -- Every hook that is used lies below the heap's base.
  pub owned-lt : (a : ℕ) → 1 ≤ owned a script ss → a < st.heap_base
  owned-lt a h = ground (arith, t.fresh a)

  pub main-lt : (a : ℕ) → has a (script ∷ section_hooks ss) ≡ true → a < st.heap_base
  main-lt a i = owned-lt a (omega (arith, has-count a (script ∷ section_hooks ss) i))

  -- A hook of a list of entries is none of the list of sections.
  pub not-main : (a : ℕ) → 1 ≤ count_entries a ss → has a (script ∷ section_hooks ss) ≡ false
  not-main a h = not_has-count a (script ∷ section_hooks ss) (omega (arith, t.once a))

-- ===== src/Script/Tree/Empty.antt =====
-- The loop of `script_section_delete` (lib/libfex/script.c) over the entries of a section.
use sunxi_babelfish.Common.{
  ℕ, zero, suc, ◌+◌, ◌-◌, ◌<◌, ◌≡◌, ◌∙◌, ap, refl, false, List, [], ◌∷◌, ◌++◌, ◌⊎◌, inl, inr,
  Option, some, ◌==◌, arith, length,
}
use mathlib.Core.Path.{subst}
use mathlib.Core.List.{append-nil}
use sunxi_babelfish.Memory.{null}
use sunxi_babelfish.Hook.{list_last}
use sunxi_babelfish.Hook.Walk.{list_ends, last_or_null}
use sunxi_babelfish.Hook.Ring.{final}
use sunxi_babelfish.Script.Store.{Store, entries_hook, entry_hook}
use sunxi_babelfish.Script.Delete.{script_entry_delete, delete_entries}
use sunxi_babelfish.Script.Tree.{Entry, Section, Tree, entry_hooks, IsTree}
use sunxi_babelfish.Script.Tree.Hooks.{entry_hooks-append}
use sunxi_babelfish.Script.Tree.Append.{SectionsHold-split}
use sunxi_babelfish.Script.Tree.Remove.{with_entries, script_entry_delete-IsTree}

-- A list is empty or has a last element.
pub snoc_view :
    {A : Type 0} (es : List A) → (es ≡ []) ⊎ ((front : List A) × (e : A) × (es ≡ front ++ e ∷ []))
snoc_view [] = inl refl
snoc_view (x ∷ xs) = elim (snoc_view xs) [
  | inl empty ↦ inr ([], x, ap (λ l. x ∷ l) empty)
  | inr (front, e, eq) ↦ inr (x ∷ front, e, ap (λ l. x ∷ l) eq)
]

final-snoc : (p o : ℕ) (xs : List ℕ) → final p (xs ++ o ∷ []) ≡ o
final-snoc p o [] = refl
final-snoc p o (x ∷ xs) = final-snoc x o xs

pub last_or_null-snoc : (xs : List ℕ) (o : ℕ) → last_or_null (xs ++ o ∷ []) ≡ o
last_or_null-snoc [] o = refl
last_or_null-snoc (x ∷ xs) o = final-snoc x o xs

pub length-snoc : {A : Type 0} (xs : List A) (e : A) → length (xs ++ e ∷ []) ≡ suc (length xs)
length-snoc [] e = refl
length-snoc (x ∷ xs) e = ap suc (length-snoc xs e)

module _ (script : ℕ) (ss : Tree) (s : Section) (ts : Tree) where
  pub record Emptied (r : Option Store) : Type 0 where
    pub st' : Store
    pub run : r ≡ some st'
    pub tree : IsTree st' script (ss ++ with_entries s [] ∷ ts)

  last_hook :
      (st : Store) (es : List Entry)
      → IsTree st script (ss ++ with_entries s es ∷ ts)
      → list_last (entries_hook s.addr) st.hooks ≡ last_or_null (entry_hooks es)
  last_hook st es t =
      let here = (SectionsHold-split st ss (with_entries s es ∷ ts) t.sections).1.0 in
      (list_ends st.hooks (entries_hook s.addr) (entry_hooks es) here.ring).1

  pub delete_entries-Emptied :
      (fuel : ℕ) (st : Store) (es : List Entry)
      → IsTree st script (ss ++ with_entries s es ∷ ts)
      → length es < fuel
      → Emptied (delete_entries fuel s.addr st)
  unfolding delete_entries
  delete_entries-Emptied zero st es t lt = absurd (omega arith)
  delete_entries-Emptied (suc f) st es t lt = elim (snoc_view es) [
    | inl empty ↦
        let t1 =
          subst (λ (l : List Entry). IsTree st script (ss ++ with_entries s l ∷ ts)) empty t in
        record { st' = st; run = rw (last_hook st [] t1) refl; tree = t1 }
    | inr (front, e, eq) ↦
        let t1 = subst (λ (l : List Entry). IsTree st script (ss ++ with_entries s l ∷ ts)) eq t in
        let t2 = script_entry_delete-IsTree st script ss s front e [] ts t1 in
        let t3 =
          subst
            (λ (l : List Entry).
              IsTree (script_entry_delete e.addr st) script (ss ++ with_entries s l ∷ ts))
            (append-nil front) t2 in
        let last : list_last (entries_hook s.addr) st.hooks ≡ entry_hook e.addr =
          last_hook st (front ++ e ∷ []) t1
          ∙ ap last_or_null (entry_hooks-append front (e ∷ []))
          ∙ last_or_null-snoc (entry_hooks front) (entry_hook e.addr) in
        let back : e.addr + 36 - 36 ≡ e.addr = omega arith in
        let some_hook : (entry_hook e.addr == null) ≡ false = ground arith in
        let shorter = ap length eq ∙ length-snoc front e in
        let r = delete_entries-Emptied f (script_entry_delete e.addr st) front t3 (omega arith) in
        record { st' = r.st'; run = rw (last, some_hook, back) r.run; tree = r.tree }
  ]

-- ===== src/Script/Calls/Base.antt =====
-- The destructors of lib/libfex/script.c leave the heap's base where it is.
use sunxi_babelfish.Common.{
  ℕ, zero, suc, ◌≡◌, ◌∙◌, ap, sym, Bool, true, false, ◌==◌, if◌then◌else◌, Option, some, bind_some,
  eq_of_some, ◌⊎◌, arith, inl, inr,
}
use sunxi_babelfish.Memory.{null}
use sunxi_babelfish.Hook.{list_last}
use sunxi_babelfish.Script.Store.{Store, entries_hook, entry_of, sections_hook, check}
use sunxi_babelfish.Script.Delete.{
  script_entry_delete, delete_entries, script_section_delete, unlink,
}

pub script_entry_delete-heap_base :
    (entry : ℕ) (st : Store) → (script_entry_delete entry st).heap_base ≡ st.heap_base
unfolding script_entry_delete
script_entry_delete-heap_base entry st = ground arith

unlink-heap_base : (o : ℕ) (st : Store) → (unlink o st).heap_base ≡ st.heap_base
unlink-heap_base o st = ground arith

ended_or_not :
    (b : Bool) (x : Store) (y : Option Store) {z : Store}
    → (if b then some x else y) ≡ some z
    → (x ≡ z) ⊎ (y ≡ some z)
ended_or_not true x y h = inl (eq_of_some h)
ended_or_not false x y h = inr h

pub delete_entries-heap_base :
    (fuel section : ℕ) (st : Store) {st' : Store}
    → delete_entries fuel section st ≡ some st'
    → st'.heap_base ≡ st.heap_base
unfolding delete_entries
delete_entries-heap_base zero section st h = absurd cc
delete_entries-heap_base (suc f) section st h =
    let o = list_last (entries_hook section) st.hooks in
    let st1 = script_entry_delete (entry_of o) st in
    elim (ended_or_not (o == null) st (delete_entries f section st1) h) [
      | inl e ↦ ap (λ (x : Store). x.heap_base) (sym e)
      | inr e ↦
          delete_entries-heap_base f section st1 e ∙ script_entry_delete-heap_base (entry_of o) st
    ]

pub script_section_delete-heap_base :
    (fuel section : ℕ) (st : Store) {st' : Store}
    → script_section_delete fuel section st ≡ some st'
    → st'.heap_base ≡ st.heap_base
unfolding script_section_delete
script_section_delete-heap_base fuel section st h =
    let (st1, run, e) =
      bind_some
        (delete_entries fuel section (check (section == null) "section" "script_section_delete" st))
        _ h in
    ap (λ (x : Store). x.heap_base) (sym (eq_of_some e))
    ∙ unlink-heap_base (sections_hook section) st1
    ∙ delete_entries-heap_base fuel section
        (check (section == null) "section" "script_section_delete" st) run

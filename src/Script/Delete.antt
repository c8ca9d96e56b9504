-- ===== src/Script/Delete.antt =====
-- The destructors of lib/libfex/script.c. `free` does nothing (include/memory.h), so all that they
-- do is to take hooks out of lists.
use sunxi_babelfish.Common.{
  ℕ, zero, suc, Bool, ◌||◌, Option, some, none, ◌==◌, if◌then◌else◌, ◌>>=◌, pure, [], ◌∷◌, ◌++◌,
}
use sunxi_babelfish.Memory.{null}
use sunxi_babelfish.Hook.{list_remove, list_last, list_empty}
use sunxi_babelfish.Script.Store.{
  Store, single_word_type, string_type, gpio_type, null_type, sections_hook, entries_hook,
  entry_hook, section_of, entry_of, check, free,
}
use sunxi_babelfish.Console.{str}

-- The value of `!type`, a number.
abbrev pub negated : ℕ → ℕ
negated t = if t == 0 then 1 else 0

-- `if (!entry->type == SINGLE_WORD || entry->type == STRING || ...)`, as the macro expands it.
unfoldable pub type_assertion_fires : ℕ → Bool
type_assertion_fires t =
    negated t == single_word_type || t == string_type || t == gpio_type || t == null_type

abbrev pub unlink : ℕ → Store → Store
unlink o st = if list_empty o st.hooks then st else record st { hooks = list_remove o st.hooks }

-- The `switch` over the type, which prints at an unknown one.
abbrev is_entry_type : ℕ → Bool
is_entry_type t = t == single_word_type || t == string_type || t == gpio_type || t == null_type

unfoldable pub script_entry_delete : (entry : ℕ) → Store → Store
unfolding type_assertion_fires
script_entry_delete entry st =
    let st1 = check (entry == null) "entry" "script_entry_delete" st in
    let st2 =
      check (type_assertion_fires (st1.entry_type entry))
        "entry->type == SCRIPT_VALUE_TYPE_SINGLE_WORD || entry->type == SCRIPT_VALUE_TYPE_STRING || entry->type == SCRIPT_VALUE_TYPE_GPIO || entry->type == SCRIPT_VALUE_TYPE_NULL"
        "script_entry_delete" st1 in
    let st3 = unlink (entry_hook entry) st2 in
    free entry (
      if is_entry_type (st3.entry_type entry)
      then st3
      else record st3 { log = st3.log ++ str "ERROR: Unrecognized value type\n" ∷ [] })

-- `while ((o = list_last(&section->entries))) script_entry_delete(...)`.
unfoldable pub delete_entries : (fuel : ℕ) → (section : ℕ) → Store → Option Store
delete_entries zero section st = none
delete_entries (suc f) section st =
    let o = list_last (entries_hook section) st.hooks in
    let rest = delete_entries f section (script_entry_delete (entry_of o) st) in
    if o == null then some st else rest

unfoldable pub script_section_delete : (fuel : ℕ) → (section : ℕ) → Store → Option Store
unfolding delete_entries
script_section_delete fuel section st = do
  st1 ← delete_entries fuel section (check (section == null) "section" "script_section_delete" st)
  pure (unlink (sections_hook section) st1)

-- `while ((o = list_last(&script->sections))) script_section_delete(...)`.
unfoldable pub delete_sections : (rounds fuel : ℕ) → (script : ℕ) → Store → Option Store
delete_sections zero fuel script st = none
delete_sections (suc r) fuel script st =
    let o = list_last script st.hooks in
    let rest = (do
      st1 ← script_section_delete fuel (section_of o) st
      delete_sections r fuel script st1) in
    if o == null then some st else rest

unfoldable pub script_delete : (fuel : ℕ) → (script : ℕ) → Store → Option Store
unfolding delete_sections
script_delete fuel script st = do
  st1 ← delete_sections fuel fuel script (check (script == null) "script" "script_delete" st)
  pure (free script st1)

-- ===== src/Script/Find.antt =====
-- The searches of lib/libfex/script.c: a walk over the hooks, with `strcmp` on the names.
use sunxi_babelfish.Common.{ℕ, List, Option, ◌==◌, if◌then◌else◌, ◌>>=◌, pure, Bool}
use sunxi_babelfish.Common.Int.{is_zero}
use sunxi_babelfish.Memory.{null}
use sunxi_babelfish.Cstring.Compare.{compare_texts}
use sunxi_babelfish.Hook.Walk.{find_hook}
use sunxi_babelfish.Script.Store.{Store, entries_hook, section_of, entry_of, check}

-- `strcmp(section->name, name) == 0` at the section whose hook is `o`.
abbrev pub section_named : Store → List ℕ → ℕ → Bool
section_named st name o = is_zero (compare_texts (st.section_name (section_of o)) name)

abbrev pub entry_named : Store → List ℕ → ℕ → Bool
entry_named st name o = is_zero (compare_texts (st.entry_name (entry_of o)) name)

unfoldable pub script_find_section :
    (fuel script : ℕ) → (name : List ℕ) → Store → Option (ℕ × Store)
script_find_section fuel script name st =
    let st1 = check (script == null) "script" "script_find_section" st in
    do
      o ← find_hook fuel (section_named st1 name) script st1.hooks
      pure (if o == null then null else section_of o, st1)

unfoldable pub script_find_entry : (fuel section : ℕ) → (name : List ℕ) → Store → Option (ℕ × Store)
script_find_entry fuel section name st =
    let st1 = check (section == null) "section" "script_find_entry" st in
    do
      o ← find_hook fuel (entry_named st1 name) (entries_hook section) st1.hooks
      pure (if o == null then null else entry_of o, st1)

-- ===== src/Script/New.antt =====
-- The constructors of lib/libfex/script.c. A name is a text, so its pointer is never NULL: of the
-- assertions on names, `assert(name)` holds, and `assert(name && *name)`, which the macro expands
-- to `if (!name && *name)`, cannot fire either.
use sunxi_babelfish.Common.{ℕ, List, ◌+◌, ◌==◌, if◌then◌else◌, take}
use sunxi_babelfish.Memory.{null}
use sunxi_babelfish.Hook.{list_init, list_append}
use sunxi_babelfish.Script.Store.{
  Payload, single, string, gpio, null_entry, type_of, Store, script_size, section_size, null_size,
  single_size, string_size, gpio_size, sections_hook, entries_hook, entry_hook, put, allocate,
  check,
}

unfoldable pub script_new : Store → ℕ × Store
script_new st =
    let (script, st1) = allocate script_size st in
    (script, if script == null then st1 else record st1 { hooks = list_init script st1.hooks })

-- The name, cut to 31 characters, and the two hooks.
abbrev fill_section : (script section : ℕ) → List ℕ → Store → Store
fill_section script section name st = record st {
  section_name = put st.section_name section (take 31 name);
  hooks = list_append script (sections_hook section) (list_init (entries_hook section) st.hooks);
}

unfoldable pub script_section_new : (script : ℕ) → (name : List ℕ) → Store → ℕ × Store
script_section_new script name st =
    let (section, st1) =
      allocate section_size (check (script == null) "script" "script_section_new" st) in
    (section, if section == null then st1 else fill_section script section name st1)

unfoldable pub script_entry_append : (section entry type : ℕ) → (name : List ℕ) → Store → Store
script_entry_append section entry type name st =
    let st1 =
      check (entry == null) "entry" "script_entry_append"
        (check (section == null) "section" "script_entry_append" st) in
    record st1 {
      entry_name = put st1.entry_name entry (take 31 name);
      entry_type = put st1.entry_type entry type;
      hooks = list_append (entries_hook section) (entry_hook entry) st1.hooks;
    }

-- The four constructors of entries have one shape: an allocation, the fields, the append.
unfoldable pub entry_new : (size section : ℕ) → (name : List ℕ) → Payload → Store → ℕ × Store
unfolding script_entry_append
entry_new size section name v st =
    let (entry, st1) = allocate size st in
    (
      entry,
      if entry == null
          then st1
          else script_entry_append section entry (type_of v) name
              (record st1 { payload = put st1.payload entry v }),
    )

unfoldable pub script_null_entry_new : (section : ℕ) → (name : List ℕ) → Store → ℕ × Store
unfolding entry_new
script_null_entry_new section name st =
    entry_new null_size section name null_entry
      (check (section == null) "section" "script_null_entry_new" st)

unfoldable pub script_single_entry_new :
    (section : ℕ) → (name : List ℕ) → (value : ℕ) → Store → ℕ × Store
unfolding entry_new
script_single_entry_new section name value st =
    entry_new single_size section name (single value)
      (check (section == null) "section" "script_single_entry_new" st)

-- `s` has `l` bytes.
unfoldable pub script_string_entry_new :
    (section : ℕ) → (name : List ℕ) → (l : ℕ) → (s : List ℕ) → Store → ℕ × Store
unfolding entry_new
script_string_entry_new section name l s st =
    entry_new (string_size + l + 1) section name (string l (take l s))
      (check (section == null) "section" "script_string_entry_new" st)

unfoldable pub script_gpio_entry_new :
    (section : ℕ) → (name : List ℕ) → (port num data0 data1 data2 data3 : ℕ) → Store → ℕ × Store
unfolding entry_new
script_gpio_entry_new section name port num d0 d1 d2 d3 st =
    entry_new gpio_size section name (gpio port num d0 d1 d2 d3)
      (check (section == null) "section" "script_gpio_entry_new" st)

-- ===== src/Script/Tree.antt =====
-- What a store stands for: the sections of a script, in order, each with its entries.
pub mod Hooks
pub mod Frame
pub mod Grow
pub mod Append
pub mod Lookup
pub mod Reading
pub mod Remove
pub mod Unlink
pub mod Empty
pub mod Drop
mod Tests
use sunxi_babelfish.Common.{
  ℕ, ◌+◌, ◌≤◌, ◌<◌, ◌≡◌, List, [], ◌∷◌, ◌++◌, ◌==◌, if◌then◌else◌, map, length,
}
use sunxi_babelfish.Hook.Ring.{IsRing}
use sunxi_babelfish.Script.Store.{
  Payload, type_of, Store, script_size, section_size, null_size, sections_hook, entries_hook,
  entry_hook,
}

-- An entry and a section of the tree, with the addresses of their structures.
pub record Entry : Type 0 where
  pub addr : ℕ
  pub name : List ℕ
  pub payload : Payload

pub record Section : Type 0 where
  pub addr : ℕ
  pub name : List ℕ
  pub entries : List Entry

abbrev pub Tree : Type 0
Tree = List Section

-- No section has `fuel` entries.
abbrev pub IsShort : ℕ → Tree → Type 0
IsShort fuel [] = Unit {0}
IsShort fuel (s ∷ ss) = (length s.entries < fuel) × IsShort fuel ss

-- How often an address stands in a list.
abbrev pub count : ℕ → List ℕ → ℕ
count a [] = 0
count a (x ∷ xs) = (if a == x then 1 else 0) + count a xs

abbrev pub entry_hooks : List Entry → List ℕ
entry_hooks [] = []
entry_hooks (e ∷ es) = entry_hook e.addr ∷ entry_hooks es

abbrev pub section_hooks : Tree → List ℕ
section_hooks [] = []
section_hooks (s ∷ ss) = sections_hook s.addr ∷ section_hooks ss

-- How many lists of entries a hook is on, or heads.
abbrev pub count_entries : ℕ → Tree → ℕ
count_entries a [] = 0
count_entries a (s ∷ ss) =
    count a (entries_hook s.addr ∷ entry_hooks s.entries) + count_entries a ss

-- How often a hook is used in the whole tree.
abbrev pub owned : ℕ → ℕ → Tree → ℕ
owned a script ss = count a (script ∷ section_hooks ss) + count_entries a ss

-- The fields of the entries.
abbrev pub EntriesHold : Store → List Entry → Type 0
EntriesHold st [] = Unit {0}
EntriesHold st (e ∷ es) =
    (st.entry_name e.addr ≡ e.name)
    × (st.entry_type e.addr ≡ type_of e.payload)
    × (st.payload e.addr ≡ e.payload)
    × EntriesHold st es

pub record SectionHolds (st : Store) (s : Section) : Type 0 where
  pub name : st.section_name s.addr ≡ s.name
  pub ring : IsRing st.hooks (entries_hook s.addr) (entry_hooks s.entries)
  pub entries : EntriesHold st s.entries

abbrev pub SectionsHold : Store → Tree → Type 0
SectionsHold st [] = Unit {0}
SectionsHold st (s ∷ ss) = SectionHolds st s × SectionsHold st ss

-- In `st` the script at `script` is the tree `ss`: each list of hooks is a ring, the structures
-- hold the fields, no hook is used twice, and all hooks lie below the heap's base and above the
-- address 40, so that no structure is at NULL.
pub record IsTree (st : Store) (script : ℕ) (ss : Tree) : Type 0 where
  pub ring : IsRing st.hooks script (section_hooks ss)
  pub sections : SectionsHold st ss
  pub once : (a : ℕ) → owned a script ss ≤ 1
  pub fresh : (a : ℕ) → st.heap_base ≤ a → owned a script ss ≡ 0
  pub above : (a : ℕ) → a ≤ 40 → owned a script ss ≡ 0

-- ===== src/Script/Tree/Tests.antt =====
-- A script of one section with one entry.
use sunxi_babelfish.Common.{ℕ, ◌≡◌, ◌+◌, List, [], ◌∷◌, ◌++◌, some, arith}
use sunxi_babelfish.Memory.{null}
use sunxi_babelfish.Malloc.{aligned, malloc}
use sunxi_babelfish.Console.{codes}
use sunxi_babelfish.Script.Store.{Store, null_entry, single, script_size, section_size, single_size}
use sunxi_babelfish.Script.New.{script_new, script_section_new, entry_new}
use sunxi_babelfish.Script.Delete.{script_entry_delete, script_delete}
use sunxi_babelfish.Script.Tree.Drop.{Dropped, script_delete-Dropped}
use sunxi_babelfish.Script.Tree.Remove.{with_entries, script_entry_delete-IsTree}
use sunxi_babelfish.Script.Find.{script_find_section, script_find_entry}
use sunxi_babelfish.Script.Tree.{Entry, Section, Tree, IsTree}
use sunxi_babelfish.Script.Tree.Grow.{
  HasRoom, new_section, script_new-IsTree, script_section_new-IsTree,
}
use sunxi_babelfish.Script.Tree.Append.{new_entry, add_entry, entry_new-IsTree}
use sunxi_babelfish.Script.Tree.Lookup.{
  NoSection, NoEntry, script_find_section_lem, script_find_entry_lem,
}

abbrev start : Store
start = record {
  hooks = record { prev = λ _. 0; next = λ _. 0 };
  heap_base = 4096;
  section_name = λ _. [];
  entry_name = λ _. [];
  entry_type = λ _. 0;
  payload = λ _. null_entry;
  log = [];
}

abbrev name : List ℕ
name = codes "uart_para"

abbrev key : List ℕ
key = codes "uart_debug_port"

start-HasRoom : HasRoom script_size start
start-HasRoom = record { positive = omega arith; fits = omega arith }

-- The script is at 4096, its section at 4104 and the entry at 4152.
abbrev st1 : Store
st1 = (script_new start).1

st1-IsTree : IsTree st1 4096 []
unfolding script_new malloc
st1-IsTree = (script_new-IsTree start start-HasRoom).1

st1-HasRoom : HasRoom section_size st1
unfolding script_new malloc
st1-HasRoom = record { positive = omega arith; fits = omega arith }

abbrev st2 : Store
st2 = (script_section_new 4096 name st1).1

abbrev tree2 : Tree
tree2 = new_section 4104 name ∷ []

st2-IsTree : IsTree st2 4096 tree2
unfolding script_new malloc script_section_new
st2-IsTree = (script_section_new-IsTree st1 4096 name [] st1-IsTree st1-HasRoom).2

st2-HasRoom : HasRoom single_size st2
unfolding script_new malloc script_section_new
st2-HasRoom = record { positive = omega arith; fits = omega arith }

entry_new-IsTree_example :
    let (entry, st') = entry_new single_size 4104 key (single 0) st2 in
    (entry ≡ st2.heap_base)
    × (st'.heap_base ≡ st2.heap_base + aligned single_size)
    × IsTree st' 4096
        ([] ++ add_entry (new_section 4104 name) (new_entry entry key (single 0)) ∷ [])
entry_new-IsTree_example =
    entry_new-IsTree st2 4096 single_size key (single 0) [] (new_section 4104 name) [] st2-IsTree
      (omega arith) st2-HasRoom

abbrev st3 : Store
st3 = (entry_new single_size 4104 key (single 0) st2).1

abbrev tree3 : Tree
tree3 = add_entry (new_section 4104 name) (new_entry 4152 key (single 0)) ∷ []

st3-IsTree : IsTree st3 4096 tree3
unfolding script_new malloc script_section_new entry_new
st3-IsTree =
    (entry_new-IsTree st2 4096 single_size key (single 0) [] (new_section 4104 name) [] st2-IsTree
      (omega arith) st2-HasRoom).2

script_find_section_lem_example :
    ((front : Tree) (s : Section) (back : Tree)
      → tree3 ≡ front ++ s ∷ back
      → NoSection name front
      → s.name ≡ name
      → script_find_section 2 4096 name st3 ≡ some (s.addr, st3))
    × (NoSection name tree3 → script_find_section 2 4096 name st3 ≡ some (null, st3))
script_find_section_lem_example =
    script_find_section_lem 2 st3 4096 name tree3 st3-IsTree (omega arith)

abbrev filled : Section
filled = add_entry (new_section 4104 name) (new_entry 4152 key (single 0))

script_find_entry_lem_example :
    ((front : List Entry) (e : Entry) (back : List Entry)
      → filled.entries ≡ front ++ e ∷ back
      → NoEntry key front
      → e.name ≡ key
      → script_find_entry 2 filled.addr key st3 ≡ some (e.addr, st3))
    × (NoEntry key filled.entries → script_find_entry 2 filled.addr key st3 ≡ some (null, st3))
script_find_entry_lem_example =
    script_find_entry_lem 2 st3 4096 key [] filled [] st3-IsTree (omega arith)

script_entry_delete-IsTree_example :
    IsTree
      (script_entry_delete 4152 st3)
      4096
      ([] ++ with_entries (new_section 4104 name) ([] ++ []) ∷ [])
script_entry_delete-IsTree_example =
    script_entry_delete-IsTree st3 4096 [] (new_section 4104 name) []
      (new_entry 4152 key (single 0)) [] [] st3-IsTree

script_delete-Dropped_example : Dropped 4096 [] (script_delete 2 4096 st3)
script_delete-Dropped_example =
    script_delete-Dropped 2 st3 4096 tree3 st3-IsTree (omega arith, tt) (omega arith)

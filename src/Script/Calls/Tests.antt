-- ===== src/Script/Calls/Tests.antt =====
-- A script with two sections and an entry, of which one of each is taken out again.
use sunxi_babelfish.Common.{ℕ, ◌+◌, List, [], ◌∷◌, arith}
use sunxi_babelfish.Console.{codes}
use sunxi_babelfish.Malloc.{aligned}
use sunxi_babelfish.Script.Store.{Store, null_entry, single, script_size}
use sunxi_babelfish.Script.New.{script_new}
use sunxi_babelfish.Script.Tree.{Tree, Section}
use sunxi_babelfish.Script.Tree.Grow.{new_section}
use sunxi_babelfish.Script.Tree.Append.{new_entry, add_entry}
use sunxi_babelfish.Script.Tree.Drop.{Dropped}
use sunxi_babelfish.Script.Calls.{
  Call, section_new, section_delete, find_section, entry_new, entry_delete, find_entry, calls,
  lifetime, Changes, done, after, section_added, section_removed, section_sought, entry_removed,
  entry_added, entry_sought,
}
use sunxi_babelfish.Script.Calls.Lifetime.{lifetime-Dropped}

abbrev start : Store
start = record {
  hooks = record { prev = λ _. 0; next = λ _. 0 };
  heap_base = 4096;
  section_name = λ _. [];
  entry_name = λ _. [];
  entry_type = λ _. 0;
  payload = λ _. null_entry;
  log = [];
}

abbrev name : List ℕ
name = codes "uart_para"

abbrev key : List ℕ
key = codes "uart_debug_port"

-- The script is at 4096, the sections at 4104 and 4200, and the entry at 4152.
abbrev program : List Call
program =
    section_new name
    ∷ entry_new 4104 key (single 0)
    ∷ find_entry 4104 key
    ∷ section_new key
    ∷ find_section name
    ∷ entry_delete 4152
    ∷ section_delete 4200
    ∷ []

abbrev empty : Section
empty = new_section 4104 name

abbrev left : Tree
left = empty ∷ []

program-Changes : Changes 3 (4096 + aligned script_size) program [] left
unfolding aligned
program-Changes =
    let filled = add_entry empty (new_entry 4152 key (single 0)) in
    let other = new_section 4200 key in
    after (section_added name) (
      after (entry_added [] empty [] key (single 0)) (
        after (entry_sought [] filled [] key (omega arith)) (
          after (section_added key) (
            after (section_sought name (omega arith)) (
              after (entry_removed [] empty [] (new_entry 4152 key (single 0)) [] (other ∷ []))
                (after (section_removed left other [] (omega arith)) done))))))

lifetime-Dropped_example :
    Dropped 4096 left (calls 3 4096 program (script_new start).1)
    × Dropped 4096 [] (lifetime 3 program start)
lifetime-Dropped_example =
    lifetime-Dropped 3 program start left (omega arith) (omega arith) program-Changes
      (omega arith, tt) (omega arith)

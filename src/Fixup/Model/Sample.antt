-- ===== src/Fixup/Model/Sample.antt =====
-- A FEX file that names the machine, made by the calls of lib/libfex/script.c.
use sunxi_babelfish.Common.{ℕ, ◌+◌, List, [], ◌∷◌, refl, arith}
use sunxi_babelfish.Console.{codes}
use sunxi_babelfish.Malloc.{aligned}
use sunxi_babelfish.Script.Store.{Store, null_entry, string, script_size}
use sunxi_babelfish.Script.New.{script_new}
use sunxi_babelfish.Script.Tree.{Section, Entry}
use sunxi_babelfish.Script.Tree.Grow.{new_section}
use sunxi_babelfish.Script.Tree.Append.{new_entry, add_entry}
use sunxi_babelfish.Script.Tree.Drop.{Dropped}
use sunxi_babelfish.Script.Calls.{
  Call, section_new, entry_new, calls, Changes, done, after, section_added, entry_added,
}
use sunxi_babelfish.Script.Calls.Lifetime.{lifetime-Dropped}
use sunxi_babelfish.Fixup.Machine.{c_text}
use sunxi_babelfish.Fixup.Model.{Names}

abbrev pub start : Store
start = record {
  hooks = record { prev = λ _. 0; next = λ _. 0 };
  heap_base = 4096;
  section_name = λ _. [];
  entry_name = λ _. [];
  entry_type = λ _. 0;
  payload = λ _. null_entry;
  log = [];
}

abbrev pub model : List ℕ
model = codes "cubieboard"

abbrev pub program : List Call
program = section_new (codes "product") ∷ entry_new 4104 (codes "machine") (string 10 model) ∷ []

abbrev pub machine : Entry
machine = new_entry 4152 (codes "machine") (string 10 model)

abbrev pub product : Section
product = add_entry (new_section 4104 (codes "product")) machine

program-Changes : Changes 2 (4096 + aligned script_size) program [] (product ∷ [])
unfolding aligned
program-Changes = after (section_added (codes "product")) (
    after
      (entry_added [] (new_section 4104 (codes "product")) [] (codes "machine") (string 10 model))
      done)

-- The store after these calls.
pub made : Dropped 4096 (product ∷ []) (calls 2 4096 program (script_new start).1)
made =
    (lifetime-Dropped 2 program start (product ∷ []) (omega arith) (omega arith) program-Changes
      (omega arith, tt) (omega arith)).0

pub made-Names : Names 2 4096 made.st' model
unfolding c_text
made-Names = record {
  before = [];
  product = product;
  after = [];
  tree = made.tree;
  first_section = tt;
  section_named = refl;
  sections_short = omega arith;
  entries_before = [];
  machine = machine;
  entries_after = [];
  entries = refl;
  first_entry = tt;
  entry_named = refl;
  entries_short = omega arith;
  size = 10;
  text = model;
  is_string = refl;
  reads = refl;
}

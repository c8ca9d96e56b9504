-- ===== src/ScriptBin/Tests.antt =====
-- An image of one section with three entries: a word, a string and a GPIO.
use sunxi_babelfish.Common.{
  ℕ, ◌+◌, ◌-◌, ◌≡◌, refl, true, List, [], ◌∷◌, ◌++◌, some, take, get_or, arith,
}
use sunxi_babelfish.Memory.{Memory}
use sunxi_babelfish.Malloc.{malloc}
use sunxi_babelfish.Console.{codes}
use sunxi_babelfish.Libfdt.{}
use sunxi_babelfish.Script.Store.{Store, null_entry, single, single_size, string, gpio, single_size}
use sunxi_babelfish.Script.New.{script_new, script_section_new, entry_new}
use sunxi_babelfish.Script.Tree.{Tree, IsTree}
use sunxi_babelfish.Script.Tree.Grow.{script_new-IsTree, new_section, script_section_new-IsTree}
use sunxi_babelfish.Script.Tree.Append.{new_entry, add_entry, entry_new-IsTree}
use sunxi_babelfish.ScriptBin.Size.{script_bin_size}
use sunxi_babelfish.ScriptBin.Size.Total.{file_size, script_bin_size_lem}
use sunxi_babelfish.ScriptBin.Size.Count.{used_sections, tree_entries}
use sunxi_babelfish.ScriptBin.{section_count, script_decompile_bin}
use sunxi_babelfish.ScriptBin.Image.{word, read_text, read_bytes, seek, head_size}
use sunxi_babelfish.ScriptBin.Parse.{
  Group, groups_of, payload_at, parse_entries, parse_section, parse_sections,
}
use sunxi_babelfish.ScriptBin.Sections.{script_decompile_bin-IsTree}

abbrev zeros : List ℕ
zeros = 0 ∷ 0 ∷ 0 ∷ 0 ∷ 0 ∷ 0 ∷ 0 ∷ 0 ∷ []

abbrev zeros32 : List ℕ
zeros32 = zeros ++ zeros ++ zeros ++ zeros

-- A name, in 32 bytes.
abbrev label : List ℕ → List ℕ
label text = take 32 (text ++ zeros32)

-- A small word, the least byte first.
abbrev small : ℕ → List ℕ
small v = v ∷ 0 ∷ 0 ∷ 0 ∷ []

-- The words of a pattern.
abbrev pattern_of : (type words : ℕ) → List ℕ
pattern_of type words = words ∷ 0 ∷ type ∷ 0 ∷ []

abbrev head : List ℕ
head = small 1 ++ small 1 ++ small 0 ++ small 2

abbrev section : List ℕ
section = label (codes "uart_para0") ++ small 3 ++ small 14

-- The entries begin at 56 and the values at 176, which is 44 words from the start.
abbrev entries : List ℕ
entries =
    label (codes "uart_used")
    ++ small 44
    ++ pattern_of 1 1
    ++ (label (codes "machine") ++ small 45 ++ pattern_of 2 1)
    ++ (label (codes "uart_tx") ++ small 46 ++ pattern_of 4 6)

abbrev values : List ℕ
values =
    small 1
    ++ (codes "A20" ++ 0 ∷ [])
    ++ (small 2 ++ small 22 ++ small 2 ++ small 1 ++ small 3 ++ small 0)

abbrev bin : ℕ
bin = 1048576

abbrev bytes : List ℕ
bytes = head ++ (section ++ (entries ++ values))

abbrev image : Memory
image a = get_or bytes (a - bin) 0

abbrev groups : List Group
groups =
    (
      codes "uart_para0",
      (codes "uart_used", single 1)
          ∷ (codes "machine", string 3 (codes "A20"))
          ∷ (codes "uart_tx", gpio 2 22 2 1 3 0)
          ∷ [],
    )
    ∷ []

image-groups : parse_sections 20 image bin (section_count image bin) (bin + head_size) ≡ some groups
unfolding parse_sections parse_section parse_entries payload_at word read_text read_bytes seek
image-groups = refl

abbrev start : Store
start = record {
  hooks = record { prev = λ _. 0; next = λ _. 0 };
  heap_base = 4096;
  section_name = λ _. [];
  entry_name = λ _. [];
  entry_type = λ _. 0;
  payload = λ _. null_entry;
  log = [];
}

abbrev st1 : Store
st1 = (script_new start).1

st1-IsTree : IsTree st1 4096 []
unfolding script_new malloc
st1-IsTree = (script_new-IsTree start (record { positive = omega arith; fits = omega arith })).1

script_decompile_bin-IsTree_example :
    (st' : Store) × (tree : Tree) × (script_decompile_bin 20 image bin 4096 st1 ≡ some (true, st'))
    × IsTree st' 4096 tree
    × (groups_of tree ≡ groups)
unfolding script_new malloc
script_decompile_bin-IsTree_example =
    script_decompile_bin-IsTree 20 image bin 4096 st1 groups st1-IsTree image-groups (omega arith)
      (omega arith)

-- A section at 4104 with one entry at 4152.
abbrev name : List ℕ
name = codes "uart_para"

abbrev key : List ℕ
key = codes "uart_debug_port"

abbrev st2 : Store
st2 = (script_section_new 4096 name st1).1

st2-IsTree : IsTree st2 4096 (new_section 4104 name ∷ [])
unfolding script_new malloc script_section_new
st2-IsTree =
    (script_section_new-IsTree st1 4096 name [] st1-IsTree
      (record { positive = omega arith; fits = omega arith })).2

abbrev st3 : Store
st3 = (entry_new single_size 4104 key (single 0) st2).1

abbrev tree3 : Tree
tree3 = add_entry (new_section 4104 name) (new_entry 4152 key (single 0)) ∷ []

st3-IsTree : IsTree st3 4096 tree3
unfolding script_new malloc script_section_new entry_new
st3-IsTree =
    (entry_new-IsTree st2 4096 single_size key (single 0) [] (new_section 4104 name) [] st2-IsTree
      (omega arith) (record { positive = omega arith; fits = omega arith })).2

script_bin_size_lem_example :
    script_bin_size 2 4096 st3
    ≡ some ((file_size tree3, used_sections tree3, tree_entries tree3), st3)
script_bin_size_lem_example =
    script_bin_size_lem 2 st3 4096 tree3 st3-IsTree (omega arith) (omega arith, tt) (omega arith)
      (omega arith)

-- The head, a section, an entry and a word.
file_size-tree3 : file_size tree3 ≡ 100
file_size-tree3 = refl

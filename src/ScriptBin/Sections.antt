-- ===== src/ScriptBin/Sections.antt =====
-- `decompile_section` and `script_decompile_bin` build the tree that the image says.
use sunxi_babelfish.Common.{
  ℕ, zero, suc, ◌+◌, ◌^◌, ◌≤◌, ◌<◌, ◌≡◌, ◌∙◌, ap, sym, refl, Bool, true, List, [], ◌∷◌, ◌++◌,
  Option, some, ◌>>=◌, pure, arith, take, bind_some, eq_of_some,
}
use mathlib.Core.Path.{subst, ap₂}
use mathlib.Core.List.{append-nil, append_assoc}
use sunxi_babelfish.Memory.{Memory}
use sunxi_babelfish.Malloc.{aligned_lem}
use sunxi_babelfish.Console.{}
use sunxi_babelfish.Script.Store.{Store, section_size}
use sunxi_babelfish.Script.New.{script_section_new}
use sunxi_babelfish.Script.Tree.{Tree, IsTree}
use sunxi_babelfish.Script.Tree.Frame.{IsTree-log}
use sunxi_babelfish.Script.Tree.Grow.{new_section, script_section_new-IsTree}
use sunxi_babelfish.ScriptBin.Image.{
  read_text, ptr, section_length, section_offset, section_stride, head_size,
}
use sunxi_babelfish.ScriptBin.Parse.{
  Item, Group, items_of, groups_of, parse_entries, parse_section, parse_sections, items_room,
  groups_room,
}
use sunxi_babelfish.ScriptBin.Entries.{add_entries, decompile_entries-Added}
use sunxi_babelfish.ScriptBin.{
  decompile_entries, decompile_section, decompile_sections, section_count, script_decompile_bin,
}

groups_of-append : (ss ts : Tree) → groups_of (ss ++ ts) ≡ groups_of ss ++ groups_of ts
groups_of-append [] ts = refl
groups_of-append (s ∷ ss) ts = ap (λ l. (s.name, items_of s.entries) ∷ l) (groups_of-append ss ts)

-- What a loop over sections comes to: it goes through, and the tree has the groups behind what it
-- had.
pub record Built (script : ℕ) (ss : Tree) (st : Store) (gs : List Group) (r : Option (Bool × Store))
    : Type 0 where
  pub st' : Store
  pub added : Tree
  pub run : r ≡ some (true, st')
  pub tree : IsTree st' script (ss ++ added)
  pub groups_eq : groups_of added ≡ gs
  pub base : (st.heap_base ≤ st'.heap_base) × (st'.heap_base ≤ st.heap_base + groups_room gs)

parse_section-some :
    (fuel : ℕ) (m : Memory) (bin section : ℕ) (g : Group)
    → parse_section fuel m bin section ≡ some g
    → (name : List ℕ) × (items : List Item) × (read_text fuel m section ≡ some name)
      × (parse_entries fuel m bin (section_length m section) (ptr bin (section_offset m section))
          ≡ some items)
      × (g ≡ (take 31 name, items))
unfolding parse_section
parse_section-some fuel m bin section g e =
    let (name, read, e1) =
      bind_some (read_text fuel m section)
        (λ n.
          parse_entries fuel m bin (section_length m section) (ptr bin (section_offset m section))
          >>= λ r. pure (take 31 n, r))
        (e) in
    let (items, parsed, e2) =
      bind_some
        (parse_entries fuel m bin (section_length m section) (ptr bin (section_offset m section)))
        (λ r. pure (take 31 name, r)) e1 in
    (name, items, read, parsed, sym (eq_of_some e2))

-- A section that is started and filled.
decompile_section-start :
    (fuel : ℕ) (m : Memory) (bin section script : ℕ) (name : List ℕ) (st : Store)
    → read_text fuel m section ≡ some name
    → 40 < (script_section_new script name st).0
    → decompile_section fuel m bin section script st
      ≡ decompile_entries fuel m bin
          (script_section_new script name st).0
          (section_length m section)
          (ptr bin (section_offset m section))
          (script_section_new script name st).1
unfolding decompile_section
decompile_section-start fuel m bin section script name st read nz = rw read (ground arith)

decompile_section-Built :
    (fuel : ℕ) (m : Memory) (bin section script : ℕ) (st : Store) (ss : Tree) (g : Group)
    → IsTree st script ss
    → parse_section fuel m bin section ≡ some g
    → 40 < st.heap_base
    → st.heap_base + groups_room (g ∷ []) ≤ 2 ^ 32
    → Built script ss st (g ∷ []) (decompile_section fuel m bin section script st)
decompile_section-Built fuel m bin section script st ss g t e low fits =
    let (name, items, read, parsed, eq) = parse_section-some fuel m bin section g e in
    let room : groups_room (g ∷ []) ≡ section_size + 4 + items_room items + 0 =
      ap (λ (h : Group). groups_room (h ∷ [])) eq in
    let (ge, lt, whole) = aligned_lem section_size (omega arith) in
    let new = script_section_new script name st in
    let (at, base, tree) =
      script_section_new-IsTree st script name ss t
        (record { positive = low; fits = omega arith }) in
    let s = new_section new.0 name in
    let r =
      decompile_entries-Added fuel m bin (section_length m section)
        (ptr bin (section_offset m section)) script new.1 ss s items tree parsed (omega arith)
        (omega arith) in
    record {
      st' = r.st';
      added = add_entries s r.es ∷ [];
      run = decompile_section-start fuel m bin section script name st read (omega arith) ∙ r.run;
      tree = r.tree;
      groups_eq =
          ap (λ (l : List Item). (take 31 name, l) ∷ []) r.items_eq
          ∙ ap (λ (h : Group). h ∷ []) (sym eq);
      base = omega (arith, r.base);
    }

parse_sections-some :
    (fuel : ℕ) (m : Memory) (bin k section : ℕ) (gs : List Group)
    → parse_sections fuel m bin (suc k) section ≡ some gs
    → (g : Group) × (rest : List Group) × (parse_section fuel m bin section ≡ some g)
      × (parse_sections fuel m bin k (section + section_stride) ≡ some rest)
      × (gs ≡ g ∷ rest)
unfolding parse_sections
parse_sections-some fuel m bin k section gs e =
    let (g, first, e1) =
      bind_some (parse_section fuel m bin section)
        (λ g. parse_sections fuel m bin k (section + section_stride) >>= λ r. pure (g ∷ r)) e in
    let (rest, parsed, e2) =
      bind_some (parse_sections fuel m bin k (section + section_stride)) (λ r. pure (g ∷ r)) e1 in
    (g, rest, first, parsed, sym (eq_of_some e2))

decompile_sections-step :
    (fuel : ℕ) (m : Memory) (bin k section script : ℕ) (st st1 : Store)
    → decompile_section fuel m bin section script st ≡ some (true, st1)
    → decompile_sections fuel m bin (suc k) section script st
      ≡ decompile_sections fuel m bin k (section + section_stride) script st1
unfolding decompile_sections
decompile_sections-step fuel m bin k section script st st1 h = rw (h, decompile_sections)

groups_room-append :
    (g : Group) (gs : List Group) → groups_room (g ∷ gs) ≡ groups_room (g ∷ []) + groups_room gs
groups_room-append g gs = omega arith

decompile_sections-Built :
    (fuel : ℕ) (m : Memory) (bin k section script : ℕ) (st : Store) (ss : Tree) (gs : List Group)
    → IsTree st script ss
    → parse_sections fuel m bin k section ≡ some gs
    → 40 < st.heap_base
    → st.heap_base + groups_room gs ≤ 2 ^ 32
    → Built script ss st gs (decompile_sections fuel m bin k section script st)
unfolding decompile_sections parse_sections
decompile_sections-Built fuel m bin zero section script st ss gs t e low fits = record {
  st' = st;
  added = [];
  run = refl;
  tree = subst (λ (l : Tree). IsTree st script l) (sym (append-nil ss)) t;
  groups_eq = eq_of_some e;
  base = omega arith;
}
decompile_sections-Built fuel m bin (suc k) section script st ss gs t e low fits =
    let (g, rest, first, parsed, eq) = parse_sections-some fuel m bin k section gs e in
    let room = ap groups_room eq in
    let split = groups_room-append g rest in
    let a = decompile_section-Built fuel m bin section script st ss g t first low (omega arith) in
    let b =
      decompile_sections-Built fuel m bin k (section + section_stride) script a.st' (ss ++ a.added)
        rest a.tree parsed (omega (arith, a.base)) (omega (arith, a.base)) in
    record {
      st' = b.st';
      added = a.added ++ b.added;
      run = decompile_sections-step fuel m bin k section script st a.st' a.run ∙ b.run;
      tree = subst (λ (l : Tree). IsTree b.st' script l) (append_assoc ss a.added b.added) b.tree;
      groups_eq =
          groups_of-append a.added b.added
          ∙ ap₂ (λ (x y : List Group). x ++ y) a.groups_eq b.groups_eq
          ∙ sym eq;
      base = omega (arith, a.base, b.base);
    }

-- Whatever image can be read, with a heap that has room for it: `script_decompile_bin` returns 1,
-- and the script that was empty then stands for the sections and entries of the image, in order,
-- with names cut to 31 characters and entries of unknown kinds left out.
pub script_decompile_bin-IsTree :
    (fuel : ℕ) (m : Memory) (bin script : ℕ) (st : Store) (gs : List Group)
    → IsTree st script []
    → parse_sections fuel m bin (section_count m bin) (bin + head_size) ≡ some gs
    → 40 < st.heap_base
    → st.heap_base + groups_room gs ≤ 2 ^ 32
    → (st' : Store) × (tree : Tree) × (script_decompile_bin fuel m bin script st ≡ some (true, st'))
      × IsTree st' script tree
      × (groups_of tree ≡ gs)
unfolding script_decompile_bin
script_decompile_bin-IsTree fuel m bin script st gs t e low fits =
    let b =
      decompile_sections-Built fuel m bin (section_count m bin) (bin + head_size) script
        (record st { log = _ }) [] gs (IsTree-log st _ script [] t) e low fits in
    (b.st', b.added, b.run, b.tree, b.groups_eq)

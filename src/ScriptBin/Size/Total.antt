-- ===== src/ScriptBin/Size/Total.antt =====
-- `script_bin_size` of lib/libfex/script_bin.c on a whole tree.
use sunxi_babelfish.Common.{
  ℕ, ◌+◌, ◌*◌, ◌%◌, ◌^◌, ◌<◌, ◌≤◌, ◌≡◌, ◌∙◌, refl, [], ◌∷◌, some, ltb, if◌then◌else◌, arith, length,
}
use sunxi_babelfish.Hook.Loop.{each, loop_hooks_lem}
use sunxi_babelfish.Script.Store.{Store}
use sunxi_babelfish.Script.Tree.{Tree, section_hooks, count_entries, SectionsHold, IsTree, IsShort}
use sunxi_babelfish.Script.Tree.Hooks.{not_has-count}
use sunxi_babelfish.Script.Tree.Lookup.{length-section_hooks}
use sunxi_babelfish.ScriptBin.Size.{Outer, count_section, script_bin_size}
use sunxi_babelfish.ScriptBin.Size.Count.{
  tree_words, tree_entries, used_sections, entries_words, count_section_lem,
}

count_sections_lem :
    (fuel : ℕ) (st : Store) (ss : Tree) (r : Outer)
    → SectionsHold st ss
    → count_entries 0 ss ≡ 0
    → IsShort fuel ss
    → r.sections + length ss < 2 ^ 32
    → r.entries + tree_entries ss < 2 ^ 32
    → 4 * (r.words + tree_words ss) < 2 ^ 32
    → each (count_section fuel st) (section_hooks ss) r
      ≡ some (record r {
        sections = r.sections + used_sections ss;
        entries = r.entries + tree_entries ss;
        words = r.words + tree_words ss;
      })
count_sections_lem fuel st [] r h low short few_sections few_entries few_words =
    let sections : r.sections ≡ r.sections + 0 = omega arith in
    let entries : r.entries ≡ r.entries + 0 = omega arith in
    let words : r.words ≡ r.words + 0 = omega arith in
    λ i. some (record r { sections = sections i; entries = entries i; words = words i })
count_sections_lem fuel st (s ∷ ss) r h low short few_sections few_entries few_words =
    let one : ℕ = if ltb 0 (length s.entries) then 1 else 0 in
    let at_most : one ≤ 1 = ground arith in
    let n : ℕ = length s.entries in
    let w = entries_words s.entries in
    let r1 : Outer = record r {
      sections = r.sections + one;
      entries = r.entries + n;
      words = r.words + w;
    } in
    let sections : r.sections + one + used_sections ss ≡ r.sections + (one + used_sections ss) =
      omega arith in
    let entries : r.entries + n + tree_entries ss ≡ r.entries + (n + tree_entries ss) =
      omega arith in
    let words : r.words + w + tree_words ss ≡ r.words + (w + tree_words ss) = omega arith in
    rw
      (count_section_lem fuel st s r h.0 (omega arith) short.0 (omega arith) (omega arith)
        (omega arith))
      (count_sections_lem fuel st ss r1 h.1 (omega arith) short.1 (omega arith) (omega arith)
          (omega arith)
        ∙ (λ i. some (record r { sections = sections i; entries = entries i; words = words i })))

-- The size of the file for a tree: the head, the sections that are not empty, their entries, and
-- the words of the values.
abbrev pub file_size : Tree → ℕ
file_size ss = 16 + used_sections ss * 40 + tree_entries ss * 40 + tree_words ss * 4

-- On a store that stands for a tree whose file is smaller than 2 ^ 32 bytes, with fuel for its
-- lists, `script_bin_size` ends with the size of the file, and with the counts of the sections that
-- are not empty and of the entries, and changes nothing.
pub script_bin_size_lem :
    (fuel : ℕ) (st : Store) (script : ℕ) (ss : Tree)
    → IsTree st script ss
    → length ss < fuel
    → IsShort fuel ss
    → length ss < 2 ^ 32
    → file_size ss < 2 ^ 32
    → script_bin_size fuel script st ≡ some ((file_size ss, used_sections ss, tree_entries ss), st)
unfolding script_bin_size
script_bin_size_lem fuel st script ss t long short small fits =
    let start : Outer = record { sections = 0; entries = 0; words = 0; log = st.log } in
    let sections : 0 + used_sections ss ≡ used_sections ss = omega arith in
    let entries : 0 + tree_entries ss ≡ tree_entries ss = omega arith in
    let words : 0 + tree_words ss ≡ tree_words ss = omega arith in
    let low = t.above 0 (omega arith) in
    let loop =
      loop_hooks_lem (count_section fuel st) fuel st.hooks script (section_hooks ss) start t.ring
        (not_has-count 0 (section_hooks ss) (omega arith)) (omega (arith, length-section_hooks ss))
      ∙ count_sections_lem fuel st ss start t.sections (omega arith) short (omega arith)
          (omega arith) (omega arith)
      ∙ (λ i.
          some (record start { sections = sections i; entries = entries i; words = words i })) in
    let size : file_size ss % 2 ^ 32 ≡ file_size ss = omega arith in rw (loop, size) refl

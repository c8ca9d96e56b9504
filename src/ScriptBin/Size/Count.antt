-- ===== src/ScriptBin/Size/Count.antt =====
-- What `script_bin_size` of lib/libfex/script_bin.c counts on the tree that a store stands for.
use sunxi_babelfish.Common.{
  ℕ, suc, ◌+◌, ◌*◌, ◌-◌, ◌%◌, ◌/◌, ◌^◌, ◌<◌, ◌≡◌, ◌∙◌, refl, List, [], ◌∷◌, some, ltb,
  if◌then◌else◌, arith, Bool-cases, length, inl, inr,
}
use sunxi_babelfish.Hook.Loop.{each, loop_hooks_lem}
use sunxi_babelfish.Script.Store.{
  Store, Payload, single, string, gpio, null_entry, type_of, entries_hook, entry_hook,
  sections_hook,
}
use sunxi_babelfish.Script.Tree.{
  Entry, Section, Tree, entry_hooks, count, EntriesHold, SectionHolds,
}
use sunxi_babelfish.Script.Tree.Hooks.{not_has-count}
use sunxi_babelfish.Script.Tree.Lookup.{length-entry_hooks}
use sunxi_babelfish.ScriptBin.Size.{Inner, Outer, count_entry, count_section}

-- The words of a value in the file: a string is rounded up, an empty value takes a word.
abbrev pub value_words : Payload → ℕ
value_words (single v) = 1
value_words (string l s) = (l + 3) / 4
value_words (gpio p n a b c d) = 6
value_words null_entry = 1

abbrev pub entries_words : List Entry → ℕ
entries_words [] = 0
entries_words (e ∷ es) = value_words e.payload + entries_words es

abbrev pub tree_words : Tree → ℕ
tree_words [] = 0
tree_words (s ∷ ss) = entries_words s.entries + tree_words ss

abbrev pub tree_entries : Tree → ℕ
tree_entries [] = 0
tree_entries (s ∷ ss) = length s.entries + tree_entries ss

-- The sections that are not empty.
abbrev pub used_sections : Tree → ℕ
used_sections [] = 0
used_sections (s ∷ ss) = (if ltb 0 (length s.entries) then 1 else 0) + used_sections ss

-- An entry adds one to the count and its words to the words.
count_value :
    (st : Store) (a : ℕ) (v : Payload) (r : Inner)
    → st.entry_type a ≡ type_of v
    → st.payload a ≡ v
    → r.c + 1 < 2 ^ 32
    → 4 * (r.words + value_words v) < 2 ^ 32
    → count_entry st (entry_hook a) r
      ≡ some (record r { c = r.c + 1; words = r.words + value_words v })
unfolding count_entry
count_value st a (single v) r t p small few =
    let back : a + 36 - 36 ≡ a = omega arith in
    let c_eq : (r.c + 1) % 2 ^ 32 ≡ r.c + 1 = omega arith in
    let w_eq : (r.words + 1) % 2 ^ 32 ≡ r.words + 1 = omega arith in rw (back, t, c_eq, w_eq) refl
count_value st a (string l s) r t p small few =
    let back : a + 36 - 36 ≡ a = omega arith in
    let c_eq : (r.c + 1) % 2 ^ 32 ≡ r.c + 1 = omega arith in
    let w_eq : (r.words + (l + 3) % 2 ^ 32 / 4) % 2 ^ 32 ≡ r.words + (l + 3) / 4 = omega arith in
    rw (back, t, p, c_eq, w_eq) refl
count_value st a (gpio n m d0 d1 d2 d3) r t p small few =
    let back : a + 36 - 36 ≡ a = omega arith in
    let c_eq : (r.c + 1) % 2 ^ 32 ≡ r.c + 1 = omega arith in
    let w_eq : (r.words + 6) % 2 ^ 32 ≡ r.words + 6 = omega arith in rw (back, t, c_eq, w_eq) refl
count_value st a null_entry r t p small few =
    let back : a + 36 - 36 ≡ a = omega arith in
    let c_eq : (r.c + 1) % 2 ^ 32 ≡ r.c + 1 = omega arith in
    let w_eq : (r.words + 1) % 2 ^ 32 ≡ r.words + 1 = omega arith in rw (back, t, c_eq, w_eq) refl

count_entries_lem :
    (st : Store) (es : List Entry) (r : Inner)
    → EntriesHold st es
    → r.c + length es < 2 ^ 32
    → 4 * (r.words + entries_words es) < 2 ^ 32
    → each (count_entry st) (entry_hooks es) r
      ≡ some (record r { c = r.c + length es; words = r.words + entries_words es })
count_entries_lem st [] r h small few =
    let c_eq : r.c ≡ r.c + 0 = omega arith in
    let w_eq : r.words ≡ r.words + 0 = omega arith in
    λ i. some (record r { c = c_eq i; words = w_eq i })
count_entries_lem st (e ∷ es) r h small few =
    let r1 : Inner = record r { c = r.c + 1; words = r.words + value_words e.payload } in
    let c_eq : r.c + 1 + length es ≡ r.c + suc (length es) = omega arith in
    let w_eq : r.words + value_words e.payload + entries_words es
        ≡ r.words + (value_words e.payload + entries_words es) =
      omega arith in
    rw (count_value st e.addr e.payload r h.1 h.2 (omega arith) (omega arith)) (
      count_entries_lem st es r1 h.3 (omega arith) (omega arith)
      ∙ (λ i. some (record r { c = c_eq i; words = w_eq i })))

pub count_section_lem :
    (fuel : ℕ) (st : Store) (s : Section) (r : Outer)
    → SectionHolds st s
    → count 0 (entry_hooks s.entries) ≡ 0
    → length s.entries < fuel
    → r.sections + 1 < 2 ^ 32
    → r.entries + length s.entries < 2 ^ 32
    → 4 * (r.words + entries_words s.entries) < 2 ^ 32
    → count_section fuel st (sections_hook s.addr) r
      ≡ some (record r {
        sections = r.sections + (if ltb 0 (length s.entries) then 1 else 0);
        entries = r.entries + length s.entries;
        words = r.words + entries_words s.entries;
      })
unfolding count_section
count_section_lem fuel st s r h low short few_sections few_entries few_words =
    let back : s.addr + 32 - 32 ≡ s.addr = omega arith in
    let n = length s.entries in
    let plain : 0 + n ≡ n = omega arith in
    let start : Inner = record { c = 0; words = r.words; log = r.log } in
    let loop =
      loop_hooks_lem (count_entry st) fuel st.hooks (entries_hook s.addr) (entry_hooks s.entries)
        start h.ring (not_has-count 0 (entry_hooks s.entries) low)
        (omega (arith, length-entry_hooks s.entries))
      ∙ count_entries_lem st s.entries start h.entries (omega arith) (omega arith)
      ∙ (λ i. some (record start { c = plain i; words = r.words + entries_words s.entries })) in
    elim (Bool-cases (ltb 0 n)) [
      | inl used ↦
          let sections : (r.sections + 1) % 2 ^ 32 ≡ r.sections + 1 = omega arith in
          let entries : (r.entries + n) % 2 ^ 32 ≡ r.entries + n = omega arith in
          rw (back, loop, used, sections, entries) refl
      | inr unused ↦
          let sections : r.sections ≡ r.sections + 0 = omega arith in
          let entries : r.entries ≡ r.entries + n = ground arith in
          rw (back, loop, unused)
            (λ i. some (record r {
              sections = sections i;
              entries = entries i;
              words = r.words + entries_words s.entries;
            }))
    ]

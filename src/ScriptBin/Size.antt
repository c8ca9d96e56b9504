-- ===== src/ScriptBin/Size.antt =====
-- `script_bin_size` of lib/libfex/script_bin.c.
pub mod Count
pub mod Total
use sunxi_babelfish.Common.{
  ℕ, ◌+◌, ◌*◌, ◌%◌, ◌/◌, ◌^◌, Bool, ◌||◌, List, [], ◌∷◌, ◌++◌, Option, some, none, ◌>>=◌, pure,
  ◌==◌, ltb, if◌then◌else◌,
}
use sunxi_babelfish.Console.{Log, str}
use sunxi_babelfish.Hook.Loop.{loop_hooks}
use sunxi_babelfish.Script.Store.{
  Store, Payload, single, string, gpio, null_entry, single_word_type, string_type, gpio_type,
  null_type, entries_hook, section_of, entry_of,
}
use sunxi_babelfish.ScriptBin.Image.{section_stride, entry_stride, head_size}

-- `c` and `words` in the inner loop, with what is printed.
pub record Inner : Type 0 where
  pub c : ℕ
  pub words : ℕ
  pub log : Log

-- `*sections`, `*entries` and `words` in the outer loop.
pub record Outer : Type 0 where
  pub sections : ℕ
  pub entries : ℕ
  pub words : ℕ
  pub log : Log

-- `WORDS(S)`.
abbrev pub words_of : ℕ → ℕ
words_of size = (size + 3) % 2 ^ 32 / 4

-- `string->l`, of what follows the generic entry.
abbrev string_length : Payload → Option ℕ
string_length (single v) = none
string_length (string l s) = some l
string_length (gpio p n a b c d) = none
string_length null_entry = none

abbrev add_size : (size : ℕ) → Inner → Inner
add_size size r = record r { c = (r.c + 1) % 2 ^ 32; words = (r.words + words_of size) % 2 ^ 32 }

-- The body of the inner loop, at the hook `le`.
unfoldable pub count_entry : Store → (le : ℕ) → Inner → Option Inner
count_entry st le r =
    let entry = entry_of le in
    let type = st.entry_type entry in
    if (type == null_type) || (type == single_word_type)
    then some (add_size 4 r)
    else if type == string_type
    then (do l ← string_length (st.payload entry); pure (add_size l r))
    else if type == gpio_type
    then some (add_size 24 r)
    else some (add_size 0 (record r { log = r.log ++ str "ERROR:Unrecognized value type\n" ∷ [] }))

-- The body of the outer loop, at the hook `ls`.
unfoldable pub count_section : (fuel : ℕ) → Store → (ls : ℕ) → Outer → Option Outer
unfolding loop_hooks count_entry
count_section fuel st ls r = do
  i ←
      loop_hooks (count_entry st) fuel (entries_hook (section_of ls))
        (record { c = 0; words = r.words; log = r.log }) st.hooks
  let used = ltb 0 i.c
  pure (record {
    sections = if used then (r.sections + 1) % 2 ^ 32 else r.sections;
    entries = if used then (r.entries + i.c) % 2 ^ 32 else r.entries;
    words = i.words;
    log = i.log;
  })

-- The size, with the two counts.
unfoldable pub script_bin_size : (fuel script : ℕ) → Store → Option ((ℕ × ℕ × ℕ) × Store)
unfolding count_section
script_bin_size fuel script st = do
  r ←
      loop_hooks (count_section fuel st) fuel script
        (record { sections = 0; entries = 0; words = 0; log = st.log }) st.hooks
  pure (
    (
      (head_size + r.sections * section_stride + r.entries * entry_stride + r.words * 4) % 2 ^ 32,
      r.sections,
      r.entries,
    ),
    record st { log = r.log },
  )

-- ===== src/ScriptBin.antt =====
-- The binary FEX file: lib/libfex/script_bin.c and the layouts of include/lib/libfex/script_bin.h.
-- The image is read from a byte memory, little-endian, and is not written: the heap that the tree
-- grows in lies elsewhere. `fuel` bounds the bytes of a name up to its terminator.
pub mod Image
pub mod Parse
pub mod Reading
pub mod Entries
pub mod Sections
pub mod Size
mod Tests
use Prim.Native.String.{String}
use sunxi_babelfish.Common.{
  ℕ, zero, suc, ◌+◌, ◌*◌, ◌%◌, ◌/◌, ◌^◌, Bool, true, false, List, [], ◌∷◌, ◌++◌, Option, some, none,
  ◌>>=◌, pure, ◌==◌, ltb, if◌then◌else◌,
}
use sunxi_babelfish.Memory.{Memory, null}
use sunxi_babelfish.Console.{Log, str, hex, assert}
use sunxi_babelfish.Script.Store.{Store, single_word_type, string_type, gpio_type, null_type}
use sunxi_babelfish.Script.New.{
  script_section_new, script_single_entry_new, script_string_entry_new, script_gpio_entry_new,
  script_null_entry_new,
}
use sunxi_babelfish.Script.Delete.{negated}
use sunxi_babelfish.ScriptBin.Image.{
  word, read_text, read_bytes, ptr, seek, section_length, section_offset, entry_offset, entry_kind,
  entry_words, entry_stride, section_stride, head_size,
}

abbrev pub check : Bool → (expr : String) → Store → Store
check fires e st = record st {
  log =
      assert fires
        (record { expr = e; file = "lib/libfex/script_bin.c"; func = "decompile_section" }) st.log;
}

-- What `if (!script_..._entry_new(...)) return 0;` makes of the new entry: go on, or fail.
abbrev pub created : ℕ × Store → Bool × Store
created (entry, st) = (if entry == null then false else true, st)

-- The `switch` over the type of the entry at `entry`, in the section `s`: whether the loop goes
-- on. `assert(words == 1)` tests `!words == 1`, `assert(words == 6)` tests `!words == 6`, and the
-- one on the port tests `!gpio->port > 0 && gpio->port <= 13`.
unfoldable pub decompile_entry :
    (fuel : ℕ) → Memory → (bin s entry : ℕ) → Store → Option (Bool × Store)
decompile_entry fuel m bin s entry st =
    let p = ptr bin (entry_offset m entry) in
    let type = entry_kind m entry in
    let words = entry_words m entry in
    if type == single_word_type
    then (do
      name ← read_text fuel m entry
      pure (
          created (
            script_single_entry_new s name (word m p)
              (check (negated words == 1) "words == 1" st))))
    else if type == string_type
    then (do
      name ← read_text fuel m entry
      let l = seek (words * 4) m p
      pure (created (script_string_entry_new s name l (read_bytes l m p) st)))
    else if type == gpio_type
    then (do
      name ← read_text fuel m entry
      pure (
          created (
            script_gpio_entry_new s name (word m p) (word m (p + 4)) (word m (p + 8))
              (word m (p + 12)) (word m (p + 16)) (word m (p + 20))
              (check (word m p == 0) "gpio->port > 0 && gpio->port <= GPIO_BANK_MAX"
                (check (negated words == 6) "words == 6" st)))))
    else if type == null_type
    then (do name ← read_text fuel m entry; pure (created (script_null_entry_new s name st)))
    else some (true, record st { log = st.log ++ str "ERROR: Unknow section type\n" ∷ [] })

-- `for (i = section->length; i--; entry++)`; false is the early `return 0`.
unfoldable pub decompile_entries :
    (fuel : ℕ) → Memory → (bin s i entry : ℕ) → Store → Option (Bool × Store)
decompile_entries fuel m bin s zero entry st = some (true, st)
decompile_entries fuel m bin s (suc i) entry st = do
  (go_on, st1) ← decompile_entry fuel m bin s entry st
  let rest = decompile_entries fuel m bin s i (entry + entry_stride) st1
  if go_on then rest else some (false, st1)

-- `if ((s = script_section_new(...)) == NULL) return 0;` and the loop over the entries.
abbrev pub fill_section :
    (fuel : ℕ) → Memory → (bin section : ℕ) → ℕ × Store → Option (Bool × Store)
fill_section fuel m bin section (s, st) =
    if s == null
    then some (false, st)
    else decompile_entries fuel m bin s (section_length m section)
        (ptr bin (section_offset m section)) st

unfoldable pub decompile_section :
    (fuel : ℕ) → Memory → (bin section script : ℕ) → Store → Option (Bool × Store)
decompile_section fuel m bin section script st = do
  name ← read_text fuel m section
  fill_section fuel m bin section (script_section_new script name st)

-- `for (i = 0; i < head->sections; i++)`, with `k` rounds left and `section` at `&head->section[i]`.
unfoldable pub decompile_sections :
    (fuel : ℕ) → Memory → (bin k section script : ℕ) → Store → Option (Bool × Store)
decompile_sections fuel m bin zero section script st = some (true, st)
decompile_sections fuel m bin (suc k) section script st = do
  (good, st1) ← decompile_section fuel m bin section script st
  let rest = decompile_sections fuel m bin k (section + section_stride) script st1
  if good then rest else some (false, st1)

-- What is printed of the head.
abbrev head_log : Memory → ℕ → Log
head_log m bin =
    str "FEX file version: "
    ∷ hex (word m (bin + 4))
    ∷ str "."
    ∷ hex (word m (bin + 8))
    ∷ str "."
    ∷ hex (word m (bin + 12))
    ∷ str "\n"
    ∷ str "FEX file, parsed 0x"
    ∷ hex (word m bin)
    ∷ str " sections\n"
    ∷ []

-- The count of sections is signed: a negative one makes no round.
abbrev pub section_count : Memory → ℕ → ℕ
section_count m bin = if ltb (word m bin) (2 ^ 31) then word m bin else 0

unfoldable pub script_decompile_bin :
    (fuel : ℕ) → Memory → (bin script : ℕ) → Store → Option (Bool × Store)
script_decompile_bin fuel m bin script st =
    decompile_sections fuel m bin (section_count m bin) (bin + head_size) script
      (record st { log = st.log ++ head_log m bin })

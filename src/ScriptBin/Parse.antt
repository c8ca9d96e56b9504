-- ===== src/ScriptBin/Parse.antt =====
-- What an image says, with no store and no pointers: the reference that `script_decompile_bin` is
-- held against.
use sunxi_babelfish.Common.{
  ℕ, zero, suc, ◌+◌, ◌*◌, List, [], ◌∷◌, Option, some, none, ◌>>=◌, pure, ◌==◌, if◌then◌else◌, take,
}
use sunxi_babelfish.Memory.{Memory}
use sunxi_babelfish.Script.Store.{
  Payload, single, string, gpio, null_entry, single_word_type, string_type, gpio_type, null_type,
  single_size, string_size, gpio_size, null_size, section_size,
}
use sunxi_babelfish.Script.Tree.{Entry, Tree}
use sunxi_babelfish.ScriptBin.Image.{
  word, read_text, read_bytes, ptr, seek, section_length, section_offset, entry_offset, entry_kind,
  entry_words, entry_stride, section_stride,
}

-- An entry is its name, cut to 31 characters, and its value; a section is its name, cut likewise,
-- and its entries.
abbrev pub Item : Type 0
Item = List ℕ × Payload

abbrev pub Group : Type 0
Group = List ℕ × List Item

-- A tree without its addresses.
abbrev pub items_of : List Entry → List Item
items_of [] = []
items_of (e ∷ es) = (e.name, e.payload) ∷ items_of es

abbrev pub groups_of : Tree → List Group
groups_of [] = []
groups_of (s ∷ ss) = (s.name, items_of s.entries) ∷ groups_of ss

-- The value of the entry at `entry`; none for a kind that the program does not know.
unfoldable pub payload_at : Memory → (bin entry : ℕ) → Option Payload
payload_at m bin entry =
    let p = ptr bin (entry_offset m entry) in
    let kind = entry_kind m entry in
    if kind == single_word_type
    then some (single (word m p))
    else if kind == string_type
    then (let l = seek (entry_words m entry * 4) m p in some (string l (read_bytes l m p)))
    else if kind == gpio_type
    then some (
        gpio (word m p) (word m (p + 4)) (word m (p + 8)) (word m (p + 12)) (word m (p + 16))
          (word m (p + 20)))
    else if kind == null_type
    then some null_entry
    else none

-- Entries of an unknown kind are left out.
unfoldable pub parse_entries : (fuel : ℕ) → Memory → (bin i entry : ℕ) → Option (List Item)
parse_entries fuel m bin zero entry = some []
parse_entries fuel m bin (suc i) entry =
    let rest = parse_entries fuel m bin i (entry + entry_stride) in
    elim (payload_at m bin entry) [
      | none ↦ rest
      | some v ↦ (do name ← read_text fuel m entry; items ← rest; pure ((take 31 name, v) ∷ items))
    ]

unfoldable pub parse_section : (fuel : ℕ) → Memory → (bin section : ℕ) → Option Group
parse_section fuel m bin section = do
  name ← read_text fuel m section
  items ← parse_entries fuel m bin (section_length m section) (ptr bin (section_offset m section))
  pure (take 31 name, items)

unfoldable pub parse_sections : (fuel : ℕ) → Memory → (bin k section : ℕ) → Option (List Group)
parse_sections fuel m bin zero section = some []
parse_sections fuel m bin (suc k) section = do
  g ← parse_section fuel m bin section
  gs ← parse_sections fuel m bin k (section + section_stride)
  pure (g ∷ gs)

-- The heap that a value, a group and a list of groups need at most.
abbrev pub value_room : Payload → ℕ
value_room (single v) = single_size + 4
value_room (string l s) = string_size + l + 1 + 4
value_room (gpio p n a b c d) = gpio_size + 4
value_room null_entry = null_size + 4

abbrev pub items_room : List Item → ℕ
items_room [] = 0
items_room ((n, v) ∷ items) = value_room v + items_room items

abbrev pub groups_room : List Group → ℕ
groups_room [] = 0
groups_room ((n, items) ∷ gs) = section_size + 4 + items_room items + groups_room gs

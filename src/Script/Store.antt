-- ===== src/Script/Store.antt =====
-- The memory of the FEX tree. A structure is known by its address; what its fields hold is a map
-- from addresses. A struct of type T whose hook is at `o` begins at `o` less the hook's offset.
use Prim.Native.String.{String}
use sunxi_babelfish.Common.{ℕ, Bool, List, ◌+◌, ◌-◌, ◌==◌, if◌then◌else◌}
use sunxi_babelfish.Memory.{}
use sunxi_babelfish.Hook.{Hooks}
use sunxi_babelfish.Malloc.{malloc}
use sunxi_babelfish.Console.{Log, Site, assert}

-- What follows the generic entry: `struct script_single_entry` has `value`, `script_string_entry`
-- has `l` and the text, `script_gpio_entry` has `port`, `port_num` and `data[4]`.
pub data Payload : Type 0 where
  single : (value : ℕ) → Payload
  string : (l : ℕ) → (text : List ℕ) → Payload
  gpio : (port port_num : ℕ) → (data0 data1 data2 data3 : ℕ) → Payload
  null_entry : Payload

-- `enum script_value_type`.
abbrev pub single_word_type : ℕ
single_word_type = 1

abbrev pub string_type : ℕ
string_type = 2

abbrev pub multi_word_type : ℕ
multi_word_type = 3

abbrev pub gpio_type : ℕ
gpio_type = 4

abbrev pub null_type : ℕ
null_type = 5

abbrev pub type_of : Payload → ℕ
type_of (single v) = single_word_type
type_of (string l s) = string_type
type_of (gpio p n a b c d) = gpio_type
type_of null_entry = null_type

pub record Store : Type 0 where
  pub hooks : Hooks
  pub heap_base : ℕ
  pub section_name : ℕ → List ℕ
  pub entry_name : ℕ → List ℕ
  pub entry_type : ℕ → ℕ
  pub payload : ℕ → Payload
  pub log : Log

-- `sizeof` of the structures: 32 bytes of name, and two words for each hook.
abbrev pub script_size : ℕ
script_size = 8

abbrev pub section_size : ℕ
section_size = 48

abbrev pub null_size : ℕ
null_size = 44

abbrev pub single_size : ℕ
single_size = 48

abbrev pub string_size : ℕ
string_size = 48

abbrev pub gpio_size : ℕ
gpio_size = 68

-- `&section->sections`, `&section->entries` and `&entry->entries`.
abbrev pub sections_hook : ℕ → ℕ
sections_hook section = section + 32

abbrev pub entries_hook : ℕ → ℕ
entries_hook section = section + 40

abbrev pub entry_hook : ℕ → ℕ
entry_hook entry = entry + 36

-- `container_of` for the two kinds of hooks.
abbrev pub section_of : ℕ → ℕ
section_of o = o - 32

abbrev pub entry_of : ℕ → ℕ
entry_of o = o - 36

module _ {A : Type 0} where
  abbrev pub put : (ℕ → A) → ℕ → A → ℕ → A
  put f p v q = if q == p then v else f q

-- `malloc` on the store's heap.
abbrev pub allocate : ℕ → Store → ℕ × Store
allocate size st = let (p, base) = malloc size st.heap_base in (p, record st { heap_base = base })

abbrev pub site : (expr func : String) → Site
site e f = record { expr = e; file = "lib/libfex/script.c"; func = f }

abbrev pub check : Bool → (expr func : String) → Store → Store
check fires e f st = record st { log = assert fires (site e f) st.log }

-- `free` of include/memory.h, which does nothing.
abbrev pub free : (ptr : ℕ) → Store → Store
free ptr st = st

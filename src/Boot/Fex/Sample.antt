-- ===== src/Boot/Fex/Sample.antt =====
-- A list of tags, and a FEX image that names the machine and has eight UARTs, of which the first is
-- used.
use sunxi_babelfish.Common.{
  ℕ, zero, suc, ◌+◌, ◌-◌, ◌<◌, ◌≡◌, refl, Bool, true, false, List, [], ◌∷◌, ◌++◌, some, take,
  get_or, ◌==◌, if◌then◌else◌, ltb, arith,
}
use sunxi_babelfish.Memory.{Memory}
use sunxi_babelfish.Console.{codes}
use sunxi_babelfish.Cstring.Compare.{compare_texts}
use sunxi_babelfish.Script.Store.{single, string, gpio}
use sunxi_babelfish.ScriptBin.{section_count}
use sunxi_babelfish.ScriptBin.Image.{word, read_text, read_bytes, seek, head_size}
use sunxi_babelfish.ScriptBin.Parse.{
  Item, Group, payload_at, parse_entries, parse_section, parse_sections,
}
use sunxi_babelfish.ScriptBin.Reading.{group_named, value_named}
use sunxi_babelfish.Fixup.Machine.{c_text}
use sunxi_babelfish.Fixup.Atags.{Tag, cmdline, mem, tag_at}
use sunxi_babelfish.Fixup.Tags.{TagList, last, next}
use sunxi_babelfish.Fixup.Uarts.{para}
use sunxi_babelfish.Fixup.Said.{UartSaid, unused, used, FileSays}
use sunxi_babelfish.Boot.{script_base_address}
use sunxi_babelfish.Boot.Fex.{ImageIn}

abbrev zeros : List ℕ
zeros = 0 ∷ 0 ∷ 0 ∷ 0 ∷ 0 ∷ 0 ∷ 0 ∷ 0 ∷ []

-- A name, in 32 bytes.
abbrev label : List ℕ → List ℕ
label text = take 32 (text ++ zeros ++ zeros ++ zeros ++ zeros)

-- A small word, the least byte first.
abbrev small : ℕ → List ℕ
small v = v ∷ 0 ∷ 0 ∷ 0 ∷ []

abbrev section : List ℕ → (count offset : ℕ) → List ℕ
section name count offset = label name ++ small count ++ small offset

abbrev entry : List ℕ → (offset type words : ℕ) → List ℕ
entry name offset type words = label name ++ small offset ++ words ∷ 0 ∷ type ∷ 0 ∷ []

-- The UARTs that are not used share their entries.
abbrev idle : ℕ → List ℕ
idle k = section (para k) 1 164

abbrev sections : List ℕ
sections =
    section (codes "product") 1 104
    ++ section (codes "uart_para") 1 114
    ++ section (para 0) 4 124
    ++ idle 1
    ++ idle 2
    ++ idle 3
    ++ idle 4
    ++ idle 5
    ++ idle 6
    ++ idle 7

abbrev entries : List ℕ
entries =
    entry (codes "machine") 174 2 1
    ++ entry (codes "uart_debug_port") 175 1 1
    ++ entry (codes "uart_used") 176 1 1
    ++ entry (codes "uart_type") 177 1 1
    ++ entry (codes "uart_tx") 178 4 6
    ++ entry (codes "uart_rx") 184 4 6
    ++ entry (codes "uart_used") 190 1 1

abbrev values : List ℕ
values =
    codes "a20x"
    ++ small 0
    ++ small 1
    ++ small 2
    ++ (small 2 ++ small 22 ++ small 2 ++ small 1 ++ small 0 ++ small 0)
    ++ (small 2 ++ small 23 ++ small 2 ++ small 1 ++ small 0 ++ small 0)
    ++ small 0

abbrev bytes : List ℕ
bytes = small 10 ++ small 1 ++ small 0 ++ small 2 ++ sections ++ entries ++ values

-- The tags: a command line and a bank of memory.
abbrev tags_bytes : List ℕ
tags_bytes =
    small 4
    ++ (9 ∷ 0 ∷ 0x41 ∷ 0x54 ∷ [])
    ++ codes "quiet"
    ++ (0 ∷ 0 ∷ 0 ∷ [])
    ++ small 4
    ++ (2 ∷ 0 ∷ 0x41 ∷ 0x54 ∷ [])
    ++ (0 ∷ 0 ∷ 0 ∷ 4 ∷ [])
    ++ (0 ∷ 0 ∷ 0 ∷ 0x40 ∷ [])

abbrev pub tags_at : ℕ
tags_at = 256

abbrev pub image : Memory
image a =
    if ltb a 4096
    then get_or tags_bytes (a - tags_at) 0
    else get_or bytes (a - script_base_address) 0

abbrev pub tags : List Tag
tags = cmdline (codes "quiet") ∷ mem 0x04000000 0x40000000 ∷ []

pub image-TagList : TagList 20 image tags_at tags
unfolding tag_at word read_text
image-TagList = next refl refl (next refl refl (last refl))

abbrev idle_items : List Item
idle_items = (codes "uart_used", single 0) ∷ []

abbrev first_items : List Item
first_items =
    (codes "uart_used", single 1)
    ∷ (codes "uart_type", single 2)
    ∷ (codes "uart_tx", gpio 2 22 2 1 0 0)
    ∷ (codes "uart_rx", gpio 2 23 2 1 0 0)
    ∷ []

abbrev pub groups : List Group
groups =
    (codes "product", (codes "machine", string 4 (codes "a20x")) ∷ [])
    ∷ (codes "uart_para", (codes "uart_debug_port", single 0) ∷ [])
    ∷ (para 0, first_items)
    ∷ (para 1, idle_items)
    ∷ (para 2, idle_items)
    ∷ (para 3, idle_items)
    ∷ (para 4, idle_items)
    ∷ (para 5, idle_items)
    ∷ (para 6, idle_items)
    ∷ (para 7, idle_items)
    ∷ []

image-groups :
    let bin = script_base_address in
    parse_sections 20 image bin (section_count image bin) (bin + head_size) ≡ some groups
unfolding parse_sections parse_section parse_entries payload_at word read_text read_bytes seek
image-groups = refl

pub image-ImageIn : ImageIn 20 image groups
image-ImageIn = record {
  parsed = image-groups;
  short = (
    omega arith,
    (
      omega arith,
      (
        omega arith,
        (
          omega arith,
          (
            omega arith,
            (omega arith, (omega arith, (omega arith, (omega arith, (omega arith, tt))))),
          ),
        ),
      ),
    ),
  );
  fewer = omega arith;
}

abbrev pub is_used : ℕ → Bool
is_used j = j == 0

idle_said : (k : ℕ) → group_named (para k) groups ≡ some idle_items → UartSaid groups k false
unfolding value_named compare_texts
idle_said k here = unused idle_items 0 here refl refl

first_said : UartSaid groups 0 true
unfolding group_named value_named compare_texts
first_said = used first_items 2 refl refl refl (
  record { port = 2; port_num = 23; data0 = 2; data1 = 1; data2 = 0; data3 = 0; is_said = refl },
  (
    record { port = 2; port_num = 22; data0 = 2; data1 = 1; data2 = 0; data3 = 0; is_said = refl },
    tt,
  ),
)

uarts_said : (j : ℕ) → j < 8 → UartSaid groups j (is_used j)
unfolding group_named compare_texts
uarts_said zero h = first_said
uarts_said (suc zero) h = idle_said 1 refl
uarts_said (suc (suc zero)) h = idle_said 2 refl
uarts_said (suc (suc (suc zero))) h = idle_said 3 refl
uarts_said (suc (suc (suc (suc zero)))) h = idle_said 4 refl
uarts_said (suc (suc (suc (suc (suc zero))))) h = idle_said 5 refl
uarts_said (suc (suc (suc (suc (suc (suc zero)))))) h = idle_said 6 refl
uarts_said (suc (suc (suc (suc (suc (suc (suc zero))))))) h = idle_said 7 refl
uarts_said (suc (suc (suc (suc (suc (suc (suc (suc j)))))))) h = absurd (omega arith)

pub image-FileSays : FileSays (codes "a20x") 0 is_used groups
unfolding group_named value_named compare_texts c_text
image-FileSays = record {
  product = (codes "machine", string 4 (codes "a20x")) ∷ [];
  size = 4;
  text = codes "a20x";
  has_product = refl;
  has_machine = refl;
  reads = refl;
  debug = (codes "uart_debug_port", single 0) ∷ [];
  has_debug = refl;
  has_port = refl;
  uarts = uarts_said;
}

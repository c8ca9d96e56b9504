-- ===== src/Fixup/Said.antt =====
-- What the FEX image says of the board, in the terms of the image, and that the tree made of it says
-- the same to the fixups of src/fixup.c.
use sunxi_babelfish.Common.{ℕ, ◌<◌, ◌≡◌, refl, sym, Bool, true, false, List, [], ◌∷◌, some, ◌==◌}
use mathlib.Core.Path.{subst}
use sunxi_babelfish.Console.{codes}
use sunxi_babelfish.Script.Store.{Payload, single, string, gpio}
use sunxi_babelfish.Script.Tree.{Tree, Section}
use sunxi_babelfish.Script.Tree.Reading.{SectionIn, EntryIn}
use sunxi_babelfish.ScriptBin.Parse.{Item, Group, items_of, groups_of}
use sunxi_babelfish.ScriptBin.Reading.{
  group_named, value_named, Located, group_named-Located, value_named-EntryIn,
}
use sunxi_babelfish.Fixup.Machine.{c_text}
use sunxi_babelfish.Fixup.Uarts.{
  GpioIn, TwoPins, FourPins, PinsIn, eight, four, two, no_pins, UartIn, para,
}
use sunxi_babelfish.Fixup.Translation.{MachineIn}

-- A pin of the section.
pub record PinSaid (items : List Item) (name : List ℕ) : Type 0 where
  pub port : ℕ
  pub port_num : ℕ
  pub data0 : ℕ
  pub data1 : ℕ
  pub data2 : ℕ
  pub data3 : ℕ
  pub is_said : value_named name items ≡ some (gpio port port_num data0 data1 data2 data3)

abbrev two_names : List (List ℕ)
two_names = codes "uart_rx" ∷ codes "uart_tx" ∷ []

abbrev four_names : List (List ℕ)
four_names = codes "uart_cts" ∷ codes "uart_rts" ∷ two_names

abbrev eight_names : List (List ℕ)
eight_names =
    codes "uart_dtr" ∷ codes "uart_dsr" ∷ codes "uart_dcd" ∷ codes "uart_ring" ∷ four_names

-- The pins that a UART needs, if its type is 8, 4 or 2.
abbrev pins_by : (is_eight is_four is_two : Bool) → List (List ℕ)
pins_by true y z = eight_names
pins_by false true z = four_names
pins_by false false true = two_names
pins_by false false false = []

abbrev pub AllSaid : List Item → List (List ℕ) → Type 0
AllSaid items [] = Unit {0}
AllSaid items (n ∷ ns) = PinSaid items n × AllSaid items ns

abbrev pub PinsSaid : List Item → (type : ℕ) → Type 0
PinsSaid items type = AllSaid items (pins_by (type == 8) (type == 4) (type == 2))

pin_in : (s : Section) (name : List ℕ) → PinSaid (items_of s.entries) name → GpioIn s name
pin_in s name p = record {
  port = p.port;
  port_num = p.port_num;
  data0 = p.data0;
  data1 = p.data1;
  data2 = p.data2;
  data3 = p.data3;
  is_there = value_named-EntryIn s name _ p.is_said;
}

two_in : (s : Section) → AllSaid (items_of s.entries) two_names → TwoPins s
two_in s (rx, (tx, _)) = (pin_in s (codes "uart_rx") rx, pin_in s (codes "uart_tx") tx)

four_in : (s : Section) → AllSaid (items_of s.entries) four_names → FourPins s
four_in s (cts, (rts, rest)) =
    (pin_in s (codes "uart_cts") cts, pin_in s (codes "uart_rts") rts, two_in s rest)

pins_in :
    (s : Section) (type : ℕ) (x y z : Bool)
    → (type == 8) ≡ x
    → (type == 4) ≡ y
    → (type == 2) ≡ z
    → AllSaid (items_of s.entries) (pins_by x y z)
    → PinsIn s type
pins_in s type true y z e f g (dtr, (dsr, (dcd, (ring, rest)))) = eight e (
  pin_in s (codes "uart_dtr") dtr,
  pin_in s (codes "uart_dsr") dsr,
  pin_in s (codes "uart_dcd") dcd,
  pin_in s (codes "uart_ring") ring,
  four_in s rest,
)
pins_in s type false true z e f g h = four e f (four_in s h)
pins_in s type false false true e f g h = two e f g (two_in s h)
pins_in s type false false false e f g h = no_pins e f g

-- What is said of the UART `i`, and whether it is used.
pub data UartSaid (gs : List Group) (i : ℕ) : Bool → Type 0 where
  unused :
      (items : List Item) (v : ℕ)
      → group_named (para i) gs ≡ some items
      → value_named (codes "uart_used") items ≡ some (single v)
      → (v == 1) ≡ false
      → UartSaid gs i false
  used :
      (items : List Item) (type : ℕ)
      → group_named (para i) gs ≡ some items
      → value_named (codes "uart_used") items ≡ some (single 1)
      → value_named (codes "uart_type") items ≡ some (single type)
      → PinsSaid items type
      → UartSaid gs i true

located_value :
    {ss : Tree} {name : List ℕ} {items : List Item} (r : Located ss name items) (key : List ℕ)
    (v : Payload)
    → value_named key items ≡ some v
    → EntryIn r.section key v
located_value r key v h =
    value_named-EntryIn r.section key v
      (subst (λ (l : List Item). value_named key l ≡ some v) (sym r.items_eq) h)

pub said-UartIn : (ss : Tree) (i : ℕ) (b : Bool) → UartSaid (groups_of ss) i b → UartIn ss i b
said-UartIn ss i b (unused items v here is_used off) =
    let r = group_named-Located ss (para i) items here in
    UartIn.unused r.section v r.here (located_value r (codes "uart_used") (single v) is_used) off
said-UartIn ss i b (used items type here is_used typed pins) =
    let r = group_named-Located ss (para i) items here in
    UartIn.used r.section type r.here (located_value r (codes "uart_used") (single 1) is_used)
      (located_value r (codes "uart_type") (single type) typed)
      (pins_in r.section type (type == 8) (type == 4) (type == 2) refl refl refl
        (subst (λ (l : List Item). PinsSaid l type) (sym r.items_eq) pins))

-- The image names the machine and the debug port, and says of each UART whether it is used.
pub record FileSays (model : List ℕ) (port : ℕ) (is_used : ℕ → Bool) (gs : List Group)
    : Type 0 where
  pub product : List Item
  pub size : ℕ
  pub text : List ℕ
  pub has_product : group_named (codes "product") gs ≡ some product
  pub has_machine : value_named (codes "machine") product ≡ some (string size text)
  pub reads : c_text text ≡ model
  pub debug : List Item
  pub has_debug : group_named (codes "uart_para") gs ≡ some debug
  pub has_port : value_named (codes "uart_debug_port") debug ≡ some (single port)
  pub uarts : (j : ℕ) → j < 8 → UartSaid gs j (is_used j)

pub said-MachineIn :
    {model : List ℕ} {port : ℕ} {is_used : ℕ → Bool} (ss : Tree)
    → FileSays model port is_used (groups_of ss)
    → MachineIn ss model
said-MachineIn ss q =
    let r = group_named-Located ss (codes "product") q.product q.has_product in
    record {
      product = r.section;
      size = q.size;
      text = q.text;
      section = r.here;
      entry = located_value r (codes "machine") (string q.size q.text) q.has_machine;
      reads = q.reads;
    }

pub said_port :
    {model : List ℕ} {port : ℕ} {is_used : ℕ → Bool} (ss : Tree)
    → FileSays model port is_used (groups_of ss)
    → (s : Section) × SectionIn ss (codes "uart_para") s
      × EntryIn s (codes "uart_debug_port") (single port)
said_port {port = port} ss q =
    let r = group_named-Located ss (codes "uart_para") q.debug q.has_debug in
    (r.section, r.here, located_value r (codes "uart_debug_port") (single port) q.has_port)

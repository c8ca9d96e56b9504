-- ===== src/Fixup/Uarts.antt =====
-- What a FEX file says of the UARTs, and the reads of it by `fdt_fixup_uarts` of src/fixup.c.
pub mod Enable
pub mod Console
pub mod Sample
mod Tests
use sunxi_babelfish.Common.{
  ℕ, ◌+◌, ◌<◌, ◌≡◌, ◌∙◌, refl, ap, Bool, true, false, List, [], ◌∷◌, ◌++◌, Option, some, none, ◌==◌,
  if◌then◌else◌, length, length-append, ◌≤◌, arith,
}
use sunxi_babelfish.Console.{codes}
use sunxi_babelfish.Libfdt.{Libfdt}
use sunxi_babelfish.Script.Store.{Store, Payload, single, gpio}
use sunxi_babelfish.Script.Find.{script_find_section, script_find_entry}
use sunxi_babelfish.Script.Tree.{Tree, Section, IsTree, IsShort}
use sunxi_babelfish.Script.Tree.Reading.{
  SectionIn, EntryIn, heap_at, section_found, entry_found, payload_found,
}
use sunxi_babelfish.FdtTools.Pins.{Gpio, add_char}
use sunxi_babelfish.Fixup.Machine.{
  Machine, Step, pure, ◌>>=◌, bind_run, on_store_run, read_entry_run, find_section, find_entry,
  read_entry, value_of, gpio_entry_to_struct,
}
use sunxi_babelfish.Fixup.Fex.{find_gpio, two_pins, four_pins, eight_pins, uart_pins}

-- A pin of the section.
pub record GpioIn (s : Section) (name : List ℕ) : Type 0 where
  pub port : ℕ
  pub port_num : ℕ
  pub data0 : ℕ
  pub data1 : ℕ
  pub data2 : ℕ
  pub data3 : ℕ
  pub is_there : EntryIn s name (gpio port port_num data0 data1 data2 data3)

abbrev pub TwoPins : Section → Type 0
TwoPins s = GpioIn s (codes "uart_rx") × GpioIn s (codes "uart_tx")

abbrev pub FourPins : Section → Type 0
FourPins s = GpioIn s (codes "uart_cts") × GpioIn s (codes "uart_rts") × TwoPins s

abbrev pub EightPins : Section → Type 0
EightPins s =
    GpioIn s (codes "uart_dtr")
    × GpioIn s (codes "uart_dsr")
    × GpioIn s (codes "uart_dcd")
    × GpioIn s (codes "uart_ring")
    × FourPins s

-- The pins that a UART of a type needs.
pub data PinsIn (s : Section) (type : ℕ) : Type 0 where
  eight : (type == 8) ≡ true → EightPins s → PinsIn s type
  four : (type == 8) ≡ false → (type == 4) ≡ true → FourPins s → PinsIn s type
  two : (type == 8) ≡ false → (type == 4) ≡ false → (type == 2) ≡ true → TwoPins s → PinsIn s type
  no_pins : (type == 8) ≡ false → (type == 4) ≡ false → (type == 2) ≡ false → PinsIn s type

-- The name of the section of a UART.
abbrev pub para : ℕ → List ℕ
para i = add_char (codes "uart_para") (b'0' + i)

-- What the file says of the UART `i`, and whether it is used.
pub data UartIn (ss : Tree) (i : ℕ) : Bool → Type 0 where
  unused :
      (s : Section) (v : ℕ)
      → SectionIn ss (para i) s
      → EntryIn s (codes "uart_used") (single v)
      → (v == 1) ≡ false
      → UartIn ss i false
  used :
      (s : Section) (type : ℕ)
      → SectionIn ss (para i) s
      → EntryIn s (codes "uart_used") (single 1)
      → EntryIn s (codes "uart_type") (single type)
      → PinsIn s type
      → UartIn ss i true

module _ {l : Libfdt} where
  -- A step that reads only, with a result of which this holds.
  abbrev pub Gives : {A : Type 0} → (A → Type 0) → Step l A → Machine l → Type 0
  Gives {A = A} is_good x m = (a : A) × (x m ≡ some (a, m)) × is_good a

  pub bind-Gives :
      {A B : Type 0} (is_read : A → Type 0) (is_good : B → Type 0) (x : Step l A) (k : A → Step l B)
      (m : Machine l)
      → Gives is_read x m
      → ((a : A) → is_read a → Gives is_good (k a) m)
      → Gives is_good (x >>= k) m
  bind-Gives is_read is_good x k m (a, run, q) rest =
      let r = rest a q in (r.0, bind_run x k {s = m} run ∙ r.1, r.2)

-- Any pin, so many pins, and the pins of a UART: eight at most.
abbrev AnyPin : Gpio → Type 0
AnyPin g = Unit {0}

abbrev SoMany : ℕ → List Gpio → Type 0
SoMany n pins = length pins ≡ n

abbrev pub AtMostEight : Option (List Gpio) → Type 0
AtMostEight none = Unit {0}
AtMostEight (some pins) = length pins ≤ 8

module _ (l : Libfdt) (fuel script : ℕ) (st : Store) (ss : Tree) (t : IsTree st script ss)
    (short : IsShort fuel ss) (lt : length ss < fuel) where
  -- The machine with a blob, and the heap's base at `b`.
  abbrev pub at_heap : l.Fdt → ℕ → Machine l
  at_heap f b = record { fdt = f; store = heap_at st b }

  pub finds_section :
      {name : List ℕ} {s : Section} (f : l.Fdt) (b : ℕ)
      → SectionIn ss name s
      → find_section fuel script name (at_heap f b) ≡ some (s.addr, at_heap f b)
  finds_section {name = name} f b i =
      on_store_run (script_find_section fuel script name) (at_heap f b)
        (section_found fuel script st ss t short lt b i)

  pub reads_entry :
      {section name : List ℕ} {s : Section} {v : Payload} {A : Type 0} (q : Payload → Option A)
      {a : A} (f : l.Fdt) (b : ℕ)
      → SectionIn ss section s
      → EntryIn s name v
      → q v ≡ some a
      → (find_entry fuel s.addr name >>= read_entry q) (at_heap f b) ≡ some (a, at_heap f b)
  reads_entry {name = name} {s = s} q f b i e h =
      bind_run (find_entry fuel s.addr name) (read_entry q) {s = at_heap f b} (
        on_store_run (script_find_entry fuel s.addr name) (at_heap f b)
          (entry_found fuel script st ss t short lt b i e))
      ∙ read_entry_run q e.entry.addr (at_heap f b) (payload_found fuel script st ss t short lt i e)
          h

  module _ {section : List ℕ} {s : Section} (i : SectionIn ss section s) (f : l.Fdt) (b : ℕ) where
    gpio_Gives :
        {name : List ℕ} → GpioIn s name → Gives AnyPin (find_gpio l fuel s.addr name) (at_heap f b)
    unfolding find_gpio gpio_entry_to_struct
    gpio_Gives g = (_, reads_entry gpio_entry_to_struct f b i g.is_there refl, tt)

    -- Two reads, of which the rest makes use.
    two_reads :
        {B : Type 0} {n1 n2 : List ℕ} (is_good : B → Type 0) (k : Gpio → Gpio → Step l B)
        → GpioIn s n1
        → GpioIn s n2
        → ((g h : Gpio) → Gives is_good (k g h) (at_heap f b))
        → Gives is_good
            (find_gpio l fuel s.addr n1 >>= λ g. find_gpio l fuel s.addr n2 >>= λ h. k g h)
            (at_heap f b)
    two_reads {n1 = n1} {n2 = n2} is_good k p q rest =
        bind-Gives AnyPin is_good (find_gpio l fuel s.addr n1)
          (λ g. find_gpio l fuel s.addr n2 >>= λ h. k g h) (at_heap f b) (gpio_Gives p)
          (λ g _.
            bind-Gives AnyPin is_good (find_gpio l fuel s.addr n2) (k g) (at_heap f b)
              (gpio_Gives q) (λ h _. rest g h))

    two-Gives : TwoPins s → Gives (SoMany 2) (two_pins l fuel s.addr) (at_heap f b)
    unfolding two_pins
    two-Gives (rx, tx) =
        two_reads (SoMany 2) (λ g h. pure (h ∷ g ∷ [])) rx tx (λ g h. (h ∷ g ∷ [], refl, refl))

    four-Gives : FourPins s → Gives (SoMany 4) (four_pins l fuel s.addr) (at_heap f b)
    unfolding four_pins
    four-Gives (cts, rts, more) =
        let end : Gpio → Gpio → List Gpio → Step l (List Gpio) =
          λ g h pins. pure (pins ++ h ∷ g ∷ []) in
        two_reads (SoMany 4) (λ g h. two_pins l fuel s.addr >>= end g h) cts rts
          (λ g h.
            bind-Gives (SoMany 2) (SoMany 4) (two_pins l fuel s.addr) (end g h) (at_heap f b)
              (two-Gives more)
              (λ pins e.
                (pins ++ h ∷ g ∷ [], refl, omega (arith, length-append pins (h ∷ g ∷ []), e))))

    eight-Gives : EightPins s → Gives (SoMany 8) (eight_pins l fuel s.addr) (at_heap f b)
    unfolding eight_pins
    eight-Gives (dtr, dsr, dcd, ring, more) =
        let end : Gpio → Gpio → Gpio → Gpio → List Gpio → Step l (List Gpio) =
          λ g h u v pins. pure (pins ++ v ∷ u ∷ h ∷ g ∷ []) in
        let last : Gpio → Gpio → Gpio → Gpio → Step l (List Gpio) =
          λ g h u v. four_pins l fuel s.addr >>= end g h u v in
        let pin : List ℕ → Step l Gpio = λ n. find_gpio l fuel s.addr n in
        two_reads (SoMany 8)
          (λ g h. pin (codes "uart_dcd") >>= λ u. pin (codes "uart_ring") >>= λ v. last g h u v) dtr
          dsr
          (λ g h. two_reads (SoMany 8) (last g h) dcd ring (λ u v.
            bind-Gives (SoMany 4) (SoMany 8) (four_pins l fuel s.addr) (end g h u v) (at_heap f b)
              (four-Gives more)
              (λ pins e. (
                pins ++ v ∷ u ∷ h ∷ g ∷ [],
                refl,
                omega (arith, length-append pins (v ∷ u ∷ h ∷ g ∷ []), e),
              ))))

    -- The pins of any type are read, and there are eight at most.
    pub pins-Gives :
        (type : ℕ) → PinsIn s type → Gives AtMostEight (uart_pins l fuel type s.addr) (at_heap f b)
    unfolding uart_pins
    pins-Gives type (eight e p) = rw e (
        bind-Gives (SoMany 8) AtMostEight (eight_pins l fuel s.addr) (λ pins. pure (some pins))
          (at_heap f b) (eight-Gives p) (λ pins h. (some pins, refl, omega (arith, h))))
    pins-Gives type (four n e p) =
        rw (n, e)
          (bind-Gives (SoMany 4) AtMostEight (four_pins l fuel s.addr) (λ pins. pure (some pins))
            (at_heap f b) (four-Gives p) (λ pins h. (some pins, refl, omega (arith, h))))
    pins-Gives type (two n o e p) =
        rw (n, o, e)
          (bind-Gives (SoMany 2) AtMostEight (two_pins l fuel s.addr) (λ pins. pure (some pins))
            (at_heap f b) (two-Gives p) (λ pins h. (some pins, refl, omega (arith, h))))
    pins-Gives type (no_pins n o e) = rw (n, o, e) (none, refl, tt)

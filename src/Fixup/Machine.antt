-- ===== src/Fixup/Machine.antt =====
-- The state that src/fixup.c works on: the device tree, and the store of the FEX tree with the heap
-- and the log. A step gives `none` when its fuel has run out, and where the code reads a field of
-- a structure that is not what it takes it for.
use sunxi_babelfish.Common.{ℕ, ◌≡◌, ◌∙◌, ap, List, [], ◌∷◌, Option, some, none, ◌==◌, if◌then◌else◌}
use sunxi_babelfish.Libfdt.{Libfdt}
use sunxi_babelfish.Script.Store.{Store, allocate, Payload, single, string, gpio, null_entry}
use sunxi_babelfish.Script.Find.{script_find_section, script_find_entry}
use sunxi_babelfish.FdtTools.Pins.{Gpio}

pub record Machine (l : Libfdt) : Type 0 where
  pub fdt : l.Fdt
  pub store : Store

abbrev pub Step : Libfdt → Type 0 → Type 0
Step l A = Machine l → Option (A × Machine l)

module _ {l : Libfdt} where
  abbrev pub pure : {A : Type 0} → A → Step l A
  pure a s = some (a, s)

  infixl 5 ◌>>=◌ ◌>>◌
  abbrev pub ◌>>=◌ : {A B : Type 0} → Step l A → (A → Step l B) → Step l B
  ◌>>=◌ m k s = elim (m s) [ none ↦ none | some (a, s') ↦ k a s' ]

  abbrev pub ◌>>◌ : {A B : Type 0} → Step l A → Step l B → Step l B
  m >> k = m >>= λ _. k

  -- A chain of steps after its first one has run.
  pub bind_run :
      {A B : Type 0} (x : Step l A) (k : A → Step l B) {s : Machine l} {a : A} {s' : Machine l}
      → x s ≡ some (a, s')
      → (x >>= k) s ≡ k a s'
  bind_run x k h = ap (λ r. elim r [ none ↦ none | some (a, s') ↦ k a s' ]) h

  after_two :
      {A B C : Type 0} (o : Option (A × Machine l)) (y : A → Step l B) (k : B → Step l C) {b : B}
      {s' : Machine l}
      → ◌≡◌ {A = Option (B × Machine l)}
          (elim o [ none ↦ none | some (a, u) ↦ y a u ])
          (some (b, s'))
      → ◌≡◌ {A = Option (C × Machine l)}
          (elim o [ none ↦ none | some (a, u) ↦ (y a >>= k) u ])
          (k b s')
  after_two none y k h = absurd cc
  after_two (some (a, u)) y k h = bind_run (y a) k {s = u} h

  -- A chain after its first two steps have run.
  pub two_steps :
      {A B C : Type 0} (x : Step l A) (y : A → Step l B) (k : B → Step l C) (s : Machine l) {b : B}
      {s' : Machine l}
      → (x >>= y) s ≡ some (b, s')
      → (x >>= λ a. y a >>= k) s ≡ k b s'
  two_steps x y k s h = after_two (x s) y k h

  -- A call of libfdt that reads, and one that changes the blob.
  abbrev pub ask : {A : Type 0} → (l.Fdt → A) → Step l A
  ask q s = some (q s.fdt, s)

  abbrev pub change : {A : Type 0} → (l.Fdt → A × l.Fdt) → Step l A
  change c s = let (a, f) = c s.fdt in some (a, record s { fdt = f })

  abbrev pub attempt : {A : Type 0} → (l.Fdt → Option (A × l.Fdt)) → Step l A
  attempt c s = elim (c s.fdt) [ none ↦ none | some (a, f) ↦ some (a, record s { fdt = f }) ]

  pub attempt_run :
      {A : Type 0} (c : l.Fdt → Option (A × l.Fdt)) (s : Machine l) {a : A} {f : l.Fdt}
      → c s.fdt ≡ some (a, f)
      → attempt c s ≡ some (a, record s { fdt = f })
  attempt_run c s h =
      ap (λ r. elim r [ none ↦ none | some (a, f) ↦ some (a, record s { fdt = f }) ]) h

  -- A call on the store.
  abbrev pub on_store : {A : Type 0} → (Store → Option (A × Store)) → Step l A
  on_store c s = elim (c s.store) [ none ↦ none | some (a, st) ↦ some (a, record s { store = st }) ]

  pub on_store_run :
      {A : Type 0} (c : Store → Option (A × Store)) (s : Machine l) {a : A} {st : Store}
      → c s.store ≡ some (a, st)
      → on_store c s ≡ some (a, record s { store = st })
  on_store_run c s h =
      ap (λ r. elim r [ none ↦ none | some (a, st) ↦ some (a, record s { store = st }) ]) h

  -- `malloc`, whose block the caller fills.
  abbrev pub take_block : (size : ℕ) → Step l ℕ
  take_block size s = let (p, st) = allocate size s.store in some (p, record s { store = st })

  abbrev pub find_section : (fuel script : ℕ) → (name : List ℕ) → Step l ℕ
  find_section fuel script name = on_store (script_find_section fuel script name)

  abbrev pub find_entry : (fuel section : ℕ) → (name : List ℕ) → Step l ℕ
  find_entry fuel section name = on_store (script_find_entry fuel section name)

-- The text in front of the first zero byte.
unfoldable pub c_text : List ℕ → List ℕ
c_text [] = []
c_text (c ∷ cs) = if c == 0 then [] else c ∷ c_text cs

-- `entry->value`, `entry->string`, and `GPIO_ENTRY_TO_STRUCT`, at the address of an entry.
abbrev pub value_of : Payload → Option ℕ
value_of (single v) = some v
value_of (string l s) = none
value_of (gpio p n a b c d) = none
value_of null_entry = none

abbrev pub string_of : Payload → Option (List ℕ)
string_of (single v) = none
string_of (string l s) = some (c_text s)
string_of (gpio p n a b c d) = none
string_of null_entry = none

unfoldable pub gpio_entry_to_struct : Payload → Option Gpio
gpio_entry_to_struct (single v) = none
gpio_entry_to_struct (string l s) = none
gpio_entry_to_struct (gpio p n a b c d) =
    some (record { port = p; port_num = n; drive = b; pull = c })
gpio_entry_to_struct null_entry = none

module _ {l : Libfdt} where
  -- Such a read, as a step.
  abbrev pub read_entry : {A : Type 0} → (Payload → Option A) → (entry : ℕ) → Step l A
  read_entry q entry s = elim (q (s.store.payload entry)) [ none ↦ none | some a ↦ some (a, s) ]

  pub read_entry_run :
      {A : Type 0} (q : Payload → Option A) (entry : ℕ) (s : Machine l) {p : Payload} {a : A}
      → s.store.payload entry ≡ p
      → q p ≡ some a
      → read_entry q entry s ≡ some (a, s)
  read_entry_run q entry s e h =
      ap (λ r. elim r [ none ↦ none | some a ↦ some (a, s) ]) (ap q e ∙ h)

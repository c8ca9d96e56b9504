-- ===== src/Fixup/Uarts/Sample/Place.antt =====
-- What the sample FEX file says of each UART.
use sunxi_babelfish.Common.{
  ℕ, zero, suc, ◌+◌, ◌<◌, ◌≡◌, inl, inr, Bool, true, false, List, [], ◌∷◌, ◌++◌, ◌==◌,
  if◌then◌else◌, refl, arith, take, drop, get_or, Bool-cases,
}
use sunxi_babelfish.Common.Int.{}
use sunxi_babelfish.Console.{codes}
use sunxi_babelfish.Libfdt.Small.{}
use sunxi_babelfish.Script.Store.{single, gpio}
use sunxi_babelfish.Script.Tree.{Tree}
use sunxi_babelfish.Script.Tree.Append.{new_entry}
use sunxi_babelfish.Script.Tree.Lookup.{NoSection}
use sunxi_babelfish.Script.Tree.Reading.{SectionIn, EntryIn}
use sunxi_babelfish.FdtTools.{}
use sunxi_babelfish.FdtTools.Pins.Frame.{}
use sunxi_babelfish.FdtTools.Pins.Group.{}
use sunxi_babelfish.Fixup.Effect.{differ}
use sunxi_babelfish.Fixup.Uarts.{GpioIn, UartIn, unused, used, two, para}
use sunxi_babelfish.Fixup.Uarts.Enable.{}
use sunxi_babelfish.Fixup.Uarts.Sample.{debug, first, idle, tree, product, machine}
use sunxi_babelfish.Fixup.Machine.{c_text}
use sunxi_babelfish.Fixup.Translation.{MachineIn}

abbrev pub is_used : ℕ → Bool
is_used j = j == 0

pub debug-SectionIn : SectionIn tree (codes "uart_para") debug
debug-SectionIn = record { before = []; after = drop 1 tree; here = refl; first = tt; named = refl }

pub debug-EntryIn : EntryIn debug (codes "uart_debug_port") (single 0)
debug-EntryIn = record {
  before = [];
  entry = new_entry 4152 (codes "uart_debug_port") (single 0);
  after = [];
  here = refl;
  first = tt;
  named = refl;
  holds = refl;
}

first_used-EntryIn : EntryIn first (codes "uart_used") (single 1)
first_used-EntryIn = record {
  before = take 0 first.entries;
  entry = new_entry 4248 (codes "uart_used") (single 1);
  after = drop 1 first.entries;
  here = refl;
  first = tt;
  named = refl;
  holds = refl;
}

first_type-EntryIn : EntryIn first (codes "uart_type") (single 2)
first_type-EntryIn = record {
  before = take 1 first.entries;
  entry = new_entry 4296 (codes "uart_type") (single 2);
  after = drop 2 first.entries;
  here = refl;
  first = (differ 5 (omega arith), tt);
  named = refl;
  holds = refl;
}

first_tx-GpioIn : GpioIn first (codes "uart_tx")
first_tx-GpioIn = record {
  port = 2;
  port_num = 22;
  data0 = 2;
  data1 = 1;
  data2 = 0;
  data3 = 0;
  is_there = record {
    before = take 2 first.entries;
    entry = new_entry 4344 (codes "uart_tx") (gpio 2 22 2 1 0 0);
    after = drop 3 first.entries;
    here = refl;
    first = (differ 5 (omega arith), (differ 6 (omega arith), tt));
    named = refl;
    holds = refl;
  };
}

first_rx-GpioIn : GpioIn first (codes "uart_rx")
first_rx-GpioIn = record {
  port = 2;
  port_num = 23;
  data0 = 2;
  data1 = 1;
  data2 = 0;
  data3 = 0;
  is_there = record {
    before = take 3 first.entries;
    entry = new_entry 4412 (codes "uart_rx") (gpio 2 23 2 1 0 0);
    after = drop 4 first.entries;
    here = refl;
    first = (differ 5 (omega arith), (differ 6 (omega arith), (differ 5 (omega arith), tt)));
    named = refl;
    holds = refl;
  };
}

idle-EntryIn : (k a : ℕ) → EntryIn (idle k a) (codes "uart_used") (single 0)
idle-EntryIn k a = record {
  before = [];
  entry = new_entry (a + 48) (codes "uart_used") (single 0);
  after = [];
  here = refl;
  first = tt;
  named = refl;
  holds = refl;
}

-- None of the names has the character of this one at the place.
unlike : (place : ℕ) → List ℕ → Tree → Bool
unlike place name [] = true
unlike place name (s ∷ ss) =
    let rest = unlike place name ss in
    if get_or s.name place 0 == get_or name place 0 then false else rest

unlike_lem :
    (place : ℕ) (name : List ℕ) (ss : Tree) → unlike place name ss ≡ true → NoSection name ss
unfolding unlike
unlike_lem place name [] h = tt
unlike_lem place name (s ∷ ss) h =
    elim (Bool-cases (get_or s.name place 0 == get_or name place 0)) [
      | inl e ↦ absurd (ground arith)
      | inr e ↦ (differ place (λ d. ground arith), unlike_lem place name ss (ground arith))
    ]

idle-UartIn :
    (k a : ℕ) (before after : Tree)
    → tree ≡ before ++ idle k a ∷ after
    → unlike 9 (para k) before ≡ true
    → (idle k a).name ≡ para k
    → UartIn tree k false
idle-UartIn k a before after here h name =
    unused (idle k a) 0
      (record {
        before = before;
        after = after;
        here = here;
        first = unlike_lem 9 (para k) before h;
        named = name;
      })
      (idle-EntryIn k a) refl

pub said : (j : ℕ) → j < 8 → UartIn tree j (is_used j)
unfolding unlike
said zero h =
    used first 2
      (record {
        before = take 1 tree;
        after = drop 2 tree;
        here = refl;
        first = (differ 9 (omega arith), tt);
        named = refl;
      })
      first_used-EntryIn first_type-EntryIn (two refl refl refl (first_rx-GpioIn, first_tx-GpioIn))
said (suc zero) h = idle-UartIn 1 4480 (take 2 tree) (drop 3 tree) refl refl refl
said (suc (suc zero)) h = idle-UartIn 2 4576 (take 3 tree) (drop 4 tree) refl refl refl
said (suc (suc (suc zero))) h = idle-UartIn 3 4672 (take 4 tree) (drop 5 tree) refl refl refl
said (suc (suc (suc (suc zero)))) h = idle-UartIn 4 4768 (take 5 tree) (drop 6 tree) refl refl refl
said (suc (suc (suc (suc (suc zero))))) h =
    idle-UartIn 5 4864 (take 6 tree) (drop 7 tree) refl refl refl
said (suc (suc (suc (suc (suc (suc zero)))))) h =
    idle-UartIn 6 4960 (take 7 tree) (drop 8 tree) refl refl refl
said (suc (suc (suc (suc (suc (suc (suc zero))))))) h =
    idle-UartIn 7 5056 (take 8 tree) (drop 9 tree) refl refl refl
said (suc (suc (suc (suc (suc (suc (suc (suc j)))))))) h = absurd (omega arith)

pub named-MachineIn : MachineIn tree (codes "a20x")
unfolding unlike c_text
named-MachineIn = record {
  product = product;
  size = 4;
  text = codes "a20x";
  section = record {
    before = take 9 tree;
    after = [];
    here = refl;
    first = unlike_lem 0 (codes "product") (take 9 tree) refl;
    named = refl;
  };
  entry = record {
    before = [];
    entry = machine;
    after = [];
    here = refl;
    first = tt;
    named = refl;
    holds = refl;
  };
  reads = refl;
}

-- ===== src/Fixup/Uarts/Sample.antt =====
-- A FEX file with eight UARTs, of which the first is used, made by the calls of
-- lib/libfex/script.c.
pub mod Place
pub mod Beside
use sunxi_babelfish.Common.{ℕ, ◌+◌, List, [], ◌∷◌, ◌++◌, arith, take}
use sunxi_babelfish.Console.{codes}
use sunxi_babelfish.Malloc.{aligned}
use sunxi_babelfish.Script.Store.{Store, null_entry, single, gpio, string, script_size}
use sunxi_babelfish.Script.New.{script_new}
use sunxi_babelfish.Script.Tree.{Tree, Section, Entry}
use sunxi_babelfish.Script.Tree.Grow.{new_section}
use sunxi_babelfish.Script.Tree.Append.{new_entry, add_entry}
use sunxi_babelfish.Script.Tree.Drop.{Dropped}
use sunxi_babelfish.Script.Calls.{
  Call, section_new, entry_new, calls, Changes, done, after, section_added, entry_added,
}
use sunxi_babelfish.Script.Calls.Lifetime.{lifetime-Dropped}
use sunxi_babelfish.Fixup.Uarts.{para}

abbrev pub start : Store
start = record {
  hooks = record { prev = λ _. 0; next = λ _. 0 };
  heap_base = 4096;
  section_name = λ _. [];
  entry_name = λ _. [];
  entry_type = λ _. 0;
  payload = λ _. null_entry;
  log = [];
}

-- The port of the console is 0.
abbrev debug_new : Section
debug_new = new_section 4104 (codes "uart_para")

abbrev pub debug : Section
debug = add_entry debug_new (new_entry 4152 (codes "uart_debug_port") (single 0))

-- The first UART has two pins.
abbrev first_new : Section
first_new = new_section 4200 (para 0)

abbrev first_used : Section
first_used = add_entry first_new (new_entry 4248 (codes "uart_used") (single 1))

abbrev first_typed : Section
first_typed = add_entry first_used (new_entry 4296 (codes "uart_type") (single 2))

abbrev first_tx : Section
first_tx = add_entry first_typed (new_entry 4344 (codes "uart_tx") (gpio 2 22 2 1 0 0))

abbrev pub first : Section
first = add_entry first_tx (new_entry 4412 (codes "uart_rx") (gpio 2 23 2 1 0 0))

-- A UART that is not used, with its section at `a`.
abbrev pub idle : (k a : ℕ) → Section
idle k a = add_entry (new_section a (para k)) (new_entry (a + 48) (codes "uart_used") (single 0))

-- The machine has a name.
abbrev pub machine : Entry
machine = new_entry 5200 (codes "machine") (string 4 (codes "a20x"))

abbrev product_new : Section
product_new = new_section 5152 (codes "product")

abbrev pub product : Section
product = add_entry product_new machine

abbrev pub tree : Tree
tree =
    debug
    ∷ first
    ∷ idle 1 4480
    ∷ idle 2 4576
    ∷ idle 3 4672
    ∷ idle 4 4768
    ∷ idle 5 4864
    ∷ idle 6 4960
    ∷ idle 7 5056
    ∷ product
    ∷ []

abbrev pub program : List Call
program =
    section_new (codes "uart_para")
    ∷ entry_new 4104 (codes "uart_debug_port") (single 0)
    ∷ section_new (para 0)
    ∷ entry_new 4200 (codes "uart_used") (single 1)
    ∷ entry_new 4200 (codes "uart_type") (single 2)
    ∷ entry_new 4200 (codes "uart_tx") (gpio 2 22 2 1 0 0)
    ∷ entry_new 4200 (codes "uart_rx") (gpio 2 23 2 1 0 0)
    ∷ section_new (para 1)
    ∷ entry_new 4480 (codes "uart_used") (single 0)
    ∷ section_new (para 2)
    ∷ entry_new 4576 (codes "uart_used") (single 0)
    ∷ section_new (para 3)
    ∷ entry_new 4672 (codes "uart_used") (single 0)
    ∷ section_new (para 4)
    ∷ entry_new 4768 (codes "uart_used") (single 0)
    ∷ section_new (para 5)
    ∷ entry_new 4864 (codes "uart_used") (single 0)
    ∷ section_new (para 6)
    ∷ entry_new 4960 (codes "uart_used") (single 0)
    ∷ section_new (para 7)
    ∷ entry_new 5056 (codes "uart_used") (single 0)
    ∷ section_new (codes "product")
    ∷ entry_new 5152 (codes "machine") (string 4 (codes "a20x"))
    ∷ []

program-Changes : Changes 11 (4096 + aligned script_size) program [] tree
unfolding aligned
program-Changes = after (section_added (codes "uart_para")) (
    after (entry_added [] debug_new [] (codes "uart_debug_port") (single 0)) (
      after (section_added (para 0)) (
        after (entry_added (debug ∷ []) first_new [] (codes "uart_used") (single 1)) (
          after (entry_added (debug ∷ []) first_used [] (codes "uart_type") (single 2)) (
            after (entry_added (debug ∷ []) first_typed [] (codes "uart_tx") (gpio 2 22 2 1 0 0)) (
              after (entry_added (debug ∷ []) first_tx [] (codes "uart_rx") (gpio 2 23 2 1 0 0)) (
                after (section_added (para 1)) (
                  after
                    (entry_added (take 2 tree) (new_section 4480 (para 1)) [] (codes "uart_used")
                      (single 0))
                    (after (section_added (para 2)) (
                      after
                        (entry_added (take 3 tree) (new_section 4576 (para 2)) []
                          (codes "uart_used") (single 0))
                        (after (section_added (para 3)) (
                          after
                            (entry_added (take 4 tree) (new_section 4672 (para 3)) []
                              (codes "uart_used") (single 0))
                            (after (section_added (para 4)) (
                              after
                                (entry_added (take 5 tree) (new_section 4768 (para 4)) []
                                  (codes "uart_used") (single 0))
                                (after (section_added (para 5)) (
                                  after
                                    (entry_added (take 6 tree) (new_section 4864 (para 5)) []
                                      (codes "uart_used") (single 0))
                                    (after (section_added (para 6)) (
                                      after
                                        (entry_added (take 7 tree) (new_section 4960 (para 6)) []
                                          (codes "uart_used") (single 0))
                                        (after (section_added (para 7)) (
                                          after
                                            (entry_added (take 8 tree) (new_section 5056 (para 7))
                                              [] (codes "uart_used") (single 0))
                                            (after (section_added (codes "product")) (
                                              after
                                                (entry_added (take 9 tree) product_new []
                                                  (codes "machine") (string 4 (codes "a20x")))
                                                done))))))))))))))))))))))

-- The store after these calls.
pub made : Dropped 4096 tree (calls 11 4096 program (script_new start).1)
made =
    (lifetime-Dropped 11 program start tree (omega arith) (omega arith) program-Changes
      (
        omega arith,
        (
          omega arith,
          (
            omega arith,
            (
              omega arith,
              (
                omega arith,
                (omega arith, (omega arith, (omega arith, (omega arith, (omega arith, tt))))),
              ),
            ),
          ),
        ),
      )
      (omega arith)).0

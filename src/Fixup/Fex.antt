-- ===== src/Fixup/Fex.antt =====
-- `fdt_fixup_machine`, `fdt_fixup_uarts` and `fdt_fixup_from_fex` of src/fixup.c. Searches of the
-- FEX tree and of the device tree's nodes take `fuel`.
use sunxi_babelfish.Common.{
  ℕ, zero, suc, ◌+◌, ◌*◌, List, [], ◌∷◌, ◌++◌, Option, some, none, ◌==◌, if◌then◌else◌,
}
use sunxi_babelfish.Common.Int.{ℤ, pos, is_neg, is_zero}
use sunxi_babelfish.Console.{codes}
use sunxi_babelfish.Libfdt.{Libfdt, setprop_string}
use sunxi_babelfish.FdtTools.Pins.{Gpio, add_char, fdt_add_pinctrl_group}
use sunxi_babelfish.Fixup.Machine.{
  Step, pure, ◌>>=◌, ◌>>◌, ask, change, attempt, take_block, find_section, find_entry, read_entry,
  value_of, string_of, gpio_entry_to_struct,
}
use sunxi_babelfish.Fixup.Bootargs.{fdt_fixup_append_bootargs}

abbrev pub pinctrl_path : List ℕ
pinctrl_path = codes "/soc@01c00000/pinctrl@01c20800"

module _ (l : Libfdt) (fuel : ℕ) where
  open l use {path_offset}

  -- `compatible` is the SoC's, and the model is the FEX file's `machine`.
  unfoldable pub fdt_fixup_machine : (compatible : List ℕ) → (script : ℕ) → Step l ℤ
  unfolding setprop_string
  fdt_fixup_machine compatible script = do
    ret ← change (λ f. setprop_string l f (pos 0) (codes "compatible") compatible)
    if is_neg ret then pure ret else (do
      section ← find_section fuel script (codes "product")
      entry ← find_entry fuel section (codes "machine")
      machine ← read_entry string_of entry
      ret ← change (λ f. setprop_string l f (pos 0) (codes "model") machine)
      pure (if is_neg ret then ret else pos 0))

  -- `script_find_entry` and `GPIO_ENTRY_TO_STRUCT`.
  unfoldable pub find_gpio : (section : ℕ) → (name : List ℕ) → Step l Gpio
  unfolding gpio_entry_to_struct
  find_gpio section name = do
    entry ← find_entry fuel section name
    read_entry gpio_entry_to_struct entry

  -- The `switch` over the number of pins, which falls through from 8 to 4 and from 4 to 2: the
  -- array `gpios`, or none for `default`.
  unfoldable pub two_pins : (section : ℕ) → Step l (List Gpio)
  unfolding find_gpio
  two_pins section = do
    rx ← find_gpio section (codes "uart_rx")
    tx ← find_gpio section (codes "uart_tx")
    pure (tx ∷ rx ∷ [])

  unfoldable pub four_pins : (section : ℕ) → Step l (List Gpio)
  unfolding two_pins
  four_pins section = do
    cts ← find_gpio section (codes "uart_cts")
    rts ← find_gpio section (codes "uart_rts")
    pins ← two_pins section
    pure (pins ++ rts ∷ cts ∷ [])

  unfoldable pub eight_pins : (section : ℕ) → Step l (List Gpio)
  unfolding four_pins
  eight_pins section = do
    dtr ← find_gpio section (codes "uart_dtr")
    dsr ← find_gpio section (codes "uart_dsr")
    dcd ← find_gpio section (codes "uart_dcd")
    ring ← find_gpio section (codes "uart_ring")
    pins ← four_pins section
    pure (pins ++ ring ∷ dcd ∷ dsr ∷ dtr ∷ [])

  unfoldable pub uart_pins : (type section : ℕ) → Step l (Option (List Gpio))
  unfolding eight_pins
  uart_pins type section =
      if type == 8
      then (do pins ← eight_pins section; pure (some pins))
      else if type == 4
      then (do pins ← four_pins section; pure (some pins))
      else if type == 2
      then (do pins ← two_pins section; pure (some pins))
      else pure none

  -- The group for the pins that were found; its result is not looked at.
  unfoldable pub add_group : (alias device : List ℕ) → (pins : Option (List Gpio)) → Step l ℤ
  unfolding fdt_add_pinctrl_group
  add_group alias device none = pure (pos 0)
  add_group alias device (some gpios) = do
    attempt (λ f. fdt_add_pinctrl_group l fuel f pinctrl_path alias gpios device)
    pure (pos 0)

  -- What follows in a round of the loop for a UART that is used; zero goes on with the loop.
  unfoldable pub enable_uart : (section idx : ℕ) → Step l ℤ
  unfolding uart_pins setprop_string add_group
  enable_uart section idx = do
    offset ← ask (λ f. path_offset f (add_char (codes "serial") idx))
    ret ← change (λ f. setprop_string l f offset (codes "status") (codes "okay"))
    if is_zero ret
        then (do
          entry ← find_entry fuel section (codes "uart_type")
          type ← read_entry value_of entry
          take_block (type * 16)
          pins ← uart_pins type section
          add_group (add_char (codes "serial") idx) (add_char (codes "uart") idx) pins)
        else pure ret

  -- `for (i = 0; i < SUNXI_MAX_UARTS; i++)`, with `k` rounds left.
  unfoldable pub uart_loop : (k i script : ℕ) → Step l ℤ
  unfolding enable_uart
  uart_loop zero i script = pure (pos 0)
  uart_loop (suc k) i script =
      let rest : Step l ℤ = uart_loop k (suc i) script in
      do
        section ← find_section fuel script (add_char (codes "uart_para") (b'0' + i))
        entry ← find_entry fuel section (codes "uart_used")
        used ← read_entry value_of entry
        if used == 1
            then (do ret ← enable_uart section (b'0' + i); if is_zero ret then rest else pure ret)
            else rest

  -- `SUNXI_MAX_UARTS`.
  abbrev pub max_uarts : ℕ
  max_uarts = 8

  -- The console's arguments, from the FEX file's debug port.
  abbrev pub console_args : (port : ℕ) → List ℕ
  console_args port = add_char (codes "console=ttyS") (b'0' + port) ++ codes ",115200"

  unfoldable pub fdt_fixup_uarts : (script : ℕ) → Step l ℤ
  unfolding uart_loop fdt_fixup_append_bootargs
  fdt_fixup_uarts script = do
    section ← find_section fuel script (codes "uart_para")
    entry ← find_entry fuel section (codes "uart_debug_port")
    port ← read_entry value_of entry
    fdt_fixup_append_bootargs l (console_args port)
    uart_loop max_uarts 0 script

  unfoldable pub fdt_fixup_from_fex : (compatible : List ℕ) → (script : ℕ) → Step l ℤ
  unfolding fdt_fixup_machine fdt_fixup_uarts
  fdt_fixup_from_fex compatible script = do
    ret ← fdt_fixup_machine compatible script
    if is_zero ret then fdt_fixup_uarts script else pure ret

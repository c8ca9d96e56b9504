-- ===== src/FdtTools/Pins.antt =====
-- `fdt_add_pinctrl_group` of src/fdt_tools.c.
pub mod Names
pub mod Frame
pub mod Unit
pub mod Group
use sunxi_babelfish.Common.{
  ℕ, zero, suc, ◌+◌, ◌-◌, ◌/◌, ◌%◌, ◌^◌, Bool, List, [], ◌∷◌, ◌++◌, Option, some, none, ◌>>=◌, pure,
  ◌==◌, if◌then◌else◌,
}
use sunxi_babelfish.Common.Int.{ℤ, pos, is_neg}
use sunxi_babelfish.Console.{codes}
use sunxi_babelfish.Libfdt.{Libfdt, setprop_u32, setprop_string, appendprop_string}
use sunxi_babelfish.FdtTools.{fdt_create_phandle}

-- `struct gpio`.
pub record Gpio : Type 0 where
  pub port : ℕ
  pub port_num : ℕ
  pub drive : ℕ
  pub pull : ℕ

-- The two `switch` statements: the values that are kept, and the suffixes of the name.
abbrev pub known_pull : ℕ → ℕ
known_pull p = if p == 1 then p else if p == 2 then p else 0

abbrev pub pull_suffix : ℕ → List ℕ
pull_suffix p = if p == 1 then codes "_pullup" else if p == 2 then codes "_pulldown" else []

abbrev pub known_drive : ℕ → ℕ
known_drive d = if d == 1 then d else if d == 2 then d else if d == 3 then d else 0

abbrev pub drive_suffix : ℕ → List ℕ
drive_suffix d =
    if d == 1
    then codes "_20mA"
    else if d == 2
    then codes "_30mA"
    else if d == 3
    then codes "_40mA"
    else []

-- The name of the group that a pin goes to.
unfoldable pub group_name : (device : List ℕ) → Gpio → List ℕ
group_name device g =
    device ++ (codes "_pins_babelfish" ++ (pull_suffix g.pull ++ drive_suffix g.drive))

-- `strncat(s, &c, 1)` for a `char` variable: the character is added unless it is the zero byte.
abbrev pub add_char : List ℕ → ℕ → List ℕ
add_char s c = if c % 2 ^ 8 == 0 then s else s ++ (c % 2 ^ 8) ∷ []

-- "P", the letter of the port and two digits.
unfoldable pub pin_name : Gpio → List ℕ
pin_name g =
    add_char (add_char (add_char (codes "P") (b'A' + g.port + 2 ^ 32 - 1)) (b'0' + g.port_num / 10))
      (b'0' + g.port_num % 10)

module _ (l : Libfdt) where
  open l use {Fdt, path_offset, subnode_offset, add_subnode}

  -- What a round of the loop comes to: an early return, or the next value of `ngroup`.
  pub data Flow : Type 0 where
    return : ℤ → Fdt → Flow
    next : (ngroup : ℕ) → Fdt → Flow

  -- A group that is not there yet: its node, its three properties, and its entry in the device.
  unfoldable pub new_group :
      (fuel : ℕ)
      → Fdt
      → (offset : ℤ) → (parent_path device : List ℕ) → (ngroup : ℕ) → Gpio
      → Option Fdt
  unfolding setprop_u32 setprop_string appendprop_string fdt_create_phandle
  new_group fuel f offset parent_path device ngroup g =
      let f1 = (setprop_u32 l f offset (codes "allwinner,drive") (known_drive g.drive)).1 in
      let f2 = (setprop_u32 l f1 offset (codes "allwinner,pull") (known_pull g.pull)).1 in
      let f3 = (setprop_string l f2 offset (codes "allwinner,function") device).1 in
      let f4 =
        (appendprop_string l f3 (path_offset f3 parent_path) (codes "pinctrl-names")
          (codes "default")).1 in
      do
        (phandle, f5) ← fdt_create_phandle l fuel f4 offset
        pure
            (setprop_u32 l f5 (path_offset f5 parent_path)
              (add_char (codes "pinctrl-") (b'0' + ngroup)) phandle).1

  -- The last statement of a round.
  abbrev add_pin : (offset : ℤ) → (ngroup : ℕ) → Gpio → Fdt → Flow
  add_pin offset ngroup g f =
      next ngroup (appendprop_string l f offset (codes "allwinner,pins") (pin_name g)).1

  unfoldable pub pin_round :
      (fuel : ℕ)
      → (pctrl_offset : ℤ) → (parent_path device : List ℕ) → Gpio
      → (ngroup : ℕ) → Fdt
      → Option Flow
  unfolding new_group appendprop_string group_name pin_name
  pin_round fuel pctrl parent_path device g ngroup f =
      let name = group_name device g in
      let old = subnode_offset f pctrl name in
      let (new, f1) = add_subnode f pctrl name in
      if is_neg old
      then (if is_neg new then some (return new f1) else (do
        f2 ← new_group fuel f1 new parent_path device ngroup g
        pure (add_pin new (ngroup + 1) g f2)))
      else some (add_pin old ngroup g f)

  -- `for (i = 0; i < ngpios; i++)`.
  unfoldable pub pin_loop :
      (fuel : ℕ)
      → (pctrl_offset : ℤ) → (parent_path device : List ℕ) → (gpios : List Gpio) → (ngroup : ℕ)
      → Fdt
      → Option (ℤ × Fdt)
  pin_loop fuel pctrl parent_path device [] ngroup f = some (pos 0, f)
  pin_loop fuel pctrl parent_path device (g ∷ gs) ngroup f = do
    flow ← pin_round fuel pctrl parent_path device g ngroup f
    elim flow [
      | return ret f1 ↦ some (ret, f1)
      | next n f1 ↦ pin_loop fuel pctrl parent_path device gs n f1
    ]

  unfoldable pub fdt_add_pinctrl_group :
      (fuel : ℕ)
      → Fdt
      → (pinctrl_path parent_path : List ℕ) → (gpios : List Gpio) → (device : List ℕ)
      → Option (ℤ × Fdt)
  unfolding pin_loop
  fdt_add_pinctrl_group fuel f pinctrl_path parent_path gpios device =
      let pctrl = path_offset f pinctrl_path in
      if is_neg pctrl then some (pctrl, f) else pin_loop fuel pctrl parent_path device gpios 0 f

-- ===== src/FdtTools/Pins/Names.antt =====
-- The names that src/fdt_tools.c makes for pins and for groups of pins.
use sunxi_babelfish.Common.{
  ℕ, ◌+◌, ◌-◌, ◌/◌, ◌%◌, ◌^◌, ◌<◌, ◌≤◌, ◌≡◌, ◌∙◌, sym, ap, refl, false, List, [], ◌∷◌, ◌++◌, ◌==◌,
  if◌then◌else◌, arith, get_or,
}
use sunxi_babelfish.Console.{codes}
use sunxi_babelfish.FdtTools.Pins.{
  Gpio, pin_name, add_char, group_name, known_pull, known_drive, pull_suffix, drive_suffix,
}

-- The ports PA to PZ, and numbers of two digits.
pub record HasName (g : Gpio) : Type 0 where
  pub first : 1 ≤ g.port
  pub last : g.port ≤ 26
  pub digits : g.port_num < 100

add_char_lem : (s : List ℕ) (c d : ℕ) → c % 2 ^ 8 ≡ d → 0 < d → add_char s c ≡ s ++ d ∷ []
add_char_lem s c d h b = let e : (c % 2 ^ 8 == 0) ≡ false = ground arith in rw (e, h) refl

pin_name-digits :
    (g : Gpio)
    → HasName g
    → pin_name g
      ≡ codes "P" ++ (64 + g.port) ∷ (b'0' + g.port_num / 10) ∷ (b'0' + g.port_num % 10) ∷ []
unfolding pin_name
pin_name-digits g h =
    let a =
      add_char_lem (codes "P") (b'A' + g.port + 2 ^ 32 - 1) (64 + g.port)
        (omega (arith, h.first, h.last)) (omega arith) in
    let b =
      add_char_lem (codes "P" ++ (64 + g.port) ∷ []) (b'0' + g.port_num / 10)
        (b'0' + g.port_num / 10) (omega (arith, h.digits)) (omega arith) in
    let c =
      add_char_lem (codes "P" ++ (64 + g.port) ∷ (b'0' + g.port_num / 10) ∷ [])
        (b'0' + g.port_num % 10) (b'0' + g.port_num % 10) (omega (arith, h.digits)) (omega arith) in
    ap (λ s. add_char (add_char s (b'0' + g.port_num / 10)) (b'0' + g.port_num % 10)) a
    ∙ ap (λ s. add_char s (b'0' + g.port_num % 10)) b
    ∙ c

-- Two pins of the ports PA to PZ with numbers below 100 that are given the same name are the same
-- pin.
pub pin_name-injective :
    (g h : Gpio)
    → HasName g
    → HasName h
    → pin_name g ≡ pin_name h
    → (g.port ≡ h.port) × (g.port_num ≡ h.port_num)
pin_name-injective g h p q e =
    let texts = sym (pin_name-digits g p) ∙ e ∙ pin_name-digits h q in
    let letter = ap (λ s. get_or s 1 0) texts in
    let tens = ap (λ s. get_or s 2 0) texts in
    let ones = ap (λ s. get_or s 3 0) texts in (omega arith, omega arith)

-- `xs` from the end of the name of the device on.
append-cancel : (xs : List ℕ) {ys zs : List ℕ} → xs ++ ys ≡ xs ++ zs → ys ≡ zs
append-cancel [] e = e
append-cancel (x ∷ xs) e = append-cancel xs (ap (λ s. elim s [ [] ↦ [] | c ∷ cs ↦ cs ]) e)

-- The settings that a name's two suffixes stand for.
abbrev pull_of : List ℕ → ℕ
pull_of s = let c = get_or s 5 0 in if c == b'u' then 1 else if c == b'd' then 2 else 0

abbrev digit_of : List ℕ → ℕ
digit_of s =
    let c = get_or s 5 0 in
    if c == b'u' then get_or s 8 0 else if c == b'd' then get_or s 10 0 else get_or s 1 0

abbrev drive_of : List ℕ → ℕ
drive_of s =
    let c = digit_of s in
    if c == b'2' then 1 else if c == b'3' then 2 else if c == b'4' then 3 else 0

suffixes-decoded :
    (p d : ℕ)
    → (pull_of (pull_suffix p ++ drive_suffix d) ≡ known_pull p)
      × (drive_of (pull_suffix p ++ drive_suffix d) ≡ known_drive d)
suffixes-decoded p d = (ground arith, ground arith)

-- Two groups of one device that are given the same name have the same settings, so the pins that
-- the loop puts into one group agree on their pull and their drive.
pub group_name-injective :
    (device : List ℕ) (g h : Gpio)
    → group_name device g ≡ group_name device h
    → (known_pull g.pull ≡ known_pull h.pull) × (known_drive g.drive ≡ known_drive h.drive)
unfolding group_name
group_name-injective device g h e =
    let settings : Gpio → List ℕ = λ x. pull_suffix x.pull ++ drive_suffix x.drive in
    let named : Gpio → List ℕ = λ x. codes "_pins_babelfish" ++ settings x in
    let tails = append-cancel device {ys = named g} {zs = named h} e in
    let same = append-cancel (codes "_pins_babelfish") {ys = settings g} {zs = settings h} tails in
    let (pull_g, drive_g) = suffixes-decoded g.pull g.drive in
    let (pull_h, drive_h) = suffixes-decoded h.pull h.drive in
    (sym pull_g ∙ ap pull_of same ∙ pull_h, sym drive_g ∙ ap drive_of same ∙ drive_h)

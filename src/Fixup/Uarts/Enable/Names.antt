-- ===== src/Fixup/Uarts/Enable/Names.antt =====
-- The names of the aliases and of the devices of the eight UARTs.
use sunxi_babelfish.Common.{
  ℕ, ◌+◌, ◌<◌, ◌%◌, ◌^◌, ◌≡◌, ◌≢◌, ◌∙◌, inl, inr, refl, sym, ap, false, List, ◌==◌, arith, get_or,
  Bool-cases,
}
use mathlib.Core.Path.{}
use sunxi_babelfish.Common.Int.{}
use sunxi_babelfish.Console.{codes}
use sunxi_babelfish.Script.Store.{}
use sunxi_babelfish.Script.Tree.{}
use sunxi_babelfish.Script.Tree.Reading.{}
use sunxi_babelfish.FdtTools.Pins.Frame.{IsForeign, HasNoUnit, add_char-first}
use sunxi_babelfish.FdtTools.Pins.{add_char}
use sunxi_babelfish.Libfdt.{}
use sunxi_babelfish.Libfdt.Laws.{HasNoSlash}
use sunxi_babelfish.Fixup.Effect.{differ}
use sunxi_babelfish.Fixup.Fits.{}
use sunxi_babelfish.Fixup.Machine.{}
use sunxi_babelfish.Fixup.Fex.{}
use sunxi_babelfish.Fixup.Uarts.{}
use sunxi_babelfish.Fixup.Uarts.Enable.{alias}

-- The names of the aliases.
pub alias-IsForeign : (j : ℕ) → IsForeign (alias j)
alias-IsForeign j =
    let e = add_char-first b's' (codes "erial") (b'0' + j) in
    (λ h. omega (arith, e, h), λ h. omega (arith, e, h), λ h. omega (arith, e, h))

pub alias-status : (j : ℕ) → alias j ≢ codes "status"
alias-status j = elim (Bool-cases ((b'0' + j) % 2 ^ 8 == 0)) [
  | inl e ↦ rw e (differ 1 (omega arith))
  | inr e ↦ rw e (differ 1 (omega arith))
]

-- The alias is no name that begins with another letter.
pub alias-other : (j : ℕ) (k : List ℕ) → get_or k 0 0 ≢ b's' → alias j ≢ k
alias-other j k d e =
    let a = add_char-first b's' (codes "erial") (b'0' + j) in d (ap (λ x. get_or x 0 0) (sym e) ∙ a)

pub alias-HasNoSlash : (j : ℕ) → j < 8 → HasNoSlash (alias j)
alias-HasNoSlash j h =
    let some_char : ((b'0' + j) % 2 ^ 8 == 0) ≡ false = ground arith in
    rw some_char (
      λ e. omega arith,
      (
        λ e. omega arith,
        (
          λ e. omega arith,
          (λ e. omega arith, (λ e. omega arith, (λ e. omega arith, (λ e. omega (arith, h), tt)))),
        ),
      ),
    )

pub uart-HasNoUnit : (i : ℕ) → i < 8 → HasNoUnit (add_char (codes "uart") (b'0' + i))
uart-HasNoUnit i h =
    let some_char : ((b'0' + i) % 2 ^ 8 == 0) ≡ false = ground arith in
    let no_at : ((b'0' + i) % 2 ^ 8 == b'@') ≡ false = ground arith in rw some_char (rw no_at refl)

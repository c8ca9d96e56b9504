-- ===== src/FdtTools/Pins/Unit.antt =====
-- The names of the groups that `fdt_add_pinctrl_group` makes have no unit address.
use sunxi_babelfish.Common.{ℕ, inl, inr, refl, List, [], ◌∷◌, ◌++◌, arith, ◌==◌, Bool-cases}
use sunxi_babelfish.Common.Int.{}
use sunxi_babelfish.Console.{codes}
use sunxi_babelfish.Libfdt.{}
use sunxi_babelfish.Libfdt.Laws.{}
use sunxi_babelfish.FdtTools.{}
use sunxi_babelfish.FdtTools.Pins.{Gpio, group_name, pull_suffix, drive_suffix}
use sunxi_babelfish.FdtTools.Pins.Frame.{HasNoUnit}

append-HasNoUnit : (a b : List ℕ) → HasNoUnit a → HasNoUnit b → HasNoUnit (a ++ b)
append-HasNoUnit [] b h k = k
append-HasNoUnit (x ∷ a) b h k = elim (Bool-cases (x == b'@')) [
  | inl e ↦ absurd (ground (arith, e, h))
  | inr e ↦ rw e (append-HasNoUnit a b (ground (arith, e, h)) k)
]

pull_suffix-HasNoUnit : (p : ℕ) → HasNoUnit (pull_suffix p)
pull_suffix-HasNoUnit p = elim (Bool-cases (p == 1)) [
  | inl e ↦ rw e refl
  | inr e ↦ rw e (elim (Bool-cases (p == 2)) [ inl d ↦ rw d refl | inr d ↦ rw d refl ])
]

drive_suffix-HasNoUnit : (d : ℕ) → HasNoUnit (drive_suffix d)
drive_suffix-HasNoUnit d = elim (Bool-cases (d == 1)) [
  | inl e ↦ rw e refl
  | inr e ↦ rw e (elim (Bool-cases (d == 2)) [
    | inl g ↦ rw g refl
    | inr g ↦ rw g (elim (Bool-cases (d == 3)) [ inl h ↦ rw h refl | inr h ↦ rw h refl ])
  ])
]

pub group_name-HasNoUnit :
    (device : List ℕ) (g : Gpio) → HasNoUnit device → HasNoUnit (group_name device g)
unfolding group_name
group_name-HasNoUnit device g h =
    append-HasNoUnit device
      (codes "_pins_babelfish" ++ (pull_suffix g.pull ++ drive_suffix g.drive)) h
      (append-HasNoUnit (codes "_pins_babelfish") (pull_suffix g.pull ++ drive_suffix g.drive) refl
        (append-HasNoUnit (pull_suffix g.pull) (drive_suffix g.drive) (pull_suffix-HasNoUnit g.pull)
          (drive_suffix-HasNoUnit g.drive)))

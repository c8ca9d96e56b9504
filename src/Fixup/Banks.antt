-- ===== src/Fixup/Banks.antt =====
-- The banks of memory that `fdt_fixup_from_atags` of src/fixup.c keeps.
use mathlib.Core.Path.{}
use sunxi_babelfish.Common.{
  ℕ, ◌<◌, ◌≡◌, ◌≢◌, ◌∙◌, ap, refl, true, false, List, [], ◌∷◌, ◌++◌, some, ◌==◌, arith, length,
}
use sunxi_babelfish.Common.Int.{pos}
use sunxi_babelfish.Console.{codes}
use sunxi_babelfish.Memory.{Memory}
use sunxi_babelfish.ScriptBin.Image.{}
use sunxi_babelfish.Libfdt.{Libfdt, cell}
use sunxi_babelfish.Libfdt.Laws.{FdtView}
use sunxi_babelfish.Fixup.Machine.{Machine}
use sunxi_babelfish.Fixup.Bootargs.{}
use sunxi_babelfish.Fixup.Atags.{Tag, cmdline, mem, initrd2, other, fdt_fixup_from_atags}
use sunxi_babelfish.Fixup.Fits.{TagsFit}
use sunxi_babelfish.Fixup.Effect.{Boot, tag_effect, tags_effect}
use sunxi_babelfish.Fixup.Tags.{boot_of, HasNodes, TagList, fdt_fixup_from_atags_lem}

module _ (l : Libfdt) (w : FdtView l) (c k : w.Node) (apart : k ≢ c) where
  -- No tag of the list is a bank that is not empty.
  abbrev pub NoBank : List Tag → Type 0
  NoBank [] = Unit {0}
  NoBank (cmdline text ∷ ts) = NoBank ts
  NoBank (mem size start ∷ ts) = (size ≡ 0) × NoBank ts
  NoBank (initrd2 start size ∷ ts) = NoBank ts
  NoBank (other ∷ ts) = NoBank ts

  NoBank-memory : (ts : List Tag) (b : Boot) → NoBank ts → (tags_effect ts b).memory ≡ b.memory
  unfolding tags_effect tag_effect
  NoBank-memory [] b h = refl
  NoBank-memory (cmdline text ∷ ts) b h = NoBank-memory ts (tag_effect (cmdline text) b) h
  NoBank-memory (mem size start ∷ ts) b h =
      let e : (size == 0) ≡ true = ground (arith, h.0) in
      NoBank-memory ts (tag_effect (mem size start) b) h.1 ∙ rw e refl
  NoBank-memory (initrd2 start size ∷ ts) b h =
      NoBank-memory ts (tag_effect (initrd2 start size) b) h
  NoBank-memory (other ∷ ts) b h = NoBank-memory ts b h

  tags_effect-append :
      (ts us : List Tag) (b : Boot) → tags_effect (ts ++ us) b ≡ tags_effect us (tags_effect ts b)
  unfolding tags_effect
  tags_effect-append [] us b = refl
  tags_effect-append (t ∷ ts) us b = tags_effect-append ts us (tag_effect t b)

  last_bank :
      (ts us : List Tag) (size start : ℕ) (b : Boot)
      → size ≢ 0
      → NoBank us
      → (tags_effect (ts ++ mem size start ∷ us) b).memory ≡ some (cell start ++ cell size)
  unfolding tags_effect tag_effect
  last_bank ts us size start b nz none_left =
      let e : (size == 0) ≡ false = ground arith in
      let here = tag_effect (mem size start) (tags_effect ts b) in
      ap (λ x. x.memory) (tags_effect-append ts (mem size start ∷ us) b)
      ∙ NoBank-memory us here none_left
      ∙ rw e refl

  -- On a tree that has `/chosen` and `/memory` as different nodes, when each `fdt_setprop` that the
  -- tags ask for has space, and with rounds for the list of tags: however many banks of memory the
  -- tags have, `/memory` ends up with the last one that is not empty, and with no other.
  pub from_atags_last_bank :
      {fuel : ℕ} {m : Memory} {t : ℕ} (r : ℕ) (ts us : List Tag) (size start : ℕ)
      → TagList fuel m t (ts ++ mem size start ∷ us)
      → size ≢ 0
      → NoBank us
      → length (ts ++ mem size start ∷ us) < r
      → (s : Machine l) → HasNodes l w c k apart s.fdt
      → TagsFit l (ts ++ mem size start ∷ us) s.fdt
      → (s' : Machine l) × (fdt_fixup_from_atags l r fuel m t s ≡ some (pos 0, s'))
        × (w.prop s'.fdt k (codes "reg") ≡ some (cell start ++ cell size))
  from_atags_last_bank r ts us size start tl nz none_left lt s h fits =
      let d = fdt_fixup_from_atags_lem l w c k apart r tl lt s h fits in
      (
        d.s',
        d.run,
        ap (λ x. x.memory) d.boot
            ∙ last_bank ts us size start (boot_of l w c k apart s.fdt) nz none_left,
      )

-- ===== src/Setup/Seen.antt =====
-- What `fdt_fixup_from_atags` of src/fixup.c makes of a list of tags that is laid out as
-- include/uapi/asm/setup.h says.
use sunxi_babelfish.Common.{
  ℕ, suc, ◌+◌, ◌^◌, ◌<◌, ◌≤◌, ◌≡◌, ◌≢◌, ◌∙◌, refl, sym, ap, List, [], ◌∷◌, some, length-map, arith,
  length, length-append, get_or, map,
}
use mathlib.Core.Path.{subst}
use sunxi_babelfish.Memory.{Memory, Holds}
use sunxi_babelfish.ScriptBin.Image.{word, read_text_lem}
use sunxi_babelfish.Libfdt.{Libfdt}
use sunxi_babelfish.Libfdt.Laws.{FdtView}
use sunxi_babelfish.Fixup.Machine.{Machine}
use sunxi_babelfish.Fixup.Atags
use sunxi_babelfish.Fixup.Atags.{Tag, tag_at, tag_next, fdt_fixup_from_atags}
use sunxi_babelfish.Fixup.Fits.{TagsFit}
use sunxi_babelfish.Fixup.Tags.{TagList, last, next, HasNodes, Decided, fdt_fixup_from_atags_lem}
use sunxi_babelfish.Setup.Layout.{
  u32, members_from, value_at, values_from, Holds-append, Holds-at, values_from-members_from,
}
use sunxi_babelfish.Setup.Tags.{
  Body, core, mem, videotext, ramdisk, initrd, initrd2, serialnr, revision, videolfb, cmdline,
  acorn, memclk,
}
use sunxi_babelfish.Setup.Members.{content, mem_members, initrd_members}
use sunxi_babelfish.Setup.Writer.{
  tag_bytes, list_bytes, header_members, end_header, content_bytes, IsContent,
}
use sunxi_babelfish.Setup.Laws.{
  Laid, tag_bytes-Laid, members-read, text-IsString, length-tag_bytes, words-positive,
}

-- What the fixups take from a tag.
abbrev pub seen : Body → Tag
seen (cmdline s) = Atags.cmdline s.cmdline
seen (mem s) = Atags.mem s.size s.start
seen (initrd2 s) = Atags.initrd2 s.start s.size
seen (core s) = Atags.other
seen (videotext s) = Atags.other
seen (ramdisk s) = Atags.other
seen (initrd s) = Atags.other
seen (serialnr s) = Atags.other
seen (revision s) = Atags.other
seen (videolfb s) = Atags.other
seen (acorn s) = Atags.other
seen (memclk s) = Atags.other

-- Two words, one behind the other.
two_words :
    (m : Memory) (a b u v : ℕ)
    → b ≡ a + 4
    → values_from 0 (u32 ∷ u32 ∷ []) m a ≡ u ∷ v ∷ []
    → (word m a ≡ u) × (word m b ≡ v)
unfolding values_from value_at
two_words m a b u v q e = (
  ap (word m) (omega arith) ∙ ap (λ l. get_or l 0 0) e,
  ap (word m) (omega arith) ∙ ap (λ l. get_or l 1 0) e,
)

tag_at-seen :
    (fuel : ℕ) (b : Body) (m : Memory) (t : ℕ)
    → IsContent (content b)
    → length (content_bytes (content b)) ≤ fuel
    → Laid b m t
    → tag_at fuel m t ≡ some (seen b)
unfolding tag_at
tag_at-seen fuel (cmdline s) m t f le l =
    let read =
      read_text_lem fuel m (t + 8) s.cmdline (text-IsString m (t + 8) s.cmdline f l.content)
        (omega (arith, length-append s.cmdline (0 ∷ []))) in
    rw (l.kind, read) refl
tag_at-seen fuel (mem s) m t f le l =
    let w =
      two_words m (t + 8) (t + 12) s.size s.start (omega arith)
        (members-read (mem_members s) m (t + 8) f l.content) in
    rw (l.kind, w.0, w.1) refl
tag_at-seen fuel (initrd2 s) m t f le l =
    let w =
      two_words m (t + 8) (t + 12) s.start s.size (omega arith)
        (members-read (initrd_members s) m (t + 8) f l.content) in
    rw (l.kind, w.0, w.1) refl
tag_at-seen fuel (core s) m t f le l = rw l.kind refl
tag_at-seen fuel (videotext s) m t f le l = rw l.kind refl
tag_at-seen fuel (ramdisk s) m t f le l = rw l.kind refl
tag_at-seen fuel (initrd s) m t f le l = rw l.kind refl
tag_at-seen fuel (serialnr s) m t f le l = rw l.kind refl
tag_at-seen fuel (revision s) m t f le l = rw l.kind refl
tag_at-seen fuel (videolfb s) m t f le l = rw l.kind refl
tag_at-seen fuel (acorn s) m t f le l = rw l.kind refl
tag_at-seen fuel (memclk s) m t f le l = rw l.kind refl

abbrev pub AllContent : List Body → Type 0
AllContent [] = Unit {0}
AllContent (b ∷ bs) = IsContent (content b) × AllContent bs

list_bytes-TagList :
    (fuel : ℕ) (m : Memory) (t : ℕ) (bs : List Body)
    → AllContent bs
    → length (list_bytes bs) ≤ fuel
    → t + length (list_bytes bs) < 2 ^ 32
    → Holds m t (list_bytes bs)
    → TagList fuel m t (map seen bs)
list_bytes-TagList fuel m t [] f le lt h =
    let fs = header_members end_header in
    last
      (two_words m t (t + 4) 0 0 (omega arith) (
        values_from-members_from m t 0 fs (omega arith, (omega arith, tt))
          (Holds-at m (members_from 0 fs) (omega arith) h))).0
list_bytes-TagList fuel m t (b ∷ bs) (f, fs) le lt h =
    let parts = Holds-append m t (tag_bytes b) (list_bytes bs) h in
    let n = length-tag_bytes b in
    let total = length-append (tag_bytes b) (list_bytes bs) in
    let l = tag_bytes-Laid b m t (omega (arith, n, total)) parts.0 in
    let behind = t + length (tag_bytes b) in
    let after : tag_next m t ≡ behind = rw l.size (omega (arith, n, total)) in
    let tl =
      list_bytes-TagList fuel m behind bs fs (omega (arith, total)) (omega (arith, total))
        parts.1 in
    next (rw l.size (words-positive b)) (tag_at-seen fuel b m t f (omega (arith, n, total)) l)
      (subst (λ (x : ℕ). TagList fuel m x (map seen bs)) (sym after) tl)

module _ (l : Libfdt) (w : FdtView l) (c k : w.Node) (apart : k ≢ c) where
  -- For tags laid out from `t`, whose members have values of their types and whose strings no zero
  -- byte, with fuel for their bytes and rounds for their number, on a tree that has `/chosen` and
  -- `/memory` as different nodes, when each `fdt_setprop` that the tags ask for has space:
  -- `fdt_fixup_from_atags` returns 0, and the command line, the ends of the ramdisk and the memory
  -- bank are those that the command lines, the ramdisks and the banks among the tags give one after
  -- another; no property of another name changes, every absolute path leads where it did, and the
  -- heap's base is behind the blocks that the command lines take.
  pub from_laid_out :
      (fuel : ℕ) (m : Memory) (t : ℕ) (bs : List Body)
      → AllContent bs
      → length (list_bytes bs) ≤ fuel
      → t + length (list_bytes bs) < 2 ^ 32
      → Holds m t (list_bytes bs)
      → (s : Machine l) → HasNodes l w c k apart s.fdt
      → TagsFit l (map seen bs) s.fdt
      → Decided l w c k apart (map seen bs) s (fdt_fixup_from_atags l (suc (length bs)) fuel m t s)
  from_laid_out fuel m t bs f le lt h s nodes fits =
      fdt_fixup_from_atags_lem l w c k apart (suc (length bs))
        (list_bytes-TagList fuel m t bs f le lt h) (omega (arith, length-map bs seen)) s nodes fits

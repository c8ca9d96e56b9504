-- ===== src/Setup/Laws.antt =====
-- A tag that is laid out in memory, as its words and bytes are read there.
use sunxi_babelfish.Common.{
  ℕ, suc, ◌+◌, ◌-◌, ◌*◌, ◌^◌, ◌<◌, ◌≡◌, ◌∙◌, refl, ap, false, true, List, [], ◌∷◌, ◌++◌, ◌==◌,
  arith, length, replicate, length-append, length-replicate, get_or,
}
use sunxi_babelfish.Memory.{Memory, Holds, IsString}
use sunxi_babelfish.ScriptBin.Image.{word}
use sunxi_babelfish.Fixup.Atags.{}
use sunxi_babelfish.Setup.Layout.{
  Width, members_from, end_of, values_from, value_at, widths, values, sizeof, AllFit, Holds-append,
  Holds-at, values_from-members_from, length-members_from,
}
use sunxi_babelfish.Setup.Tags.{
  Body, core, mem, videotext, ramdisk, initrd, initrd2, serialnr, revision, videolfb, cmdline,
  acorn, memclk,
}
use sunxi_babelfish.Setup.Members.{Content, members, string, content, kind_of}
use sunxi_babelfish.Setup.Writer.{
  header_members, header_of, content_bytes, tag_size, tag_member_present, words, tag_bytes, IsText,
}

kind_of-Fits : (b : Body) → kind_of b < 2 ^ 32
kind_of-Fits (core t) = omega arith
kind_of-Fits (mem t) = omega arith
kind_of-Fits (videotext t) = omega arith
kind_of-Fits (ramdisk t) = omega arith
kind_of-Fits (initrd t) = omega arith
kind_of-Fits (initrd2 t) = omega arith
kind_of-Fits (serialnr t) = omega arith
kind_of-Fits (revision t) = omega arith
kind_of-Fits (videolfb t) = omega arith
kind_of-Fits (cmdline t) = omega arith
kind_of-Fits (acorn t) = omega arith
kind_of-Fits (memclk t) = omega arith

pub text-IsString :
    (m : Memory) (a : ℕ) (s : List ℕ) → IsText s → Holds m a (s ++ 0 ∷ []) → IsString m a s
text-IsString m a [] t h = h.0
text-IsString m a (x ∷ xs) (nz, t) (e, h) = (e, nz, text-IsString m (suc a) xs t h)

pub length-tag_bytes : (b : Body) → length (tag_bytes b) ≡ words b * 4
length-tag_bytes b =
    let h = members_from 0 (header_members (header_of b)) in
    let c = content_bytes (content b) in
    let n = words b * 4 - (8 + length c) in
    omega (
      arith,
      length-append h (c ++ replicate n 0),
      length-append c (replicate n 0),
      length-replicate {A = ℕ} n 0,
      length-members_from 0 (header_members (header_of b)),
    )

-- The header and the content of a tag in memory.
pub record Laid (b : Body) (m : Memory) (t : ℕ) : Type 0 where
  pub size : word m t ≡ words b
  pub kind : word m (t + 4) ≡ kind_of b
  pub content : Holds m (t + 8) (content_bytes (content b))

pub tag_bytes-Laid :
    (b : Body) (m : Memory) (t : ℕ) → words b < 2 ^ 32 → Holds m t (tag_bytes b) → Laid b m t
unfolding values_from value_at
tag_bytes-Laid b m t lt h =
    let c = content_bytes (content b) in
    let pad : List ℕ = replicate (words b * 4 - (8 + length c)) 0 in
    let hs = members_from 0 (header_members (header_of b)) in
    let parts = Holds-append m t hs (c ++ pad) h in
    let vs =
      values_from-members_from m t 0 (header_members (header_of b)) (lt, (kind_of-Fits b, tt))
        (Holds-at m hs (omega arith) parts.0) in
    record {
      size = ap (word m) (omega arith) ∙ ap (λ l. get_or l 0 0) vs;
      kind = ap (word m) (omega arith) ∙ ap (λ l. get_or l 1 0) vs;
      content =
          (Holds-append m (t + 8) c pad (
            Holds-at m (c ++ pad)
              (omega (arith, length-members_from 0 (header_members (header_of b)))) parts.1)).0;
    }

-- Reading a structure whose members are in memory.
pub members-read :
    (fs : List (Width × ℕ)) (m : Memory) (a : ℕ)
    → AllFit fs
    → Holds m a (content_bytes (members fs))
    → values_from 0 (widths fs) m a ≡ values fs
members-read fs m a f h =
    let bytes = members_from 0 fs in
    let pad = replicate {A = ℕ} (sizeof (widths fs) - end_of 0 (widths fs)) 0 in
    values_from-members_from m a 0 fs f
      (Holds-at m bytes (omega arith) (Holds-append m a bytes pad h).0)

-- A structure has the words that `tag_size` gives and is present to its end, and a string has
-- those for its terminator too.
abbrev pub HasSize : Body → Content → Type 0
HasSize b (members fs) =
    (words b ≡ tag_size (widths fs))
    × (tag_member_present (8 + sizeof (widths fs)) (words b) ≡ true)
HasSize b (string s) = 8 + length s < words b * 4

words-HasSize : (b : Body) → HasSize b (content b)
words-HasSize (core s) = (refl, refl)
words-HasSize (mem s) = (refl, refl)
words-HasSize (videotext s) = (refl, refl)
words-HasSize (ramdisk s) = (refl, refl)
words-HasSize (initrd s) = (refl, refl)
words-HasSize (initrd2 s) = (refl, refl)
words-HasSize (serialnr s) = (refl, refl)
words-HasSize (revision s) = (refl, refl)
words-HasSize (videolfb s) = (refl, refl)
words-HasSize (acorn s) = (refl, refl)
words-HasSize (memclk s) = (refl, refl)
words-HasSize (cmdline s) = omega (arith, length-append s.cmdline (0 ∷ []))

pub words-positive : (b : Body) → (words b == 0) ≡ false
words-positive b = ground arith

-- ===== src/Setup/Members.antt =====
-- The structures of include/uapi/asm/setup.h as lists of members, and the list of tags as the
-- bootloader lays it out.
use sunxi_babelfish.Common.{ℕ, List, [], ◌∷◌, ◌++◌}
use Prim.Native.Nat.{}
use sunxi_babelfish.Fixup.Atags.{atag_mem, atag_initrd2, atag_cmdline}
use sunxi_babelfish.Setup.Layout.{Width, u8, u16, u32}
use sunxi_babelfish.Setup.Tags.{
  atag_core, atag_videotext, atag_ramdisk, atag_initrd, atag_serial, atag_revision, atag_videolfb,
  atag_acorn, atag_memclk, TagCore, TagMem32, TagVideotext, TagRamdisk, TagInitrd, TagSerialnr,
  TagRevision, TagVideolfb, TagCmdline, TagAcorn, TagMemclk, Body, core, mem, videotext, ramdisk,
  initrd, initrd2, serialnr, revision, videolfb, cmdline, acorn, memclk,
}

-- The members of the structures, in order, with their types.
abbrev pub core_members : TagCore → List (Width × ℕ)
core_members t = (u32, t.flags) ∷ (u32, t.pagesize) ∷ (u32, t.rootdev) ∷ []

abbrev pub mem_members : TagMem32 → List (Width × ℕ)
mem_members t = (u32, t.size) ∷ (u32, t.start) ∷ []

abbrev pub videotext_members : TagVideotext → List (Width × ℕ)
videotext_members t =
    (u8, t.x)
    ∷ (u8, t.y)
    ∷ (u16, t.video_page)
    ∷ (u8, t.video_mode)
    ∷ (u8, t.video_cols)
    ∷ (u16, t.video_ega_bx)
    ∷ (u8, t.video_lines)
    ∷ (u8, t.video_isvga)
    ∷ (u16, t.video_points)
    ∷ []

abbrev pub ramdisk_members : TagRamdisk → List (Width × ℕ)
ramdisk_members t = (u32, t.flags) ∷ (u32, t.size) ∷ (u32, t.start) ∷ []

abbrev pub initrd_members : TagInitrd → List (Width × ℕ)
initrd_members t = (u32, t.start) ∷ (u32, t.size) ∷ []

abbrev pub serialnr_members : TagSerialnr → List (Width × ℕ)
serialnr_members t = (u32, t.low) ∷ (u32, t.high) ∷ []

abbrev pub revision_members : TagRevision → List (Width × ℕ)
revision_members t = (u32, t.rev) ∷ []

abbrev pub videolfb_members : TagVideolfb → List (Width × ℕ)
videolfb_members t =
    (u16, t.lfb_width)
    ∷ (u16, t.lfb_height)
    ∷ (u16, t.lfb_depth)
    ∷ (u16, t.lfb_linelength)
    ∷ (u32, t.lfb_base)
    ∷ (u32, t.lfb_size)
    ∷ (u8, t.red_size)
    ∷ (u8, t.red_pos)
    ∷ (u8, t.green_size)
    ∷ (u8, t.green_pos)
    ∷ (u8, t.blue_size)
    ∷ (u8, t.blue_pos)
    ∷ (u8, t.rsvd_size)
    ∷ (u8, t.rsvd_pos)
    ∷ []

abbrev pub acorn_members : TagAcorn → List (Width × ℕ)
acorn_members t =
    (u32, t.memc_control_reg) ∷ (u32, t.vram_pages) ∷ (u8, t.sounddefault) ∷ (u8, t.adfsdrives) ∷ []

abbrev pub memclk_members : TagMemclk → List (Width × ℕ)
memclk_members t = (u32, t.fmemclk) ∷ []

-- The kind of a tag, by the member of the union that it has.
abbrev pub kind_of : Body → ℕ
kind_of (core t) = atag_core
kind_of (mem t) = atag_mem
kind_of (videotext t) = atag_videotext
kind_of (ramdisk t) = atag_ramdisk
kind_of (initrd t) = atag_initrd
kind_of (initrd2 t) = atag_initrd2
kind_of (serialnr t) = atag_serial
kind_of (revision t) = atag_revision
kind_of (videolfb t) = atag_videolfb
kind_of (cmdline t) = atag_cmdline
kind_of (acorn t) = atag_acorn
kind_of (memclk t) = atag_memclk

-- `char cmdline[1]`, and the bytes behind it that belong to the string.
abbrev pub cmdline_bytes : TagCmdline → List ℕ
cmdline_bytes t = t.cmdline ++ 0 ∷ []

-- What the union holds: members with their types, or a string.
pub data Content : Type 0 where
  members : List (Width × ℕ) → Content
  string : List ℕ → Content

abbrev pub content : Body → Content
content (core t) = members (core_members t)
content (mem t) = members (mem_members t)
content (videotext t) = members (videotext_members t)
content (ramdisk t) = members (ramdisk_members t)
content (initrd t) = members (initrd_members t)
content (initrd2 t) = members (initrd_members t)
content (serialnr t) = members (serialnr_members t)
content (revision t) = members (revision_members t)
content (videolfb t) = members (videolfb_members t)
content (cmdline t) = string t.cmdline
content (acorn t) = members (acorn_members t)
content (memclk t) = members (memclk_members t)

-- ===== src/Setup/Tags.antt =====
-- The structures of include/uapi/asm/setup.h: the bodies of the tags, and the list of tags as the
-- bootloader lays it out.
use sunxi_babelfish.Common.{ℕ, List}
use Prim.Native.Nat.{}
use sunxi_babelfish.Setup.Layout.{}

abbrev pub atag_none : ℕ
atag_none = 0

abbrev pub atag_core : ℕ
atag_core = 0x54410001

abbrev pub atag_videotext : ℕ
atag_videotext = 0x54410003

abbrev pub atag_ramdisk : ℕ
atag_ramdisk = 0x54410004

abbrev pub atag_initrd : ℕ
atag_initrd = 0x54410005

abbrev pub atag_serial : ℕ
atag_serial = 0x54410006

abbrev pub atag_revision : ℕ
atag_revision = 0x54410007

abbrev pub atag_videolfb : ℕ
atag_videolfb = 0x54410008

abbrev pub atag_acorn : ℕ
atag_acorn = 0x41000101

abbrev pub atag_memclk : ℕ
atag_memclk = 0x41000402

pub record TagHeader : Type 0 where
  pub size : ℕ
  pub tag : ℕ

pub record TagCore : Type 0 where
  pub flags : ℕ
  pub pagesize : ℕ
  pub rootdev : ℕ

pub record TagMem32 : Type 0 where
  pub size : ℕ
  pub start : ℕ

pub record TagVideotext : Type 0 where
  pub x : ℕ
  pub y : ℕ
  pub video_page : ℕ
  pub video_mode : ℕ
  pub video_cols : ℕ
  pub video_ega_bx : ℕ
  pub video_lines : ℕ
  pub video_isvga : ℕ
  pub video_points : ℕ

pub record TagRamdisk : Type 0 where
  pub flags : ℕ
  pub size : ℕ
  pub start : ℕ

pub record TagInitrd : Type 0 where
  pub start : ℕ
  pub size : ℕ

pub record TagSerialnr : Type 0 where
  pub low : ℕ
  pub high : ℕ

pub record TagRevision : Type 0 where
  pub rev : ℕ

pub record TagVideolfb : Type 0 where
  pub lfb_width : ℕ
  pub lfb_height : ℕ
  pub lfb_depth : ℕ
  pub lfb_linelength : ℕ
  pub lfb_base : ℕ
  pub lfb_size : ℕ
  pub red_size : ℕ
  pub red_pos : ℕ
  pub green_size : ℕ
  pub green_pos : ℕ
  pub blue_size : ℕ
  pub blue_pos : ℕ
  pub rsvd_size : ℕ
  pub rsvd_pos : ℕ

-- The command line without its terminator.
pub record TagCmdline : Type 0 where
  pub cmdline : List ℕ

pub record TagAcorn : Type 0 where
  pub memc_control_reg : ℕ
  pub vram_pages : ℕ
  pub sounddefault : ℕ
  pub adfsdrives : ℕ

pub record TagMemclk : Type 0 where
  pub fmemclk : ℕ

-- The body of a tag: a member of the union, with the kind that says which one it is. `initrd` is the
-- member of two kinds.
pub data Body : Type 0 where
  core : TagCore → Body
  mem : TagMem32 → Body
  videotext : TagVideotext → Body
  ramdisk : TagRamdisk → Body
  initrd : TagInitrd → Body
  initrd2 : TagInitrd → Body
  serialnr : TagSerialnr → Body
  revision : TagRevision → Body
  videolfb : TagVideolfb → Body
  cmdline : TagCmdline → Body
  acorn : TagAcorn → Body
  memclk : TagMemclk → Body

-- ===== src/Setup.antt =====
-- The list of tags of include/uapi/asm/setup.h, which the bootloader leaves in memory: its layout
-- by the rules of C in Layout, and the structures in Tags.
pub mod Layout
pub mod Tags
pub mod Members
pub mod Writer
pub mod Laws
pub mod Seen
mod Tests

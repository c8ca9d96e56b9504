-- ===== src/Fixup.antt =====
-- The changes that the loader makes to the device tree: src/fixup.c. `Fixup.Machine` is the state,
-- `Fixup.Bootargs`, `Fixup.Atags` and `Fixup.Fex` have the functions, and the other children prove
-- them.
mod Tests
pub mod Machine
pub mod Bootargs
pub mod Atags
pub mod Fex
pub mod Fits
pub mod Effect
pub mod Model
pub mod Uarts
pub mod Translation
pub mod Said
pub mod Tags
pub mod Banks

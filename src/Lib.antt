-- ===== src/Lib.antt =====
-- sunxi-babelfish, a bootloader stage for Allwinner boards. It is started in place of a Linux
-- kernel, finds out which SoC it runs on, opens the device tree for it that is linked into the
-- program, changes the tree by what the bootloader's tags and the board's binary FEX file say, and
-- starts the kernel that is appended to it.
--
-- The parts, and the files that model them:
--   src/main.c                        Boot: `main` in the stages that its early returns make;
--                                     Boot.Quirks has the registers of the coprocessor, Boot.Fex
--                                     the way from the FEX image to the kernel.
--   src/soc.c, include/soc.h          Soc: `match_soc`, over the bus.
--   src/fixup.c                       Fixup: Bootargs and Atags for `fdt_fixup_from_atags`, Fex for
--                                     `fdt_fixup_from_fex`; Machine is the state and its monad.
--                                     Fixup.Model and Fixup.Uarts state what a FEX file's tree
--                                     says of the board and of its UARTs, Fixup.Said what the
--                                     image does; Script.Tree.Reading and ScriptBin.Reading are
--                                     what the two say under a name.
--   include/uapi/asm/setup.h          Setup: the structures of the tags, their layout in memory by
--                                     the types of include/asm/types.h, and writing them;
--                                     Setup.Seen is what the fixups take from a list of tags.
--   src/fdt_tools.c                   FdtTools for phandles, FdtTools.Pins for groups of pins.
--   lib/libfex/script_bin.c           ScriptBin: `script_decompile_bin`; ScriptBin.Image reads the
--                                     image, ScriptBin.Parse is what an image says;
--                                     ScriptBin.Size is `script_bin_size`.
--   lib/libfex/script.c               Script: Store, New, Find and Delete; Script.Tree is the tree
--                                     that a store stands for; Script.Calls are programs of calls
--                                     of what include/lib/libfex/script.h declares.
--   include/lib/libfex/common.h       Hook: the circular lists that the tree is made of.
--   src/memory.c                      Malloc.
--   src/serial-8250.c, src/print.c    Serial.
--   src/register.c                    Bus.
--   include/assert.h                  Console: `assert`, and the log of what is printed.
--   src/string.c                      Cstring, over the byte memory of Memory; Cstring.Calls are
--                                     programs of calls of what include/string.h declares.
--   lib/libfdt/libfdt.h               Libfdt: an interface, and the inline functions that are used;
--                                     Libfdt.Errors has the codes of errors.
--
-- `main` calls `match_soc`, libfdt, the two fixups and the decompiler in turn. The decompiler
-- builds the FEX tree through the constructors of Script; the fixups search that tree and change
-- the device tree through FdtTools and libfdt; the constructors keep their lists by Hook and take
-- blocks from Malloc. Everybody prints through Serial.
--
-- The state. The FEX tree lives in a `Store`: maps from the addresses of structures to their fields
-- and hooks, the base of the heap, and the log. An address of a structure, a hook and NULL are
-- numbers, so that aliasing between lists is real, and the invariant `Script.Tree.IsTree` says
-- which hooks belong to which list and that none is used twice. Names and texts in the store are
-- the bytes in front of the terminator. Raw bytes (the string routines, the FEX image, the tags)
-- are a `Memory`, a function from addresses. Registers are a `Device`, a function of the trace of
-- all accesses before. `libfdt` is a section parameter of the type `Libfdt`; what the proofs need
-- of it are the fields of `FdtView` and `FdtFrame`, how it behaves, and `Covers`, that the fuel is
-- enough for the blob's nodes; Libfdt.Small is an instance. A blob has a fixed size, so each theorem
-- on a run has the hypothesis that every `fdt_setprop` of this run returns 0: Fixup.Fits and
-- Fixup.Uarts.Enable.Fits say which calls these are. Laws on paths are about absolute ones; the
-- program's other paths are aliases, `AliasAt`.
--
-- Integers are natural numbers, with the wrap-around of 32 bits written out where an address or a
-- size is computed; an `int` result is a `ℤ` of a natural number or a negative one.
--
-- Fuel. Loops that look for a terminator, walk over a list, over nodes or over tags, or poll the
-- UART, take fuel and give `none` without it. Each theorem on such a loop says how much is enough
-- (more than the length of the string, of the list, of the chain of nodes, of the list of tags; the
-- reads that the UART needs) and that there is then a result. In Fixup and Boot `none` also
-- stands for a read of a field of a structure of another kind, or of a variable never set.
--
-- Not modelled: lib/libfdt itself, a copy of the device tree compiler's library; src/head.S and
-- babelfish.lds, which set up the stack, the heap pointer and the layout; `struct tagtable` of
-- setup.h, for parsers that this program does not have; `script_generate_bin`, which is declared
-- and has no body; other headers copied from Linux, the device tree sources and the build files. The
-- prints of `main` go to the log, and Serial sends a log; the accesses of `match_soc` start from any
-- trace, so also from the one that printing leaves.
pub mod Common
pub mod Memory
pub mod Cstring
pub mod Hook
pub mod Malloc
pub mod Console
pub mod Script
pub mod ScriptBin
pub mod Bus
pub mod Serial
pub mod Libfdt
pub mod FdtTools
pub mod Soc
pub mod Fixup
pub mod Boot
pub mod Setup

-- ===== src/Script.antt =====
-- The tree of a FEX file: lib/libfex/script.c and the types of include/lib/libfex/script.h.
-- `Script.Store` is the memory that the tree lives in, `Script.New`, `Script.Find` and
-- `Script.Delete` have the operations, and the other children prove them.
pub mod Store
pub mod New
pub mod Find
pub mod Delete
pub mod Calls
pub mod Tree

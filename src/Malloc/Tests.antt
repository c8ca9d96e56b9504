-- ===== src/Malloc/Tests.antt =====
-- The allocator of src/memory.c on three requests.
use sunxi_babelfish.Common.{ℕ, ◌≡◌, ◌+◌, ◌%◌, ◌≤◌, ◌<◌, List, [], ◌∷◌, arith}
use sunxi_babelfish.Malloc.{aligned, malloc_all, room, Blocks, malloc_all-Blocks, aligned_lem}

abbrev requests : List ℕ
requests = 8 ∷ 5 ∷ 48 ∷ []

malloc_all-Blocks_example : Blocks 4096 (4096 + room requests) (malloc_all requests 4096)
unfolding room aligned
malloc_all-Blocks_example =
    malloc_all-Blocks requests 4096 (omega arith) (omega arith)
      (omega arith, (omega arith, (omega arith, tt)))

aligned_lem_example : (5 ≤ aligned 5) × (aligned 5 < 5 + 4) × (aligned 5 % 4 ≡ 0)
aligned_lem_example = aligned_lem 5 (omega arith)

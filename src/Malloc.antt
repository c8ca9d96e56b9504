-- ===== src/Malloc.antt =====
-- The allocator of src/memory.c. Its only state is `heap_base`, a 32-bit pointer that moves up;
-- `free` (include/memory.h) does nothing. The size of the heap section is never looked at.
mod Tests
use sunxi_babelfish.Common.{ℕ, ◌+◌, ◌-◌, ◌*◌, ◌/◌, ◌%◌, ◌^◌, ◌<◌, ◌≤◌, ◌≡◌, arith, List, [], ◌∷◌}

-- `(((size - 1) / 4) + 1) * 4` on 32-bit unsigned numbers.
unfoldable pub aligned : ℕ → ℕ
aligned size = ((size + 2 ^ 32 - 1) % 2 ^ 32 / 4 + 1) * 4 % 2 ^ 32

-- The pointer that is returned, and the new `heap_base`.
unfoldable pub malloc : (size heap_base : ℕ) → ℕ × ℕ
unfolding aligned
malloc size heap_base = (heap_base, (heap_base + aligned size) % 2 ^ 32)

-- `sizes` requests in a row: where each block begins, with its size.
unfoldable pub malloc_all : List ℕ → ℕ → List (ℕ × ℕ)
malloc_all [] base = []
malloc_all (n ∷ ns) base = let (p, base') = malloc n base in (p, n) ∷ malloc_all ns base'

-- The least multiple of 4 that is not below the size; none is taken for a size of zero.
pub aligned_lem :
    (size : ℕ)
    → size ≤ 2 ^ 32 - 4
    → (size ≤ aligned size) × (aligned size < size + 4) × (aligned size % 4 ≡ 0)
unfolding aligned
aligned_lem size h = omega arith

-- Requests whose rounding up does not wrap round.
abbrev pub AllSmall : List ℕ → Type 0
AllSmall [] = Unit {0}
AllSmall (n ∷ ns) = (n ≤ 2 ^ 32 - 4) × AllSmall ns

-- The room that the requests take in all.
unfoldable pub room : List ℕ → ℕ
room [] = 0
room (n ∷ ns) = aligned n + room ns

-- The blocks lie between the two bounds, aligned, in order, and none meets another.
abbrev pub Blocks : ℕ → ℕ → List (ℕ × ℕ) → Type 0
Blocks lo hi [] = lo ≤ hi
Blocks lo hi ((p, n) ∷ bs) = (lo ≤ p) × (p % 4 ≡ 0) × Blocks (p + n) hi bs

Blocks-widen :
    (lo lo' hi hi' : ℕ) (bs : List (ℕ × ℕ))
    → lo' ≤ lo
    → hi ≤ hi'
    → Blocks lo hi bs
    → Blocks lo' hi' bs
Blocks-widen lo lo' hi hi' [] p q h = omega arith
Blocks-widen lo lo' hi hi' ((b, n) ∷ bs) p q h =
    (omega arith, h.1, Blocks-widen (b + n) (b + n) hi hi' bs (omega arith) q h.2)

-- From an aligned base, requests that fit in the address space get aligned
-- blocks between the base and the end of the room that they take, each block behind the last.
pub malloc_all-Blocks :
    (ns : List ℕ) (base : ℕ)
    → base % 4 ≡ 0
    → base + room ns < 2 ^ 32
    → AllSmall ns
    → Blocks base (base + room ns) (malloc_all ns base)
unfolding malloc_all malloc room
malloc_all-Blocks [] base a h pos = omega arith
malloc_all-Blocks (n ∷ ns) base a h pos =
    let (ge, lt, whole) = aligned_lem n pos.0 in
    let e : (base + aligned n) % 2 ^ 32 ≡ base + aligned n = omega arith in
    (
      omega arith,
      a,
      rw e (
          Blocks-widen (base + aligned n) (base + n) (base + aligned n + room ns)
            (base + (aligned n + room ns)) (malloc_all ns (base + aligned n)) (omega arith)
            (omega arith)
            (malloc_all-Blocks ns (base + aligned n) (omega arith) (omega arith) pos.1)),
    )

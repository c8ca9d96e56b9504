-- ===== src/Cstring/Tests.antt =====
-- The routines of src/string.c on small memories.
use sunxi_babelfish.Common.{
  ℕ, ◌<◌, ◌≢◌, ◌%◌, ◌+◌, ◌≡◌, ◌↔◌, refl, List, [], ◌∷◌, ◌++◌, some, inl, arith, get_or, take,
  length, eq_of_some,
}
use sunxi_babelfish.Common.Int.{ℤ, pos}
use sunxi_babelfish.Memory.{Memory, null, SameOutside, IsString}
use sunxi_babelfish.Cstring.{
  strlen, strlen_loop, memmove, strcat, strncat, strcmp, memcmp, memchr, strchr,
}
use sunxi_babelfish.Cstring.Copy.{IsCopy, memmove-IsCopy}
use sunxi_babelfish.Cstring.Concat.{strcat_lem, strncat_lem}
use sunxi_babelfish.Cstring.Compare.{strcmp-zero_iff, memcmp-zero_iff}
use mathlib.Core.Path.{subst}
use sunxi_babelfish.Cstring.Calls
use sunxi_babelfish.Cstring.Calls.{Call, call, calls, Ready, Safe, last, after, calls-Returned}
use sunxi_babelfish.Cstring.Scan.{memchr_lem, address_of, strchr_lem}

-- `text` from address 0 on, and zero bytes behind it.
abbrev image : List ℕ → Memory
image text a = get_or text a 0

abbrev ab : List ℕ
ab = 97 ∷ 98 ∷ []

abbrev xyz : List ℕ
xyz = 120 ∷ 121 ∷ 122 ∷ []

-- "ab" at 0 (with room behind it), "xyz" at 8.
abbrev two_texts : Memory
two_texts = image (97 ∷ 98 ∷ 0 ∷ 0 ∷ 0 ∷ 0 ∷ 0 ∷ 0 ∷ 120 ∷ 121 ∷ 122 ∷ [])

memmove-IsCopy_example : IsCopy two_texts 9 8 3 (memmove two_texts 9 8 3)
memmove-IsCopy_example = memmove-IsCopy two_texts 9 8 3 (omega arith)

strcat_lem_example :
    (m' : Memory) × (strcat 10 two_texts 0 8 ≡ some m')
    × IsString m' 0 (ab ++ xyz)
    × SameOutside (0 + length ab) (length xyz + 1) two_texts m'
strcat_lem_example =
    strcat_lem 10 two_texts 0 8 ab xyz (omega arith) (omega arith) (omega arith) (omega arith)
      (inl (omega arith))

strcmp-zero_iff_example : (r : ℤ) × (strcmp 10 two_texts 0 8 ≡ some r) × ((r ≡ pos 0) ↔ (ab ≡ xyz))
strcmp-zero_iff_example =
    strcmp-zero_iff 10 two_texts 0 8 ab xyz (omega arith) (omega arith) (omega arith) (omega arith)

strncat_lem_example :
    (m' : Memory) × (strncat 10 two_texts 0 8 1 ≡ some m')
    × IsString m' 0 (ab ++ take 1 xyz)
    × SameOutside (0 + length ab) (length (take 1 xyz) + 1) two_texts m'
strncat_lem_example =
    strncat_lem 10 two_texts 0 8 1 ab xyz (omega arith) (omega arith) (omega arith) (omega arith)
      (inl (omega arith))

memcmp-zero_iff_example :
    (r : ℤ) × (memcmp 3 two_texts 0 8 3 ≡ some r)
    × ((r ≡ pos 0) ↔ ((j : ℕ) → j < 3 → two_texts (0 + j) ≡ two_texts (8 + j)))
memcmp-zero_iff_example =
    memcmp-zero_iff 3 two_texts 0 8 3 (omega arith) (omega arith) (omega arith)

memchr_lem_example :
    ((j : ℕ)
      → j < 4
      → ((i : ℕ) → i < j → two_texts (7 + i) ≢ 121 % 256)
      → two_texts (7 + j) ≡ 121 % 256
      → memchr 4 two_texts 7 121 4 ≡ some (7 + j + 1))
    × (((i : ℕ) → i < 4 → two_texts (7 + i) ≢ 121 % 256) → memchr 4 two_texts 7 121 4 ≡ some null)
memchr_lem_example = memchr_lem 4 two_texts 7 121 4 (omega arith) (omega arith) (omega arith)

-- The 'y' of "xyz" at 8 stands at 9, and `memchr` gives 10.
memchr_past : memchr 4 two_texts 7 121 4 ≡ some 10
unfolding memchr
memchr_past = refl

strchr_lem_example : strchr 10 two_texts 8 122 ≡ some (address_of 8 122 (120 ∷ 121 ∷ 122 ∷ []))
strchr_lem_example = strchr_lem 10 two_texts 8 122 120 (121 ∷ 122 ∷ []) (omega arith) (omega arith)

-- The length of "xyz", "abxyz" at 0, and zero bytes behind it, in the eight bytes at 0.
abbrev writes : List Call
writes = Calls.strcat 0 8 ∷ Calls.memset 6 0 2 ∷ Calls.memcmp 0 8 2 ∷ []

abbrev program : List Call
program = Calls.strlen 8 ∷ writes

program-Safe : Safe 10 0 8 two_texts program
unfolding call strlen strlen_loop
program-Safe =
    let rest : Safe 10 0 8 two_texts writes =
      after
        (Calls.cat 0 8 ab xyz (omega arith, omega arith) (omega arith, omega arith)
          (inl (omega arith)) (omega arith, omega arith))
        (λ m1 e1. after (Calls.set 6 0 2 (omega arith, omega arith)) (λ m2 e2.
          after (Calls.cmp 0 8 2 (omega arith) (omega arith) (omega arith)) (λ m3 e3. last))) in
    after (Calls.measure 8 xyz (omega arith, omega arith))
      (λ m0 e0. subst (λ (m : Memory). Safe 10 0 8 m writes) (eq_of_some e0) rest)

calls-Returned_example :
    (m' : Memory) × (calls 10 program two_texts ≡ some m') × SameOutside 0 8 two_texts m'
calls-Returned_example = calls-Returned 10 0 8 program two_texts program-Safe

-- ===== src/Cstring/Concat.antt =====
-- `strcat` and `strncat` of src/string.c, as operations on the string at an address.
use sunxi_babelfish.Common.{
  ℕ, zero, suc, ◌+◌, ◌<◌, ◌≤◌, ◌≡◌, ◌⊎◌, arith, ◌∙◌, some, List, ◌++◌, length, take, length-take,
  take-length,
}
use Prim.Native.Nat.{min}
use mathlib.Core.Path.{}
use sunxi_babelfish.Memory.{
  Memory, store, SameOutside, IsString, IsString-frame, store_ne, store_self,
}
use sunxi_babelfish.Cstring.{copy_up, strcat_loop, strcat, strncat_loop, strncat}
use sunxi_babelfish.Cstring.Copy.{copy_up_inside, copy_up_outside}
use sunxi_babelfish.Cstring.Length.{strlen_lem, take-IsString, append-IsString}

-- What is written from `end` on does not meet the string at `s`.
abbrev pub Apart : (end s : ℕ) → (written len : ℕ) → Type 0
Apart end s written len = (end + written ≤ s) ⊎ (s + len < end)

-- A byte that is written apart from a string leaves it as it is.
store-IsString :
    (m : Memory) (a v s : ℕ) (xs : List ℕ)
    → (a < s) ⊎ (s + length xs < a)
    → IsString m s xs
    → IsString (store m a v) s xs
store-IsString m a v s xs apart h =
    IsString-frame m (store m a v) s xs (λ i p q. store_ne m a v i (omega arith)) h

-- The loop copies what is left of the source: taking the length anew changes nothing.
strncat_loop_lem :
    (fuel r : ℕ) (m : Memory) (end s n i k : ℕ) (xs : List ℕ)
    → IsString m s xs
    → length xs < fuel
    → Apart end s (min (length xs) n) (length xs)
    → i + k ≡ min (length xs) n
    → k < r
    → strncat_loop fuel r m end s n i ≡ some (copy_up k m end s i, i + k)
unfolding strncat_loop copy_up
strncat_loop_lem fuel zero m end s n i k xs h f apart e q = absurd (omega arith)
strncat_loop_lem fuel (suc r) m end s n i zero xs h f apart e q =
    rw (strlen_lem fuel m s xs h f) (ground arith)
strncat_loop_lem fuel (suc r) m end s n i (suc k) xs h f apart e q =
    rw (strlen_lem fuel m s xs h f) (
      ground (
        arith,
        strncat_loop_lem fuel r (store m (end + i) (m (s + i))) end s n (suc i) k xs
            (store-IsString m (end + i) (m (s + i)) s xs (omega arith) h) f apart (omega arith)
            (omega arith),
      ))

strcat_loop_lem :
    (fuel r : ℕ) (m : Memory) (end s i k : ℕ) (xs : List ℕ)
    → IsString m s xs
    → length xs < fuel
    → Apart end s (length xs) (length xs)
    → i + k ≡ length xs
    → k < r
    → strcat_loop fuel r m end s i ≡ some (copy_up k m end s i, i + k)
unfolding strcat_loop copy_up
strcat_loop_lem fuel zero m end s i k xs h f apart e q = absurd (omega arith)
strcat_loop_lem fuel (suc r) m end s i zero xs h f apart e q =
    rw (strlen_lem fuel m s xs h f) (ground arith)
strcat_loop_lem fuel (suc r) m end s i (suc k) xs h f apart e q = rw (strlen_lem fuel m s xs h f) (
    ground (
      arith,
      strcat_loop_lem fuel r (store m (end + i) (m (s + i))) end s (suc i) k xs
          (store-IsString m (end + i) (m (s + i)) s xs (omega arith) h) f apart (omega arith)
          (omega arith),
    ))

module _ (m : Memory) (d s : ℕ) (xs ys : List ℕ) (n : ℕ) (h : IsString m d xs)
    (k : IsString m s ys) where
  -- The end of both routines: `n` characters are copied behind `xs`, and a zero byte follows.
  abbrev joined : Memory
  joined =
      store (copy_up (length (take n ys)) m (d + length xs) s 0)
        (d + length xs + length (take n ys)) 0

  joined-IsString :
      Apart (d + length xs) s (length (take n ys)) (length ys)
      → IsString joined d (xs ++ take n ys)
        × SameOutside (d + length xs) (length (take n ys) + 1) m joined
  joined-IsString apart =
      let e = d + length xs in
      let l = length (take n ys) in
      let l_le : l ≤ length ys = omega (arith, length-take n ys) in
      let m1 = copy_up l m e s 0 in
      let frame : (x : ℕ) → (x < e) ⊎ (e + l ≤ x) → m1 x ≡ m x =
        λ x q. copy_up_outside l m e s 0 x (omega arith) in
      (
        append-IsString m joined d xs (take n ys)
            (λ i q. store_ne m1 (e + l) 0 i (omega arith) ∙ frame i (omega arith)) h
            (take-IsString n m joined s e ys
              (λ j q.
                store_ne m1 (e + l) 0 (e + j) (omega arith)
                ∙ copy_up_inside l m e s 0 j (omega arith) (omega arith) (omega arith))
              (store_self m1 (e + l) 0) k),
        λ x q. store_ne m1 (e + l) 0 x (omega arith) ∙ frame x (omega arith),
      )

-- `strncat` appends the first `n` characters of the source to the string at `d`, and writes
-- those and the terminator only. (It reads the source up to its terminator all the same.)
pub strncat_lem :
    (fuel : ℕ) (m : Memory) (d s n : ℕ) (xs ys : List ℕ)
    → IsString m d xs
    → IsString m s ys
    → length xs < fuel
    → length ys < fuel
    → Apart (d + length xs) s (length (take n ys)) (length ys)
    → (m' : Memory) × (strncat fuel m d s n ≡ some m')
      × IsString m' d (xs ++ take n ys)
      × SameOutside (d + length xs) (length (take n ys) + 1) m m'
unfolding strncat
strncat_lem fuel m d s n xs ys h k p q apart =
    let l : length (take n ys) ≡ min (length ys) n = omega (arith, length-take n ys) in
    let (is, same) = joined-IsString m d s xs ys n h k apart in
    (
      joined m d s xs ys n h k,
      rw
          (
            strlen_lem fuel m d xs h p,
            strncat_loop_lem fuel fuel m (d + length xs) s n 0 (length (take n ys)) ys k q
                (omega (arith, apart)) (omega arith) (omega arith),
          )
          (ground arith),
      is,
      same,
    )

-- `strcat` appends the string at `s` to the one at `d`, and writes its bytes and the terminator
-- only.
pub strcat_lem :
    (fuel : ℕ) (m : Memory) (d s : ℕ) (xs ys : List ℕ)
    → IsString m d xs
    → IsString m s ys
    → length xs < fuel
    → length ys < fuel
    → Apart (d + length xs) s (length ys) (length ys)
    → (m' : Memory) × (strcat fuel m d s ≡ some m')
      × IsString m' d (xs ++ ys)
      × SameOutside (d + length xs) (length ys + 1) m m'
unfolding strcat
strcat_lem fuel m d s xs ys h k p q apart =
    let t = take-length ys in
    let e = d + length xs in
    let (is, same) = joined-IsString m d s xs ys (length ys) h k (rw t apart) in
    (
      store (copy_up (length ys) m e s 0) (e + length ys) 0,
      rw
          (
            strlen_lem fuel m d xs h p,
            strcat_loop_lem fuel fuel m e s 0 (length ys) ys k q apart (omega arith) q,
          )
          (ground arith),
      (rw t at is),
      (rw t at same),
    )

-- ===== src/Cstring/Length.antt =====
-- `strlen`, `strcpy`, `strcat` and `strncat` of src/string.c, as operations on the string at an
-- address.
use sunxi_babelfish.Common.{
  ℕ, zero, suc, ◌+◌, ◌<◌, ◌≤◌, ◌≡◌, ◌⊎◌, arith, ◌∙◌, sym, some, List, [], ◌∷◌, ◌++◌, length, take,
  take-length,
}
use mathlib.Core.Path.{subst}
use sunxi_babelfish.Memory.{Memory, store, SameOutside, IsString, store_ne, store_self}
use sunxi_babelfish.Cstring.{memcpy, strlen_loop, strlen, strcpy}
use sunxi_babelfish.Cstring.Copy.{memcpy-IsCopy}

strlen_loop_lem :
    (fuel : ℕ) (m : Memory) (s i : ℕ) (xs : List ℕ)
    → IsString m s xs
    → length xs < fuel
    → strlen_loop fuel m s i ≡ some (i + length xs)
unfolding strlen_loop
strlen_loop_lem zero m s i xs h p = absurd (omega arith)
strlen_loop_lem (suc f) m s i [] h p = ground arith
strlen_loop_lem (suc f) m s i (x ∷ xs) h p =
    ground (arith, strlen_loop_lem f m (suc s) (suc i) xs h.2)

-- With fuel for the string and its terminator, `strlen` returns the string's length.
pub strlen_lem :
    (fuel : ℕ) (m : Memory) (s : ℕ) (xs : List ℕ)
    → IsString m s xs
    → length xs < fuel
    → strlen fuel m s ≡ some (length xs)
unfolding strlen
strlen_lem fuel m s xs h p = ground (arith, strlen_loop_lem fuel m s 0 xs h p)

-- The first `n` characters of a string, copied to `b` and closed by a zero byte.
pub take-IsString :
    (n : ℕ) (m m' : Memory) (a b : ℕ) (xs : List ℕ)
    → ((j : ℕ) → j < length (take n xs) → m' (b + j) ≡ m (a + j))
    → m' (b + length (take n xs)) ≡ 0
    → IsString m a xs
    → IsString m' b (take n xs)
take-IsString zero m m' a b xs same end h = ground arith
take-IsString (suc n) m m' a b [] same end h = ground arith
take-IsString (suc n) m m' a b (x ∷ xs) same end h = (
  ground (arith, same 0),
  h.1,
  take-IsString n m m' (suc a) (suc b) xs (λ j p. ground (arith, same (suc j))) (ground arith) h.2,
)

-- A string that is kept up to its terminator, and another that begins there.
pub append-IsString :
    (m m' : Memory) (a : ℕ) (xs ys : List ℕ)
    → ((i : ℕ) → i < a + length xs → m' i ≡ m i)
    → IsString m a xs
    → IsString m' (a + length xs) ys
    → IsString m' a (xs ++ ys)
append-IsString m m' a [] ys same h k =
    let e : a + 0 ≡ a = omega arith in subst (λ b. IsString m' b ys) e k
append-IsString m m' a (x ∷ xs) ys same h k = (
  same a (omega arith) ∙ h.0,
  h.1,
  append-IsString m m' (suc a) xs ys (λ i p. same i (omega arith)) h.2
      (let e : a + suc (length xs) ≡ suc a + length xs = omega arith in
        subst (λ b. IsString m' b ys) e k),
)

copied-IsString :
    (m m' : Memory) (a b : ℕ) (xs : List ℕ)
    → ((j : ℕ) → j < length xs → m' (b + j) ≡ m (a + j))
    → m' (b + length xs) ≡ 0
    → IsString m a xs
    → IsString m' b xs
copied-IsString m m' a b xs same end h =
    let e = take-length xs in
    subst (λ ys. IsString m' b ys) e
      (take-IsString (length xs) m m' a b xs (λ j p. same j (subst (λ ys. j < length ys) e p))
        (subst (λ ys. m' (b + length ys) ≡ 0) (sym e) end) h)

-- `strcpy` makes the string at `d` that of `s`, and writes its bytes and its terminator only.
pub strcpy_lem :
    (fuel : ℕ) (m : Memory) (d s : ℕ) (xs : List ℕ)
    → IsString m s xs
    → length xs < fuel
    → (d ≤ s) ⊎ (s + length xs ≤ d)
    → (m' : Memory) × (strcpy fuel m d s ≡ some m')
      × IsString m' d xs
      × SameOutside d (length xs + 1) m m'
unfolding strcpy
strcpy_lem fuel m d s xs h p apart =
    let n = length xs in
    let m1 = memcpy m d s n in
    let (same, frame) = memcpy-IsCopy m d s n apart in
    (
      store m1 (d + n) 0,
      rw (strlen_lem fuel m s xs h p),
      copied-IsString m (store m1 (d + n) 0) s d xs
          (λ j q. store_ne m1 (d + n) 0 (d + j) (omega arith) ∙ same j q) (store_self m1 (d + n) 0)
          h,
      λ a q. store_ne m1 (d + n) 0 a (omega arith) ∙ frame a (omega arith),
    )

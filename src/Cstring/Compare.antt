-- ===== src/Cstring/Compare.antt =====
-- `strcmp` and `memcmp` of src/string.c.
use sunxi_babelfish.Common.{
  ℕ, zero, suc, ◌+◌, ◌-◌, ◌^◌, ◌<◌, ◌≤◌, ◌≡◌, ◌≢◌, ◌↔◌, inl, inr, refl, arith, ltb, ◌==◌, some,
  List, [], ◌∷◌, length, Bool-cases, if◌then◌else◌,
}
use sunxi_babelfish.Common.Int.{ℤ, pos, negsuc, sub_ℕ}
use sunxi_babelfish.Memory.{Memory, IsString, IsString-at}
use sunxi_babelfish.Cstring.{strcmp_loop, strcmp, dec32-suc, memcmp_loop, memcmp}
use sunxi_babelfish.Cstring.Length.{strlen_lem}

-- The difference at the first place where two texts of one length differ.
unfoldable pub first_difference : List ℕ → List ℕ → ℤ
first_difference [] ys = pos 0
first_difference (x ∷ xs) [] = pos 0
first_difference (x ∷ xs) (y ∷ ys) = if x == y then first_difference xs ys else sub_ℕ x y

-- What `strcmp` computes of two texts: the shorter one is the lesser, and texts of one length
-- compare by the first difference.
unfoldable pub compare_texts : List ℕ → List ℕ → ℤ
unfolding first_difference
compare_texts xs ys =
    if ltb (length xs) (length ys)
    then negsuc 0
    else if ltb (length ys) (length xs)
    then pos 1
    else first_difference xs ys

strcmp_loop_lem :
    (m : Memory) (a b i : ℕ) (xs ys : List ℕ)
    → IsString m (a + i) xs
    → IsString m (b + i) ys
    → length xs ≡ length ys
    → strcmp_loop (length xs) m a b i ≡ first_difference xs ys
unfolding strcmp_loop first_difference
strcmp_loop_lem m a b i [] ys h k e = refl
strcmp_loop_lem m a b i (x ∷ xs) [] h k e = absurd (omega arith)
strcmp_loop_lem m a b i (x ∷ xs) (y ∷ ys) h k e = ground (
  arith,
  strcmp_loop_lem m a b (suc i) xs ys (IsString-at m xs (omega arith) h.2)
      (IsString-at m ys (omega arith) k.2),
)

-- The value of `strcmp` on two strings, in full.
pub strcmp_lem :
    (fuel : ℕ) (m : Memory) (a b : ℕ) (xs ys : List ℕ)
    → IsString m a xs
    → IsString m b ys
    → length xs < fuel
    → length ys < fuel
    → strcmp fuel m a b ≡ some (compare_texts xs ys)
unfolding strcmp compare_texts
strcmp_lem fuel m a b xs ys h k p q =
    rw (strlen_lem fuel m a xs h p, strlen_lem fuel m b ys k q)
      (ground (
        arith,
        strcmp_loop_lem m a b 0 xs ys (IsString-at m xs (omega arith) h)
            (IsString-at m ys (omega arith) k),
      ))

first_difference_self : (xs : List ℕ) → first_difference xs xs ≡ pos 0
unfolding first_difference
first_difference_self [] = refl
first_difference_self (x ∷ xs) = ground (arith, first_difference_self xs)

eq_of_first_difference :
    (xs ys : List ℕ) → length xs ≡ length ys → first_difference xs ys ≡ pos 0 → xs ≡ ys
unfolding first_difference
eq_of_first_difference [] [] e h = refl
eq_of_first_difference [] (y ∷ ys) e h = absurd (omega arith)
eq_of_first_difference (x ∷ xs) [] e h = absurd (omega arith)
eq_of_first_difference (x ∷ xs) (y ∷ ys) e h = ground (arith, eq_of_first_difference xs ys)

pub compare_texts-zero_iff : (xs ys : List ℕ) → (compare_texts xs ys ≡ pos 0) ↔ (xs ≡ ys)
unfolding compare_texts
compare_texts-zero_iff xs ys = (
  λ h. ground (arith, eq_of_first_difference xs ys),
  λ e. rw e (ground (arith, first_difference_self ys)),
)

-- `strcmp` gives zero exactly on equal strings.
pub strcmp-zero_iff :
    (fuel : ℕ) (m : Memory) (a b : ℕ) (xs ys : List ℕ)
    → IsString m a xs
    → IsString m b ys
    → length xs < fuel
    → length ys < fuel
    → (r : ℤ) × (strcmp fuel m a b ≡ some r) × ((r ≡ pos 0) ↔ (xs ≡ ys))
strcmp-zero_iff fuel m a b xs ys h k p q =
    (compare_texts xs ys, strcmp_lem fuel m a b xs ys h k p q, compare_texts-zero_iff xs ys)

-- Where the loop of `memcmp` stops: `j` bytes on, at the first difference or at the last byte.
memcmp_loop_lem :
    (f : ℕ) (m : Memory) (a b k : ℕ)
    → k < f
    → suc k < 2 ^ 32
    → (j : ℕ) × (memcmp_loop f m a b (suc k) ≡ some (suc (a + j), suc (b + j)))
      × (j ≤ k)
      × ((i : ℕ) → i < j → m (a + i) ≡ m (b + i))
      × (j < k → m (a + j) ≢ m (b + j))
unfolding memcmp_loop
memcmp_loop_lem zero m a b k p q = absurd (omega arith)
memcmp_loop_lem (suc f) m a b zero p q =
    (0, ground arith, omega arith, λ i r. absurd (omega arith), λ r. absurd (omega arith))
memcmp_loop_lem (suc f) m a b (suc k) p q = elim (Bool-cases (m a == m b)) [
  | inl same ↦
      let (j, run, le, eqs, differ) =
        memcmp_loop_lem f m (suc a) (suc b) k (omega arith) (omega arith) in
      (
        suc j,
        rw (same, dec32-suc (suc k) q) (ground arith),
        omega arith,
        λ i r. ground (arith, eqs (i - 1)),
        λ r e. differ (omega arith) (ground arith),
      )
  | inr other ↦ (0, ground arith, omega arith, λ i r. absurd (omega arith), λ r e. ground arith)
]

-- For a count of at least one, `memcmp` gives zero exactly on regions that hold the same bytes.
pub memcmp-zero_iff :
    (fuel : ℕ) (m : Memory) (a b n : ℕ)
    → 0 < n
    → n < 2 ^ 32
    → n ≤ fuel
    → (r : ℤ) × (memcmp fuel m a b n ≡ some r)
      × ((r ≡ pos 0) ↔ ((j : ℕ) → j < n → m (a + j) ≡ m (b + j)))
unfolding memcmp
memcmp-zero_iff fuel m a b zero h p q = absurd (omega arith)
memcmp-zero_iff fuel m a b (suc k) h p q =
    let (j, run, le, eqs, differ) = memcmp_loop_lem fuel m a b k q p in
    (
      sub_ℕ (m (a + j)) (m (b + j)),
      rw run (ground arith),
      (λ e i r. ground (arith, eqs i, differ), λ all. ground (arith, all j)),
    )

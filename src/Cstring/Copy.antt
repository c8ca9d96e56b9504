-- ===== src/Cstring/Copy.antt =====
-- `memcpy`, `memmove` and `memset` of src/string.c.
use sunxi_babelfish.Common.{
  ◌^◌, false, ℕ, zero, suc, ◌+◌, ◌%◌, ◌<◌, ◌≤◌, ◌≡◌, ◌⊎◌, inl, inr, refl, arith, Bool-cases, ltb,
  ◌∙◌,
}
use sunxi_babelfish.Memory.{Memory, store, SameOutside, store_ne, store_self}
use sunxi_babelfish.Cstring.{rounds_down, copy_up, copy_down, fill, memcpy, memmove, memset}

-- The cells outside what is left to copy stay.
pub copy_up_outside :
    (k : ℕ) (m : Memory) (d s i x : ℕ) → (x < d + i) ⊎ (d + i + k ≤ x) → copy_up k m d s i x ≡ m x
unfolding copy_up
copy_up_outside zero m d s i x h = refl
copy_up_outside (suc k) m d s i x h =
    copy_up_outside k (store m (d + i) (m (s + i))) d s (suc i) x (omega arith)
    ∙ store_ne m (d + i) (m (s + i)) x (omega arith)

-- Going up is right unless the target begins inside the source.
pub copy_up_inside :
    (k : ℕ) (m : Memory) (d s i j : ℕ)
    → (d ≤ s) ⊎ (s + i + k ≤ d)
    → i ≤ j
    → j < i + k
    → copy_up k m d s i (d + j) ≡ m (s + j)
unfolding copy_up
copy_up_inside zero m d s i j h p q = absurd (omega arith)
copy_up_inside (suc k) m d s i j h p q =
    let m1 = store m (d + i) (m (s + i)) in
    ground (
      arith,
      copy_up_inside k m1 d s (suc i) j,
      copy_up_outside k m1 d s (suc i) (d + j),
      store_self m (d + i) (m (s + i)),
      store_ne m (d + i) (m (s + i)) (s + j),
    )

copy_down_outside :
    (k : ℕ) (m : Memory) (d s x : ℕ) → (x < d) ⊎ (d + k ≤ x) → copy_down k m d s x ≡ m x
unfolding copy_down
copy_down_outside zero m d s x h = refl
copy_down_outside (suc k) m d s x h =
    copy_down_outside k (store m (d + k) (m (s + k))) d s x (omega arith)
    ∙ store_ne m (d + k) (m (s + k)) x (omega arith)

-- Going down is right when the target does not begin below the source.
copy_down_inside :
    (k : ℕ) (m : Memory) (d s j : ℕ) → s ≤ d → j < k → copy_down k m d s (d + j) ≡ m (s + j)
unfolding copy_down
copy_down_inside zero m d s j h p = absurd (omega arith)
copy_down_inside (suc k) m d s j h p =
    let m1 = store m (d + k) (m (s + k)) in
    ground (
      arith,
      copy_down_inside k m1 d s j,
      copy_down_outside k m1 d s (d + j),
      store_self m (d + k) (m (s + k)),
      store_ne m (d + k) (m (s + k)) (s + j),
    )

fill_outside :
    (k : ℕ) (m : Memory) (s i c x : ℕ) → (x < s + i) ⊎ (s + i + k ≤ x) → fill k m s i c x ≡ m x
unfolding fill
fill_outside zero m s i c x h = refl
fill_outside (suc k) m s i c x h =
    fill_outside k (store m (s + i) (c % 256)) s (suc i) c x (omega arith)
    ∙ store_ne m (s + i) (c % 256) x (omega arith)

fill_inside :
    (k : ℕ) (m : Memory) (s i c j : ℕ) → i ≤ j → j < i + k → fill k m s i c (s + j) ≡ c % 256
unfolding fill
fill_inside zero m s i c j p q = absurd (omega arith)
fill_inside (suc k) m s i c j p q =
    let m1 = store m (s + i) (c % 256) in
    ground (
      arith,
      fill_inside k m1 s (suc i) c j,
      fill_outside k m1 s (suc i) c (s + j),
      store_self m (s + i) (c % 256),
    )

-- The `n` bytes at `d` in `m'` are those at `s` in `m`, and no other byte has changed.
abbrev pub IsCopy : Memory → (d s n : ℕ) → Memory → Type 0
IsCopy m d s n m' = ((j : ℕ) → j < n → m' (d + j) ≡ m (s + j)) × SameOutside d n m m'

-- On regions that do not overlap (or where the target begins at or below the source) `memcpy`
-- copies the bytes and touches nothing else.
pub memcpy-IsCopy :
    (m : Memory) (d s n : ℕ) → (d ≤ s) ⊎ (s + n ≤ d) → IsCopy m d s n (memcpy m d s n)
unfolding memcpy
memcpy-IsCopy m d s n h = (
  λ j p. copy_up_inside n m d s 0 j (omega arith) (omega arith) (omega arith),
  λ x p. copy_up_outside n m d s 0 x (omega arith),
)

-- On at most 2 ^ 31 bytes, `memmove` copies the bytes as they were before the call and touches
-- nothing else, however the two regions overlap.
pub memmove-IsCopy : (m : Memory) (d s n : ℕ) → n ≤ 2 ^ 31 → IsCopy m d s n (memmove m d s n)
unfolding memmove
memmove-IsCopy m d s n small =
    let all : ltb (2 ^ 31) n ≡ false = ground arith in
    elim (Bool-cases (ltb d s)) [
      | inl up ↦ rw up (
        (λ j p. copy_up_inside n m d s 0 j (ground arith) (omega arith) (omega arith)),
        (λ x p. copy_up_outside n m d s 0 x (omega arith)),
      )
      | inr not_up ↦ rw not_up (elim (Bool-cases (ltb s d)) [
        | inl down ↦
            rw (down, all)
              (
                (λ j p. copy_down_inside n m d s j (ground arith) p),
                (λ x p. copy_down_outside n m d s x p),
              )
        | inr same ↦ rw same ((λ j p. let e : d ≡ s = ground arith in rw e refl), λ x p. refl)
      ])
    ]

rounds_down-le : (n : ℕ) → rounds_down n ≤ n
rounds_down-le n = ground arith

-- On any number of bytes, `memmove` touches nothing outside the target.
pub memmove_outside : (m : Memory) (d s n : ℕ) → SameOutside d n m (memmove m d s n)
unfolding memmove
memmove_outside m d s n x p = elim (Bool-cases (ltb d s)) [
  | inl up ↦ rw up (copy_up_outside n m d s 0 x (omega arith))
  | inr not_up ↦ rw not_up (elim (Bool-cases (ltb s d)) [
    | inl down ↦
        rw down (copy_down_outside (rounds_down n) m d s x (omega (arith, rounds_down-le n)))
    | inr same ↦ rw same refl
  ])
]

-- `memset` stores the low byte of `c` in each of the `n` bytes at `s` and touches nothing else.
pub memset_lem :
    (m : Memory) (s c n : ℕ)
    → ((j : ℕ) → j < n → memset m s c n (s + j) ≡ c % 256) × SameOutside s n m (memset m s c n)
unfolding memset
memset_lem m s c n = (
  λ j p. fill_inside n m s 0 c j (omega arith) (omega arith),
  λ x p. fill_outside n m s 0 c x (omega arith),
)

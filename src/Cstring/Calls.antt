-- ===== src/Cstring/Calls.antt =====
-- Calls of the routines that include/string.h declares, one after another on one memory: when each
-- may be made, and that they stay in the buffer that they are made for.
use sunxi_babelfish.Common.{
  ℕ, ◌+◌, ◌^◌, ◌<◌, ◌≤◌, ◌≡◌, ◌∙◌, ◌⊎◌, inl, inr, refl, List, [], ◌∷◌, Option, some, ◌>>=◌, length,
  take, arith, some_bind,
}
use sunxi_babelfish.Memory.{Memory, SameOutside, IsString}
use sunxi_babelfish.Cstring
use sunxi_babelfish.Cstring.Copy.{copy_up_outside, memmove_outside, memset_lem}
use sunxi_babelfish.Cstring.Length.{strlen_lem, strcpy_lem}
use sunxi_babelfish.Cstring.Concat.{Apart, strcat_lem, strncat_lem}
use sunxi_babelfish.Cstring.Compare.{strcmp_lem, memcmp-zero_iff}
use sunxi_babelfish.Cstring.Scan.{strchr_lem, memchr-ends}

-- The prototypes, with the arguments of a call.
pub data Call : Type 0 where
  memchr : (s c n : ℕ) → Call
  memcmp : (s1 s2 n : ℕ) → Call
  memcpy : (dest src n : ℕ) → Call
  memmove : (dest src n : ℕ) → Call
  memset : (s c n : ℕ) → Call
  strcat : (dest src : ℕ) → Call
  strchr : (s c : ℕ) → Call
  strcmp : (s1 s2 : ℕ) → Call
  strcpy : (dest src : ℕ) → Call
  strlen : (s : ℕ) → Call
  strncat : (dest src n : ℕ) → Call

-- The memory after a call; what it returns is left aside.
unfoldable pub call : (fuel : ℕ) → Call → Memory → Option Memory
unfolding Cstring.memcpy Cstring.memmove Cstring.memset
call fuel (memchr s c n) m = Cstring.memchr fuel m s c n >>= λ r. some m
call fuel (memcmp s1 s2 n) m = Cstring.memcmp fuel m s1 s2 n >>= λ r. some m
call fuel (memcpy dest src n) m = some (Cstring.memcpy m dest src n)
call fuel (memmove dest src n) m = some (Cstring.memmove m dest src n)
call fuel (memset s c n) m = some (Cstring.memset m s c n)
call fuel (strcat dest src) m = Cstring.strcat fuel m dest src
call fuel (strchr s c) m = Cstring.strchr fuel m s c >>= λ r. some m
call fuel (strcmp s1 s2) m = Cstring.strcmp fuel m s1 s2 >>= λ r. some m
call fuel (strcpy dest src) m = Cstring.strcpy fuel m dest src
call fuel (strlen s) m = Cstring.strlen fuel m s >>= λ r. some m
call fuel (strncat dest src n) m = Cstring.strncat fuel m dest src n

unfoldable pub calls : (fuel : ℕ) → List Call → Memory → Option Memory
unfolding call
calls fuel [] m = some m
calls fuel (c ∷ cs) m = call fuel c m >>= calls fuel cs

-- The string at `a` is `xs`, and the fuel covers it.
abbrev pub Reads : (fuel : ℕ) → Memory → (a : ℕ) → List ℕ → Type 0
Reads fuel m a xs = IsString m a xs × (length xs < fuel)

-- The `n` bytes at `d` are in the buffer of `size` bytes at `lo`.
abbrev pub Within : (lo size d n : ℕ) → Type 0
Within lo size d n = (lo ≤ d) × (d + n ≤ lo + size)

-- A call may be made: what it reads are strings, what it copies does not overlap in the wrong way,
-- and what it writes is in the buffer.
pub data Ready (fuel lo size : ℕ) (m : Memory) : Call → Type 0 where
  chr : (s c n : ℕ) → 0 < n → n < 2 ^ 32 → n ≤ fuel → Ready fuel lo size m (memchr s c n)
  cmp : (s1 s2 n : ℕ) → 0 < n → n < 2 ^ 32 → n ≤ fuel → Ready fuel lo size m (memcmp s1 s2 n)
  cpy : (d s n : ℕ) → Within lo size d n → Ready fuel lo size m (memcpy d s n)
  move : (d s n : ℕ) → Within lo size d n → Ready fuel lo size m (memmove d s n)
  set : (s c n : ℕ) → Within lo size s n → Ready fuel lo size m (memset s c n)
  cat :
      (d s : ℕ) (xs ys : List ℕ)
      → Reads fuel m d xs
      → Reads fuel m s ys
      → Apart (d + length xs) s (length ys) (length ys)
      → Within lo size (d + length xs) (length ys + 1)
      → Ready fuel lo size m (strcat d s)
  find : (s c x : ℕ) (xs : List ℕ) → Reads fuel m s (x ∷ xs) → Ready fuel lo size m (strchr s c)
  compare :
      (a b : ℕ) (xs ys : List ℕ)
      → Reads fuel m a xs
      → Reads fuel m b ys
      → Ready fuel lo size m (strcmp a b)
  copy :
      (d s : ℕ) (xs : List ℕ)
      → Reads fuel m s xs
      → (d ≤ s) ⊎ (s + length xs ≤ d)
      → Within lo size d (length xs + 1)
      → Ready fuel lo size m (strcpy d s)
  measure : (s : ℕ) (xs : List ℕ) → Reads fuel m s xs → Ready fuel lo size m (strlen s)
  ncat :
      (d s n : ℕ) (xs ys : List ℕ)
      → Reads fuel m d xs
      → Reads fuel m s ys
      → Apart (d + length xs) s (length (take n ys)) (length ys)
      → Within lo size (d + length xs) (length (take n ys) + 1)
      → Ready fuel lo size m (strncat d s n)

-- Each call may be made on the memory that the ones before it leave.
pub data Safe (fuel lo size : ℕ) : Memory → List Call → Type 0 where
  last : {m : Memory} → Safe fuel lo size m []
  after :
      {m : Memory} {c : Call} {cs : List Call}
      → Ready fuel lo size m c
      → ((m' : Memory) → call fuel c m ≡ some m' → Safe fuel lo size m' cs)
      → Safe fuel lo size m (c ∷ cs)

abbrev Returned : (lo size : ℕ) → Memory → Option Memory → Type 0
Returned lo size m r = (m' : Memory) × (r ≡ some m') × SameOutside lo size m m'

widen :
    (lo size d n : ℕ) (m m' : Memory)
    → Within lo size d n
    → SameOutside d n m m'
    → SameOutside lo size m m'
widen lo size d n m m' (below, above) same a (inl h) = same a (inl (omega arith))
widen lo size d n m m' (below, above) same a (inr h) = same a (inr (omega arith))

shifted : (d n a : ℕ) → (a < d) ⊎ (d + n ≤ a) → (a < d + 0) ⊎ (d + 0 + n ≤ a)
shifted d n a (inl h) = inl (omega arith)
shifted d n a (inr h) = inr (omega arith)

module _ (fuel lo size : ℕ) where
  call-Returned :
      (c : Call) (m : Memory) → Ready fuel lo size m c → Returned lo size m (call fuel c m)
  unfolding call
  call-Returned c m (chr s b n h p q) =
      let (r, run) = memchr-ends fuel m s b n h p q in (m, (rw run refl), λ a o. refl)
  call-Returned c m (cmp s1 s2 n h p q) =
      let r = memcmp-zero_iff fuel m s1 s2 n h p q in (m, (rw r.1 refl), λ a o. refl)
  call-Returned c m (cpy d s n w) = (
    Cstring.memcpy m d s n,
    refl,
    widen lo size d n m (Cstring.memcpy m d s n) w
        (λ a o. copy_up_outside n m d s 0 a (shifted d n a o)),
  )
  call-Returned c m (move d s n w) = (
    Cstring.memmove m d s n,
    refl,
    widen lo size d n m (Cstring.memmove m d s n) w (memmove_outside m d s n),
  )
  call-Returned c m (set s b n w) = (
    Cstring.memset m s b n,
    refl,
    widen lo size s n m (Cstring.memset m s b n) w (memset_lem m s b n).1,
  )
  call-Returned c m (cat d s xs ys x y apart w) =
      let (m', run, _, same) = strcat_lem fuel m d s xs ys x.0 y.0 x.1 y.1 apart in
      (m', run, widen lo size (d + length xs) (length ys + 1) m m' w same)
  call-Returned c m (find s b x xs r) =
      (m, (rw (strchr_lem fuel m s b x xs r.0 (omega arith)) refl), λ a o. refl)
  call-Returned c m (compare a b xs ys x y) =
      (m, (rw (strcmp_lem fuel m a b xs ys x.0 y.0 x.1 y.1) refl), λ a o. refl)
  call-Returned c m (copy d s xs x apart w) =
      let (m', run, _, same) = strcpy_lem fuel m d s xs x.0 x.1 apart in
      (m', run, widen lo size d (length xs + 1) m m' w same)
  call-Returned c m (measure s xs x) = (m, (rw (strlen_lem fuel m s xs x.0 x.1) refl), λ a o. refl)
  call-Returned c m (ncat d s n xs ys x y apart w) =
      let (m', run, _, same) = strncat_lem fuel m d s n xs ys x.0 y.0 x.1 y.1 apart in
      (m', run, widen lo size (d + length xs) (length (take n ys) + 1) m m' w same)

  -- Calls that may each be made on the memory that the ones before it leave: all of them end, and no
  -- byte outside the buffer has changed.
  pub calls-Returned :
      (cs : List Call) (m : Memory)
      → Safe fuel lo size m cs
      → (m' : Memory) × (calls fuel cs m ≡ some m') × SameOutside lo size m m'
  unfolding calls
  calls-Returned [] m last = (m, refl, λ a o. refl)
  calls-Returned (c ∷ cs) m (after ready safe) =
      let (m1, run, same) = call-Returned c m ready in
      let (m2, rest, more) = calls-Returned cs m1 (safe m1 run) in
      (m2, some_bind (call fuel c m) (calls fuel cs) run rest, λ a o. more a o ∙ same a o)

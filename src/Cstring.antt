-- ===== src/Cstring.antt =====
-- The routines of src/string.c over a byte memory. A routine that walks to a terminator takes
-- fuel, the number of bytes that it may look at, and gives `none` when that runs out. `int` counters
-- stay below 2 ^ 31, so a count is a plain number; `char` is unsigned, as on ARM.
pub mod Copy
pub mod Length
pub mod Concat
pub mod Compare
pub mod Scan
pub mod Calls
mod Tests
use sunxi_babelfish.Common.{
  ℕ, zero, suc, ◌+◌, ◌-◌, ◌%◌, ◌^◌, ◌<◌, ◌≡◌, arith, Option, none, some, ◌>>=◌, pure, ◌==◌, ltb,
  not, ◌&&◌, if◌then◌else◌,
}
use sunxi_babelfish.Common.Int.{ℤ, pos, negsuc, sub_ℕ}
use sunxi_babelfish.Memory.{Memory, null, store}

-- `for (i = 0; i < n; i++) out[i] = in[i];`, with `k` rounds left at `i`.
pub copy_up : (k : ℕ) → Memory → (out in_ i : ℕ) → Memory
copy_up zero m out in_ i = m
copy_up (suc k) m out in_ i = copy_up k (store m (out + i) (m (in_ + i))) out in_ (suc i)

-- The rounds of the loop down: `i` is an `int`, so `n - 1` of 2 ^ 31 or more is negative in it.
abbrev pub rounds_down : (n : ℕ) → ℕ
rounds_down n = if ltb (2 ^ 31) n then 0 else n

-- `for (i = (n - 1); i >= 0; i--) out[i] = in[i];`, with `i` at `k - 1`.
pub copy_down : (k : ℕ) → Memory → (out in_ : ℕ) → Memory
copy_down zero m out in_ = m
copy_down (suc k) m out in_ = copy_down k (store m (out + k) (m (in_ + k))) out in_

unfoldable pub memcpy : Memory → (dest src n : ℕ) → Memory
unfolding copy_up
memcpy m dest src n = copy_up n m dest src 0

unfoldable pub memmove : Memory → (dest src n : ℕ) → Memory
unfolding copy_up copy_down
memmove m dest src n =
    if ltb dest src
    then copy_up n m dest src 0
    else if ltb src dest
    then copy_down (rounds_down n) m dest src
    else m

fill : (k : ℕ) → Memory → (s i c : ℕ) → Memory
fill zero m s i c = m
fill (suc k) m s i c = fill k (store m (s + i) (c % 256)) s (suc i) c

unfoldable pub memset : Memory → (s c n : ℕ) → Memory
unfolding fill
memset m s c n = fill n m s 0 c

-- `while (*s++) i++;`
strlen_loop : (fuel : ℕ) → Memory → (s i : ℕ) → Option ℕ
strlen_loop zero m s i = none
strlen_loop (suc f) m s i =
    let rest = strlen_loop f m (suc s) (suc i) in if m s == 0 then some i else rest

unfoldable pub strlen : (fuel : ℕ) → Memory → ℕ → Option ℕ
unfolding strlen_loop
strlen fuel m s = strlen_loop fuel m s 0

unfoldable pub strcpy : (fuel : ℕ) → Memory → (dest src : ℕ) → Option Memory
unfolding strlen
strcpy fuel m dest src = do
  srclen ← strlen fuel m src
  pure (store (memcpy m dest src srclen) (dest + srclen) 0)

-- `for (i = 0; i < strlen(src); i++) dest[destlen + i] = src[i];`: the length is taken anew in
-- each round. The memory and `i` at the end of the loop.
strcat_loop : (fuel rounds : ℕ) → Memory → (end src i : ℕ) → Option (Memory × ℕ)
strcat_loop fuel zero m end src i = none
strcat_loop fuel (suc r) m end src i =
    let rest = strcat_loop fuel r (store m (end + i) (m (src + i))) end src (suc i) in
    do srclen ← strlen fuel m src; if ltb i srclen then rest else pure (m, i)

unfoldable pub strcat : (fuel : ℕ) → Memory → (dest src : ℕ) → Option Memory
unfolding strcat_loop
strcat fuel m dest src = do
  destlen ← strlen fuel m dest
  (m', i) ← strcat_loop fuel fuel m (dest + destlen) src 0
  pure (store m' (dest + destlen + i) 0)

-- `for (i = 0; i < strlen(src) && i < n; i++) dest[destlen + i] = src[i];`
strncat_loop : (fuel rounds : ℕ) → Memory → (end src n i : ℕ) → Option (Memory × ℕ)
strncat_loop fuel zero m end src n i = none
strncat_loop fuel (suc r) m end src n i =
    let rest = strncat_loop fuel r (store m (end + i) (m (src + i))) end src n (suc i) in
    do srclen ← strlen fuel m src; if ltb i srclen && ltb i n then rest else pure (m, i)

unfoldable pub strncat : (fuel : ℕ) → Memory → (dest src n : ℕ) → Option Memory
unfolding strncat_loop
strncat fuel m dest src n = do
  destlen ← strlen fuel m dest
  (m', i) ← strncat_loop fuel fuel m (dest + destlen) src n 0
  pure (store m' (dest + destlen + i) 0)

-- `for (i = 0; i < s1len; i++) { res = s1[i] - s2[i]; if (res) return res; } return 0;`
strcmp_loop : (k : ℕ) → Memory → (s1 s2 i : ℕ) → ℤ
strcmp_loop zero m s1 s2 i = pos 0
strcmp_loop (suc k) m s1 s2 i =
    let rest = strcmp_loop k m s1 s2 (suc i) in
    if m (s1 + i) == m (s2 + i) then rest else sub_ℕ (m (s1 + i)) (m (s2 + i))

unfoldable pub strcmp : (fuel : ℕ) → Memory → (s1 s2 : ℕ) → Option ℤ
unfolding strcmp_loop
strcmp fuel m s1 s2 = do
  s1len ← strlen fuel m s1
  s2len ← strlen fuel m s2
  pure (
      if ltb s1len s2len
      then negsuc 0
      else if ltb s2len s1len
      then pos 1
      else strcmp_loop s1len m s1 s2 0)

-- `--n` on a `size_t`.
abbrev pub dec32 : ℕ → ℕ
dec32 n = (n + 2 ^ 32 - 1) % 2 ^ 32

pub dec32-suc : (n : ℕ) → suc n < 2 ^ 32 → dec32 (suc n) ≡ n
dec32-suc n h = omega arith

-- `while ((*src++ != ch) && --n);`: `src` and `n` at the end of the loop.
memchr_loop : (fuel : ℕ) → Memory → (src ch n : ℕ) → Option (ℕ × ℕ)
memchr_loop zero m src ch n = none
memchr_loop (suc f) m src ch n =
    let rest = memchr_loop f m (suc src) ch (dec32 n) in
    if m src == ch then some (suc src, n) else if dec32 n == 0 then some (suc src, 0) else rest

unfoldable pub memchr : (fuel : ℕ) → Memory → (s c n : ℕ) → Option ℕ
unfolding memchr_loop
memchr fuel m s c n = do
  (src, left) ← memchr_loop fuel m s (c % 256) n
  pure (if left == 0 then null else src)

-- `while ((*s1++ == *s2++) && --n);`: `s1` and `s2` at the end of the loop.
memcmp_loop : (fuel : ℕ) → Memory → (s1 s2 n : ℕ) → Option (ℕ × ℕ)
memcmp_loop zero m s1 s2 n = none
memcmp_loop (suc f) m s1 s2 n =
    let rest = memcmp_loop f m (suc s1) (suc s2) (dec32 n) in
    if (m s1 == m s2) && not (dec32 n == 0) then rest else some (suc s1, suc s2)

unfoldable pub memcmp : (fuel : ℕ) → Memory → (s1 s2 n : ℕ) → Option ℤ
unfolding memcmp_loop
memcmp fuel m s1 s2 n = do
  (e1, e2) ← memcmp_loop fuel m s1 s2 n
  pure (sub_ℕ (m (e1 - 1)) (m (e2 - 1)))

-- `while ((*s++ != c) && *s);`: `s` at the end of the loop.
strchr_loop : (fuel : ℕ) → Memory → (s c : ℕ) → Option ℕ
strchr_loop zero m s c = none
strchr_loop (suc f) m s c =
    let rest = strchr_loop f m (suc s) c in
    if not (m s == c) && not (m (suc s) == 0) then rest else some (suc s)

unfoldable pub strchr : (fuel : ℕ) → Memory → (s c : ℕ) → Option ℕ
unfolding strchr_loop
strchr fuel m s c = do e ← strchr_loop fuel m s c; pure (if m (e - 1) == c then e - 1 else null)

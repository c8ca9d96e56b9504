-- ===== src/Memory.antt =====
-- The machine's memory as src/string.c sees it: a byte at each address. Addresses are numbers,
-- and a region that a routine is called on does not wrap round the end of the address space.
use sunxi_babelfish.Common.{
  ℕ, suc, ◌+◌, ◌<◌, ◌≤◌, ◌≡◌, ◌∙◌, ◌≢◌, ◌⊎◌, List, [], ◌∷◌, ◌==◌, if◌then◌else◌, arith, length,
}
use mathlib.Core.Path.{subst}

abbrev pub Memory : Type 0
Memory = ℕ → ℕ

abbrev pub null : ℕ
null = 0

-- `*a = v` for a byte `v`.
unfoldable pub store : Memory → ℕ → ℕ → Memory
store m a v x = if x == a then v else m x

-- `m'` agrees with `m` outside the `n` bytes at `d`.
abbrev pub SameOutside : ℕ → ℕ → Memory → Memory → Type 0
SameOutside d n m m' = (a : ℕ) → (a < d) ⊎ (d + n ≤ a) → m' a ≡ m a

-- The bytes at `a` are `xs`.
abbrev pub Holds : Memory → ℕ → List ℕ → Type 0
Holds m a [] = Unit {0}
Holds m a (x ∷ xs) = (m a ≡ x) × Holds m (suc a) xs

-- The C string at `a` is `xs`: nonzero bytes, and then a zero byte.
abbrev pub IsString : Memory → ℕ → List ℕ → Type 0
IsString m a [] = m a ≡ 0
IsString m a (x ∷ xs) = (m a ≡ x) × (x ≢ 0) × IsString m (suc a) xs

pub store_self : (m : Memory) (a v : ℕ) → store m a v a ≡ v
unfolding store
store_self m a v = ground arith

pub store_ne : (m : Memory) (a v x : ℕ) → x ≢ a → store m a v x ≡ m x
unfolding store
store_ne m a v x h = ground arith

-- A string survives any change that spares its bytes and its terminator.
pub IsString-frame :
    (m m' : Memory) (a : ℕ) (xs : List ℕ)
    → ((i : ℕ) → a ≤ i → i ≤ a + length xs → m' i ≡ m i)
    → IsString m a xs
    → IsString m' a xs
IsString-frame m m' a [] same h = same a (omega arith) (omega arith) ∙ h
IsString-frame m m' a (x ∷ xs) same (e, nz, h) = (
  same a (omega arith) (omega arith) ∙ e,
  nz,
  IsString-frame m m' (suc a) xs (λ i p q. same i (omega arith) (omega arith)) h,
)

pub IsString-at : (m : Memory) {a b : ℕ} (xs : List ℕ) → a ≡ b → IsString m a xs → IsString m b xs
IsString-at m xs e h = subst (λ c. IsString m c xs) e h

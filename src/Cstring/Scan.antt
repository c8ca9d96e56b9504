-- ===== src/Cstring/Scan.antt =====
-- `memchr` and `strchr` of src/string.c.
use Prim.Native.Nat.{}
use sunxi_babelfish.Common.{
  ℕ, zero, suc, ◌+◌, ◌-◌, ◌^◌, ◌%◌, ◌<◌, ◌≤◌, ◌≡◌, ◌≢◌, ap, arith, ◌==◌, Option, some, none, List,
  [], ◌∷◌, length, if◌then◌else◌, Bool-cases, inl, inr, refl, false, ◌∙◌,
}
use sunxi_babelfish.Memory.{Memory, null, IsString}
use sunxi_babelfish.Cstring.{dec32, dec32-suc, memchr_loop, memchr, strchr_loop, strchr}

memchr_loop_found :
    (f : ℕ) (m : Memory) (s c n j : ℕ)
    → j < n
    → n < 2 ^ 32
    → n ≤ f
    → ((i : ℕ) → i < j → m (s + i) ≢ c)
    → m (s + j) ≡ c
    → memchr_loop f m s c n ≡ some (suc (s + j), n - j)
unfolding memchr_loop
memchr_loop_found zero m s c n j p q r before hit = absurd (omega arith)
memchr_loop_found (suc f) m s c zero j p q r before hit = absurd (omega arith)
memchr_loop_found (suc f) m s c (suc n) zero p q r before hit = ground arith
memchr_loop_found (suc f) m s c (suc n) (suc j) p q r before hit = ground (
  arith,
  before 0,
  memchr_loop_found f m (suc s) c n j (omega arith) (omega arith) (omega arith)
      (λ i l e. before (suc i) (omega arith) (ground arith)) (ground arith),
)

memchr_loop_absent :
    (f : ℕ) (m : Memory) (s c n : ℕ)
    → suc n < 2 ^ 32
    → suc n ≤ f
    → ((i : ℕ) → i < suc n → m (s + i) ≢ c)
    → memchr_loop f m s c (suc n) ≡ some (suc (s + n), 0)
unfolding memchr_loop
memchr_loop_absent zero m s c n q r absent = absurd (omega arith)
memchr_loop_absent (suc f) m s c zero q r absent = ground (arith, absent 0)
memchr_loop_absent (suc f) m s c (suc n) q r absent = ground (
  arith,
  absent 0,
  memchr_loop_absent f m (suc s) c n (omega arith) (omega arith)
      (λ i l e. absent (suc i) (omega arith) (ground arith)),
)

ended_by :
    {o o' : Option (ℕ × ℕ)} → o ≡ o' → (r : ℕ × ℕ) × (o' ≡ some r) → (r : ℕ × ℕ) × (o ≡ some r)
ended_by e (r, h) = (r, e ∙ h)

memchr_loop-ends :
    (f : ℕ) (m : Memory) (s c n : ℕ)
    → 0 < n
    → n < 2 ^ 32
    → n ≤ f
    → (r : ℕ × ℕ) × (memchr_loop f m s c n ≡ some r)
unfolding memchr_loop
memchr_loop-ends zero m s c n h p q = absurd (omega arith)
memchr_loop-ends (suc f) m s c zero h p q = absurd (omega arith)
memchr_loop-ends (suc f) m s c (suc zero) h p q = elim (Bool-cases (m s == c)) [
  | inl e ↦ ((suc s, 1), rw e refl)
  | inr e ↦ ((suc s, 0), rw e refl)
]
memchr_loop-ends (suc f) m s c (suc (suc n)) h p q = elim (Bool-cases (m s == c)) [
  | inl e ↦ ((suc s, suc (suc n)), rw e refl)
  | inr e ↦
      let less : dec32 (suc (suc n)) ≡ suc n = dec32-suc (suc n) p in
      let more : (suc n == 0) ≡ false = ground arith in
      ended_by (rw (e, less, more) refl)
        (memchr_loop-ends f m (suc s) c (suc n) (omega arith) (omega arith) (omega arith))
]

pub memchr-ends :
    (fuel : ℕ) (m : Memory) (s c n : ℕ)
    → 0 < n
    → n < 2 ^ 32
    → n ≤ fuel
    → (r : ℕ) × (memchr fuel m s c n ≡ some r)
unfolding memchr
memchr-ends fuel m s c n h p q =
    let (r, run) = memchr_loop-ends fuel m s (c % 256) n h p q in
    ((if r.1 == 0 then null else r.0), rw run refl)

-- Where the byte first occurs at offset `j` of the `n` bytes, `memchr` gives the address one past
-- it, `s + j + 1`; where it does not occur among them, `memchr` gives NULL.
pub memchr_lem :
    (fuel : ℕ) (m : Memory) (s c n : ℕ)
    → 0 < n
    → n < 2 ^ 32
    → n ≤ fuel
    → ((j : ℕ)
        → j < n
        → ((i : ℕ) → i < j → m (s + i) ≢ c % 256)
        → m (s + j) ≡ c % 256
        → memchr fuel m s c n ≡ some (s + j + 1))
      × (((i : ℕ) → i < n → m (s + i) ≢ c % 256) → memchr fuel m s c n ≡ some null)
unfolding memchr
memchr_lem fuel m s c zero h p q = absurd (omega arith)
memchr_lem fuel m s c (suc n) h p q = (
  λ j l before hit. ground (arith, memchr_loop_found fuel m s (c % 256) (suc n) j l p q before hit),
  λ absent. rw (memchr_loop_absent fuel m s (c % 256) n p q absent),
)

-- The index of the first `c` in a text.
unfoldable pub position : ℕ → List ℕ → Option ℕ
position c [] = none
position c (x ∷ xs) =
    if x == c then some 0 else elim (position c xs) [ none ↦ none | some j ↦ some (suc j) ]

-- The address of the first `c` in the text at `s`, or NULL.
abbrev pub address_of : ℕ → ℕ → List ℕ → ℕ
address_of s c xs = elim (position c xs) [ none ↦ null | some j ↦ s + j ]

-- Where the loop stops: at the first `c`, or at the last character.
stop : ℕ → ℕ → List ℕ → ℕ
stop c x [] = 0
stop c x (y ∷ ys) = if x == c then 0 else suc (stop c y ys)

strchr_loop_lem :
    (f : ℕ) (m : Memory) (s c x : ℕ) (xs : List ℕ)
    → IsString m s (x ∷ xs)
    → length xs < f
    → strchr_loop f m s c ≡ some (suc (s + stop c x xs))
unfolding strchr_loop stop
strchr_loop_lem zero m s c x xs h p = absurd (omega arith)
strchr_loop_lem (suc f) m s c x [] h p = ground arith
strchr_loop_lem (suc f) m s c x (y ∷ ys) h p =
    ground (arith, strchr_loop_lem f m (suc s) c y ys h.2)

stop-position :
    (m : Memory) (s c x : ℕ) (xs : List ℕ)
    → IsString m s (x ∷ xs)
    → (if m (s + stop c x xs) == c then s + stop c x xs else null) ≡ address_of s c (x ∷ xs)
unfolding stop position
stop-position m s c x [] h = ground arith
stop-position m s c x (y ∷ ys) h = ground (arith, stop-position m (suc s) c y ys h.2)

-- On a nonempty string `strchr` gives the address of the first `c`, or NULL if the text has none.
-- So for `c = 0` it gives NULL, where the C library gives the terminator's address.
pub strchr_lem :
    (fuel : ℕ) (m : Memory) (s c x : ℕ) (xs : List ℕ)
    → IsString m s (x ∷ xs)
    → length xs < fuel
    → strchr fuel m s c ≡ some (address_of s c (x ∷ xs))
unfolding strchr
strchr_lem fuel m s c x xs h p =
    rw (strchr_loop_lem fuel m s c x xs h p) (ap some (ground (arith, stop-position m s c x xs h)))

-- On the empty string `strchr` looks past the terminator: it finds a `c` that stands there.
pub strchr_past_end :
    (fuel : ℕ) (m : Memory) (s c : ℕ)
    → IsString m s []
    → c ≢ 0
    → m (s + 1) ≡ c
    → strchr (suc (suc fuel)) m s c ≡ some (s + 1)
unfolding strchr strchr_loop
strchr_past_end fuel m s c h nz e = ground arith

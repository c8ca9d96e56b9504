-- ===== src/Hook/Ring.antt =====
-- What a ring of hooks stands for: the hooks on it, in order.
use sunxi_babelfish.Common.{
  ℕ, ◌≡◌, ◌≢◌, refl, Bool, true, false, ◌||◌, List, [], ◌∷◌, ◌++◌, arith, ◌==◌,
}
use sunxi_babelfish.Hook.{Hooks}

abbrev pub has : ℕ → List ℕ → Bool
has a [] = false
has a (x ∷ xs) = (a == x) || has a xs

abbrev pub IsDistinct : List ℕ → Type 0
IsDistinct [] = Unit {0}
IsDistinct (x ∷ xs) = (has x xs ≡ false) × IsDistinct xs

-- The last hook of `p ∷ xs`.
abbrev pub final : ℕ → List ℕ → ℕ
final p [] = p
final p (x ∷ xs) = final x xs

-- From `p` the `next` fields lead through `xs` to `q`, and the `prev` fields lead back.
abbrev pub Links : Hooks → ℕ → List ℕ → ℕ → Type 0
Links m p [] q = (m.next p ≡ q) × (m.prev q ≡ p)
Links m p (x ∷ xs) q = (m.next p ≡ x) × (m.prev x ≡ p) × Links m x xs q

-- The list at the hook `h` has the hooks `xs`: a cycle through `h` and then `xs`, all distinct.
pub record IsRing (m : Hooks) (h : ℕ) (xs : List ℕ) : Type 0 where
  pub links : Links m h xs h
  pub distinct : IsDistinct (h ∷ xs)

pub has-append : (o : ℕ) (front back : List ℕ) → has o (front ++ back) ≡ (has o front || has o back)
has-append o [] back = refl
has-append o (x ∷ front) back = ground (arith, has-append o front back)

pub final-has : (p : ℕ) (xs : List ℕ) → has (final p xs) (p ∷ xs) ≡ true
final-has p [] = ground arith
final-has p (x ∷ xs) = ground (arith, final-has x xs)

pub Links-prev : (m : Hooks) (p : ℕ) (xs : List ℕ) (q : ℕ) → Links m p xs q → m.prev q ≡ final p xs
Links-prev m p [] q h = h.1
Links-prev m p (x ∷ xs) q h = Links-prev m x xs q h.2

-- A path is taken apart at one of its hooks, and put together.
pub Links-split :
    (m : Hooks) (p : ℕ) (xs : List ℕ) (e : ℕ) (ys : List ℕ) (q : ℕ)
    → Links m p (xs ++ e ∷ ys) q
    → Links m p xs e × Links m e ys q
Links-split m p [] e ys q h = ((h.0, h.1), h.2)
Links-split m p (x ∷ xs) e ys q h =
    let (front, back) = Links-split m x xs e ys q h.2 in ((h.0, h.1, front), back)

pub Links-join :
    (m : Hooks) (p : ℕ) (xs : List ℕ) (e : ℕ) (ys : List ℕ) (q : ℕ)
    → Links m p xs e
    → Links m e ys q
    → Links m p (xs ++ e ∷ ys) q
Links-join m p [] e ys q h k = (h.0, h.1, k)
Links-join m p (x ∷ xs) e ys q h k = (h.0, h.1, Links-join m x xs e ys q h.2 k)

-- A path whose last link is led to `r` instead.
pub Links-retarget :
    (m m' : Hooks) (p : ℕ) (xs : List ℕ) (q r : ℕ)
    → IsDistinct (p ∷ xs)
    → ((a : ℕ) → has a (p ∷ xs) ≡ true → a ≢ final p xs → m'.next a ≡ m.next a)
    → ((a : ℕ) → has a xs ≡ true → m'.prev a ≡ m.prev a)
    → m'.next (final p xs) ≡ r
    → m'.prev r ≡ final p xs
    → Links m p xs q
    → Links m' p xs r
Links-retarget m m' p [] q r d same_next same_prev to back h = (to, back)
Links-retarget m m' p (x ∷ xs) q r d same_next same_prev to back h = (
  ground (arith, same_next p, final-has x xs, h.0),
  ground (arith, same_prev x, h.1),
  Links-retarget m m' x xs q r d.1 (λ a i n. same_next a (ground arith) n)
      (λ a i. same_prev a (ground arith)) to back h.2,
)

-- A path that no write has touched.
pub Links-frame :
    (m m' : Hooks) (p : ℕ) (xs : List ℕ) (q : ℕ)
    → ((a : ℕ) → has a (p ∷ xs) ≡ true → m'.next a ≡ m.next a)
    → ((a : ℕ) → has a (q ∷ xs) ≡ true → m'.prev a ≡ m.prev a)
    → Links m p xs q
    → Links m' p xs q
Links-frame m m' p [] q same_next same_prev h =
    (ground (arith, same_next p, h.0), ground (arith, same_prev q, h.1))
Links-frame m m' p (x ∷ xs) q same_next same_prev h = (
  ground (arith, same_next p, h.0),
  ground (arith, same_prev x, h.1),
  Links-frame m m' x xs q (λ a i. same_next a (ground arith)) (λ a i. same_prev a (ground arith))
      h.2,
)

-- ===== src/Hook/Walk.antt =====
-- The walks over a list of hooks: `for (o = list_first(l); o; o = list_next(l, o))`, to the first
-- hook that a test accepts, or over all of them.
use sunxi_babelfish.Common.{
  ℕ, zero, suc, ◌<◌, ◌≡◌, Bool, true, false, List, [], ◌∷◌, arith, ◌==◌, Option, some, none,
  if◌then◌else◌, length, ◌>>=◌, pure,
}
use sunxi_babelfish.Memory.{null}
use sunxi_babelfish.Hook.{Hooks, list_first, list_last, list_next, list_empty}
use sunxi_babelfish.Hook.Ring.{has, final, final-has, Links, IsRing, Links-prev}

-- `for (...) if (test(o)) return o; return NULL;`
unfoldable pub find_from : (fuel : ℕ) → (ℕ → Bool) → (l o : ℕ) → Hooks → Option ℕ
unfolding list_next
find_from zero test l o m = none
find_from (suc f) test l o m =
    let rest = find_from f test l (list_next l o m) m in
    if o == null then some null else if test o then some o else rest

unfoldable pub find_hook : (fuel : ℕ) → (ℕ → Bool) → (l : ℕ) → Hooks → Option ℕ
unfolding find_from list_first
find_hook fuel test l m = find_from fuel test l (list_first l m) m

-- The hooks that the loop visits.
unfoldable pub visit_from : (fuel : ℕ) → (l o : ℕ) → Hooks → Option (List ℕ)
unfolding list_next
visit_from zero l o m = none
visit_from (suc f) l o m =
    let rest = visit_from f l (list_next l o m) m in
    if o == null then some [] else (do os ← rest; pure (o ∷ os))

unfoldable pub visit : (fuel : ℕ) → (l : ℕ) → Hooks → Option (List ℕ)
unfolding visit_from list_first
visit fuel l m = visit_from fuel l (list_first l m) m

-- The first hook of `xs`, or NULL.
abbrev pub head_or_null : List ℕ → ℕ
head_or_null [] = null
head_or_null (x ∷ xs) = x

-- The first hook of `xs` that the test accepts, or NULL.
abbrev pub first_match : (ℕ → Bool) → List ℕ → ℕ
first_match test [] = null
first_match test (x ∷ xs) = if test x then x else first_match test xs

-- The last hook of `xs`, or NULL.
abbrev pub last_or_null : List ℕ → ℕ
last_or_null [] = null
last_or_null (x ∷ xs) = final x xs

abbrev pub is_nil : List ℕ → Bool
is_nil [] = true
is_nil (x ∷ xs) = false

-- `list_first` and `list_last` give the ends of the list, or NULL if it is empty, and `list_empty`
-- says whether it is.
pub list_ends :
    (m : Hooks) (h : ℕ) (xs : List ℕ)
    → IsRing m h xs
    → (list_first h m ≡ head_or_null xs)
      × (list_last h m ≡ last_or_null xs)
      × (list_empty h m ≡ is_nil xs)
unfolding list_first list_last list_empty
list_ends m h [] r =
    (ground (arith, r.links.0), ground (arith, r.links.1), ground (arith, r.links.1))
list_ends m h (x ∷ xs) r =
    let last = Links-prev m h (x ∷ xs) h r.links in
    (
      ground (arith, r.links.0),
      ground (arith, last, final-has x xs),
      ground (arith, last, final-has x xs),
    )

-- From a hook of the list, `list_next` goes to the one behind it.
pub list_next-Links :
    (m : Hooks) (h x : ℕ) (xs : List ℕ)
    → Links m x xs h
    → has h xs ≡ false
    → list_next h x m ≡ head_or_null xs
unfolding list_next
list_next-Links m h x [] k out = ground arith
list_next-Links m h x (y ∷ ys) k out = ground arith

find_from-first_match :
    (f : ℕ) (test : ℕ → Bool) (m : Hooks) (h p : ℕ) (xs : List ℕ)
    → Links m p xs h
    → has h xs ≡ false
    → has null xs ≡ false
    → length xs < f
    → find_from f test h (head_or_null xs) m ≡ some (first_match test xs)
unfolding find_from
find_from-first_match zero test m h p xs k out nn q = absurd (omega arith)
find_from-first_match (suc f) test m h p [] k out nn q = ground arith
find_from-first_match (suc f) test m h p (x ∷ xs) k out nn q =
    ground (arith, list_next-Links m h x xs k.2, find_from-first_match f test m h x xs k.2)

-- The search visits the hooks in order: with fuel for the list it gives the first that the test
-- accepts, and NULL if there is none.
pub find_hook-first_match :
    (f : ℕ) (test : ℕ → Bool) (m : Hooks) (h : ℕ) (xs : List ℕ)
    → IsRing m h xs
    → has null xs ≡ false
    → length xs < f
    → find_hook f test h m ≡ some (first_match test xs)
unfolding find_hook
find_hook-first_match f test m h xs r nn q =
    rw ((list_ends m h xs r).0) (find_from-first_match f test m h h xs r.links r.distinct.0 nn q)

visit_from_lem :
    (f : ℕ) (m : Hooks) (h p : ℕ) (xs : List ℕ)
    → Links m p xs h
    → has h xs ≡ false
    → has null xs ≡ false
    → length xs < f
    → visit_from f h (head_or_null xs) m ≡ some xs
unfolding visit_from
visit_from_lem zero m h p xs k out nn q = absurd (omega arith)
visit_from_lem (suc f) m h p [] k out nn q = ground arith
visit_from_lem (suc f) m h p (x ∷ xs) k out nn q =
    ground (arith, list_next-Links m h x xs k.2, visit_from_lem f m h x xs k.2)

-- The walk visits the hooks of the list, each once and in order, and ends.
pub visit_lem :
    (f : ℕ) (m : Hooks) (h : ℕ) (xs : List ℕ)
    → IsRing m h xs
    → has null xs ≡ false
    → length xs < f
    → visit f h m ≡ some xs
unfolding visit
visit_lem f m h xs r nn q =
    rw ((list_ends m h xs r).0) (visit_from_lem f m h h xs r.links r.distinct.0 nn q)

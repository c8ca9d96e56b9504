-- ===== src/Hook/Loop.antt =====
-- A loop `for (o = list_first(l); o; o = list_next(l, o))` whose body works on a state of its own
-- and leaves the hooks alone.
use sunxi_babelfish.Common.{
  ℕ, zero, suc, ◌<◌, ◌≡◌, ap, false, List, [], ◌∷◌, arith, ◌==◌, Option, some, none, if◌then◌else◌,
  length, ◌>>=◌,
}
use sunxi_babelfish.Memory.{null}
use sunxi_babelfish.Hook.{Hooks, list_first, list_next}
use sunxi_babelfish.Hook.Ring.{has, Links, IsRing}
use sunxi_babelfish.Hook.Walk.{head_or_null, list_ends, list_next-Links}

module _ {A : Type 0} (body : ℕ → A → Option A) where
  unfoldable pub loop_from : (fuel : ℕ) → (l o : ℕ) → A → Hooks → Option A
  unfolding list_next
  loop_from zero l o a m = none
  loop_from (suc f) l o a m =
      let rest = body o a >>= λ a'. loop_from f l (list_next l o m) a' m in
      if o == null then some a else rest

  unfoldable pub loop_hooks : (fuel : ℕ) → (l : ℕ) → A → Hooks → Option A
  unfolding loop_from list_first
  loop_hooks fuel l a m = loop_from fuel l (list_first l m) a m

  -- The body on one hook after another.
  abbrev pub each : List ℕ → A → Option A
  each [] a = some a
  each (x ∷ xs) a = body x a >>= each xs

  loop_from_lem :
      (f : ℕ) (m : Hooks) (h p : ℕ) (xs : List ℕ) (a : A)
      → Links m p xs h
      → has h xs ≡ false
      → has null xs ≡ false
      → length xs < f
      → loop_from f h (head_or_null xs) a m ≡ each xs a
  unfolding loop_from
  loop_from_lem zero m h p xs a k out nn q = absurd (omega arith)
  loop_from_lem (suc f) m h p [] a k out nn q = ground arith
  loop_from_lem (suc f) m h p (x ∷ xs) a k out nn q =
      let there : (x == null) ≡ false = ground arith in
      let next = list_next-Links m h x xs k.2 (ground arith) in
      let rest : (a' : A) → loop_from f h (list_next h x m) a' m ≡ each xs a' = λ a'.
        rw next (loop_from_lem f m h x xs a' k.2 (ground arith) (ground arith) (omega arith)) in
      rw there (ap (λ (k : A → Option A). body x a >>= k) (λ i a'. rest a' i))

  -- With fuel for the list, the loop ends, and runs the body on each hook once and in order.
  pub loop_hooks_lem :
      (f : ℕ) (m : Hooks) (h : ℕ) (xs : List ℕ) (a : A)
      → IsRing m h xs
      → has null xs ≡ false
      → length xs < f
      → loop_hooks f h a m ≡ each xs a
  unfolding loop_hooks
  loop_hooks_lem f m h xs a r nn q =
      rw ((list_ends m h xs r).0) (loop_from_lem f m h h xs a r.links r.distinct.0 nn q)

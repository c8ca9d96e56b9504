-- ===== src/Hook/Edit.antt =====
-- `list_init`, `list_append`, `list_insert` and `list_remove` on the list that a ring stands for.
use mathlib.Core.List.{append-nil}
use sunxi_babelfish.Common.{ℕ, ◌≡◌, true, false, List, [], ◌∷◌, ◌++◌, arith}
use sunxi_babelfish.Hook.{Hooks, list_init, list_insert, list_append, list_remove}
use sunxi_babelfish.Hook.Ring.{
  has, IsDistinct, Links, IsRing, has-append, final-has, Links-prev, Links-split, Links-join,
  Links-retarget, Links-frame,
}

-- A hook that is set up is an empty list.
pub list_init-IsRing : (m : Hooks) (h : ℕ) → IsRing (list_init h m) h []
unfolding list_init
list_init-IsRing m h = record { links = ground arith; distinct = ground arith }

pub IsDistinct-snoc :
    (xs : List ℕ) (e : ℕ) → IsDistinct xs → has e xs ≡ false → IsDistinct (xs ++ e ∷ [])
IsDistinct-snoc [] e d out = ground arith
IsDistinct-snoc (x ∷ xs) e d out =
    ground (arith, has-append x xs (e ∷ []), IsDistinct-snoc xs e d.1)

-- The fields of the hooks that are not in `used` are the same in both.
abbrev pub SameOff : List ℕ → Hooks → Hooks → Type 0
SameOff used m m' = (a : ℕ) → has a used ≡ false → (m'.next a ≡ m.next a) × (m'.prev a ≡ m.prev a)

-- A list whose hooks are all off `used` is the same list after the change.
pub SameOff-IsRing :
    (used : List ℕ) (m m' : Hooks) (h : ℕ) (xs : List ℕ)
    → SameOff used m m'
    → ((a : ℕ) → has a (h ∷ xs) ≡ true → has a used ≡ false)
    → IsRing m h xs
    → IsRing m' h xs
SameOff-IsRing used m m' h xs same off r = record {
  links =
      Links-frame m m' h xs h (λ a i. (same a (off a i)).0) (λ a i. (same a (off a i)).1) r.links;
  distinct = r.distinct;
}

-- `list_append` puts a new hook at the end of the list, and touches no hook but this and those of
-- the list.
pub list_append-IsRing :
    (m : Hooks) (h e : ℕ) (xs : List ℕ)
    → IsRing m h xs
    → has e (h ∷ xs) ≡ false
    → IsRing (list_append h e m) h (xs ++ e ∷ []) × SameOff (e ∷ h ∷ xs) m (list_append h e m)
unfolding list_append
list_append-IsRing m h e xs r out =
    let last = Links-prev m h xs h r.links in
    (
      record {
        links =
            Links-join (list_append h e m) h xs e [] h
              (Links-retarget m (list_append h e m) h xs h e r.distinct
                (λ a i n. ground (arith, last)) (λ a i. ground (arith, r.distinct.0))
                (ground (arith, last)) (ground (arith, last)) r.links)
              (ground (arith, last, final-has h xs));
        distinct = IsDistinct-snoc (h ∷ xs) e r.distinct out;
      },
      λ a off. ground (arith, last, final-has h xs),
    )

-- `list_insert` puts a new hook at the front of the list.
pub list_insert-IsRing :
    (m : Hooks) (h e : ℕ) (xs : List ℕ)
    → IsRing m h xs
    → has e (h ∷ xs) ≡ false
    → IsRing (list_insert h e m) h (e ∷ xs) × SameOff (e ∷ h ∷ xs) m (list_insert h e m)
unfolding list_insert
list_insert-IsRing m h e [] r out =
    (record { links = ground arith; distinct = ground arith }, λ a off. ground arith)
list_insert-IsRing m h e (x ∷ xs) r out = (
  record {
    links = (
      ground arith,
      ground arith,
      (
        ground arith,
        ground arith,
        Links-frame m (list_insert h e m) x xs h (λ a i. ground arith) (λ a i. ground arith)
            r.links.2,
      ),
    );
    distinct = ground arith;
  },
  λ a off. ground arith,
)

-- What a distinct list says of its parts.
pub IsDistinct-parts :
    (xs ys : List ℕ)
    → IsDistinct (xs ++ ys)
    → IsDistinct xs × IsDistinct ys × ((a : ℕ) → has a xs ≡ true → has a ys ≡ false)
IsDistinct-parts [] ys d = (tt, d, λ a i. absurd (ground arith))
IsDistinct-parts (x ∷ xs) ys d =
    let (front, back, apart) = IsDistinct-parts xs ys d.1 in
    let split = has-append x xs ys in (ground arith, back, λ a i. ground (arith, apart a))

pub IsDistinct-delete :
    (xs : List ℕ) (e : ℕ) (ys : List ℕ) → IsDistinct (xs ++ e ∷ ys) → IsDistinct (xs ++ ys)
IsDistinct-delete [] e ys d = d.1
IsDistinct-delete (x ∷ xs) e ys d =
    (ground (arith, has-append x xs ys, has-append x xs (e ∷ ys)), IsDistinct-delete xs e ys d.1)

remove-Links :
    (m : Hooks) (h e : ℕ) (xs ys : List ℕ)
    → IsRing m h (xs ++ e ∷ ys)
    → Links (list_remove e m) h (xs ++ ys) h
unfolding list_remove
remove-Links m h e xs [] r =
    let (front, back) = Links-split m h xs e [] h r.links in
    let last = Links-prev m h xs e front in
    let d = r.distinct in
    let (df, db, apart) = IsDistinct-parts (h ∷ xs) (e ∷ []) d in
    rw append-nil (
      Links-retarget m (list_remove e m) h xs e h df (λ a i n. ground (arith, last, back.0))
        (λ a i. ground (arith, back.0, df.0)) (ground (arith, last, back.0))
        (ground (arith, last, back.0)) front)
remove-Links m h e xs (y ∷ zs) r =
    let (front, back) = Links-split m h xs e (y ∷ zs) h r.links in
    let last = Links-prev m h xs e front in
    let d = r.distinct in
    let (df, db, apart) = IsDistinct-parts (h ∷ xs) (e ∷ y ∷ zs) d in
    Links-join (list_remove e m) h xs y zs h
      (Links-retarget m (list_remove e m) h xs e y df (λ a i n. ground (arith, last, back.0))
        (λ a i. ground (arith, back.0, apart a)) (ground (arith, last, back.0))
        (ground (arith, last, back.0)) front)
      (Links-frame m (list_remove e m) y zs h
        (λ a i. ground (arith, last, back.0, final-has h xs, apart a))
        (λ a i. ground (arith, last, back.0, apart h, apart y, db.1.0)) back.2)

remove-frame :
    (m : Hooks) (h e : ℕ) (xs ys : List ℕ)
    → IsRing m h (xs ++ e ∷ ys)
    → SameOff (h ∷ xs ++ e ∷ ys) m (list_remove e m)
unfolding list_remove
remove-frame m h e xs [] r a off =
    let (front, back) = Links-split m h xs e [] h r.links in
    ground (arith, Links-prev m h xs e front, back.0, final-has h xs, has-append a xs (e ∷ []))
remove-frame m h e xs (y ∷ zs) r a off =
    let (front, back) = Links-split m h xs e (y ∷ zs) h r.links in
    ground (arith, Links-prev m h xs e front, back.0, final-has h xs, has-append a xs (e ∷ y ∷ zs))

-- `list_remove` takes a hook out of the list, and touches only hooks of this list.
pub list_remove-IsRing :
    (m : Hooks) (h e : ℕ) (xs ys : List ℕ)
    → IsRing m h (xs ++ e ∷ ys)
    → IsRing (list_remove e m) h (xs ++ ys) × SameOff (h ∷ xs ++ e ∷ ys) m (list_remove e m)
list_remove-IsRing m h e xs ys r = (
  record {
    links = remove-Links m h e xs ys r;
    distinct = IsDistinct-delete (h ∷ xs) e ys r.distinct;
  },
  remove-frame m h e xs ys r,
)

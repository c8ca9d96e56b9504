-- ===== src/Libfdt/Small.antt =====
-- A device tree that is a function from nodes to properties, with the root at 0, `/chosen` at 4 and
-- `/memory` at 8, the node of the
-- alias `serial0` at 12 and `/aliases` at 16: an instance of the interface of libfdt on which its laws hold.
use mathlib.Core.Path.{subst}
use sunxi_babelfish.Common.{
  ℕ, ◌≡◌, ◌≢◌, ◌⊎◌, sym, ap, inl, inr, refl, Bool, true, false, ◌&&◌, List, [], ◌∷◌, Option, some,
  none, ◌==◌, if◌then◌else◌, arith, eq_of_some, get_or, ◌∙◌,
}
use sunxi_babelfish.Common.Int.{ℤ, pos, negsuc, is_neg}
use sunxi_babelfish.Console.{codes}
use sunxi_babelfish.Libfdt.{Libfdt, c_string}
use sunxi_babelfish.Libfdt.Laws.{FdtView, IsAbsolute, HasNoSlash}

abbrev pub same_text : List ℕ → List ℕ → Bool
same_text [] [] = true
same_text [] (y ∷ ys) = false
same_text (x ∷ xs) [] = false
same_text (x ∷ xs) (y ∷ ys) = (x == y) && same_text xs ys

same_text_refl : (xs : List ℕ) → same_text xs xs ≡ true
same_text_refl [] = refl
same_text_refl (x ∷ xs) = ground (arith, same_text_refl xs)

same_text_eq : (xs ys : List ℕ) → same_text xs ys ≡ true → xs ≡ ys
same_text_eq [] [] h = refl
same_text_eq [] (y ∷ ys) h = absurd cc
same_text_eq (x ∷ xs) [] h = absurd cc
same_text_eq (x ∷ xs) (y ∷ ys) h = ground (arith, same_text_eq xs ys)

abbrev pub Props : Type 0
Props = ℕ → List ℕ → Option (List ℕ)

abbrev pub find : List ℕ → Option ℕ
find p =
    if same_text p (codes "/chosen")
    then some 4
    else if same_text p (codes "/memory")
    then some 8
    else if same_text p (codes "/serial0")
    then some 12
    else if same_text p (codes "/aliases")
    then some 16
    else if same_text p (codes "/")
    then some 0
    else none

abbrev pub offset_of : Option ℕ → ℤ
offset_of none = negsuc 0
offset_of (some n) = pos n

abbrev pub get : Props → ℤ → List ℕ → Option (List ℕ)
get f (pos n) k = f n k
get f (negsuc n) k = none

abbrev pub set_at : Props → ℕ → List ℕ → List ℕ → Props
set_at f n k v m j = if (m == n) && same_text j k then some v else f m j

abbrev pub set : Props → ℤ → List ℕ → List ℕ → ℤ × Props
set f (pos n) k v = (pos 0, set_at f n k v)
set f (negsuc n) k v = (negsuc 3, f)

-- The text of a property, without the terminator.
abbrev untermined : List ℕ → List ℕ
untermined [] = []
untermined (x ∷ []) = []
untermined (x ∷ y ∷ ys) = x ∷ untermined (y ∷ ys)

untermined-c_string : (q : List ℕ) → untermined (c_string q) ≡ q
untermined-c_string [] = refl
untermined-c_string (x ∷ []) = refl
untermined-c_string (x ∷ y ∷ ys) = ap (λ (r : List ℕ). x ∷ r) (untermined-c_string (y ∷ ys))

abbrev follow : Option (List ℕ) → ℤ
follow none = negsuc 0
follow (some v) = offset_of (find (untermined v))

-- A path that does not begin with a slash is the name of an alias.
abbrev pub path_to : Props → List ℕ → ℤ
path_to f p = if get_or p 0 0 == b'/' then offset_of (find p) else follow (f 16 p)

-- A tree with one alias.
abbrev pub fresh : Props
fresh = set_at (λ m j. none) 16 (codes "serial0") (c_string (codes "/serial0"))

pub absolute_path : (f : Props) (p : List ℕ) → IsAbsolute p → path_to f p ≡ offset_of (find p)
absolute_path f p h = ground (arith, h)

pub alias_path :
    (f : Props) (p q : List ℕ) (n : ℕ)
    → HasNoSlash p
    → f 16 p ≡ some (c_string q)
    → find q ≡ some n
    → path_to f p ≡ pos n
alias_path f [] q n h e found =
    ap follow e ∙ ap (λ x. offset_of (find x)) (untermined-c_string q) ∙ ap offset_of found
alias_path f (x ∷ xs) q n (h, _) e found =
    let other : (x == b'/') ≡ false = ground (arith, h) in
    rw other
      (ap follow e ∙ ap (λ x. offset_of (find x)) (untermined-c_string q) ∙ ap offset_of found)

abbrev pub small : Libfdt
small = record {
  Fdt = Props;
  path_offset = path_to;
  subnode_offset = λ f o n. negsuc 0;
  next_node = λ f o. negsuc 0;
  add_subnode = λ f o n. (negsuc 2, f);
  getprop = get;
  get_phandle = λ f o. 0;
  setprop = set;
  appendprop = λ f o n v. (negsuc 2, f);
  totalsize = λ b. 0;
  open_into = λ b s. (pos 0, fresh);
}

pub set_at_self : (f : Props) (n : ℕ) (k v : List ℕ) → set_at f n k v n k ≡ some v
set_at_self f n k v = ground (arith, same_text_refl k)

pub set_at_other :
    (f : Props) (n m : ℕ) (k j v : List ℕ) → (m ≢ n) ⊎ (j ≢ k) → set_at f n k v m j ≡ f m j
set_at_other f n m k j v (inl d) = ground arith
set_at_other f n m k j v (inr d) = ground (arith, same_text_eq j k)

abbrev pub view : FdtView small
view = record {
  Node = ℕ;
  node_at = λ f o. some o;
  resolve = λ f p. find p;
  prop = λ f. f;
  path_some = λ f p n a h. (n, absolute_path f p a ∙ ap offset_of h, refl);
  path_none = λ f p a h. ap is_neg (absolute_path f p a) ∙ ap (λ r. is_neg (offset_of r)) h;
  path_alias = λ f p q a n bare here e absolute h.
      (n, alias_path f p q n bare (ap (λ x. f x p) (eq_of_some here) ∙ e) h, refl);
  getprop_at = λ f o n k h. ap (λ x. f x k) (eq_of_some h);
  setprop_self = λ f o n k v h good.
      subst (λ x. set_at f o k v x k ≡ some v) (eq_of_some h) (set_at_self f o k v);
  setprop_other = λ f o n m k j v h good d.
      set_at_other f o m k j v (subst (λ x. (m ≢ x) ⊎ (j ≢ k)) (sym (eq_of_some h)) d);
  setprop_stays = λ f o n k v h good. h;
  setprop_resolve = λ f o n k v p a h good. refl;
}

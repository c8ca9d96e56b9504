-- ===== src/FdtTools/Pins/Frame.antt =====
-- `fdt_add_pinctrl_group` of src/fdt_tools.c ends, and leaves alone the properties that are not its
-- own.
use sunxi_babelfish.Common.{
  Bool, true, false, ◌==◌, if◌then◌else◌, ℕ, ◌≡◌, ◌≢◌, ◌∙◌, inl, inr, refl, ap, List, [], ◌∷◌,
  Option, some, arith, Bool-cases, get_or,
}
use sunxi_babelfish.Common.Int.{ℤ, is_neg}
use sunxi_babelfish.Console.{codes}
use sunxi_babelfish.Libfdt.{Libfdt, cell, setprop_u32}
use sunxi_babelfish.Libfdt.Laws.{FdtView, IsAbsolute}
use sunxi_babelfish.FdtTools.{fdt_set_phandle}
use sunxi_babelfish.FdtTools.Pins.{add_char}

-- A name without a unit address, which a component of a path is not short for.
abbrev pub no_unit : List ℕ → Bool
no_unit [] = true
no_unit (x ∷ xs) = let rest = no_unit xs in if x == b'@' then false else rest

abbrev pub HasNoUnit : List ℕ → Type 0
HasNoUnit name = no_unit name ≡ true

-- What a call of libfdt leaves, whatever its result: a property with another name is as it was, and
-- an absolute path that led to a node leads to it still. A new node with no unit address in its name
-- takes no path from another: a component leads to it only when it is its whole name, and libfdt
-- makes no node with a name that the parent has a child for. The root is at offset 0.
pub record FdtFrame (l : Libfdt) (w : FdtView l) : Type 0 where
  pub setprop_others :
      (f : l.Fdt) (o : ℤ) (k v : List ℕ) (m : w.Node) (j : List ℕ)
      → j ≢ k
      → w.prop (l.setprop f o k v).1 m j ≡ w.prop f m j
  pub setprop_paths :
      (f : l.Fdt) (o : ℤ) (k v p : List ℕ) (n : w.Node)
      → IsAbsolute p
      → w.resolve f p ≡ some n
      → w.resolve (l.setprop f o k v).1 p ≡ some n
  pub appendprop_others :
      (f : l.Fdt) (o : ℤ) (k v : List ℕ) (m : w.Node) (j : List ℕ)
      → j ≢ k
      → w.prop (l.appendprop f o k v).1 m j ≡ w.prop f m j
  pub appendprop_paths :
      (f : l.Fdt) (o : ℤ) (k v p : List ℕ) (n : w.Node)
      → IsAbsolute p
      → w.resolve f p ≡ some n
      → w.resolve (l.appendprop f o k v).1 p ≡ some n
  pub add_subnode_others :
      (f : l.Fdt) (o : ℤ) (name : List ℕ) (m : w.Node) (j v : List ℕ)
      → w.prop f m j ≡ some v
      → w.prop (l.add_subnode f o name).1 m j ≡ some v
  pub add_subnode_paths :
      (f : l.Fdt) (o : ℤ) (name p : List ℕ) (n : w.Node)
      → HasNoUnit name
      → IsAbsolute p
      → w.resolve f p ≡ some n
      → w.resolve (l.add_subnode f o name).1 p ≡ some n
  pub root_path :
      (f : l.Fdt) (n : w.Node) → w.resolve f (codes "/") ≡ some n → w.node_at f 0 ≡ some n

-- A property whose name begins with none of the letters of the names that are set here.
abbrev pub IsForeign : List ℕ → Type 0
IsForeign j = (get_or j 0 0 ≢ b'a') × (get_or j 0 0 ≢ b'l') × (get_or j 0 0 ≢ b'p')

-- A name that begins with one of these letters.
abbrev pub IsOwn : List ℕ → Type 0
IsOwn k = (j : List ℕ) → IsForeign j → j ≢ k

pub allwinner-IsOwn : (k : List ℕ) → get_or k 0 0 ≡ b'a' → IsOwn k
allwinner-IsOwn k e j (a, l, p) q = a (ap (λ x. get_or x 0 0) q ∙ e)

pub linux-IsOwn : (k : List ℕ) → get_or k 0 0 ≡ b'l' → IsOwn k
linux-IsOwn k e j (a, l, p) q = l (ap (λ x. get_or x 0 0) q ∙ e)

pub pins-IsOwn : (k : List ℕ) → get_or k 0 0 ≡ b'p' → IsOwn k
pins-IsOwn k e j (a, l, p) q = p (ap (λ x. get_or x 0 0) q ∙ e)

pub add_char-first : (x : ℕ) (s : List ℕ) (c : ℕ) → get_or (add_char (x ∷ s) c) 0 0 ≡ x
add_char-first x s c = ground arith

module _ (l : Libfdt) (w : FdtView l) (frame : FdtFrame l w) where
  open w use {Node, resolve, prop}

  pub record Keeps (f f' : l.Fdt) : Type 0 where
    pub props : (m : Node) (j v : List ℕ) → IsForeign j → prop f m j ≡ some v → prop f' m j ≡ some v
    pub paths :
        (p : List ℕ) (n : Node) → IsAbsolute p → resolve f p ≡ some n → resolve f' p ≡ some n

  pub Keeps-refl : (f : l.Fdt) → Keeps f f
  Keeps-refl f = record { props = λ m j v o h. h; paths = λ p n ab h. h }

  pub Keeps-trans : {f g h : l.Fdt} → Keeps f g → Keeps g h → Keeps f h
  Keeps-trans a b = record {
    props = λ m j v o e. b.props m j v o (a.props m j v o e);
    paths = λ p n ab e. b.paths p n ab (a.paths p n ab e);
  }

  pub setprop-Keeps : (f : l.Fdt) (o : ℤ) (k v : List ℕ) → IsOwn k → Keeps f (l.setprop f o k v).1
  setprop-Keeps f o k v own = record {
    props = λ m j u foreign h. frame.setprop_others f o k v m j (own j foreign) ∙ h;
    paths = λ p n ab h. frame.setprop_paths f o k v p n ab h;
  }

  pub appendprop-Keeps :
      (f : l.Fdt) (o : ℤ) (k v : List ℕ) → IsOwn k → Keeps f (l.appendprop f o k v).1
  appendprop-Keeps f o k v own = record {
    props = λ m j u foreign h. frame.appendprop_others f o k v m j (own j foreign) ∙ h;
    paths = λ p n ab h. frame.appendprop_paths f o k v p n ab h;
  }

  pub add_subnode-Keeps :
      (f : l.Fdt) (o : ℤ) (name : List ℕ) → HasNoUnit name → Keeps f (l.add_subnode f o name).1
  add_subnode-Keeps f o name bare = record {
    props = λ m j v foreign h. frame.add_subnode_others f o name m j v h;
    paths = λ p n ab h. frame.add_subnode_paths f o name p n bare ab h;
  }

  pub set_phandle-Keeps : (f : l.Fdt) (o : ℤ) (p : ℕ) → Keeps f (fdt_set_phandle l f o p).1
  unfolding fdt_set_phandle setprop_u32
  set_phandle-Keeps f o p =
      let v = cell p in
      let first = setprop-Keeps f o (codes "phandle") v (pins-IsOwn (codes "phandle") refl) in
      let r = l.setprop f o (codes "phandle") v in
      elim (Bool-cases (is_neg r.0)) [
        | inl e ↦ rw e first
        | inr e ↦ rw e (
            Keeps-trans first (
              setprop-Keeps r.1 o (codes "linux,phandle") v
                (linux-IsOwn (codes "linux,phandle") refl)))
      ]

  -- A call has ended, and kept what is not its own.
  pub record Ended {A : Type 0} (f : l.Fdt) (r : Option (A × l.Fdt)) : Type 0 where
    pub val : A
    pub f' : l.Fdt
    pub run : r ≡ some (val, f')
    pub kept : Keeps f f'

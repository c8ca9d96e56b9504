-- ===== src/Libfdt/Laws.antt =====
-- What the program relies on of libfdt: what lib/libfdt/libfdt.h documents, and that
-- `fdt_path_offset` follows aliases, for which the program calls it. Nodes have an identity that
-- survives changes of the blob, while their offsets may move.
use sunxi_babelfish.Common.{refl, ℕ, ◌≡◌, ◌≢◌, ◌⊎◌, true, List, [], ◌∷◌, Option, some, none, get_or}
use sunxi_babelfish.Common.Int.{pos, is_neg}
use sunxi_babelfish.Console.{codes}
use sunxi_babelfish.Libfdt.{Libfdt, c_string}

abbrev pub IsAbsolute : List ℕ → Type 0
IsAbsolute p = get_or p 0 0 ≡ b'/'

abbrev pub HasNoSlash : List ℕ → Type 0
HasNoSlash [] = Unit {0}
HasNoSlash (x ∷ xs) = (x ≢ b'/') × HasNoSlash xs

pub record FdtView (l : Libfdt) : Type 1 where
  pub Node : Type 0
  pub node_at : l.Fdt → ℕ → Option Node
  -- The node that an absolute path leads to.
  pub resolve : l.Fdt → List ℕ → Option Node
  pub prop : l.Fdt → Node → List ℕ → Option (List ℕ)
  -- `fdt_path_offset` gives the offset of the path's node, or an error.
  pub path_some :
      (f : l.Fdt) (p : List ℕ) (n : Node)
      → IsAbsolute p
      → resolve f p ≡ some n
      → (o : ℕ) × (l.path_offset f p ≡ pos o) × (node_at f o ≡ some n)
  pub path_none :
      (f : l.Fdt) (p : List ℕ)
      → IsAbsolute p
      → resolve f p ≡ none
      → is_neg (l.path_offset f p) ≡ true
  -- A path that is the name of an alias stands for the path that this property of /aliases holds.
  pub path_alias :
      (f : l.Fdt) (p q : List ℕ) (a n : Node)
      → HasNoSlash p
      → resolve f (codes "/aliases") ≡ some a
      → prop f a p ≡ some (c_string q)
      → IsAbsolute q
      → resolve f q ≡ some n
      → (o : ℕ) × (l.path_offset f p ≡ pos o) × (node_at f o ≡ some n)
  -- `fdt_getprop` reads the property of the node at the offset.
  pub getprop_at :
      (f : l.Fdt) (o : ℕ) (n : Node) (k : List ℕ)
      → node_at f o ≡ some n
      → l.getprop f (pos o) k ≡ prop f n k
  -- A successful `fdt_setprop` sets that property of that node, and no other; no absolute
  -- path changes.
  pub setprop_self :
      (f : l.Fdt) (o : ℕ) (n : Node) (k v : List ℕ)
      → node_at f o ≡ some n
      → (l.setprop f (pos o) k v).0 ≡ pos 0
      → prop (l.setprop f (pos o) k v).1 n k ≡ some v
  pub setprop_other :
      (f : l.Fdt) (o : ℕ) (n m : Node) (k j v : List ℕ)
      → node_at f o ≡ some n
      → (l.setprop f (pos o) k v).0 ≡ pos 0
      → (m ≢ n) ⊎ (j ≢ k)
      → prop (l.setprop f (pos o) k v).1 m j ≡ prop f m j
  -- The node that is changed stays at its offset.
  pub setprop_stays :
      (f : l.Fdt) (o : ℕ) (n : Node) (k v : List ℕ)
      → node_at f o ≡ some n
      → (l.setprop f (pos o) k v).0 ≡ pos 0
      → node_at (l.setprop f (pos o) k v).1 o ≡ some n
  pub setprop_resolve :
      (f : l.Fdt) (o : ℕ) (n : Node) (k v p : List ℕ)
      → IsAbsolute p
      → node_at f o ≡ some n
      → (l.setprop f (pos o) k v).0 ≡ pos 0
      → resolve (l.setprop f (pos o) k v).1 p ≡ resolve f p

-- An alias of the tree: a property of /aliases whose value is the absolute path of the node.
pub record AliasAt (l : Libfdt) (w : FdtView l) (f : l.Fdt) (name : List ℕ) (n : w.Node)
    : Type 0 where
  pub holder : w.Node
  pub path : List ℕ
  pub aliases : w.resolve f (codes "/aliases") ≡ some holder
  pub value : w.prop f holder name ≡ some (c_string path)
  pub absolute : IsAbsolute path
  pub node : w.resolve f path ≡ some n

-- It is there still when its property and the absolute paths are.
pub AliasAt-kept :
    (l : Libfdt) (w : FdtView l) {f f' : l.Fdt} {name : List ℕ} {n : w.Node}
    → ((m : w.Node) (v : List ℕ) → w.prop f m name ≡ some v → w.prop f' m name ≡ some v)
    → ((p : List ℕ) (m : w.Node) → IsAbsolute p → w.resolve f p ≡ some m → w.resolve f' p ≡ some m)
    → AliasAt l w f name n
    → AliasAt l w f' name n
AliasAt-kept l w props paths a = record {
  holder = a.holder;
  path = a.path;
  aliases = paths (codes "/aliases") a.holder refl a.aliases;
  value = props a.holder (c_string a.path) a.value;
  absolute = a.absolute;
  node = paths a.path _ a.absolute a.node;
}

-- ===== src/ScriptBin/Reading.antt =====
-- What an image says under a name, and that the tree made of it says the same.
use sunxi_babelfish.Common.{
  ℕ, ◌<◌, ◌≡◌, ◌≢◌, refl, ap, Bool, true, false, List, [], ◌∷◌, Option, some, none, if◌then◌else◌,
  length, eq_of_some, Bool-cases, inl, inr, arith,
}
use mathlib.Core.Path.{subst}
use sunxi_babelfish.Common.Int.{is_zero, pos}
use sunxi_babelfish.Cstring.Compare.{compare_texts, compare_texts-zero_iff}
use sunxi_babelfish.Script.Store.{Payload}
use sunxi_babelfish.Script.Tree.{Tree, Section, Entry, IsShort}
use sunxi_babelfish.Script.Tree.Lookup.{zero_of}
use sunxi_babelfish.Script.Tree.Reading.{SectionIn, EntryIn}
use sunxi_babelfish.ScriptBin.Parse.{Item, Group, items_of, groups_of}

abbrev same_name : List ℕ → List ℕ → Bool
same_name a b = is_zero (compare_texts a b)

same_name-true : (a b : List ℕ) → same_name a b ≡ true → a ≡ b
same_name-true a b h = (compare_texts-zero_iff a b).0 (zero_of (compare_texts a b) h)

same_name-false : (a b : List ℕ) → same_name a b ≡ false → a ≢ b
same_name-false a b h e =
    let z : compare_texts a b ≡ pos 0 = (compare_texts-zero_iff a b).1 e in
    absurd (ground (arith, z, h))

-- The first section with the name, and the first value with it.
unfoldable pub group_named : List ℕ → List Group → Option (List Item)
group_named name [] = none
group_named name ((n, items) ∷ gs) =
    let rest = group_named name gs in if same_name n name then some items else rest

unfoldable pub value_named : List ℕ → List Item → Option Payload
value_named name [] = none
value_named name ((n, v) ∷ items) =
    let rest = value_named name items in if same_name n name then some v else rest

-- A section of the tree with the name and these items.
pub record Located (ss : Tree) (name : List ℕ) (items : List Item) : Type 0 where
  pub section : Section
  pub here : SectionIn ss name section
  pub items_eq : items_of section.entries ≡ items

further-Located :
    (s : Section) (ss : Tree) (name : List ℕ) (items : List Item)
    → s.name ≢ name
    → Located ss name items
    → Located (s ∷ ss) name items
further-Located s ss name items d r = record {
  section = r.section;
  here = record {
    before = s ∷ r.here.before;
    after = r.here.after;
    here = ap (λ (t : Tree). s ∷ t) r.here.here;
    first = (d, r.here.first);
    named = r.here.named;
  };
  items_eq = r.items_eq;
}

pub group_named-Located :
    (ss : Tree) (name : List ℕ) (items : List Item)
    → group_named name (groups_of ss) ≡ some items
    → Located ss name items
unfolding group_named
group_named-Located [] name items h = absurd cc
group_named-Located (s ∷ ss) name items h = elim (Bool-cases (same_name s.name name)) [
  | inl e ↦ record {
    section = s;
    here = record {
      before = [];
      after = ss;
      here = refl;
      first = tt;
      named = same_name-true s.name name e;
    };
    items_eq = eq_of_some (
        subst
          (λ (b : Bool).
            (if b then some (items_of s.entries) else group_named name (groups_of ss)) ≡ some items)
          e h);
  }
  | inr e ↦ further-Located s ss name items (same_name-false s.name name e) (
      group_named-Located ss name items (
        subst
          (λ (b : Bool).
            (if b then some (items_of s.entries) else group_named name (groups_of ss)) ≡ some items)
          e h))
]

abbrev with_entries : Section → List Entry → Section
with_entries s es = record s { entries = es }

further-EntryIn :
    (s : Section) (e : Entry) (es : List Entry) (name : List ℕ) (v : Payload)
    → e.name ≢ name
    → EntryIn (with_entries s es) name v
    → EntryIn (with_entries s (e ∷ es)) name v
further-EntryIn s e es name v d r = record {
  before = e ∷ r.before;
  entry = r.entry;
  after = r.after;
  here = ap (λ (l : List Entry). e ∷ l) r.here;
  first = (d, r.first);
  named = r.named;
  holds = r.holds;
}

entries-EntryIn :
    (s : Section) (es : List Entry) (name : List ℕ) (v : Payload)
    → value_named name (items_of es) ≡ some v
    → EntryIn (with_entries s es) name v
unfolding value_named
entries-EntryIn s [] name v h = absurd cc
entries-EntryIn s (e ∷ es) name v h =
    let pick : Bool → Option Payload =
      λ b. if b then some e.payload else value_named name (items_of es) in
    elim (Bool-cases (same_name e.name name)) [
      | inl hit ↦ record {
        before = [];
        entry = e;
        after = es;
        here = refl;
        first = tt;
        named = same_name-true e.name name hit;
        holds = eq_of_some (subst (λ (b : Bool). pick b ≡ some v) hit h);
      }
      | inr miss ↦
          further-EntryIn s e es name v (same_name-false e.name name miss)
            (entries-EntryIn s es name v (subst (λ (b : Bool). pick b ≡ some v) miss h))
    ]

pub value_named-EntryIn :
    (s : Section) (name : List ℕ) (v : Payload)
    → value_named name (items_of s.entries) ≡ some v
    → EntryIn s name v
value_named-EntryIn s name v h = entries-EntryIn s s.entries name v h

-- There are fewer than `fuel` items in each group.
abbrev pub AreShort : ℕ → List Group → Type 0
AreShort fuel [] = Unit {0}
AreShort fuel ((n, items) ∷ gs) = (length items < fuel) × AreShort fuel gs

length-items_of : (es : List Entry) → length (items_of es) ≡ length es
length-items_of [] = refl
length-items_of (e ∷ es) = ground (arith, length-items_of es)

pub length-groups_of : (ss : Tree) → length (groups_of ss) ≡ length ss
length-groups_of [] = refl
length-groups_of (s ∷ ss) = ground (arith, length-groups_of ss)

pub groups_of-IsShort : (fuel : ℕ) (ss : Tree) → AreShort fuel (groups_of ss) → IsShort fuel ss
groups_of-IsShort fuel [] h = tt
groups_of-IsShort fuel (s ∷ ss) h =
    (ground (arith, length-items_of s.entries, h.0), groups_of-IsShort fuel ss h.1)

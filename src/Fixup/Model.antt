-- ===== src/Fixup/Model.antt =====
-- `fdt_fixup_machine` of src/fixup.c, on a FEX file that names the machine.
pub mod Sample
mod Tests
use sunxi_babelfish.Common.{
  ℕ, ◌<◌, ◌≡◌, ◌≢◌, ◌⊎◌, ◌∙◌, inl, inr, refl, ap, false, List, [], ◌∷◌, ◌++◌, Option, some, length,
  if◌then◌else◌, arith,
}
use mathlib.Core.Path.{subst}
use sunxi_babelfish.Common.Int.{ℤ, pos, is_neg, is_zero}
use sunxi_babelfish.Console.{codes}
use sunxi_babelfish.Libfdt.{Libfdt, c_string, setprop_string}
use sunxi_babelfish.Libfdt.Laws.{FdtView, IsAbsolute}
use sunxi_babelfish.Libfdt.Errors.{FdtError, failure}
use sunxi_babelfish.Script.Store.{Store, string}
use sunxi_babelfish.Script.Find.{script_find_section, script_find_entry}
use sunxi_babelfish.Script.Tree.{Tree, Section, Entry, IsTree, EntriesHold}
use sunxi_babelfish.Script.Tree.Append.{SectionsHold-split}
use sunxi_babelfish.Script.Tree.Reading.{EntriesHold-payload}
use sunxi_babelfish.Script.Tree.Lookup.{
  NoSection, NoEntry, script_find_section_lem, script_find_entry_lem,
}
use sunxi_babelfish.Fixup.Machine.{
  Machine, Step, pure, change, bind_run, on_store_run, read_entry_run, ◌>>=◌, find_section,
  find_entry, read_entry, string_of, c_text,
}
use sunxi_babelfish.Fixup.Fits.{MachineFits, after_machine}
use sunxi_babelfish.Fixup.Effect.{differ, setprop-Sets}
use sunxi_babelfish.Fixup.Fex.{fdt_fixup_machine, fdt_fixup_uarts, fdt_fixup_from_fex}

-- The first section named "product" of the tree at `script` has a first entry named "machine", which
-- is a string; the fuel covers both lists.
pub record Names (fuel script : ℕ) (st : Store) (model : List ℕ) : Type 0 where
  pub before : Tree
  pub product : Section
  pub after : Tree
  pub tree : IsTree st script (before ++ product ∷ after)
  pub first_section : NoSection (codes "product") before
  pub section_named : product.name ≡ codes "product"
  pub sections_short : length (before ++ product ∷ after) < fuel
  pub entries_before : List Entry
  pub machine : Entry
  pub entries_after : List Entry
  pub entries : product.entries ≡ entries_before ++ machine ∷ entries_after
  pub first_entry : NoEntry (codes "machine") entries_before
  pub entry_named : machine.name ≡ codes "machine"
  pub entries_short : length product.entries < fuel
  pub size : ℕ
  pub text : List ℕ
  pub is_string : machine.payload ≡ string size text
  pub reads : c_text text ≡ model

module _ {fuel script : ℕ} {st : Store} {model : List ℕ} (n : Names fuel script st model) where
  pub section_found :
      script_find_section fuel script (codes "product") st ≡ some (n.product.addr, st)
  section_found =
      (script_find_section_lem fuel st script (codes "product") (n.before ++ n.product ∷ n.after)
          n.tree n.sections_short).0
        n.before n.product n.after refl n.first_section n.section_named

  pub entry_found :
      script_find_entry fuel n.product.addr (codes "machine") st ≡ some (n.machine.addr, st)
  entry_found =
      (script_find_entry_lem fuel st script (codes "machine") n.before n.product n.after n.tree
          n.entries_short).0
        n.entries_before n.machine n.entries_after n.entries n.first_entry n.entry_named

  pub payload_found : st.payload n.machine.addr ≡ string n.size n.text
  payload_found =
      let here = (SectionsHold-split st n.before (n.product ∷ n.after) n.tree.sections).1.0 in
      EntriesHold-payload st n.entries_before n.machine n.entries_after
        (subst (λ (es : List Entry). EntriesHold st es) n.entries here.entries)
      ∙ n.is_string

module _ (l : Libfdt) (fuel : ℕ) (compatible : List ℕ) (script : ℕ) (model : List ℕ) where
  -- The two changes, with their results.
  abbrev pub first_change : Machine l → ℤ × l.Fdt
  first_change s = l.setprop s.fdt (pos 0) (codes "compatible") (c_string compatible)

  abbrev pub second_change : Machine l → ℤ × l.Fdt
  second_change s = l.setprop (first_change s).1 (pos 0) (codes "model") (c_string model)

  pub machine-runs :
      (s : Machine l)
      → Names fuel script s.store model
      → is_neg (first_change s).0 ≡ false
      → fdt_fixup_machine l fuel compatible script s
        ≡ some (
          (if is_neg (second_change s).0 then (second_change s).0 else pos 0),
          record s { fdt = (second_change s).1 },
        )
  unfolding fdt_fixup_machine setprop_string
  machine-runs s n good =
      let s1 : Machine l = record s { fdt = (first_change s).1 } in
      let section = n.product.addr in
      let entry = n.machine.addr in
      let set : List ℕ → Step l ℤ = λ text. (do
        ret ← change (λ f. setprop_string l f (pos 0) (codes "model") text)
        pure (if is_neg ret then ret else pos 0)) in
      let read : ℕ → Step l ℤ = λ e. read_entry string_of e >>= set in
      let look : ℕ → Step l ℤ = λ a. find_entry fuel a (codes "machine") >>= read in
      rw good (
        bind_run (find_section fuel script (codes "product")) look {s = s1}
          (on_store_run (script_find_section fuel script (codes "product")) s1 (section_found n))
        ∙ bind_run (find_entry fuel section (codes "machine")) read {s = s1}
            (on_store_run (script_find_entry fuel section (codes "machine")) s1 (entry_found n))
        ∙ bind_run (read_entry string_of entry) set {s = s1}
            (read_entry_run string_of entry s1 (payload_found n) (ap some n.reads)))

  -- The call of libfdt that fails with `e`: the first one, or the second after a first that is good.
  pub data Fault (e : FdtError) (s : Machine l) : Type 0 where
    at_compatible : (first_change s).0 ≡ failure e → Fault e s
    at_model :
        Names fuel script s.store model
        → is_neg (first_change s).0 ≡ false
        → (second_change s).0 ≡ failure e
        → Fault e s

  -- The step has returned the error, and changed the blob at most.
  pub record Failed (e : FdtError) (s : Machine l) (r : Option (ℤ × Machine l)) : Type 0 where
    pub fdt : l.Fdt
    pub run : r ≡ some (failure e, record s { fdt = fdt })

  machine-Failed :
      (e : FdtError) (s : Machine l)
      → Fault e s
      → Failed e s (fdt_fixup_machine l fuel compatible script s)
  unfolding fdt_fixup_machine setprop_string
  machine-Failed e s (at_compatible h) = record { fdt = (first_change s).1; run = rw h refl }
  machine-Failed e s (at_model n good h) = record {
    fdt = (second_change s).1;
    run = machine-runs s n good ∙ rw h refl;
  }

  pub from_fex-Failed :
      (e : FdtError) (s : Machine l)
      → Fault e s
      → Failed e s (fdt_fixup_from_fex l fuel compatible script s)
  unfolding fdt_fixup_from_fex
  from_fex-Failed e s h =
      let a = machine-Failed e s h in
      record {
        fdt = a.fdt;
        run =
            bind_run (fdt_fixup_machine l fuel compatible script)
              (λ ret. if is_zero ret then fdt_fixup_uarts l fuel script else pure ret) {s = s}
              a.run;
      }

module _ (l : Libfdt) (w : FdtView l) (root : w.Node) where
  open w use {Node, node_at, prop}

  -- The root has the two properties, and nothing else has changed.
  pub record Named (compatible model : List ℕ) (s : Machine l) (r : Option (ℤ × Machine l))
      : Type 0 where
    pub s' : Machine l
    pub run : r ≡ some (pos 0, s')
    pub compatible_set : prop s'.fdt root (codes "compatible") ≡ some (c_string compatible)
    pub model_set : prop s'.fdt root (codes "model") ≡ some (c_string model)
    pub others :
        (m : Node) (j : List ℕ)
        → (m ≢ root) ⊎ ((j ≢ codes "compatible") × (j ≢ codes "model"))
        → prop s'.fdt m j ≡ prop s.fdt m j
    pub store : s'.store ≡ s.store
    pub paths : (q : List ℕ) → IsAbsolute q → w.resolve s'.fdt q ≡ w.resolve s.fdt q
    pub blob : s'.fdt ≡ after_machine l s.fdt compatible model

  -- On a FEX file whose tree names the machine, with fuel for its lists, and on a device tree with
  -- the root at offset 0, when the two calls of `fdt_setprop`, one after the other, have space:
  -- `fdt_fixup_machine` returns 0, the root's `compatible` is the SoC's and its `model` is the
  -- machine's name, and no other property, no absolute path to a node and nothing of the FEX file's
  -- tree has changed.
  pub fdt_fixup_machine-Named :
      (fuel : ℕ) (compatible : List ℕ) (script : ℕ) (model : List ℕ) (s : Machine l)
      → Names fuel script s.store model
      → node_at s.fdt 0 ≡ some root
      → MachineFits l s.fdt compatible model
      → Named compatible model s (fdt_fixup_machine l fuel compatible script s)
  fdt_fixup_machine-Named fuel compatible script model s n here (good, good2) =
      let a = setprop-Sets l w s.fdt 0 root (codes "compatible") (c_string compatible) here good in
      let f1 = (l.setprop s.fdt (pos 0) (codes "compatible") (c_string compatible)).1 in
      let b = setprop-Sets l w f1 0 root (codes "model") (c_string model) a.stays good2 in
      record {
        s' = record s { fdt = (l.setprop f1 (pos 0) (codes "model") (c_string model)).1 };
        run = machine-runs l fuel compatible script model s n (ap is_neg good) ∙ rw good2 refl;
        compatible_set = b.others root (codes "compatible") (inr (differ 0 (omega arith))) ∙ a.self;
        model_set = b.self;
        others = λ m j d. elim d [
          | inl other ↦ b.others m j (inl other) ∙ a.others m j (inl other)
          | inr (p, q) ↦ b.others m j (inr q) ∙ a.others m j (inr p)
        ];
        store = refl;
        paths = λ q ab. b.paths q ab ∙ a.paths q ab;
        blob = refl;
      }

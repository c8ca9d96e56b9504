-- ===== src/Boot/Start.antt =====
-- The whole of `main` of src/main.c: what it takes for the kernel to be started, and that it is.
use sunxi_babelfish.Common.{
  ℕ, ◌+◌, ◌*◌, ◌%◌, ◌^◌, ◌≡◌, ◌≢◌, ◌<◌, ◌∙◌, ap, sym, refl, Bool, true, false, List, [], ◌∷◌,
  Option, some, none, ◌⊎◌, if◌then◌else◌, bind_some, eq_of_some, length,
}
use sunxi_babelfish.Common.Int.{ℤ, pos, is_zero}
use sunxi_babelfish.Memory.{Memory}
use sunxi_babelfish.Bus.{Device, Trace}
use sunxi_babelfish.Console.{str, text}
use sunxi_babelfish.Script.Store.{Store}
use sunxi_babelfish.Soc.{Soc, match_soc}
use sunxi_babelfish.Soc.Laws.{
  Chip, Identifies, id_of, sid_field, after_id, compatible_of, blob_of, match_soc_found,
}
use sunxi_babelfish.Libfdt.{Libfdt}
use sunxi_babelfish.Libfdt.Laws.{FdtView}
use sunxi_babelfish.Fixup.Machine.{Machine}
use sunxi_babelfish.Fixup.Atags.{Tag, fdt_fixup_from_atags}
use sunxi_babelfish.Fixup.Fits.{TagsFit}
use sunxi_babelfish.Fixup.Effect.{tags_effect}
use sunxi_babelfish.Fixup.Tags.{boot_of, HasNodes, TagList, fdt_fixup_from_atags_lem}
use mathlib.Core.Path.{}
use sunxi_babelfish.Boot.Quirks.{IsQuirked, quirks_applied}
use sunxi_babelfish.Boot.{
  Config, End, stopped, jumped, Jump, abs_addr, cpuid, fdt_base_address, start_kernel, jump,
  greeting, say, boot_from_fex, boot_with_tree, open_tree, boot_soc, main,
}
use sunxi_babelfish.Boot.Laws.{zero_eq, Prepared, jumped-Prepared}

module _ (l : Libfdt) (rounds fuel : ℕ) (c : Config) (m : Memory) where
  abbrev Result : Type 0
  Result = End × Option l.Fdt × Store

  -- The blob at its address, opened into the buffer.
  abbrev pub opened : (blob : ℕ) → ℤ × l.Fdt
  opened blob = let a = abs_addr c blob in l.open_into a (2 * l.totalsize a % 2 ^ 32)

  abbrev pub detected : List ℕ → Store → Store
  detected compatible st = say (str "Detected SoC: " ∷ text compatible ∷ str "\n" ∷ []) st

  -- All that has succeeded before the kernel is started.
  pub record Booted (dev : Device) (tags : ℕ) (t : Trace) (st : Store) (j : Jump) (f : Option l.Fdt)
      : Type 0 where
    pub compatible : List ℕ
    pub blob : ℕ
    pub s' : Machine l
    pub found :
        (match_soc dev c.blobs t (say (greeting l rounds fuel c m) st)).0
        ≡ some (record { compatible = some compatible; fdt = some blob })
    pub open_good : (opened blob).0 ≡ pos 0
    pub prepared :
        Prepared l rounds fuel c m compatible tags
          (record {
            fdt = (opened blob).1;
            store =
                detected compatible
                  (match_soc dev c.blobs t (say (greeting l rounds fuel c m) st)).2;
          })
          j
          s'
    pub tree : f ≡ some s'.fdt
    pub entry : j.entry ≡ (c.zimage_start + c.exec_base) % 2 ^ 32
    pub arguments : (j.dummy ≡ 0) × (j.machid ≡ 0xffffffff) × (j.dtb ≡ fdt_base_address)
    pub quirks :
        ((cpuid c ≡ 0xc07) × IsQuirked c.cp15 j.cp15) ⊎ ((cpuid c ≢ 0xc07) × (j.cp15 ≡ c.cp15))

  found_some :
      (o : Option Soc) (k : Soc → Option Result) (z : Store) {j : Jump} {f : Option l.Fdt}
      {st : Store}
      → ◌≡◌ {A = Option Result}
          (elim o [ none ↦ some (stopped, none, z) | some soc ↦ k soc ])
          (some (jumped j, f, st))
      → (soc : Soc) × (o ≡ some soc) × (k soc ≡ some (jumped j, f, st))
  found_some none k z h = absurd cc
  found_some (some soc) k z h = (soc, refl, h)

  opened_well :
      (b : Bool) (x : Option Result) (z : Store) {j : Jump} {f : Option l.Fdt} {st : Store}
      → ◌≡◌ {A = Option Result} (if b then x else some (stopped, none, z)) (some (jumped j, f, st))
      → (b ≡ true) × (x ≡ some (jumped j, f, st))
  opened_well true x z h = (refl, h)
  opened_well false x z h = absurd cc

  open_tree-jumped :
      (compatible : List ℕ) (blob tags : ℕ) (st : Store) (j : Jump) (f : Option l.Fdt) (st' : Store)
      → open_tree l rounds fuel c m compatible blob tags st ≡ some (jumped j, f, st')
      → (s' : Machine l) × ((opened blob).0 ≡ pos 0)
        × Prepared l rounds fuel c m compatible tags
            (record { fdt = (opened blob).1; store = st })
            j
            s'
        × (f ≡ some s'.fdt)
  unfolding open_tree
  open_tree-jumped compatible blob tags st j f st' h =
      let (good, e) = opened_well (is_zero (opened blob).0) _ _ h in
      let s : Machine l = record { fdt = (opened blob).1; store = st } in
      let (r, run, e1) = bind_some (boot_with_tree l rounds fuel c m compatible tags s) _ e in
      let same = eq_of_some e1 in
      (
        r.1,
        zero_eq l rounds fuel c m (opened blob).0 good,
        jumped-Prepared l rounds fuel c m compatible tags s j r.1
            (run ∙ ap (λ (x : Result). some (x.0, r.1)) same),
        ap (λ (x : Result). x.1) (sym same),
      )

  -- When `main` starts the kernel, the SoC was found with a name and a blob, the blob was opened, and
  -- the fixups from the tags and, without a custom tree, from the FEX file have succeeded, in this
  -- order. The tree is the one that they made, and the kernel is entered at the address of the image
  -- from where the program runs, with 0, 0xffffffff and the address of the tree. On a Cortex-A7, SMP mode is
  -- on then, with every other bit of that register as it was, and the arch timers have their frequency;
  -- on another core the registers are untouched.
  pub main-Booted :
      (dev : Device) (tags : ℕ) (t : Trace) (st : Store) (j : Jump) (f : Option l.Fdt) (st' : Store)
      → main l rounds fuel c m dev tags t st ≡ some (jumped j, f, st')
      → Booted dev tags t st j f
  unfolding main boot_soc start_kernel
  main-Booted dev tags t st j f st' h =
      let r = match_soc dev c.blobs t (say (greeting l rounds fuel c m) st) in
      let (soc, found, e) = found_some r.0 (λ soc. boot_soc l rounds fuel c m soc tags r.2) r.2 h in
      let (compatible, named, e1) = bind_some soc.compatible _ e in
      let (blob, linked, e2) = bind_some soc.fdt _ e1 in
      let (s', good, prepared, tree) =
        open_tree-jumped compatible blob tags (detected compatible r.2) j f st' e2 in
      record {
        compatible = compatible;
        blob = blob;
        s' = s';
        found = found ∙ (λ i. some (record { compatible = named i; fdt = linked i }));
        open_good = good;
        prepared = prepared;
        tree = tree;
        entry = ap (λ x. x.entry) prepared.started;
        arguments = (
          ap (λ x. x.dummy) prepared.started,
          ap (λ x. x.machid) prepared.started,
          ap (λ x. x.dtb) prepared.started,
        );
        quirks = quirks_applied (cpuid c) c.cp15 j.cp15 (ap (λ x. x.cp15) prepared.started);
      }

  boot_with_tree-custom :
      (compatible : List ℕ) (tags : ℕ) (s s1 : Machine l)
      → fdt_fixup_from_atags l rounds fuel m tags s ≡ some (pos 0, s1)
      → c.custom_dtb ≡ true
      → boot_with_tree l rounds fuel c m compatible tags s ≡ some (jump l rounds fuel c m s1)
  unfolding boot_with_tree boot_from_fex
  boot_with_tree-custom compatible tags s s1 run custom = rw (run, custom) refl

  open_tree-custom :
      (compatible : List ℕ) (blob tags : ℕ) (st : Store) (s1 : Machine l)
      → (opened blob).0 ≡ pos 0
      → fdt_fixup_from_atags l rounds fuel m tags (record { fdt = (opened blob).1; store = st })
        ≡ some (pos 0, s1)
      → c.custom_dtb ≡ true
      → open_tree l rounds fuel c m compatible blob tags st
        ≡ some (jumped (start_kernel c s1.store).0, some s1.fdt, (start_kernel c s1.store).1)
  unfolding open_tree
  open_tree-custom compatible blob tags st s1 good run custom =
      rw
        (
          good,
          boot_with_tree-custom compatible tags (record { fdt = (opened blob).1; store = st }) s1
              run custom,
        )
        refl

  -- A kernel that is started, with a tree that has what the tags say.
  pub record Starts (w : FdtView l) (chosen memory : w.Node) (apart : memory ≢ chosen)
      (tags : List Tag) (f : l.Fdt) (r : Option Result) : Type 0 where
    pub j : Jump
    pub f' : l.Fdt
    pub st' : Store
    pub run : r ≡ some (jumped j, some f', st')
    pub boot :
        boot_of l w chosen memory apart f' ≡ tags_effect tags (boot_of l w chosen memory apart f)

  -- With a custom tree, on a chip that is identified, when the heap is not at NULL, the blob opens,
  -- its tree has `/chosen` and `/memory` as different nodes, and each `fdt_setprop` that the tags
  -- ask for has space: for every list of tags, with rounds for its length, `main` starts the
  -- kernel, with a tree that has what the tags say.
  pub main-Starts :
      (dev : Device) (t : Trace) (st : Store) (chip : Chip) (w : FdtView l) (chosen memory : w.Node)
      (apart : memory ≢ chosen) (at : ℕ) (tags : List Tag)
      → c.custom_dtb ≡ true
      → 0 < st.heap_base
      → Identifies (id_of dev t) (sid_field dev (after_id dev t)) chip
      → (opened (blob_of c.blobs chip)).0 ≡ pos 0
      → HasNodes l w chosen memory apart (opened (blob_of c.blobs chip)).1
      → TagList fuel m at tags
      → length tags < rounds
      → TagsFit l tags (opened (blob_of c.blobs chip)).1
      → Starts w chosen memory apart tags
          (opened (blob_of c.blobs chip)).1
          (main l rounds fuel c m dev at t st)
  unfolding main boot_soc
  main-Starts dev t st chip w chosen memory apart at tags custom low known good nodes list enough
        fits =
      let st0 = say (greeting l rounds fuel c m) st in
      let found = match_soc_found dev c.blobs t st0 low chip known in
      let st1 = detected (compatible_of chip) (match_soc dev c.blobs t st0).2 in
      let s : Machine l = record { fdt = (opened (blob_of c.blobs chip)).1; store = st1 } in
      let d = fdt_fixup_from_atags_lem l w chosen memory apart rounds list enough s nodes fits in
      let start =
        open_tree-custom (compatible_of chip) (blob_of c.blobs chip) at st1 d.s' good d.run
          custom in
      record {
        j = (start_kernel c d.s'.store).0;
        f' = d.s'.fdt;
        st' = (start_kernel c d.s'.store).1;
        run = rw (found, main) start;
        boot = d.boot;
      }

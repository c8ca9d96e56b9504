-- ===== src/Boot/Laws.antt =====
-- When `main` of src/main.c starts the kernel, and with what.
use sunxi_babelfish.Common.{
  ℕ, ◌≡◌, ◌⊎◌, inl, inr, ◌∙◌, ap, sym, refl, Bool, true, false, List, Option, some, if◌then◌else◌,
  arith, Bool-cases, bind_some, eq_of_some,
}
use sunxi_babelfish.Common.Int.{ℤ, pos, is_zero}
use sunxi_babelfish.Memory.{Memory}
use sunxi_babelfish.Bus.{}
use sunxi_babelfish.Script.Store.{Store}
use sunxi_babelfish.Script.New.{script_new}
use sunxi_babelfish.ScriptBin.{script_decompile_bin}
use sunxi_babelfish.Libfdt.{Libfdt}
use sunxi_babelfish.Fixup.Machine.{Machine}
use sunxi_babelfish.Fixup.Atags.{fdt_fixup_from_atags}
use sunxi_babelfish.Fixup.Fex.{fdt_fixup_from_fex}
use sunxi_babelfish.Boot.{
  Config, End, stopped, jumped, Jump, script_base_address, start_kernel, apply_fex, boot_from_fex,
  boot_with_tree,
}

module _ (l : Libfdt) (rounds fuel : ℕ) (c : Config) (m : Memory) where
  -- The FEX file was put in the tree `s1`, with the result `s2`.
  pub record Translated (compatible : List ℕ) (s1 s2 : Machine l) : Type 0 where
    pub st : Store
    pub decompiled :
        script_decompile_bin fuel m script_base_address
          (script_new s1.store).0
          (script_new s1.store).1
        ≡ some (true, st)
    pub fixed :
        fdt_fixup_from_fex l fuel compatible (script_new s1.store).0 (record s1 { store = st })
        ≡ some (pos 0, s2)

  -- What the kernel is started after: the tags, and the FEX file unless the tree is a custom one.
  pub record Prepared (compatible : List ℕ) (tags : ℕ) (s : Machine l) (j : Jump) (s' : Machine l)
      : Type 0 where
    pub s1 : Machine l
    pub s2 : Machine l
    pub from_tags : fdt_fixup_from_atags l rounds fuel m tags s ≡ some (pos 0, s1)
    pub from_fex :
        ((c.custom_dtb ≡ true) × (s2 ≡ s1)) ⊎ ((c.custom_dtb ≡ false) × Translated compatible s1 s2)
    pub tree : s'.fdt ≡ s2.fdt
    pub started : j ≡ (start_kernel c s2.store).0

  pub zero_eq : (i : ℤ) → is_zero i ≡ true → i ≡ pos 0
  zero_eq i h = ground arith

  jumped_eq : {a b : Jump} → jumped a ≡ jumped b → a ≡ b
  jumped_eq h = cc

  -- A branch that does not end with `stopped` is the other one.
  going_on :
      (b : Bool) (x : Option (End × Machine l)) (z : Machine l) {j : Jump} {s' : Machine l}
      → (if b then x else some (stopped, z)) ≡ some (jumped j, s')
      → (b ≡ true) × (x ≡ some (jumped j, s'))
  going_on true x z h = (refl, h)
  going_on false x z h = absurd cc

  ended_well :
      (b : Bool) (k : Jump) (u z : Machine l) {j : Jump} {s' : Machine l}
      → ◌≡◌ {A = Option (End × Machine l)}
          (some (if b then (jumped k, u) else (stopped, z)))
          (some (jumped j, s'))
      → (b ≡ true) × (k ≡ j) × (u ≡ s')
  ended_well true k u z h =
      let e = eq_of_some h in
      (refl, jumped_eq (ap (λ (x : End × Machine l). x.0) e), ap (λ (x : End × Machine l). x.1) e)
  ended_well false k u z h = absurd cc

  apply_fex-jumped :
      (compatible : List ℕ) (script : ℕ) (s : Machine l) (j : Jump) (s' : Machine l)
      → apply_fex l rounds fuel c m compatible script s ≡ some (jumped j, s')
      → (s2 : Machine l) × (fdt_fixup_from_fex l fuel compatible script s ≡ some (pos 0, s2))
        × (s'.fdt ≡ s2.fdt)
        × (j ≡ (start_kernel c s2.store).0)
  unfolding apply_fex
  apply_fex-jumped compatible script s j s' h =
      let (r, run, e) = bind_some (fdt_fixup_from_fex l fuel compatible script s) _ h in
      let (zero, same, tree) = ended_well (is_zero r.0) _ _ _ e in
      (
        r.1,
        run ∙ ap (λ i. some (i, r.1)) (zero_eq r.0 zero),
        ap (λ (x : Machine l). x.fdt) (sym tree),
        sym same,
      )

  pick_true :
      (b : Bool) (x y : Option (End × Machine l)) {v : Option (End × Machine l)}
      → b ≡ true
      → (if b then x else y) ≡ v
      → x ≡ v
  pick_true true x y e h = h
  pick_true false x y e h = absurd cc

  pick_false :
      (b : Bool) (x y : Option (End × Machine l)) {v : Option (End × Machine l)}
      → b ≡ false
      → (if b then x else y) ≡ v
      → y ≡ v
  pick_false true x y e h = absurd cc
  pick_false false x y e h = h

  boot_from_fex-jumped :
      (compatible : List ℕ) (s1 : Machine l) (j : Jump) (s' : Machine l)
      → boot_from_fex l rounds fuel c m compatible s1 ≡ some (jumped j, s')
      → (s2 : Machine l) × (((c.custom_dtb ≡ true) × (s2 ≡ s1))
          ⊎ ((c.custom_dtb ≡ false) × Translated compatible s1 s2))
        × (s'.fdt ≡ s2.fdt)
        × (j ≡ (start_kernel c s2.store).0)
  unfolding boot_from_fex
  boot_from_fex-jumped compatible s1 j s' h = elim (Bool-cases c.custom_dtb) [
    | inl custom ↦
        let e = eq_of_some (pick_true c.custom_dtb _ _ custom h) in
        (
          s1,
          inl (custom, refl),
          ap (λ (x : End × Machine l). x.1.fdt) (sym e),
          sym (jumped_eq (ap (λ (x : End × Machine l). x.0) e)),
        )
    | inr plain ↦
        let (script, st) = script_new s1.store in
        let (r, run, e) =
          bind_some (script_decompile_bin fuel m script_base_address script st) _
            (pick_false c.custom_dtb _ _ plain h) in
        let (good, rest) =
          going_on r.0 (apply_fex l rounds fuel c m compatible script (record s1 { store = r.1 })) _
            e in
        let (s2, fixed, tree, started) =
          apply_fex-jumped compatible script (record s1 { store = r.1 }) j s' rest in
        (
          s2,
          inr (
            plain,
            record { st = r.1; decompiled = run ∙ ap (λ b. some (b, r.1)) good; fixed = fixed },
          ),
          tree,
          started,
        )
  ]

  -- The kernel is started only when the fixups from the tags and, without a custom tree, the FEX
  -- file's translation and its fixups have all succeeded, in this order, and with the tree that they made.
  pub jumped-Prepared :
      (compatible : List ℕ) (tags : ℕ) (s : Machine l) (j : Jump) (s' : Machine l)
      → boot_with_tree l rounds fuel c m compatible tags s ≡ some (jumped j, s')
      → Prepared compatible tags s j s'
  unfolding boot_with_tree
  jumped-Prepared compatible tags s j s' h =
      let (r, run, e) = bind_some (fdt_fixup_from_atags l rounds fuel m tags s) _ h in
      let (zero, rest) =
        going_on (is_zero r.0) (boot_from_fex l rounds fuel c m compatible r.1) _ e in
      let (s2, fex, tree, started) = boot_from_fex-jumped compatible r.1 j s' rest in
      record {
        s1 = r.1;
        s2 = s2;
        from_tags = run ∙ ap (λ i. some (i, r.1)) (zero_eq r.0 zero);
        from_fex = fex;
        tree = tree;
        started = started;
      }

-- ===== src/FdtTools/Phandle.antt =====
-- Why a phandle of `fdt_alloc_phandle` (src/fdt_tools.c) is new.
use mathlib.Core.Path.{subst}
use sunxi_babelfish.Common.{
  ℕ, zero, suc, ◌+◌, ◌^◌, ◌-◌, ◌≢◌, ap, ◌<◌, ◌≤◌, ◌≡◌, refl, true, false, List, [], ◌∷◌, Option,
  some, arith, eq_of_some, length, get_elem?,
}
use sunxi_babelfish.Common.Int.{ℤ, negsuc, is_neg}
use sunxi_babelfish.Libfdt.{Libfdt}
use sunxi_babelfish.FdtTools.{larger, alloc_phandle_loop, fdt_alloc_phandle}

module _ (l : Libfdt) (f : l.Fdt) where
  open l use {next_node, get_phandle}

  -- The offsets that `fdt_next_node` gives from one on, up to its error.
  pub data Chain : ℤ → List ℤ → Type 0 where
    end : {o : ℤ} → is_neg o ≡ true → Chain o []
    node : {o : ℤ} {os : List ℤ} → is_neg o ≡ false → Chain (next_node f o) os → Chain o (o ∷ os)

  record Largest (os : List ℤ) (start : ℕ) (r : Option ℕ) : Type 0 where
    phandle : ℕ
    run : r ≡ some phandle
    least : start ≤ phandle
    bounded :
        start < 2 ^ 31 - 1
        → ((i : ℕ) (o : ℤ) → get_elem? os i ≡ some o → get_phandle f o ≢ 2 ^ 31 - 1)
        → phandle < 2 ^ 31 - 1
    above :
        (i : ℕ) (o : ℤ)
        → get_elem? os i ≡ some o
        → get_phandle f o < 2 ^ 31
        → get_phandle f o ≤ phandle

  larger-start : (new start : ℕ) → start ≤ larger l new start
  larger-start new start = ground arith

  larger-new : (new start : ℕ) → new < 2 ^ 31 → new ≤ larger l new start
  larger-new new start h = ground arith

  larger-bounded :
      (new start : ℕ) → start < 2 ^ 31 - 1 → new ≢ 2 ^ 31 - 1 → larger l new start < 2 ^ 31 - 1
  larger-bounded new start b d = ground arith

  above_first :
      (o : ℤ) (os : List ℤ) (p : ℕ)
      → (get_phandle f o < 2 ^ 31 → get_phandle f o ≤ p)
      → ((i : ℕ) (o' : ℤ)
          → get_elem? os i ≡ some o'
          → get_phandle f o' < 2 ^ 31
          → get_phandle f o' ≤ p)
      → (i : ℕ) (o' : ℤ) → get_elem? (o ∷ os) i ≡ some o'
      → get_phandle f o' < 2 ^ 31
      → get_phandle f o' ≤ p
  above_first o os p here rest zero o' e small =
      let same : o ≡ o' = eq_of_some e in
      subst (λ x. get_phandle f x < 2 ^ 31 → get_phandle f x ≤ p) same here small
  above_first o os p here rest (suc i) o' e small = rest i o' e small

  alloc_phandle_loop-Largest :
      (fuel : ℕ) (start : ℕ) {o : ℤ} {os : List ℤ}
      → Chain o os
      → length os < fuel
      → Largest os start (alloc_phandle_loop l fuel f o start)
  unfolding alloc_phandle_loop
  alloc_phandle_loop-Largest zero start c h = absurd (omega arith)
  alloc_phandle_loop-Largest (suc k) start {o = o} (end e) h = record {
    phandle = start;
    run = rw e refl;
    least = omega arith;
    bounded = λ b h. b;
    above = λ i o' at small. cc;
  }
  alloc_phandle_loop-Largest (suc k) start {o = o} (node {os = os} e c) h =
      let new = get_phandle f o in
      let r = alloc_phandle_loop-Largest k (larger l new start) c (omega arith) in
      record {
        phandle = r.phandle;
        run = rw e r.run;
        least = omega (arith, larger-start new start, r.least);
        bounded =
            λ b h. r.bounded (larger-bounded new start b (h 0 o refl)) (λ i o' e. h (suc i) o' e);
        above =
            above_first o os r.phandle (λ b. omega (arith, larger-new new start b, r.least))
              r.above;
      }

  -- A phandle that no node has yet. A phandle of 2 ^ 31 or more is not counted by the code.
  pub record Allocated (os : List ℤ) (r : Option ℕ) : Type 0 where
    pub phandle : ℕ
    pub run : r ≡ some phandle
    pub positive : 0 < phandle
    pub is_int : phandle < 2 ^ 31
    pub above :
        (i : ℕ) (o : ℤ)
        → get_elem? os i ≡ some o
        → get_phandle f o < 2 ^ 31
        → get_phandle f o < phandle

  -- When the nodes of the tree are `os`, none of which has the phandle 2 ^ 31 - 1, and the fuel is more
  -- than their number, `fdt_alloc_phandle` gives a phandle that is not 0, below 2 ^ 31, and greater than
  -- every node's, of those below 2 ^ 31.
  pub fdt_alloc_phandle-Allocated :
      (fuel : ℕ) {os : List ℤ}
      → Chain (next_node f (negsuc 0)) os
      → length os < fuel
      → ((i : ℕ) (o : ℤ) → get_elem? os i ≡ some o → get_phandle f o ≢ 2 ^ 31 - 1)
      → Allocated os (fdt_alloc_phandle l fuel f)
  unfolding fdt_alloc_phandle
  fdt_alloc_phandle-Allocated fuel c h free =
      let r = alloc_phandle_loop-Largest fuel 0 c h in
      let b = r.bounded (omega arith) free in
      record {
        phandle = r.phandle + 1;
        run = rw r.run (ap some (omega (arith, b)));
        positive = omega arith;
        is_int = omega (arith, b);
        above = λ i o at small. omega (arith, r.above i o at small);
      }

-- ===== src/Script/Calls/Lifetime.antt =====
-- A whole run of a program on a script of lib/libfex/script.c, from `script_new` to `script_delete`.
use sunxi_babelfish.Common.{
  ℕ, ◌+◌, ◌^◌, ◌<◌, ◌≤◌, ◌≡◌, ◌∙◌, refl, ap, sym, List, [], ◌>>=◌, ◌==◌, false, length, arith,
  some_bind,
}
use mathlib.Core.Path.{subst}
use sunxi_babelfish.Memory.{null}
use sunxi_babelfish.Malloc.{aligned, aligned_lem}
use sunxi_babelfish.Script.Store.{Store, script_size}
use sunxi_babelfish.Script.New.{script_new}
use sunxi_babelfish.Script.Delete.{script_delete}
use sunxi_babelfish.Script.Tree.{Tree, IsTree, IsShort}
use sunxi_babelfish.Script.Tree.Grow.{HasRoom, malloc_room, script_new-IsTree}
use sunxi_babelfish.Script.Tree.Drop.{Dropped, script_delete-Dropped}
use sunxi_babelfish.Script.Calls.{Call, calls, lifetime, needed, Changes}
use sunxi_babelfish.Script.Calls.Refine.{calls-Dropped}

pub script_new-heap_base :
    (st : Store)
    → HasRoom script_size st
    → (script_new st).1.heap_base ≡ st.heap_base + aligned script_size
unfolding script_new
script_new-heap_base st room =
    let (e, ge) = malloc_room script_size st room in
    let not_null : (st.heap_base == null) ≡ false = ground arith in rw (e, not_null) refl

-- With room on the heap for a script and for the calls, a program whose calls change the tree by
-- `Changes`, from the empty one to one whose lists the fuel covers: the calls on a new script all
-- end, and the store stands for that tree; with `script_delete` behind them the run ends with an
-- empty one.
pub lifetime-Dropped :
    (fuel : ℕ) (cs : List Call) (st : Store) (us : Tree)
    → 40 < st.heap_base
    → st.heap_base + (script_size + 4 + needed cs) ≤ 2 ^ 32
    → Changes fuel (st.heap_base + aligned script_size) cs [] us
    → IsShort fuel us
    → length us < fuel
    → Dropped st.heap_base us (calls fuel st.heap_base cs (script_new st).1)
      × Dropped st.heap_base [] (lifetime fuel cs st)
unfolding lifetime
lifetime-Dropped fuel cs st us low fits changes short lt =
    let room : HasRoom script_size st = record { positive = low; fits = omega arith } in
    let (script, tree) = script_new-IsTree st room in
    let base = script_new-heap_base st room in
    let st1 = (script_new st).1 in
    let bound = aligned_lem script_size (omega arith) in
    let d =
      calls-Dropped fuel st.heap_base cs st1 (subst (λ (p : ℕ). IsTree st1 p []) script tree)
        (omega (arith, base, bound.0)) (omega (arith, base, bound.1))
        (subst (λ (p : ℕ). Changes fuel p cs [] us) (sym base) changes) in
    let e = script_delete-Dropped fuel d.st' st.heap_base us d.tree short lt in
    (
      d,
      record {
        st' = e.st';
        run =
            ap (λ (p : ℕ). calls fuel p cs st1 >>= script_delete fuel p) script
            ∙ some_bind (calls fuel st.heap_base cs st1) (script_delete fuel st.heap_base) d.run
                e.run;
        tree = e.tree;
      },
    )

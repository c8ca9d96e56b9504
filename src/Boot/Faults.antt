-- ===== src/Boot/Faults.antt =====
-- What `main` of src/main.c does with an error of libfdt in the fixups from the FEX file.
use sunxi_babelfish.Common.{ℕ, ◌-◌, ◌^◌, ◌≡◌, refl, List, [], ◌∷◌, Option, some}
use sunxi_babelfish.Memory.{Memory}
use sunxi_babelfish.Console.{str, hex}
use sunxi_babelfish.Libfdt.{Libfdt}
use sunxi_babelfish.Libfdt.Errors.{
  FdtError, code_of, failure, notfound, exists, nospace, badoffset, badpath, badphandle, badstate,
  truncated, badmagic, badversion, badstructure, badlayout, internal,
}
use sunxi_babelfish.Fixup.Machine.{Machine}
use sunxi_babelfish.Fixup.Fex.{}
use sunxi_babelfish.Fixup.Model.{Fault, from_fex-Failed}
use sunxi_babelfish.Boot.{Config, End, stopped, as_word, say, apply_fex}

-- An error as `printhex` shows it.
failure-as_word : (e : FdtError) → as_word (failure e) ≡ 2 ^ 32 - code_of e
failure-as_word notfound = refl
failure-as_word exists = refl
failure-as_word nospace = refl
failure-as_word badoffset = refl
failure-as_word badpath = refl
failure-as_word badphandle = refl
failure-as_word badstate = refl
failure-as_word truncated = refl
failure-as_word badmagic = refl
failure-as_word badversion = refl
failure-as_word badstructure = refl
failure-as_word badlayout = refl
failure-as_word internal = refl

module _ (l : Libfdt) (rounds fuel : ℕ) (c : Config) (m : Memory) where
  -- The program stops, and has printed the code of the error as a negative number of 32 bits.
  pub record Reported (e : FdtError) (s : Machine l) (r : Option (End × Machine l)) : Type 0 where
    pub fdt : l.Fdt
    pub run :
        r
        ≡ some (
          stopped,
          record {
            fdt = fdt;
            store =
                say (str "Error in fdt_fixup " ∷ hex (2 ^ 32 - code_of e) ∷ str "\n" ∷ []) s.store;
          },
        )

  -- When libfdt fails on the root's `compatible`, or on its `model` with a FEX file that names the
  -- machine and fuel for its lists, with whichever error: the kernel is not started, and the error's
  -- code is printed as a negative number of 32 bits.
  pub apply_fex-Reported :
      (e : FdtError) (compatible : List ℕ) (script : ℕ) (model : List ℕ) (s : Machine l)
      → Fault l fuel compatible script model e s
      → Reported e s (apply_fex l rounds fuel c m compatible script s)
  unfolding apply_fex
  apply_fex-Reported e compatible script model s h =
      let a = from_fex-Failed l fuel compatible script model e s h in
      record { fdt = a.fdt; run = rw (a.run, failure-as_word e) refl }

-- ===== src/Console.antt =====
-- What the program prints: a log of the calls of `putstr` and `printhex` (src/print.c), oldest
-- first, and the `assert` macro of include/assert.h, which prints and goes on.
use Prim.Native.Char.{code}
use Prim.Native.String.{String}
use sunxi_babelfish.Common.{ℕ, Bool, List, [], ◌∷◌, ◌++◌, if◌then◌else◌}

-- The bytes of an ASCII text.
abbrev pub codes : String → List ℕ
codes String.[] = []
codes (String.◌∷◌ c s) = code c ∷ codes s

pub data Printed : Type 0 where
  str : String → Printed
  text : List ℕ → Printed
  hex : ℕ → Printed

abbrev pub Log : Type 0
Log = List Printed

-- The expression, `__FILE__` and `__func__` of an assertion.
pub record Site : Type 0 where
  pub expr : String
  pub file : String
  pub func : String

-- What a failing assertion prints. `STRINGIFY(__LINE__)` does not expand its argument.
abbrev pub assertion_text : Site → Log
assertion_text s =
    str "Assertion failed! "
    ∷ str s.expr
    ∷ str ", "
    ∷ str s.file
    ∷ str ", "
    ∷ str s.func
    ∷ str ", line "
    ∷ str "__LINE__"
    ∷ str "\n"
    ∷ []

-- `assert(expr)`, given the value of the condition `!expr` that the macro tests.
unfoldable pub assert : (fires : Bool) → Site → Log → Log
assert fires s log = if fires then log ++ assertion_text s else log

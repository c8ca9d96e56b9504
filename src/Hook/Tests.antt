-- ===== src/Hook/Tests.antt =====
-- The list hooks of include/lib/libfex/common.h on a list of two.
use sunxi_babelfish.Common.{ℕ, ◌≡◌, refl, Bool, List, [], ◌∷◌, ◌++◌, some, ◌==◌, arith}
use sunxi_babelfish.Hook.{Hooks, list_init, list_append, list_remove}
use sunxi_babelfish.Hook.Ring.{IsRing}
use sunxi_babelfish.Hook.Edit.{list_init-IsRing, list_append-IsRing, list_remove-IsRing, SameOff}
use sunxi_babelfish.Hook.Walk.{find_hook, first_match, find_hook-first_match, visit, visit_lem}

abbrev blank : Hooks
blank = record { prev = λ _. 0; next = λ _. 0 }

abbrev head : Hooks
head = list_init 100 blank

abbrev single : Hooks
single = list_append 100 200 head

abbrev pair : Hooks
pair = list_append 100 300 single

abbrev one_hook : List ℕ
one_hook = 200 ∷ []

abbrev two_hooks : List ℕ
two_hooks = 200 ∷ 300 ∷ []

head-IsRing : IsRing head 100 []
head-IsRing = list_init-IsRing blank 100

single-IsRing : IsRing single 100 one_hook
single-IsRing = (list_append-IsRing head 100 200 [] head-IsRing refl).0

pair-IsRing : IsRing pair 100 two_hooks
pair-IsRing = (list_append-IsRing single 100 300 one_hook single-IsRing refl).0

list_append-IsRing_example :
    IsRing (list_append 100 300 single) 100 (one_hook ++ 300 ∷ [])
    × SameOff (300 ∷ 100 ∷ one_hook) single (list_append 100 300 single)
list_append-IsRing_example = list_append-IsRing single 100 300 one_hook single-IsRing refl

list_remove-IsRing_example :
    IsRing (list_remove 200 pair) 100 ([] ++ 300 ∷ [])
    × SameOff (100 ∷ [] ++ 200 ∷ 300 ∷ []) pair (list_remove 200 pair)
list_remove-IsRing_example = list_remove-IsRing pair 100 200 [] (300 ∷ []) pair-IsRing

abbrev is_300 : ℕ → Bool
is_300 o = o == 300

find_hook-first_match_example : find_hook 3 is_300 100 pair ≡ some (first_match is_300 two_hooks)
find_hook-first_match_example =
    find_hook-first_match 3 is_300 pair 100 two_hooks pair-IsRing refl (omega arith)

visit_lem_example : visit 3 100 pair ≡ some two_hooks
visit_lem_example = visit_lem 3 pair 100 two_hooks pair-IsRing refl (omega arith)

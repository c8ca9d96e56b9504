-- ===== src/Hook.antt =====
-- The list hooks of include/lib/libfex/common.h: circular doubly linked lists that are threaded
-- through the structures on them. A hook is an address; its two fields are maps from addresses.
mod Tests
pub mod Ring
pub mod Edit
pub mod Walk
pub mod Loop
use sunxi_babelfish.Common.{ℕ, Bool, ◌==◌, if◌then◌else◌}
use sunxi_babelfish.Memory.{null}

-- `struct list_entry` at every address.
pub record Hooks : Type 0 where
  pub prev : ℕ → ℕ
  pub next : ℕ → ℕ

abbrev pub update : (ℕ → ℕ) → ℕ → ℕ → ℕ → ℕ
update f p v q = if q == p then v else f q

-- `p->prev = v` and `p->next = v`.
abbrev pub set_prev : ℕ → ℕ → Hooks → Hooks
set_prev p v m = record m { prev = update m.prev p v }

abbrev pub set_next : ℕ → ℕ → Hooks → Hooks
set_next p v m = record m { next = update m.next p v }

unfoldable pub list_init : ℕ → Hooks → Hooks
list_init self m = set_prev self self (set_next self self m)

unfoldable pub list_inject : (l prev next : ℕ) → Hooks → Hooks
list_inject l prev next m = set_next prev l (set_prev next l (set_next l next (set_prev l prev m)))

unfoldable pub list_insert : (h e : ℕ) → Hooks → Hooks
unfolding list_inject
list_insert h e m = list_inject e h (m.next h) m

unfoldable pub list_append : (h e : ℕ) → Hooks → Hooks
unfolding list_inject
list_append h e m = list_inject e (m.prev h) h m

unfoldable pub list_remove : ℕ → Hooks → Hooks
list_remove l m =
    let prev = m.prev l in let next = m.next l in set_next prev next (set_prev next prev m)

unfoldable pub list_first : ℕ → Hooks → ℕ
list_first l m = if m.next l == l then null else m.next l

unfoldable pub list_last : ℕ → Hooks → ℕ
list_last l m = if m.prev l == l then null else m.prev l

unfoldable pub list_next : (l e : ℕ) → Hooks → ℕ
list_next l e m = if m.next e == l then null else m.next e

unfoldable pub list_empty : ℕ → Hooks → Bool
list_empty l m = m.prev l == l

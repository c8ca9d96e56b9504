-- ===== src/Script/Calls.antt =====
-- A program that uses a script through the functions that include/lib/libfex/script.h declares, and
-- what each call does to the tree.
pub mod Base
pub mod Refine
pub mod Lifetime
mod Tests
use sunxi_babelfish.Common.{
  ℕ, ◌+◌, ◌-◌, ◌^◌, ◌<◌, ◌≤◌, List, [], ◌∷◌, ◌++◌, Option, some, ◌>>=◌, pure, length, take,
}
use sunxi_babelfish.Malloc.{aligned}
use sunxi_babelfish.Script.Store.{
  Payload, single, string, gpio, null_entry, Store, section_size, null_size, single_size,
  string_size, gpio_size,
}
use sunxi_babelfish.Script.New.{
  script_new, script_section_new, script_null_entry_new, script_single_entry_new,
  script_string_entry_new, script_gpio_entry_new,
}
use sunxi_babelfish.Script.Find.{script_find_section, script_find_entry}
use sunxi_babelfish.Script.Delete.{script_section_delete, script_entry_delete, script_delete}
use sunxi_babelfish.Script.Tree.{Tree, Section, Entry}
use sunxi_babelfish.Script.Tree.Grow.{new_section}
use sunxi_babelfish.Script.Tree.Append.{new_entry, add_entry}
use sunxi_babelfish.Script.Tree.Remove.{with_entries}

-- A call on a script. A section or an entry is named by its address, and the constructors of the
-- four kinds of entries are one call, by what the entry holds.
pub data Call : Type 0 where
  section_new : (name : List ℕ) → Call
  section_delete : (section : ℕ) → Call
  find_section : (name : List ℕ) → Call
  entry_delete : (entry : ℕ) → Call
  entry_new : (section : ℕ) → (name : List ℕ) → Payload → Call
  find_entry : (section : ℕ) → (name : List ℕ) → Call

-- The constructor for what an entry holds.
unfoldable pub construct : (section : ℕ) → (name : List ℕ) → Payload → Store → ℕ × Store
construct section name null_entry st = script_null_entry_new section name st
construct section name (single value) st = script_single_entry_new section name value st
construct section name (string l s) st = script_string_entry_new section name l s st
construct section name (gpio port num a b c d) st =
    script_gpio_entry_new section name port num a b c d st

unfoldable pub call : (fuel script : ℕ) → Call → Store → Option Store
unfolding construct
call fuel script (section_new name) st = some (script_section_new script name st).1
call fuel script (section_delete section) st = script_section_delete fuel section st
call fuel script (find_section name) st = script_find_section fuel script name st >>= λ r. some r.1
call fuel script (entry_delete entry) st = some (script_entry_delete entry st)
call fuel script (entry_new section name v) st = some (construct section name v st).1
call fuel script (find_entry section name) st =
    script_find_entry fuel section name st >>= λ r. some r.1

unfoldable pub calls : (fuel script : ℕ) → List Call → Store → Option Store
unfolding call
calls fuel script [] st = some st
calls fuel script (c ∷ cs) st = call fuel script c st >>= calls fuel script cs

-- A script from `script_new` to `script_delete`.
unfoldable pub lifetime : (fuel : ℕ) → List Call → Store → Option Store
unfolding calls
lifetime fuel cs st =
    let (script, st1) = script_new st in calls fuel script cs st1 >>= script_delete fuel script

-- What an entry keeps of what it is given: of a text, `l` bytes.
abbrev pub kept : Payload → Payload
kept null_entry = null_entry
kept (single value) = single value
kept (string l s) = string l (take l s)
kept (gpio port num a b c d) = gpio port num a b c d

-- What a call takes from the heap, before it is rounded up.
abbrev pub entry_size : Payload → ℕ
entry_size null_entry = null_size
entry_size (single value) = single_size
entry_size (string l s) = string_size + l + 1
entry_size (gpio port num a b c d) = gpio_size

abbrev pub requested : Call → ℕ
requested (section_new name) = section_size
requested (section_delete section) = 0
requested (find_section name) = 0
requested (entry_delete entry) = 0
requested (entry_new section name v) = entry_size v
requested (find_entry section name) = 0

-- The change of the tree by a call, with the heap's base at `base`, and with `fuel` for the lists
-- that the call walks.
pub data Change (fuel base : ℕ) : Call → Tree → Tree → Type 0 where
  section_added :
      {ss : Tree} (name : List ℕ)
      → Change fuel base (section_new name) ss (ss ++ new_section base name ∷ [])
  section_removed :
      (ss : Tree) (s : Section) (ts : Tree)
      → length s.entries < fuel
      → Change fuel base (section_delete s.addr) (ss ++ s ∷ ts) (ss ++ ts)
  section_sought :
      {ss : Tree} (name : List ℕ) → length ss < fuel → Change fuel base (find_section name) ss ss
  entry_removed :
      (ss : Tree) (s : Section) (es : List Entry) (e : Entry) (fs : List Entry) (ts : Tree)
      → Change fuel base
          (entry_delete e.addr)
          (ss ++ with_entries s (es ++ e ∷ fs) ∷ ts)
          (ss ++ with_entries s (es ++ fs) ∷ ts)
  entry_added :
      (ss : Tree) (s : Section) (ts : Tree) (name : List ℕ) (v : Payload)
      → Change fuel base
          (entry_new s.addr name v)
          (ss ++ s ∷ ts)
          (ss ++ add_entry s (new_entry base name (kept v)) ∷ ts)
  entry_sought :
      (ss : Tree) (s : Section) (ts : Tree) (name : List ℕ)
      → length s.entries < fuel
      → Change fuel base (find_entry s.addr name) (ss ++ s ∷ ts) (ss ++ s ∷ ts)

-- A sequence of changes, each call's blocks behind those of the calls before.
pub data Changes (fuel : ℕ) : (base : ℕ) → List Call → Tree → Tree → Type 0 where
  done : {base : ℕ} {ss : Tree} → Changes fuel base [] ss ss
  after :
      {base : ℕ} {c : Call} {cs : List Call} {ss ts us : Tree}
      → Change fuel base c ss ts
      → Changes fuel (base + aligned (requested c)) cs ts us
      → Changes fuel base (c ∷ cs) ss us

-- Room enough for the calls.
abbrev pub needed : List Call → ℕ
needed [] = 0
needed (c ∷ cs) = requested c + 4 + needed cs

-- ===== src/ScriptBin/Entries.antt =====
-- `decompile_section`'s loop over the entries adds what the image says.
use sunxi_babelfish.Common.{
  ℕ, zero, suc, ◌+◌, ◌*◌, ◌^◌, ◌≤◌, ◌<◌, ◌≡◌, ◌∙◌, ap, sym, refl, Bool, true, List, [], ◌∷◌, ◌++◌,
  Option, some, none, ◌>>=◌, pure, ◌==◌, arith, take, Bool-cases, Option-cases, bind_some,
  eq_of_some, inl, inr,
}
use sunxi_babelfish.Memory.{Memory, null}
use sunxi_babelfish.Malloc.{aligned_lem}
use sunxi_babelfish.Script.Store.{
  Store, Payload, single, string, gpio, null_entry, single_size, string_size, gpio_size, null_size,
}
use sunxi_babelfish.Script.New.{
  entry_new, script_single_entry_new, script_string_entry_new, script_gpio_entry_new,
  script_null_entry_new,
}
use sunxi_babelfish.Script.Tree.{Entry, Section, Tree, IsTree}
use sunxi_babelfish.Script.Tree.Grow.{}
use sunxi_babelfish.Script.Tree.Append.{add_entry, new_entry, entry_new-IsTree}
use sunxi_babelfish.ScriptBin.Image.{
  word, read_text, seek, take-read_bytes, entry_stride, entry_kind, entry_words, entry_offset, ptr,
}
use sunxi_babelfish.ScriptBin.Parse.{
  Item, items_of, payload_at, parse_entries, value_room, items_room,
}
use mathlib.Core.Path.{subst}
use mathlib.Core.List.{append-nil, append_assoc}
use sunxi_babelfish.Script.Tree.Frame.{IsTree-log}
use sunxi_babelfish.Console.{str}
use sunxi_babelfish.Script.Store
use sunxi_babelfish.Script.Delete.{negated}
use sunxi_babelfish.ScriptBin.{check, created, decompile_entry, decompile_entries}

abbrev size_of : Payload → ℕ
size_of (single v) = single_size
size_of (string l s) = string_size + l + 1
size_of (gpio p n a b c d) = gpio_size
size_of null_entry = null_size

-- Two stores that differ in what has been printed only.
abbrev pub WithLog : Store → Store → Type 0
WithLog st st' = st' ≡ record st { log = st'.log }

-- The body of the loop: it prints only, at an unknown kind; else it makes the entry that the
-- image has, in a store that may differ in the log.
step-created :
    (fuel : ℕ) (m : Memory) (bin s entry : ℕ) (st : Store) (v : Payload) (name : List ℕ)
    → payload_at m bin entry ≡ some v
    → read_text fuel m entry ≡ some name
    → (st1 : Store) × (WithLog st st1)
      × (decompile_entry fuel m bin s entry st
          ≡ some (created (entry_new (size_of v) s name v st1)))
unfolding payload_at decompile_entry script_single_entry_new script_string_entry_new
    script_gpio_entry_new script_null_entry_new
step-created fuel m bin s entry st v name e r =
    let at_section = Store.check (s == null) "section" in
    elim (Bool-cases (entry_kind m entry == 1)) [
      | inl k ↦ (
        at_section "script_single_entry_new"
            (check (negated (entry_words m entry) == 1) "words == 1" st),
        refl,
        ground arith,
      )
      | inr k ↦ elim (Bool-cases (entry_kind m entry == 2)) [
        | inl k2 ↦
            let p = ptr bin (entry_offset m entry) in
            (
              at_section "script_string_entry_new" st,
              refl,
              ground (arith, take-read_bytes (seek (entry_words m entry * 4) m p) m p),
            )
        | inr k2 ↦ elim (Bool-cases (entry_kind m entry == 4)) [
          | inl k4 ↦ (
            at_section "script_gpio_entry_new" (
                check (word m (ptr bin (entry_offset m entry)) == 0)
                  "gpio->port > 0 && gpio->port <= GPIO_BANK_MAX"
                  (check (negated (entry_words m entry) == 6) "words == 6" st)),
            refl,
            ground arith,
          )
          | inr k4 ↦ elim (Bool-cases (entry_kind m entry == 5)) [
            | inl k5 ↦ (at_section "script_null_entry_new" st, refl, ground arith)
            | inr k5 ↦ absurd (ground arith)
          ]
        ]
      ]
    ]

-- At an unknown kind the loop prints and goes on.
step-skipped :
    (fuel : ℕ) (m : Memory) (bin s entry : ℕ) (st : Store)
    → payload_at m bin entry ≡ none
    → (st1 : Store) × (WithLog st st1) × (decompile_entry fuel m bin s entry st ≡ some (true, st1))
unfolding payload_at decompile_entry
step-skipped fuel m bin s entry st e =
    (record st { log = st.log ++ str "ERROR: Unknow section type\n" ∷ [] }, refl, ground arith)

pub log_IsTree :
    (st st1 : Store) (script : ℕ) (ss : Tree)
    → WithLog st st1
    → IsTree st script ss
    → IsTree st1 script ss
log_IsTree st st1 script ss e t =
    subst (λ x. IsTree x script ss) (sym e) (IsTree-log st st1.log script ss t)

log_base : (st st1 : Store) → WithLog st st1 → st1.heap_base ≡ st.heap_base
log_base st st1 e = ap (λ (x : Store). x.heap_base) e

-- The section with more entries at its end.
abbrev pub add_entries : Section → List Entry → Section
add_entries s es = record s { entries = s.entries ++ es }

add_entries-cons :
    (s : Section) (e : Entry) (es : List Entry)
    → add_entries (add_entry s e) es ≡ add_entries s (e ∷ es)
add_entries-cons s e es =
    ap (λ (l : List Entry). record s { entries = l }) (append_assoc s.entries (e ∷ []) es)

size_of-le : (v : Payload) → (44 ≤ size_of v) × (size_of v + 4 ≡ value_room v)
size_of-le (single v) = omega arith
size_of-le (string l s) = omega arith
size_of-le (gpio p n a b c d) = omega arith
size_of-le null_entry = omega arith

-- What the loop comes to: it goes through, and the entries that it adds are the items.
pub record Added (script : ℕ) (ss : Tree) (s : Section) (st : Store) (items : List Item)
    (r : Option (Bool × Store)) : Type 0 where
  pub st' : Store
  pub es : List Entry
  pub run : r ≡ some (true, st')
  pub tree : IsTree st' script (ss ++ add_entries s es ∷ [])
  pub items_eq : items_of es ≡ items
  pub base : (st.heap_base ≤ st'.heap_base) × (st'.heap_base ≤ st.heap_base + items_room items)

parse_entries-none :
    (fuel : ℕ) (m : Memory) (bin i entry : ℕ)
    → payload_at m bin entry ≡ none
    → parse_entries fuel m bin (suc i) entry ≡ parse_entries fuel m bin i (entry + entry_stride)
unfolding parse_entries
parse_entries-none fuel m bin i entry h = rw (h, parse_entries)

-- What it takes for an entry of a known kind to be read.
parse_entries-some :
    (fuel : ℕ) (m : Memory) (bin i entry : ℕ) (v : Payload) (items : List Item)
    → payload_at m bin entry ≡ some v
    → parse_entries fuel m bin (suc i) entry ≡ some items
    → (name : List ℕ) × (rest : List Item) × (read_text fuel m entry ≡ some name)
      × (parse_entries fuel m bin i (entry + entry_stride) ≡ some rest)
      × (items ≡ (take 31 name, v) ∷ rest)
unfolding parse_entries
parse_entries-some fuel m bin i entry v items h e =
    let (name, read, e1) =
      bind_some (read_text fuel m entry)
        (λ n. parse_entries fuel m bin i (entry + entry_stride) >>= λ r. pure ((take 31 n, v) ∷ r))
        (rw (h, parse_entries) at e) in
    let (rest, parsed, e2) =
      bind_some (parse_entries fuel m bin i (entry + entry_stride))
        (λ r. pure ((take 31 name, v) ∷ r)) e1 in
    (name, rest, read, parsed, sym (eq_of_some e2))

-- A round that goes on.
decompile_entries-step :
    (fuel : ℕ) (m : Memory) (bin s i entry : ℕ) (st st1 : Store)
    → decompile_entry fuel m bin s entry st ≡ some (true, st1)
    → decompile_entries fuel m bin s (suc i) entry st
      ≡ decompile_entries fuel m bin s i (entry + entry_stride) st1
unfolding decompile_entries
decompile_entries-step fuel m bin s i entry st st1 h = rw (h, decompile_entries)

module _ (script : ℕ) (ss : Tree) (s : Section) (st1 : Store) (v : Payload) (name : List ℕ)
    (t : IsTree st1 script (ss ++ s ∷ [])) (low : 40 < st1.heap_base)
    (fits : st1.heap_base + value_room v ≤ 2 ^ 32) where
  -- The entry that was made, and the store after it.
  abbrev made : ℕ × Store
  made = entry_new (size_of v) s.addr name v st1

  made_lem :
      (created made ≡ (true, made.1))
      × IsTree made.1 script (ss ++ add_entry s (new_entry made.0 name v) ∷ [])
      × (st1.heap_base ≤ made.1.heap_base)
      × (made.1.heap_base ≤ st1.heap_base + value_room v)
  made_lem =
      let (big, size) = size_of-le v in
      let (ge, lt, whole) = aligned_lem (size_of v) (omega arith) in
      let (at, base, tree) =
        entry_new-IsTree st1 script (size_of v) name v ss s [] t big
          (record { positive = low; fits = omega arith }) in
      (ground (arith, at), tree, omega (arith, base), omega (arith, base))

pub decompile_entries-Added :
    (fuel : ℕ) (m : Memory) (bin i entry script : ℕ) (st : Store) (ss : Tree) (s : Section)
    (items : List Item)
    → IsTree st script (ss ++ s ∷ [])
    → parse_entries fuel m bin i entry ≡ some items
    → 40 < st.heap_base
    → st.heap_base + items_room items ≤ 2 ^ 32
    → Added script ss s st items (decompile_entries fuel m bin s.addr i entry st)
unfolding parse_entries decompile_entries
decompile_entries-Added fuel m bin zero entry script st ss s items t e low fits = record {
  st' = st;
  es = [];
  run = refl;
  tree =
      subst (λ (l : List Entry). IsTree st script (ss ++ record s { entries = l } ∷ []))
        (sym (append-nil s.entries)) t;
  items_eq = eq_of_some e;
  base = omega arith;
}
decompile_entries-Added fuel m bin (suc i) entry script st ss s items t e low fits =
    elim (Option-cases (payload_at m bin entry)) [
      | inl skipped ↦
          let (st1, l, run) = step-skipped fuel m bin s.addr entry st skipped in
          let b = log_base st st1 l in
          let r =
            decompile_entries-Added fuel m bin i (entry + entry_stride) script st1 ss s items
              (log_IsTree st st1 script (ss ++ s ∷ []) l t)
              (sym (parse_entries-none fuel m bin i entry skipped) ∙ e) (omega arith)
              (omega arith) in
          record {
            st' = r.st';
            es = r.es;
            run = decompile_entries-step fuel m bin s.addr i entry st st1 run ∙ r.run;
            tree = r.tree;
            items_eq = r.items_eq;
            base = omega (arith, r.base);
          }
      | inr (v, known) ↦
          let (name, rest, read, parsed, eq) =
            parse_entries-some fuel m bin i entry v items known e in
          let (st1, l, run) = step-created fuel m bin s.addr entry st v name known read in
          let b = log_base st st1 l in
          let room : items_room items ≡ value_room v + items_room rest = ap items_room eq in
          let t1 = log_IsTree st st1 script (ss ++ s ∷ []) l t in
          let low1 : 40 < st1.heap_base = omega arith in
          let fits1 : st1.heap_base + value_room v ≤ 2 ^ 32 = omega arith in
          let new = made script ss s st1 v name t1 low1 fits1 in
          let (goes_on, tree, ge, le) = made_lem script ss s st1 v name t1 low1 fits1 in
          let added = new_entry new.0 name v in
          let r =
            decompile_entries-Added fuel m bin i (entry + entry_stride) script new.1 ss
              (add_entry s added) rest tree parsed (omega arith) (omega arith) in
          record {
            st' = r.st';
            es = added ∷ r.es;
            run =
                decompile_entries-step fuel m bin s.addr i entry st new.1 (run ∙ ap some goes_on)
                ∙ r.run;
            tree =
                subst (λ (x : Section). IsTree r.st' script (ss ++ x ∷ []))
                  (add_entries-cons s added r.es) r.tree;
            items_eq = ap (λ l. (take 31 name, v) ∷ l) r.items_eq ∙ sym eq;
            base = omega (arith, r.base);
          }
    ]

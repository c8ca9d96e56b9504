-- ===== src/Fixup/Tests.antt =====
-- The tags of a small machine on a small tree.
use sunxi_babelfish.Common.{
  inr, ℕ, ◌-◌, ◌≡◌, refl, ◌&&◌, List, [], ◌∷◌, ◌++◌, some, none, ◌==◌, if◌then◌else◌, arith, get_or,
}
use mathlib.Core.Path.{}
use sunxi_babelfish.Common.Int.{pos}
use sunxi_babelfish.Memory.{Memory}
use sunxi_babelfish.Console.{codes}
use sunxi_babelfish.Libfdt.{cell}
use sunxi_babelfish.Libfdt.Small.{same_text, small, view}
use sunxi_babelfish.Libfdt.Laws.{}
use sunxi_babelfish.Script.Store.{null_entry}
use sunxi_babelfish.ScriptBin.Image.{word, read_text}
use sunxi_babelfish.Fixup.Machine.{Machine}
use sunxi_babelfish.Fixup.Atags.{Tag, mem, cmdline, tag_at, fdt_fixup_from_atags}
use sunxi_babelfish.Fixup.Tags.{TagList, last, next, Decided, fdt_fixup_from_atags_lem}
use sunxi_babelfish.Fixup.Banks.{from_atags_last_bank}
use sunxi_babelfish.ScriptBin.Parse.{}

-- `/chosen` has the arguments "quiet".
abbrev start : Machine small
start = record {
  fdt = λ m j.
      if (m == 4) && same_text j (codes "bootargs") then some (codes "quiet" ++ 0 ∷ []) else none;
  store = record {
    hooks = record { prev = λ _. 0; next = λ _. 0 };
    heap_base = 4096;
    section_name = λ _. [];
    entry_name = λ _. [];
    entry_type = λ _. 0;
    payload = λ _. null_entry;
    log = [];
  };
}

-- A bank of 64 MB at 0x40000000, a command line, and the end.
abbrev bytes : List ℕ
bytes =
    (4 ∷ 0 ∷ 0 ∷ 0 ∷ 2 ∷ 0 ∷ 0x41 ∷ 0x54 ∷ 0 ∷ 0 ∷ 0 ∷ 4 ∷ 0 ∷ 0 ∷ 0 ∷ 0x40 ∷ [])
    ++ (4 ∷ 0 ∷ 0 ∷ 0 ∷ 9 ∷ 0 ∷ 0x41 ∷ 0x54 ∷ [])
    ++ (codes "debug" ++ 0 ∷ [])

abbrev tags_at : ℕ
tags_at = 256

abbrev memory : Memory
memory a = get_or bytes (a - tags_at) 0

abbrev tags : List Tag
tags = mem 0x04000000 0x40000000 ∷ cmdline (codes "debug") ∷ []

tags-TagList : TagList 10 memory tags_at tags
unfolding tag_at word read_text
tags-TagList = next refl refl (next refl refl (last refl))

fdt_fixup_from_atags_lem_example :
    Decided small view 4 8
      (λ e. omega arith)
      tags
      start
      (fdt_fixup_from_atags small 3 10 memory tags_at start)
fdt_fixup_from_atags_lem_example =
    fdt_fixup_from_atags_lem small view 4 8 (λ e. omega arith) 3 tags-TagList (omega arith) start
      (record { chosen = refl; memory = refl }) (inr refl, (refl, tt))

-- Two banks, of which the second is kept.
abbrev two_banks : List ℕ
two_banks =
    (4 ∷ 0 ∷ 0 ∷ 0 ∷ 2 ∷ 0 ∷ 0x41 ∷ 0x54 ∷ 0 ∷ 0 ∷ 0 ∷ 4 ∷ 0 ∷ 0 ∷ 0 ∷ 0x40 ∷ [])
    ++ (4 ∷ 0 ∷ 0 ∷ 0 ∷ 2 ∷ 0 ∷ 0x41 ∷ 0x54 ∷ 0 ∷ 0 ∷ 0 ∷ 4 ∷ 0 ∷ 0 ∷ 0 ∷ 0x60 ∷ [])

abbrev banks_memory : Memory
banks_memory a = get_or two_banks (a - tags_at) 0

abbrev first_bank : List Tag
first_bank = mem 0x04000000 0x40000000 ∷ []

banks-TagList : TagList 1 banks_memory tags_at (first_bank ++ mem 0x04000000 0x60000000 ∷ [])
unfolding tag_at word
banks-TagList = next refl refl (next refl refl (last refl))

from_atags_last_bank_example :
    (s' : Machine small) × (fdt_fixup_from_atags small 3 1 banks_memory tags_at start
      ≡ some (pos 0, s'))
    × (view.prop s'.fdt 8 (codes "reg") ≡ some (cell 0x60000000 ++ cell 0x04000000))
from_atags_last_bank_example =
    from_atags_last_bank small view 4 8 (λ e. omega arith) 3 first_bank [] 0x04000000 0x60000000
      banks-TagList (λ e. omega arith) tt (omega arith) start
      (record { chosen = refl; memory = refl }) (inr refl, (inr refl, tt))
